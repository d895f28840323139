-- ===== src/Spend/Coins.antt =====
-- Outpoints and coins as the node Reports them (src/core/node.ts `opKey`, `spendableCoins`, `SelectedInput`). The coin
-- selection itself is the vendored `selectInputs`: the field `select` of `Selector`, with what the wallet relies on.
use cairn_wallet.Base.{
  ℕ, ◌≤◌, ◌≡◌, refl, inl, inr, arith, Bool-cases, Option-cases, Bool, false, Option, none, some,
  List, [], ◌∷◌, length, All, if◌then◌else◌,
}
use cairn_wallet.Base.Text.{Text, lower}
use cairn_wallet.Base.Eq.{nat_eq, text_key, pair_eq, has, add}
use cairn_wallet.Codec.{strip}

-- An outpoint, with the transaction id as `opKey` spells it. The code joins the two by a colon, which no id contains.
abbrev pub Outpoint : Type 0
Outpoint = Text × ℕ

-- One element of `/utxos`. All of it is the node's claim.
pub record Utxo : Type 0 where
  pub txid : Text
  pub vout : ℕ
  pub value : ℕ
  pub confirmations : ℕ
  pub is_coinbase : Bool

-- `SelectedInput`
pub record Coin : Type 0 where
  pub txid : Text
  pub vout : ℕ
  pub value : ℕ

unfoldable pub op_key : Text → ℕ → Outpoint
op_key txid vout = (strip (lower txid), vout)

abbrev pub coin_key : Coin → Outpoint
coin_key c = op_key c.txid c.vout

abbrev pub max_tx_inputs : ℕ
max_tx_inputs = 512

-- `selectInputs(utxos, need, exclude)`: the inputs of the selection, `none` where it returns null.
pub record Selector : Type 0 where
  pub select : List Utxo → ℕ → List Outpoint → Option (List Coin)
  pub select_not_excluded :
      (us : List Utxo) (need : ℕ) (ex : List Outpoint) (ins : List Coin)
      → select us need ex ≡ some ins
      → All (λ (c : Coin). has (coin_key c) ex ≡ false) ins
  pub select_at_most_max :
      (us : List Utxo) (need : ℕ) (ex : List Outpoint) (ins : List Coin)
      → select us need ex ≡ some ins
      → length ins ≤ max_tx_inputs

-- `selectInputs([x], 1, exclude)?.inputs[0]`
abbrev pub first_input : Option (List Coin) → Option Coin
first_input none = none
first_input (some []) = none
first_input (some (c ∷ cs)) = some c

module _ (sel : Selector) where
  -- The loop of `spendableCoins` from the state (`seen`, `out`).
  spendable_from : List Outpoint → List Outpoint → List Utxo → List Coin
  spendable_from exclude seen [] = []
  spendable_from exclude seen (x ∷ us) =
      let key = op_key x.txid x.vout in
      let skip = spendable_from exclude seen us in
      let took = spendable_from exclude (add key seen) us in
      if has key seen
      then skip
      else elim (first_input (sel.select (x ∷ []) 1 exclude)) [ none ↦ skip | some c ↦ c ∷ took ]

  -- `spendableCoins(utxos, exclude)`
  unfoldable pub spendable_coins : List Utxo → List Outpoint → List Coin
  unfolding spendable_from
  spendable_coins us exclude = spendable_from exclude [] us

  first_not_excluded :
      (o : Option (List Coin)) (ex : List Outpoint)
      → ((ins : List Coin) → o ≡ some ins → All (λ (c : Coin). has (coin_key c) ex ≡ false) ins)
      → (c : Coin) → first_input o ≡ some c
      → has (coin_key c) ex ≡ false
  first_not_excluded none ex h c e = absurd (cc)
  first_not_excluded (some []) ex h c e = absurd (cc)
  first_not_excluded (some (d ∷ ds)) ex h c e = ground (arith, (h (d ∷ ds) refl).0)

  spendable_from-not_excluded :
      (ex seen : List Outpoint) (us : List Utxo)
      → All (λ (c : Coin). has (coin_key c) ex ≡ false) (spendable_from ex seen us)
  unfolding spendable_from
  spendable_from-not_excluded ex seen [] = tt
  spendable_from-not_excluded ex seen (x ∷ us) =
      elim (Bool-cases (has (op_key x.txid x.vout) seen)) [
        | inl e ↦ rw e (spendable_from-not_excluded ex seen us)
        | inr e ↦ rw e (elim (Option-cases (first_input (sel.select (x ∷ []) 1 ex))) [
          | inl f ↦ rw f (spendable_from-not_excluded ex seen us)
          | inr (c, f) ↦ rw f (
            first_not_excluded _ ex (sel.select_not_excluded (x ∷ []) 1 ex) c f,
            spendable_from-not_excluded ex (add (op_key x.txid x.vout) seen) us,
          )
        ])
      ]

  -- No coin that the caller excluded comes out.
  pub spendable_coins-not_excluded :
      (us : List Utxo) (ex : List Outpoint)
      → All (λ (c : Coin). has (coin_key c) ex ≡ false) (spendable_coins us ex)
  unfolding spendable_coins
  spendable_coins-not_excluded us ex = spendable_from-not_excluded ex [] us
