-- ===== src/Spend/Consolidate.antt =====
-- Merging the smallest coins into one (src/core/node.ts `consolidate`, `consolidatePreview`).
pub mod Safe
use cairn_wallet.Base.{
  ℕ, zero, suc, ◌+◌, ◌-◌, Bool, true, false, ◌||◌, not, Option, none, some, List, [], ◌∷◌, length,
  take, min, ltb, leb, if◌then◌else◌,
}
use cairn_wallet.Base.Text.{Text}
use cairn_wallet.Base.Maybe.{◌>>=◌}
use cairn_wallet.Js.{Num, is_safe, is_positive, max_safe}
use cairn_wallet.Codec
use cairn_wallet.Codec.{Crypto}
use cairn_wallet.Spend.Errors.{
  insufficient, verify_tamper, verify_unavailable, bad_fee, fee_cap, nothing_to_consolidate,
}
use cairn_wallet.Spend.Coins.{Outpoint, Utxo, Coin, Selector, max_tx_inputs, spendable_coins}
use cairn_wallet.Spend.Verify.{
  TxReply, VerifyResult, verified, tampered, unreachable, beyond_horizon, unrepresented,
  ghosts_only, verify_input_values,
}
use cairn_wallet.Spend.Session.{Caches, ghost, horizon, unrep}
use cairn_wallet.Spend.Select.{Round, max_select_rounds, skip_coins, first_round}
use cairn_wallet.Spend.Submit.{Signer, Outcome, refuse, addr_from_priv, sign_and_submit}
use cairn_wallet.Spend.Outputs.{amount}
use cairn_wallet.Spend.Assemble.{World, max_fee, proportional_fee_cap, unsigned_tx, with_inputs}

-- `.sort((a, b) => a.value - b.value)`, which is stable
insert_coin : Coin → List Coin → List Coin
insert_coin c [] = c ∷ []
insert_coin c (d ∷ ds) =
    let rest = insert_coin c ds in if leb c.value d.value then c ∷ d ∷ ds else d ∷ rest

unfoldable pub sort_coins : List Coin → List Coin
unfolding insert_coin
sort_coins [] = []
sort_coins (c ∷ cs) = insert_coin c (sort_coins cs)

-- The answer of a merge: the outcome, and the counts and the total beside it.
pub record Merge : Type 0 where
  pub outcome : Outcome
  pub merged : ℕ
  pub remaining : ℕ
  pub total : ℕ

abbrev pub no_merge : Outcome → Option Merge
no_merge o = some (record { outcome = o; merged = 0; remaining = 0; total = 0 })

module _ (crypto : Crypto) (sel : Selector) (signer : Signer) (world : World) (utxos : List Utxo)
    (fee : ℕ) (priv : Text) where
  -- The steps behind a pool worth `total`.
  unfoldable pub merge_pool : List Coin → ℕ → (spendable : ℕ) → Option Merge
  merge_pool pool total spendable =
      if not (ltb 0 (total - fee))
      then no_merge (refuse insufficient)
      else if ltb (proportional_fee_cap world total) fee
      then no_merge (refuse fee_cap)
      else sign_and_submit crypto signer world.answer
          (unsigned_tx pool
            (record { value = total - fee; script_pubkey = addr_from_priv crypto signer priv } ∷ [])
            Codec.App.no_app)
          priv
        >>= λ o. some (record {
          outcome = record o { result = with_inputs pool o.result };
          merged = length pool;
          remaining = spendable - length pool;
          total = total;
        })

  -- What a round does with the answer of `verifyInputValues`; `rest` is the loop from the state it is given.
  unfoldable pub settle_merge :
      List Coin → VerifyResult → Round → (Round → Option Merge × Round) → Option Merge × Round
  unfolding merge_pool
  settle_merge pool (verified total) r rest =
      (merge_pool pool total (length (spendable_coins sel utxos r.exclude)), r)
  settle_merge pool tampered r rest = (no_merge (refuse verify_tamper), r)
  settle_merge pool unreachable r rest = (no_merge (refuse verify_unavailable), r)
  settle_merge pool (beyond_horizon hs gs) r rest =
      rest (skip_coins ghost world.now gs (skip_coins horizon world.now hs r))
  settle_merge pool (unrepresented us gs) r rest =
      rest (skip_coins ghost world.now gs (skip_coins unrep world.now us r))
  settle_merge pool (ghosts_only gs) r rest = rest (skip_coins ghost world.now gs r)

  -- the smallest spendable coins, at most 512
  unfoldable pub pool_of : List Outpoint → List Coin
  unfolding sort_coins
  pool_of exclude = take max_tx_inputs (sort_coins (spendable_coins sel utxos exclude))

  unfoldable pub merge_rounds : ℕ → Round → Option Merge × Round
  unfolding settle_merge pool_of
  merge_rounds zero r = (no_merge (refuse verify_unavailable), r)
  merge_rounds (suc n) r =
      let pool = pool_of r.exclude in
      let (ver, known) = verify_input_values crypto (world.ask n) pool r.known in
      if ltb (length pool) 2
      then (no_merge (refuse nothing_to_consolidate), r)
      else settle_merge pool ver (record r { known = known }) (merge_rounds n)

module _ (crypto : Crypto) (sel : Selector) (signer : Signer) (world : World) where
  merge_listed : Option (List Utxo) → ℕ → Text → Option Merge × Caches
  merge_listed none fee priv = (no_merge (refuse verify_unavailable), world.caches)
  merge_listed (some utxos) fee priv =
      let (m, r) =
        merge_rounds crypto sel signer world utxos fee priv max_select_rounds
          (first_round world.now utxos world.caches []) in
      (m, r.caches)

  -- The merge, `none` where the codec throws, and the session caches after it.
  unfoldable pub consolidate : (fee : Num) (priv : Text) → Option Merge × Caches
  unfolding merge_rounds merge_listed amount
  consolidate fee priv =
      if not (is_safe fee) || not (is_positive fee)
      then (no_merge (refuse bad_fee), world.caches)
      else if ltb max_fee (amount fee)
      then (no_merge (refuse fee_cap), world.caches)
      else merge_listed world.utxos (amount fee) priv

pub record Preview : Type 0 where
  pub coins : ℕ
  pub merge : ℕ
  pub total : ℕ
  pub out : ℕ

-- The reported total of the coins to merge, `none` once it leaves the safe integers.
unfoldable pub reported_total : ℕ → List Coin → Option ℕ
reported_total acc [] = some acc
reported_total acc (c ∷ cs) =
    let rest = reported_total (acc + c.value) cs in
    if leb (acc + c.value) max_safe then rest else none

-- `none`: not ok
unfoldable pub consolidate_preview : Selector → Option (List Utxo) → (fee : ℕ) → Option Preview
unfolding sort_coins reported_total
consolidate_preview sel none fee = none
consolidate_preview sel (some utxos) fee =
    let pool = sort_coins (spendable_coins sel utxos []) in
    let merge = min (length pool) max_tx_inputs in
    reported_total 0 (take merge pool) >>= λ total.
    some (record { coins = length pool; merge = merge; total = total; out = total - fee })
