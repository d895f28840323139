-- ===== src/Spend/MaxSend.antt =====
-- The most that one send can pay (src/core/node.ts `maxSendable`): a first pass finds the figure, a second repeats the
-- selection of a send with that figure.
pub mod Funded
use cairn_wallet.Base.{
  ℕ, ◌+◌, ◌-◌, ◌≤◌, ◌<◌, ◌≡◌, refl, inl, inr, Bool, true, false, ◌&&◌, ◌||◌, not, Option, none,
  some, List, [], ◌∷◌, length, take, keep, ltb, leb, ◌==◌, arith, Bool-cases, if◌then◌else◌,
}
use cairn_wallet.Base.Eq.{nat_eq, text_key, pair_eq, has}
use cairn_wallet.Js.{Num, nat, is_safe, is_positive, max_safe}
use cairn_wallet.Codec.{Crypto}
use cairn_wallet.Spend.Errors.{Code, insufficient, bad_fee, fee_cap}
use cairn_wallet.Spend.Coins.{
  Outpoint, Utxo, Coin, coin_key, Selector, max_tx_inputs, spendable_coins,
}
use cairn_wallet.Spend.Verify.Sound.{IsVerified}
use cairn_wallet.Spend.Session.{Caches, session_exclusions}
use cairn_wallet.Spend.Select.{Round, Selection, selected, refused, select_verified}
use cairn_wallet.Spend.Select.Sound.{IsFunded, select_verified-IsFunded}
use cairn_wallet.Spend.Outputs.{amount}
use cairn_wallet.Spend.Outputs.Sum.{positive_safe}
use cairn_wallet.Spend.Assemble.{World, max_fee, proportional_fee_cap}

-- `.sort((a, b) => b.value - a.value)`, which is stable
insert_largest : Coin → List Coin → List Coin
insert_largest c [] = c ∷ []
insert_largest c (d ∷ ds) =
    let rest = insert_largest c ds in if leb d.value c.value then c ∷ d ∷ ds else d ∷ rest

sort_largest : List Coin → List Coin
unfolding insert_largest
sort_largest [] = []
sort_largest (c ∷ cs) = insert_largest c (sort_largest cs)

sum_coins : List Coin → ℕ
sum_coins [] = 0
sum_coins (c ∷ cs) = c.value + sum_coins cs

pub data MaxSend : Type 0 where
  max_ok : (amount inputs eligible skipped : ℕ) (capped : Bool) → MaxSend
  max_refused : Code → MaxSend

is_insufficient : Code → Bool
is_insufficient insufficient = true
is_insufficient _ = false

module _ (sel : Selector) (utxos : List Utxo) (exclude : List Outpoint) where
  -- the reported total of the largest coins that may be selected
  target_of : ℕ
  unfolding sort_largest sum_coins
  target_of = sum_coins (take max_tx_inputs (sort_largest (spendable_coins sel utxos exclude)))

  -- the target that the first pass selects for
  aimed_of : ℕ
  unfolding target_of
  aimed_of = if ltb 0 target_of then target_of else 1

  eligible_of : ℕ
  eligible_of = length (spendable_coins sel utxos exclude)

  skipped_of : ℕ
  skipped_of = length (keep (λ (c : Coin). has (coin_key c) exclude) (spendable_coins sel utxos []))

module _ (crypto : Crypto) (sel : Selector) (world : World) where
  -- The answer of the second pass, at the figure `target`.
  max_confirmed : (target fee eligible skipped : ℕ) → Selection → MaxSend
  max_confirmed target fee eligible skipped (refused code) = max_refused code
  max_confirmed target fee eligible skipped (selected ins total) =
      if ltb (proportional_fee_cap world total) fee
      then max_refused fee_cap
      else max_ok (target - fee) (length ins) eligible skipped (ltb max_tx_inputs eligible)

  -- Behind the first pass: `target`, `eligible` and `skipped` are what its last round saw.
  max_found : List Utxo → (target fee eligible skipped : ℕ) → Selection → Round → MaxSend × Caches
  unfolding max_confirmed is_insufficient
  max_found utxos target fee eligible skipped (refused code) r =
      if eligible == 0 && (skipped == 0 && is_insufficient code)
      then (max_ok 0 0 0 0 false, r.caches)
      else (max_refused code, r.caches)
  max_found utxos target fee eligible skipped (selected ins total) r =
      let (second, r2) =
        select_verified crypto sel world.now (some utxos) (λ _ _ _. target) world.ask r.caches
          r.known in
      if leb target fee
      then (max_ok 0 0 eligible skipped false, r.caches)
      else (max_confirmed target fee eligible skipped second, r2.caches)

  max_listed : Option (List Utxo) → (fee : ℕ) → MaxSend × Caches
  unfolding max_found target_of aimed_of eligible_of skipped_of
  max_listed none fee =
      let (first, r) =
        select_verified crypto sel world.now none (λ us _ ex. aimed_of sel us ex) world.ask
          world.caches [] in
      max_found [] 0 fee 0 0 first r
  max_listed (some utxos) fee =
      let (first, r) =
        select_verified crypto sel world.now (some utxos) (λ us _ ex. aimed_of sel us ex) world.ask
          world.caches [] in
      max_found utxos (target_of sel utxos r.asked_exclude) fee
        (eligible_of sel utxos r.asked_exclude) (skipped_of sel utxos r.asked_exclude) first r

  -- `maxSendable`: the node's coin list is read once in the model, for both passes.
  unfoldable pub max_sendable : (fee : Num) → MaxSend × Caches
  unfolding max_listed amount
  max_sendable fee =
      if not (is_safe fee) || not (is_positive fee)
      then (max_refused bad_fee, world.caches)
      else if ltb max_fee (amount fee)
      then (max_refused fee_cap, world.caches)
      else max_listed world.utxos (amount fee)
