-- ===== src/Spend/MaxSend/Funded.antt =====
-- The figure that Max offers can be paid (src/core/node.ts `maxSendable`).
use cairn_wallet.Base.{
  ℕ, ◌+◌, ◌≤◌, ◌<◌, ◌≡◌, refl, subst, inl, inr, Bool, true, false, ◌||◌, not, Option, none, some,
  List, [], length, ltb, leb, arith, Bool-cases,
}
use cairn_wallet.Js.{Num, is_safe, is_positive}
use cairn_wallet.Codec.{Crypto}
use cairn_wallet.Spend.Coins.{Utxo, Coin, Selector}
use cairn_wallet.Spend.Verify.Sound.{IsVerified, IsVerified-nil}
use cairn_wallet.Spend.Session.{Caches, session_exclusions}
use cairn_wallet.Spend.Select.{Round, Selection, selected, refused, select_verified}
use cairn_wallet.Spend.Select.Sound.{IsFunded, select_verified-IsFunded, select_verified-IsVerified}
use cairn_wallet.Spend.Outputs.{amount}
use cairn_wallet.Spend.Assemble.{World, max_fee, proportional_fee_cap}
use cairn_wallet.Spend.MaxSend.{
  max_ok, max_confirmed, max_found, max_listed, max_sendable, aimed_of, target_of, eligible_of,
  skipped_of,
}

module _ (crypto : Crypto) (sel : Selector) (world : World) where
  -- Coins proven on the chain and excluded by no session cache of the second pass pay `amount` and the fee.
  pub record IsPaid (amount fee inputs : ℕ) : Type 0 where
    pub caches : Caches
    pub ins : List Coin
    pub total : ℕ
    pub funded : IsFunded crypto (session_exclusions world.now caches).1 (amount + fee) ins total
    pub counted : inputs ≡ length ins
    pub fee_proportionate : fee ≤ proportional_fee_cap world total

  zero_amount :
      (a i e s : ℕ) (c : Bool) {x y z : ℕ} → max_ok 0 x y z false ≡ max_ok a i e s c → 0 < a → ⊥
  zero_amount a i e s c h p = ground arith

  max_confirmed-IsPaid :
      (target fee eligible skipped : ℕ) (x : Selection) (caches : Caches) (a i e s : ℕ) (c : Bool)
      → fee ≤ target
      → ((ins : List Coin) (total : ℕ)
          → x ≡ selected ins total
          → IsFunded crypto (session_exclusions world.now caches).1 target ins total)
      → max_confirmed crypto sel world target fee eligible skipped x ≡ max_ok a i e s c
      → IsPaid a fee i
  unfolding max_confirmed
  max_confirmed-IsPaid target fee eligible skipped (refused code) caches a i e s c le f h =
      absurd (cc)
  max_confirmed-IsPaid target fee eligible skipped (selected ins total) caches a i e s c le f h =
      elim (Bool-cases (ltb (proportional_fee_cap world total) fee)) [
        | inl q ↦ absurd (ground arith)
        | inr q ↦ record {
          caches = caches;
          ins = ins;
          total = total;
          funded =
              subst (λ (n : ℕ). IsFunded crypto (session_exclusions world.now caches).1 n ins total)
                (ground arith) (f ins total refl);
          counted = ground arith;
          fee_proportionate = ground arith;
        }
      ]

  max_found-IsPaid :
      (utxos : List Utxo) (target fee eligible skipped : ℕ) (x : Selection) (r : Round)
      (a i e s : ℕ) (c : Bool)
      → IsVerified crypto r.known
      → 0 < a
      → (max_found crypto sel world utxos target fee eligible skipped x r).0 ≡ max_ok a i e s c
      → IsPaid a fee i
  unfolding max_found
  max_found-IsPaid utxos target fee eligible skipped (refused code) r a i e s c v pos h =
      absurd (ground arith)
  max_found-IsPaid utxos target fee eligible skipped (selected ins total) r a i e s c v pos h =
      elim (Bool-cases (leb target fee)) [
        | inl q ↦ absurd (zero_amount a i e s c (rw q at h) pos)
        | inr q ↦
            max_confirmed-IsPaid target fee eligible skipped
              (select_verified crypto sel world.now (some utxos) (λ _ _ _. target) world.ask
                r.caches r.known).0
              r.caches a i e s c (ground arith)
              (λ ins2 total2 g.
                let (f, n) =
                  select_verified-IsFunded crypto sel world.now utxos (λ _ _ _. target) world.ask
                    r.caches r.known ins2 total2 v g in
                subst
                  (λ (n : ℕ).
                    IsFunded crypto (session_exclusions world.now r.caches).1 n ins2 total2)
                  n f)
              (rw q at h)
      ]

  max_listed-IsPaid :
      (us : Option (List Utxo)) (fee : ℕ) (a i e s : ℕ) (c : Bool)
      → 0 < a
      → (max_listed crypto sel world us fee).0 ≡ max_ok a i e s c
      → IsPaid a fee i
  unfolding max_listed
  max_listed-IsPaid none fee a i e s c pos h =
      let run =
        select_verified crypto sel world.now none (λ us _ ex. aimed_of sel us ex) world.ask
          world.caches [] in
      max_found-IsPaid [] 0 fee 0 0 run.0 run.1 a i e s c
        (select_verified-IsVerified crypto sel world.now none (λ us _ ex. aimed_of sel us ex)
          world.ask world.caches [] (IsVerified-nil crypto))
        pos h
  max_listed-IsPaid (some us) fee a i e s c pos h =
      let run =
        select_verified crypto sel world.now (some us) (λ us _ ex. aimed_of sel us ex) world.ask
          world.caches [] in
      let ex = run.1.asked_exclude in
      max_found-IsPaid us (target_of sel us ex) fee (eligible_of sel us ex) (skipped_of sel us ex)
        run.0 run.1 a i e s c
        (select_verified-IsVerified crypto sel world.now (some us) (λ us _ ex. aimed_of sel us ex)
          world.ask world.caches [] (IsVerified-nil crypto))
        pos h

  -- A positive figure that Max offers is one that chain-proven coins pay together with the fee, in one transaction of
  -- the stated number of inputs; the fee is a positive safe integer, at most 100 CSD and within the proportional cap.
  pub max_sendable-IsPaid :
      (fee : Num) (a i e s : ℕ) (c : Bool)
      → (max_sendable crypto sel world fee).0 ≡ max_ok a i e s c
      → 0 < a
      → (is_positive fee ≡ true)
        × (is_safe fee ≡ true)
        × (amount fee ≤ max_fee)
        × IsPaid a (amount fee) i
  unfolding max_sendable
  max_sendable-IsPaid fee a i e s c h pos =
      elim (Bool-cases (not (is_safe fee) || not (is_positive fee))) [
        | inl q ↦ absurd (ground arith)
        | inr q ↦ elim (Bool-cases (ltb max_fee (amount fee))) [
          | inl p ↦ absurd (ground arith)
          | inr p ↦ (
            ground arith,
            ground arith,
            ground arith,
            max_listed-IsPaid world.utxos (amount fee) a i e s c pos (rw (q, p) at h),
          )
        ]
      ]
