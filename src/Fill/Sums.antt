-- ===== src/Fill/Sums.antt =====
-- The sums of a fill's outputs by address (src/core/fillpreflight.ts `fillOfferPreflight`), and what they say of the outputs.
use cairn_wallet.Base.{
  ℕ, ◌+◌, ◌≡◌, ◌≢◌, ◌≤◌, refl, inl, inr, Bool, true, false, ◌&&◌, Option, none, some, List, [], ◌∷◌,
  any, ltb, All, arith, Bool-cases, if◌then◌else◌,
}
use cairn_wallet.Base.Text.{Text, text_eq, text_eq_iff, lower}
use cairn_wallet.Base.Eq.{text_key, lookup, put, lookup-put}
use cairn_wallet.Js.{is_safe, is_positive}
use cairn_wallet.Spend.Outputs.{Payout, amount}

-- `sums.get(k) ?? 0n`
unfoldable pub sum_at : Text → List (Text × ℕ) → ℕ
sum_at k m = elim (lookup k m) [ none ↦ 0 | some v ↦ v ]

-- The loop over the outputs, from the sums so far; `none` where a value is no positive safe integer.
unfoldable pub sums_from : List (Text × ℕ) → List Payout → Option (List (Text × ℕ))
unfolding sum_at
sums_from m [] = some m
sums_from m (o ∷ os) =
    let rest = sums_from (put (lower o.to) (sum_at (lower o.to) m + amount o.value) m) os in
    if is_safe o.value && is_positive o.value then rest else none

-- whether a required output is missing or underpaid
unfoldable pub is_underpaid : List (Text × ℕ) → (need : List (Text × ℕ)) → Bool
unfolding sum_at
is_underpaid sums = any (λ (n : Text × ℕ). ltb (sum_at n.0 sums) n.1)

-- What a list of outputs pays to one address.
unfoldable pub paid_to : Text → List Payout → ℕ
paid_to a [] = 0
paid_to a (o ∷ os) = (if text_eq a (lower o.to) then amount o.value else 0) + paid_to a os

sum_at-put :
    (a k : Text) (v : ℕ) (m : List (Text × ℕ))
    → sum_at a (put k v m) ≡ (if text_eq a k then v else sum_at a m)
unfolding sum_at
sum_at-put a k v m = ground (arith, lookup-put a k v m)

sums_from-paid_to :
    (a : Text) (m : List (Text × ℕ)) (os : List Payout) (sums : List (Text × ℕ))
    → sums_from m os ≡ some sums
    → sum_at a sums ≡ sum_at a m + paid_to a os
unfolding sums_from paid_to
sums_from-paid_to a m [] sums h = ground arith
sums_from-paid_to a m (o ∷ os) sums h =
    let k = lower o.to in
    let m' = put k (sum_at k m + amount o.value) m in
    elim (Bool-cases (is_safe o.value && is_positive o.value)) [
      | inr e ↦ absurd (ground (arith, h, e))
      | inl e ↦
          let ih = sums_from-paid_to a m' os sums (ground (arith, h, e)) in
          ground (arith, ih, text_eq_iff a k, sum_at-put a k (sum_at k m + amount o.value) m)
    ]

-- The sums are what the outputs pay.
pub sum_at-paid_to :
    (a : Text) (os : List Payout) (sums : List (Text × ℕ))
    → sums_from [] os ≡ some sums
    → sum_at a sums ≡ paid_to a os
unfolding sum_at lookup
sum_at-paid_to a os sums h = omega (arith, sums_from-paid_to a [] os sums h)

sums_from-nonempty :
    (k : Text) (v : ℕ) (m : List (Text × ℕ)) (os : List Payout) → sums_from (put k v m) os ≢ some []
unfolding sums_from put
sums_from-nonempty k v [] [] h = absurd (ground (arith, h))
sums_from-nonempty k v ((j, w) ∷ m) [] h = absurd (ground (arith, h))
sums_from-nonempty k v m (o ∷ os) h = ground (
  arith,
  h,
  sums_from-nonempty (lower o.to) (sum_at (lower o.to) (put k v m) + amount o.value) (put k v m) os,
)

-- No sums, no outputs.
pub sums_from-nil : (os : List Payout) → sums_from [] os ≡ some [] → os ≡ []
unfolding sums_from
sums_from-nil [] h = refl
sums_from-nil (o ∷ os) h = absurd (
    ground
      (arith, h, sums_from-nonempty (lower o.to) (sum_at (lower o.to) [] + amount o.value) [] os))

-- Every output of a list with sums is a positive safe integer.
pub All-positive :
    (m : List (Text × ℕ)) (os : List Payout) (sums : List (Text × ℕ))
    → sums_from m os ≡ some sums
    → All (λ (o : Payout). (is_safe o.value && is_positive o.value) ≡ true) os
unfolding sums_from
All-positive m [] sums h = tt
All-positive m (o ∷ os) sums h = elim (Bool-cases (is_safe o.value && is_positive o.value)) [
  | inr e ↦ absurd (ground (arith, h, e))
  | inl e ↦ (
    e,
    All-positive (put (lower o.to) (sum_at (lower o.to) m + amount o.value) m) os sums
        (ground (arith, h, e)),
  )
]

-- Where no required output is underpaid, the outputs pay each.
pub All-paid :
    (os : List Payout) (sums need : List (Text × ℕ))
    → sums_from [] os ≡ some sums
    → is_underpaid sums need ≡ false
    → All (λ (n : Text × ℕ). n.1 ≤ paid_to n.0 os) need
unfolding is_underpaid
All-paid os sums [] h e = tt
All-paid os sums ((a, v) ∷ need) h e =
    (ground (arith, e, sum_at-paid_to a os sums h), All-paid os sums need h (ground (arith, e)))
