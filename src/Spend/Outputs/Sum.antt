-- ===== src/Spend/Outputs/Sum.antt =====
-- A validated request pays what it says: every amount is a positive safe integer to a well-formed address, and the
-- sum that the caller goes on with is the exact sum of the payments (src/core/node.ts `validateOutputs`).
use cairn_wallet.Base.{ℕ, ◌+◌, ◌≤◌, ◌<◌, ◌≡◌, refl, Bool, true, List, [], ◌∷◌, length, All, arith}
use cairn_wallet.Js.{Num, nat, neg, frac, inf, nan, is_safe, is_positive, max_safe}
use cairn_wallet.Spend.Outputs.{
  Payout, is_hex_text, sum_out, amount, sum_payouts, validate_outputs, payments, sum_payments,
}

pub record IsPayable (o : Payout) : Type 0 where
  pub address : is_hex_text 40 o.to ≡ true
  pub exact : o.value ≡ nat (amount o.value)
  pub positive : 0 < amount o.value

pub positive_safe :
    (v : Num) → is_positive v ≡ true → is_safe v ≡ true → (v ≡ nat (amount v)) × (0 < amount v)
unfolding is_positive is_safe amount
positive_safe (nat n) p s = (refl, ground arith)
positive_safe (neg n) p s = absurd (cc)
positive_safe (frac b t) p s = absurd (cc)
positive_safe (inf b) p s = absurd (cc)
positive_safe nan p s = absurd (cc)

payable :
    (o : Payout)
    → is_hex_text 40 o.to ≡ true
    → is_positive o.value ≡ true
    → is_safe o.value ≡ true
    → IsPayable o
payable o a p s = ground (arith, positive_safe o.value p s)

sum_payouts_exact :
    (acc : ℕ) (os : List Payout) (s : ℕ)
    → acc ≤ max_safe
    → sum_payouts acc os ≡ sum_out s
    → (s ≡ acc + sum_payments (payments os)) × (s ≤ max_safe) × All IsPayable os
unfolding sum_payouts payments sum_payments
sum_payouts_exact acc [] s fits h = ground arith
sum_payouts_exact acc (o ∷ os) s fits h =
    ground (arith, payable o, sum_payouts_exact (acc + amount o.value) os s)

-- A validated list has an exact sum within the safe integers, every payout in it is payable, and its length is within
-- the limits of the call.
pub validate_outputs_exact :
    (os : List Payout) (max : ℕ) (min_one : Bool) (s : ℕ)
    → validate_outputs os max min_one ≡ sum_out s
    → (s ≡ sum_payments (payments os))
      × (s ≤ max_safe)
      × All IsPayable os
      × (length os ≤ max)
      × (min_one ≡ true → 0 < length os)
unfolding validate_outputs
validate_outputs_exact os max min_one s h = ground (arith, sum_payouts_exact 0 os s)
