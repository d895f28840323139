-- ===== src/Spend/Outputs.antt =====
-- Requested payments and their validation (src/core/node.ts `validateOutputs`, and the address tests of the flows).
pub mod Sum
use cairn_wallet.Base.{
  ℕ, ◌+◌, Bool, true, false, ◌&&◌, ◌||◌, not, List, [], ◌∷◌, length, take, drop, all, ltb, leb,
  ◌==◌, if◌then◌else◌,
}
use cairn_wallet.Base.Text.{Text, codes, text_eq}
use cairn_wallet.Js.{Num, nat, is_safe, is_positive, max_safe}

-- `{ to, value }` of a request, the value as `Number` reads it
pub record Payout : Type 0 where
  pub to : Text
  pub value : Num

-- an output of the transaction to build, its value already a safe natural
pub record Payment : Type 0 where
  pub value : ℕ
  pub script_pubkey : Text

unfoldable pub is_hex_code : ℕ → Bool
is_hex_code c = leb b'0' c && leb c b'9' || (leb b'a' c && leb c b'f' || leb b'A' c && leb c b'F')

-- `/^0x[0-9a-fA-F]{n}$/`
unfoldable pub is_hex_text : ℕ → Text → Bool
unfolding is_hex_code
is_hex_text n t =
    text_eq (take 2 t) (codes "0x") && (length (drop 2 t) == n && all is_hex_code (drop 2 t))

all_zeros : Text → Bool
all_zeros t = length t == 40 && all (λ c. c == b'0') t

-- `/^(0x)?0{40}$/i`
unfoldable pub is_zero_address : Text → Bool
unfolding all_zeros
is_zero_address t =
    all_zeros t
    || ((text_eq (take 2 t) (codes "0x") || text_eq (take 2 t) (codes "0X"))
        && all_zeros (drop 2 t))

pub data Checked : Type 0 where
  sum_out : ℕ → Checked
  bad : Checked

-- `Number(o.value)` of a validated payout
unfoldable pub amount : Num → ℕ
amount (nat n) = n
amount _ = 0

-- The loop over the payouts, from the sum so far.
unfoldable pub sum_payouts : ℕ → List Payout → Checked
unfolding is_hex_text amount
sum_payouts acc [] = sum_out acc
sum_payouts acc (o ∷ os) =
    let next = acc + amount o.value in
    let rest = sum_payouts next os in
    if not (is_hex_text 40 o.to)
    then bad
    else if not (is_positive o.value && is_safe o.value)
    then bad
    else if ltb max_safe next
    then bad
    else rest

-- `validateOutputs(outs, { max, minOne })`
unfoldable pub validate_outputs : List Payout → (max : ℕ) → (min_one : Bool) → Checked
unfolding sum_payouts
validate_outputs outs max min_one =
    if min_one && length outs == 0
    then bad
    else if ltb max (length outs)
    then bad
    else sum_payouts 0 outs

-- `outs.map((o) => ({ value: Number(o.value), scriptPubkey: String(o.to) }))`
unfoldable pub payments : List Payout → List Payment
payments [] = []
payments (o ∷ os) = record { value = amount o.value; script_pubkey = o.to } ∷ payments os

unfoldable pub sum_payments : List Payment → ℕ
sum_payments [] = 0
sum_payments (p ∷ ps) = p.value + sum_payments ps
