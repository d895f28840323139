-- ===== src/Spend/Verify.antt =====
-- Chain verification of input values (src/core/node.ts `verifyInputValues`): each selected coin's source transaction
-- is fetched, its id is recomputed, and its output value is read from the transaction that the id binds.
pub mod Sound
use cairn_wallet.Base.{
  ℕ, zero, suc, ◌+◌, ◌≤◌, ◌<◌, ◌≡◌, Bool, true, false, ◌&&◌, ◌||◌, not, Option, none, some, List,
  [], ◌∷◌, length, get_elem?, all, any, ltb, leb, if◌then◌else◌,
}
use cairn_wallet.Base.Text.{Text, lower, text_eq}
use cairn_wallet.Base.Eq.{Eq, nat_eq, text_key, pair_eq, lookup, put}
use cairn_wallet.Js.{Num, nat, is_safe, max_safe, Val, undef, num, text, number}
use cairn_wallet.Codec
use cairn_wallet.Codec.{Crypto, App, TxOutput, Tx, txid}
use cairn_wallet.Spend.Coins.{Outpoint, Coin, op_key, coin_key}

-- `typeof v !== "number" || Number.isSafeInteger(v)`
unfoldable pub representable_num : Val → Bool
representable_num (num n) = is_safe n
representable_num undef = true
representable_num (text n b) = true

app_numbers_representable : App → Bool
unfolding representable_num
app_numbers_representable Codec.App.no_app = true
app_numbers_representable (Codec.App.propose d p u e) = representable_num e
app_numbers_representable (Codec.App.attest p s c) = representable_num s && representable_num c

unfoldable pub body_numbers_representable : Tx → Bool
unfolding representable_num app_numbers_representable
body_numbers_representable b =
    representable_num b.version
    && (representable_num b.locktime
        && (app_numbers_representable b.app
            && all (λ (o : TxOutput). representable_num o.value) b.outputs))

-- How the node answered GET /tx/:id.
pub data TxReply : Type 0 where
  -- 404
  missing : TxReply
  -- 503: whether its body reads as code SCAN_HORIZON
  unavailable : Bool → TxReply
  -- another error status, no answer, or a body that is not JSON
  failed : TxReply
  -- 2xx: the field `tx` of the body, `none` where there is none
  answered : Option Tx → TxReply

pub data InputVerdict : Type 0 where
  proven : ℕ → InputVerdict
  not_found transient tamper horizon unrepresentable : InputVerdict

-- `Number.isFinite(v) && v > 0 && Number.isSafeInteger(v)` on `Number(out.value)`
unfoldable pub value_verdict : Num → InputVerdict
value_verdict (nat v) = if ltb 0 v && leb v max_safe then proven v else tamper
value_verdict _ = tamper

output_verdict : Option TxOutput → InputVerdict
unfolding value_verdict number
output_verdict none = tamper
output_verdict (some o) = value_verdict (number o.value)

-- `verified`: the values proven so far
abbrev pub Verified : Type 0
Verified = List (Outpoint × ℕ)

-- `verified.set` on a proven value
remember : Coin → InputVerdict → Verified → Verified
remember c (proven v) m = put (coin_key c) v m
remember c _ m = m

-- `decisive`: the verdicts that stop the pool
unfoldable pub is_decisive : InputVerdict → Bool
is_decisive tamper = true
is_decisive transient = true
is_decisive _ = false

unreached : List Coin → List (Option InputVerdict)
unreached [] = []
unreached (c ∷ cs) = none ∷ unreached cs

module _ (crypto : Crypto) where
  -- A body that serves the coin's id: its recomputed id must be that id.
  body_verdict : Coin → Tx → InputVerdict
  unfolding body_numbers_representable output_verdict
  body_verdict c body =
      if not (body_numbers_representable body) then unrepresentable else elim (txid crypto body) [
        | none ↦ tamper
        | some recomputed ↦
            if text_eq (lower recomputed) (lower c.txid)
            then output_verdict (get_elem? body.outputs c.vout)
            else tamper
      ]

  reply_verdict : Coin → TxReply → InputVerdict
  unfolding body_verdict
  reply_verdict c missing = not_found
  reply_verdict c (unavailable beyond) = if beyond then horizon else transient
  reply_verdict c failed = transient
  reply_verdict c (answered none) = not_found
  reply_verdict c (answered (some body)) = body_verdict c body

  unfoldable pub verify_one : (Coin → TxReply) → Coin → Verified → InputVerdict × Verified
  unfolding reply_verdict remember
  verify_one ask c m = elim (lookup (coin_key c) m) [
    | some v ↦ (proven v, m)
    | none ↦ let r = reply_verdict c (ask c) in (r, remember c r m)
  ]

  -- `mapLimit` over the inputs, in the order in which one worker takes them: nothing is started after a decisive
  -- verdict, and an input that was not reached has no verdict.
  unfoldable pub verify_all :
      (Coin → TxReply) → List Coin → Verified → List (Option InputVerdict) × Verified
  unfolding verify_one is_decisive unreached
  verify_all ask [] m = ([], m)
  verify_all ask (c ∷ cs) m =
      let (r, m') = verify_one ask c m in
      let rest = verify_all ask cs m' in
      if is_decisive r then (some r ∷ unreached cs, m') else (some r ∷ rest.0, rest.1)

-- What `verifyInputValues` answers.
pub data VerifyResult : Type 0 where
  verified : (total : ℕ) → VerifyResult
  tampered unreachable : VerifyResult
  beyond_horizon : (horizons ghosts : List Coin) → VerifyResult
  unrepresented : (unrepresentables ghosts : List Coin) → VerifyResult
  ghosts_only : (ghosts : List Coin) → VerifyResult

unfoldable pub is_verdict : InputVerdict → Option InputVerdict → Bool
is_verdict tamper (some tamper) = true
is_verdict transient (some transient) = true
is_verdict horizon (some horizon) = true
is_verdict unrepresentable (some unrepresentable) = true
is_verdict not_found (some not_found) = true
is_verdict _ _ = false

-- `inputs.filter((_, k) => verdicts[k] === v)`
unfoldable pub coins_with : InputVerdict → List Coin → List (Option InputVerdict) → List Coin
unfolding is_verdict
coins_with v [] vs = []
coins_with v (c ∷ cs) [] = []
coins_with v (c ∷ cs) (w ∷ vs) =
    let rest = coins_with v cs vs in if is_verdict v w then c ∷ rest else rest

-- The fold over the proven values: a sum that leaves the safe integers is refused, and so is a missing value, which
-- makes the sum NaN.
unfoldable pub total_from : ℕ → List (Option InputVerdict) → VerifyResult
total_from total [] = verified total
total_from total (some (proven v) ∷ vs) =
    let rest = total_from (total + v) vs in if leb (total + v) max_safe then rest else tampered
total_from total (_ ∷ vs) = tampered

is_empty : List Coin → Bool
is_empty [] = true
is_empty (c ∷ cs) = false

unfoldable pub conclude : List Coin → List (Option InputVerdict) → VerifyResult
unfolding coins_with total_from is_empty
conclude inputs verdicts =
    if any (is_verdict tamper) verdicts
    then tampered
    else if any (is_verdict transient) verdicts
    then unreachable
    else let ghosts = coins_with not_found inputs verdicts in
      let horizons = coins_with horizon inputs verdicts in
      let unrepresentables = coins_with unrepresentable inputs verdicts in
      if not (is_empty horizons)
      then beyond_horizon horizons ghosts
      else if not (is_empty unrepresentables)
      then unrepresented unrepresentables ghosts
      else if not (is_empty ghosts)
      then ghosts_only ghosts
      else total_from 0 verdicts

module _ (crypto : Crypto) where
  unfoldable pub verify_input_values :
      (Coin → TxReply) → List Coin → Verified → VerifyResult × Verified
  unfolding verify_all conclude
  verify_input_values ask inputs m =
      let (verdicts, m') = verify_all crypto ask inputs m in (conclude inputs verdicts, m')
