-- ===== src/Approval/Resolve.antt =====
-- What an approval does (src/background.ts `resolvePending`, `pageResult`, `reservationAckFor`). The wallet's operations
-- are called with the values here; what they return is an argument.
pub mod Reviewed
use cairn_wallet.Base.{
  ℕ, Bool, true, false, ◌&&◌, ◌||◌, not, Option, none, some, List, [], ◌∷◌, ◌==◌, if◌then◌else◌,
}
use cairn_wallet.Base.Text.{Text, codes, text_eq, lower}
use cairn_wallet.Base.Eq.{nat_eq, pair_eq, ◌===◌}
use cairn_wallet.Spend.Outputs.{is_hex_text}
use cairn_wallet.Approval.Consents.{ConsentMap, record_consent}
use cairn_wallet.Approval.Queue.{
  RequestId, PageCode, user_rejected, wallet_locked, account_changed, first_party_only,
  unsupported_method, approval_closed, internal, wallet_code, Pending,
}

-- what `wallet.status()` says here
pub record WalletStatus : Type 0 where
  pub unlocked : Bool
  pub addr : Option Text

-- the debit that the window displayed
pub record TokenQuote : Type 0 where
  pub ticker : Option Text
  pub amount : Option Text
  pub fee : Option Text
  pub total : Option Text

-- the window's "Sign anyway"
pub record Ack : Type 0 where
  pub request_id : RequestId
  pub fclaim_txid : Text

unfoldable pub reservation_ack_for : RequestId → Option Ack → Option Text
reservation_ack_for id none = none
reservation_ack_for id (some a) =
    if a.request_id === id && is_hex_text 64 a.fclaim_txid then some (lower a.fclaim_txid) else none

-- `typeof s === "string" && s ? s : undefined`
unfoldable pub present : Option Text → Option Text
present (some (c ∷ t)) = some (c ∷ t)
present _ = none

-- One call of a wallet operation, with what it is passed.
pub data Call (Params : Type 0) : Type 0 where
  sign_in : Call Params
  sign_in_with_csd : Params → (origin : Text) → Call Params
  propose seal_claim reveal_claim : Params → Call Params
  attest : Params → (expect_signer : Option Text) → Option TokenQuote → Call Params
  send send_many : Params → (expect_signer : Option Text) → Call Params
  fill_offer :
      Params → (expect_signer : Option Text) → Option TokenQuote → (ack : Option Text) → Call Params

pub data Decision (Params : Type 0) : Type 0 where
  refuse : PageCode → Decision Params
  -- the address, which the origin may read from now on
  disclose grant : (addr : Text) → Decision Params
  call : Call Params → Decision Params
  -- `throw new Error("unsupported dApp method: ...")`
  unsupported : Decision Params

-- an unlocked wallet has an address; the text "" counts as none
unfoldable pub active_addr : WalletStatus → Option Text
unfolding present
active_addr st = if st.unlocked then present st.addr else none

agrees : Option Text → Text → Bool
agrees none addr = true
agrees (some s) addr = text_eq (lower s) (lower addr)

review : {Params : Type 0} → Option Text → Text → Decision Params → Decision Params
unfolding agrees
review shown addr d = if agrees shown addr then d else refuse account_changed

-- `is_first_party` is `wallet.isFirstPartyOrigin`; `is_batch` says whether the parameters hold an array of outputs.
module _ {Params : Type 0} (is_first_party : Text → Bool) (is_batch : Params → Bool) where
  -- the branch of the request's method
  unfoldable pub dispatch :
      RequestId
      → Pending Params
      → (addr : Text) (shown : Option Text) → Option TokenQuote
      → Option Ack
      → Decision Params
  unfolding reservation_ack_for
  dispatch id p addr shown quote ack =
      if text_eq p.method (codes "connect") || text_eq p.method (codes "getAddress")
      then disclose addr
      else if text_eq p.method (codes "requestPermissions")
      then grant addr
      else if text_eq p.method (codes "signin")
      then (if is_first_party p.origin then call sign_in else refuse first_party_only)
      else if text_eq p.method (codes "signinWithCsd")
      then call (sign_in_with_csd p.params p.origin)
      else if text_eq p.method (codes "propose")
      then call (propose p.params)
      else if text_eq p.method (codes "attest")
      then call (attest p.params shown quote)
      else if text_eq p.method (codes "sealClaim")
      then call (seal_claim p.params)
      else if text_eq p.method (codes "revealClaim")
      then call (reveal_claim p.params)
      else if text_eq p.method (codes "send")
      then call (if is_batch p.params then send_many p.params shown else send p.params shown)
      else if text_eq p.method (codes "fillOffer")
      then call (fill_offer p.params shown quote (reservation_ack_for id ack))
      else unsupported

  decide_at :
      Option Text
      → RequestId
      → Pending Params
      → (displayed : Option Text) → Option TokenQuote
      → Option Ack
      → Decision Params
  unfolding review dispatch present
  decide_at none id p displayed quote ack = refuse wallet_locked
  decide_at (some addr) id p displayed quote ack =
      review (present displayed) addr (dispatch id p addr (present displayed) quote ack)

  -- `resolvePending` up to the wallet's operation.
  unfoldable pub decide :
      (approve : Bool)
      → WalletStatus
      → RequestId
      → Pending Params
      → (displayed : Option Text) → Option TokenQuote
      → Option Ack
      → Decision Params
  unfolding active_addr decide_at
  decide approve st id p displayed quote ack =
      if approve then decide_at (active_addr st) id p displayed quote ack else refuse user_rejected

-- The connected sites after a decision.
unfoldable pub consents_after :
    {Params : Type 0} → (origin : Text) (now : ℕ) → Decision Params → ConsentMap → ConsentMap
consents_after origin now (disclose addr) c = record_consent origin addr now c
consents_after origin now (grant addr) c = record_consent origin addr now c
consents_after origin now _ c = c

-- The wallet's own answer, by the fields that matter here: `ok` is absent from answers that are not soft results.
pub record WalletAnswer : Type 0 where
  pub ok : Option Bool
  pub code : Option Text
  pub txid : Option Text
  pub spent_txids : Option (List Text)
  pub inputs : Option (List Text)
  pub second_source : Option Text
  pub unconfirmed : Option Text

pub data CallResult : Type 0 where
  -- thrown, with the message of the error
  threw : Option Text → CallResult
  answered : WalletAnswer → CallResult

pub data PageAnswer : Type 0 where
  failed : PageCode → PageAnswer
  address : (addr : Text) → PageAnswer
  permissions : (origin addr : Text) (granted_at : ℕ) → PageAnswer
  wallet : WalletAnswer → PageAnswer

-- the wallet's bookkeeping is kept off what a page receives
unfoldable pub page_result : WalletAnswer → WalletAnswer
page_result r = record r { spent_txids = none; inputs = none; second_source = none }

unfoldable pub thrown_code : Option Text → PageCode
thrown_code none = internal
thrown_code (some message) = if text_eq message (codes "locked") then wallet_locked else internal

-- What the approval window is told.
pub record ResolveOutcome : Type 0 where
  pub done : Bool
  pub ok : Option Bool
  pub code : Option PageCode
  pub txid : Option Text
  pub second_source : Option Text
  pub unconfirmed : Option Text

no_outcome : ResolveOutcome
no_outcome = record {
  done = false;
  ok = none;
  code = none;
  txid = none;
  second_source = none;
  unconfirmed = none;
}

failure_outcome : PageCode → ResolveOutcome
unfolding no_outcome
failure_outcome code = record no_outcome { done = true; ok = some false; code = some code }

is_soft_failure : Option Bool → Bool
is_soft_failure (some false) = true
is_soft_failure _ = false

soft_code : Option Text → Option PageCode
soft_code none = none
soft_code (some c) = some (wallet_code c)

-- "pending" or "failed", and nothing else
notice : Option Text → Option Text
notice none = none
notice (some s) = if text_eq s (codes "pending") || text_eq s (codes "failed") then some s else none

-- The window's outcome for an answer of the wallet.
unfoldable pub answer_outcome : WalletAnswer → ResolveOutcome
unfolding no_outcome is_soft_failure soft_code notice
answer_outcome r = record no_outcome {
  done = true;
  ok = some (not (is_soft_failure r.ok));
  code = if is_soft_failure r.ok then soft_code r.code else none;
  txid = r.txid;
  second_source = if is_soft_failure r.ok then none else notice r.second_source;
}

is_unconfirmed : {Params : Type 0} → Call Params → WalletAnswer → Bool
is_unconfirmed (fill_offer params signer quote ack) r = elim r.code [
  | none ↦ false
  | some c ↦ text_eq c (codes "RESERVATION_UNCONFIRMED")
]
is_unconfirmed _ r = false

-- What a finished approval leaves: the page's answer, `none` where the request goes back to the window, and the
-- outcome that the window is told.
settle_answer :
    {Params : Type 0}
    → Call Params
    → (window : Option ℕ) → WalletAnswer
    → Option PageAnswer × ResolveOutcome
unfolding page_result answer_outcome is_unconfirmed failure_outcome no_outcome
settle_answer c window r =
    if is_unconfirmed c r
    then elim window [
      | none ↦ (some (failed approval_closed), failure_outcome approval_closed)
      | some w ↦ (
        none,
        record no_outcome { ok = some false; code = soft_code r.code; unconfirmed = r.unconfirmed },
      )
    ]
    else (some (wallet (page_result r)), answer_outcome r)

settle_call :
    {Params : Type 0}
    → Call Params
    → (window : Option ℕ) → CallResult
    → Option PageAnswer × ResolveOutcome
unfolding settle_answer thrown_code failure_outcome
settle_call c window (threw message) =
    (some (failed (thrown_code message)), failure_outcome (thrown_code message))
settle_call c window (answered r) = settle_answer c window r

-- `run` is the wallet: what each call returns.
unfoldable pub settle :
    {Params : Type 0}
    → (run : Call Params → CallResult) (window : Option ℕ) (origin : Text) (now : ℕ)
    → Decision Params
    → Option PageAnswer × ResolveOutcome
unfolding settle_call failure_outcome no_outcome
settle run window origin now (refuse code) = (some (failed code), failure_outcome code)
settle run window origin now (disclose addr) =
    (some (address addr), record no_outcome { done = true; ok = some true })
settle run window origin now (grant addr) =
    (some (permissions origin addr now), record no_outcome { done = true; ok = some true })
settle run window origin now (call c) = settle_call c window (run c)
settle run window origin now unsupported = (some (failed internal), failure_outcome internal)
