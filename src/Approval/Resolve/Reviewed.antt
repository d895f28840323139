-- ===== src/Approval/Resolve/Reviewed.antt =====
-- What an approval may lead to (src/background.ts `resolvePending`): the wallet acts only on what the user reviewed,
-- and the page and the window are told the same.
use cairn_wallet.Base.{
  ℕ, ◌≡◌, refl, sym, inl, inr, Bool, true, false, not, Option, none, some, [], ◌∷◌, arith,
  Bool-cases, Option-cases,
}
use cairn_wallet.Base.Text.{Text, lower, eq_of_text_eq}
use cairn_wallet.Base.Eq.{nat_eq, pair_eq}
use cairn_wallet.Spend.Outputs.{is_hex_text}
use cairn_wallet.Approval.Queue.{RequestId, PageCode, Pending}
use cairn_wallet.Approval.Resolve.{
  WalletStatus, TokenQuote, Ack, reservation_ack_for, present, Call, sign_in, sign_in_with_csd,
  propose, seal_claim, reveal_claim, attest, send, send_many, fill_offer, Decision, refuse,
  disclose, grant, call, unsupported, dispatch, active_addr, agrees, review, decide_at, decide,
  WalletAnswer, CallResult, threw, answered, PageAnswer, failed, wallet, page_result,
  ResolveOutcome, settle_answer, settle_call, settle, is_unconfirmed, answer_outcome, no_outcome,
  failure_outcome, is_soft_failure,
}

-- A call passes on what the approval showed: the displayed account wherever the operation takes one, the displayed
-- quote, the request's own origin, and an acknowledgement only of this request's window.
pub IsFaithful :
    {Params : Type 0}
    → (Text → Bool)
    → RequestId
    → Pending Params
    → Option Text
    → Option TokenQuote
    → Option Ack
    → Call Params
    → Type 0
IsFaithful first id p shown quote ack sign_in = first p.origin ≡ true
IsFaithful first id p shown quote ack (sign_in_with_csd params origin) =
    (params ≡ p.params) × (origin ≡ p.origin)
IsFaithful first id p shown quote ack (propose params) = params ≡ p.params
IsFaithful first id p shown quote ack (seal_claim params) = params ≡ p.params
IsFaithful first id p shown quote ack (reveal_claim params) = params ≡ p.params
IsFaithful first id p shown quote ack (attest params signer q) =
    (params ≡ p.params) × (signer ≡ shown) × (q ≡ quote)
IsFaithful first id p shown quote ack (send params signer) = (params ≡ p.params) × (signer ≡ shown)
IsFaithful first id p shown quote ack (send_many params signer) =
    (params ≡ p.params) × (signer ≡ shown)
IsFaithful first id p shown quote ack (fill_offer params signer q t) =
    (params ≡ p.params)
    × (signer ≡ shown)
    × (q ≡ quote)
    × ((x : Text)
        → t ≡ some x
        → (a : Ack) × (ack ≡ some a)
          × (a.request_id ≡ id)
          × (is_hex_text 64 a.fclaim_txid ≡ true)
          × (x ≡ lower a.fclaim_txid))

reservation_ack_for_own :
    (id : RequestId) (ack : Option Ack) (x : Text)
    → reservation_ack_for id ack ≡ some x
    → (a : Ack) × (ack ≡ some a)
      × (a.request_id ≡ id)
      × (is_hex_text 64 a.fclaim_txid ≡ true)
      × (x ≡ lower a.fclaim_txid)
unfolding reservation_ack_for
reservation_ack_for_own id none x h = absurd (cc)
reservation_ack_for_own id (some a) x h =
    (a, refl, ground (arith, pair_eq.beq_iff a.request_id id), ground arith, ground arith)

-- What the user saw when the wallet acts: approved, unlocked, with the account that the window displayed.
pub record IsReviewed (approve : Bool) (st : WalletStatus) (displayed : Option Text) : Type 0 where
  pub approved : approve ≡ true
  pub unlocked : st.unlocked ≡ true
  pub addr : Text
  pub active : st.addr ≡ some addr
  pub displayed_is_active : (s : Text) → present displayed ≡ some s → lower s ≡ lower addr

module _ {Params : Type 0} (is_first_party : Text → Bool) (is_batch : Params → Bool) where
  dispatch-IsFaithful :
      (id : RequestId) (p : Pending Params) (addr : Text) (shown : Option Text)
      (quote : Option TokenQuote) (ack : Option Ack) (c : Call Params)
      → dispatch is_first_party is_batch id p addr shown quote ack ≡ call c
      → IsFaithful is_first_party id p shown quote ack c
  unfolding dispatch IsFaithful
  dispatch-IsFaithful id p addr shown quote ack c h = ground (arith, reservation_ack_for_own id ack)

  agrees_same :
      (shown : Option Text) (addr s : Text)
      → agrees shown addr ≡ true
      → shown ≡ some s
      → lower s ≡ lower addr
  unfolding agrees
  agrees_same none addr s h e = absurd (cc)
  agrees_same (some t) addr s h e = ground (arith, eq_of_text_eq (lower t) (lower addr))

  present_same : (o : Option Text) (t : Text) → present o ≡ some t → o ≡ some t
  unfolding present
  present_same none t h = absurd (cc)
  present_same (some []) t h = absurd (cc)
  present_same (some (c ∷ s)) t h = h

  active_addr_parts :
      (st : WalletStatus) (addr : Text)
      → active_addr st ≡ some addr
      → (st.unlocked ≡ true) × (st.addr ≡ some addr)
  unfolding active_addr
  active_addr_parts st addr h = ground (arith, present_same st.addr addr)

  decide_at_parts :
      (o : Option Text) (id : RequestId) (p : Pending Params) (displayed : Option Text)
      (quote : Option TokenQuote) (ack : Option Ack) (d : Decision Params)
      → ((code : PageCode) → d ≡ refuse code → ⊥)
      → decide_at is_first_party is_batch o id p displayed quote ack ≡ d
      → (addr : Text) × (o ≡ some addr)
        × ((s : Text) → present displayed ≡ some s → lower s ≡ lower addr)
        × (dispatch is_first_party is_batch id p addr (present displayed) quote ack ≡ d)
  unfolding decide_at review
  decide_at_parts none id p displayed quote ack d n h = absurd (n _ (sym h))
  decide_at_parts (some addr) id p displayed quote ack d n h =
      elim (Bool-cases (agrees (present displayed) addr)) [
        | inl e ↦ (addr, refl, (λ s f. agrees_same (present displayed) addr s e f), rw e at h)
        | inr e ↦ absurd (n _ (sym (rw e at h)))
      ]

  decide_parts :
      (approve : Bool) (st : WalletStatus) (id : RequestId) (p : Pending Params)
      (displayed : Option Text) (quote : Option TokenQuote) (ack : Option Ack) (d : Decision Params)
      → ((code : PageCode) → d ≡ refuse code → ⊥)
      → decide is_first_party is_batch approve st id p displayed quote ack ≡ d
      → (r : IsReviewed approve st displayed) × (dispatch is_first_party is_batch id p r.addr
            (present displayed)
            quote
            ack
          ≡ d)
  unfolding decide
  decide_parts false st id p displayed quote ack d n h = absurd (n _ (sym h))
  decide_parts true st id p displayed quote ack d n h =
      let (addr, e, same, f) = decide_at_parts (active_addr st) id p displayed quote ack d n h in
      let (u, a) = active_addr_parts st addr e in
      (
        record {
          approved = refl;
          unlocked = u;
          addr = addr;
          active = a;
          displayed_is_active = same;
        },
        f,
      )

  call_ne_refuse : (c : Call Params) (code : PageCode) → call c ≡ refuse code → ⊥
  call_ne_refuse c code h = cc

  -- The wallet's operations are called only for a request that the user approved while the wallet was unlocked and the
  -- active account was the one that the window displayed, if it displayed one; and the call passes on what was shown.
  pub decide-IsFaithful :
      (approve : Bool) (st : WalletStatus) (id : RequestId) (p : Pending Params)
      (displayed : Option Text) (quote : Option TokenQuote) (ack : Option Ack) (c : Call Params)
      → decide is_first_party is_batch approve st id p displayed quote ack ≡ call c
      → IsReviewed approve st displayed
        × IsFaithful is_first_party id p (present displayed) quote ack c
  decide-IsFaithful approve st id p displayed quote ack c h =
      let (r, e) = decide_parts approve st id p displayed quote ack (call c) (call_ne_refuse c) h in
      (r, dispatch-IsFaithful id p r.addr (present displayed) quote ack c e)

-- The page is told of a success.
pub is_success : PageAnswer → Bool
is_success (failed code) = false
is_success (wallet r) = not (is_soft_failure r.ok)
is_success _ = true

-- The wallet's bookkeeping is not in the answer.
pub IsStripped : PageAnswer → Type 0
IsStripped (wallet r) = (r.spent_txids ≡ none) × (r.inputs ≡ none) × (r.second_source ≡ none)
IsStripped _ = Unit

pub Reports : Option PageAnswer → ResolveOutcome → Type 0
Reports none out = (out.done ≡ false) × (out.ok ≡ some false)
Reports (some a) out = (out.done ≡ true) × (out.ok ≡ some (is_success a)) × IsStripped a

settle_answer-Reports :
    {Params : Type 0} (c : Call Params) (window : Option ℕ) (r : WalletAnswer)
    → Reports (settle_answer c window r).0 (settle_answer c window r).1
unfolding settle_answer Reports is_success IsStripped page_result answer_outcome failure_outcome
    no_outcome is_soft_failure
settle_answer-Reports c window r = elim (Bool-cases (is_unconfirmed c r)) [
  | inl e ↦ elim (Option-cases window) [
    | inl f ↦ rw (e, f) (refl, refl, tt)
    | inr (w, f) ↦ rw (e, f) (refl, refl)
  ]
  | inr e ↦ rw e (refl, refl, (refl, refl, refl))
]

settle_call-Reports :
    {Params : Type 0} (c : Call Params) (window : Option ℕ) (r : CallResult)
    → Reports (settle_call c window r).0 (settle_call c window r).1
unfolding settle_call Reports is_success IsStripped failure_outcome no_outcome
settle_call-Reports c window (threw message) = (refl, refl, tt)
settle_call-Reports c window (answered r) = settle_answer-Reports c window r

-- The approval window is told what the page is told: that the request is done exactly where the page is answered, and
-- a success exactly where the page receives one; and no answer to a page carries the wallet's bookkeeping.
pub settle-Reports :
    {Params : Type 0} (run : Call Params → CallResult) (window : Option ℕ) (origin : Text) (now : ℕ)
    (d : Decision Params)
    → Reports (settle run window origin now d).0 (settle run window origin now d).1
unfolding settle settle_call Reports is_success IsStripped failure_outcome no_outcome
settle-Reports run window origin now (refuse code) = (refl, refl, tt)
settle-Reports run window origin now (disclose addr) = (refl, refl, tt)
settle-Reports run window origin now (grant addr) = (refl, refl, tt)
settle-Reports run window origin now unsupported = (refl, refl, tt)
settle-Reports run window origin now (call c) = settle_call-Reports c window (run c)
