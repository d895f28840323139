-- ===== src/Tests/Approvals.antt =====
-- The approval of one fill on a concrete queue (src/background.ts).
use cairn_wallet.Base.{ℕ, ◌≤◌, refl, Bool, true, false, none, some, [], length, max}
use cairn_wallet.Base.Text.{Text, codes, text_eq, lower}
use cairn_wallet.Base.Eq.{nat_eq, text_key, pair_eq}
use cairn_wallet.Approval.Consents.{ConsentMap, record_consent}
use cairn_wallet.Approval.Queue.{
  RequestId, Pending, Queue, count_origin, queue_dapp_request, take_request, empty_queue, arrives,
  taken, here, next,
}
use cairn_wallet.Approval.Queue.Accounted.{
  IsAccounted, reachable-IsAccounted, queue_dapp_request_bounded,
}
use cairn_wallet.Approval.Resolve
use cairn_wallet.Approval.Resolve.{
  WalletStatus, Ack, present, Call, call, decide, dispatch, active_addr, WalletAnswer, CallResult,
  answered, settle, reservation_ack_for,
}
use cairn_wallet.Approval.Resolve.Reviewed.{
  IsReviewed, IsFaithful, decide-IsFaithful, Reports, settle-Reports,
}
use cairn_wallet.Approval.Messages.{Sender}

abbrev site : Text
site = codes "https://cairn.example"

abbrev start : Queue ℕ ℕ
start = empty_queue ℕ ℕ

abbrev one_request : Queue ℕ ℕ
one_request = (queue_dapp_request 1000 site (codes "fillOffer") 7 start).1

abbrev request : RequestId
request = (1000, 0)

reachable-IsAccounted_example : IsAccounted (take_request request one_request).1
reachable-IsAccounted_example =
    reachable-IsAccounted (take_request request one_request).1
      (next (next here (arrives start 1000 site (codes "fillOffer") 7)) (taken one_request request))

queue_dapp_request_bounded_example :
    (length (queue_dapp_request 1001 site (codes "send") 8 one_request).1.pending
      ≤ max 32 (length one_request.pending))
    × ((o : Text)
        → count_origin o (queue_dapp_request 1001 site (codes "send") 8 one_request).1.pending
          ≤ max 5 (count_origin o one_request.pending))
queue_dapp_request_bounded_example =
    queue_dapp_request_bounded one_request 1001 site (codes "send") 8

abbrev account : Text
account = codes "0xAb12"

abbrev status : WalletStatus
status = record { unlocked = true; addr = some account }

abbrev fill : Pending ℕ
fill = record { origin = site; method = codes "fillOffer"; params = 7 }

abbrev never : Text → Bool
never origin = false

abbrev single : ℕ → Bool
single n = false

abbrev fill_call : Call ℕ
fill_call = Resolve.Call.fill_offer 7 (some (codes "0xab12")) none none

decide-IsFaithful_example :
    IsReviewed true status (some (codes "0xab12"))
    × IsFaithful never request fill (present (some (codes "0xab12"))) none none fill_call
unfolding decide text_eq lower present
decide-IsFaithful_example =
    decide-IsFaithful never single true status request fill (some (codes "0xab12")) none none
      fill_call refl

abbrev paid : WalletAnswer
paid = record {
  ok = some true;
  code = none;
  txid = some (codes "0x1");
  spent_txids = some [];
  inputs = some [];
  second_source = some (codes "pending");
  unconfirmed = none;
}

settle-Reports_example :
    Reports
      (settle {Params = ℕ} (λ c. answered paid) (some 3) site 1000 (call fill_call)).0
      (settle {Params = ℕ} (λ c. answered paid) (some 3) site 1000 (call fill_call)).1
settle-Reports_example = settle-Reports (λ c. answered paid) (some 3) site 1000 (call fill_call)

abbrev granted : ConsentMap
granted = record_consent site account 900 []

abbrev popup_page : Sender
popup_page = record {
  id = codes "abc";
  url = some (codes "chrome-extension://abc/approve.html");
  origin = none;
}
