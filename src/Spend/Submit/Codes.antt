-- ===== src/Spend/Submit/Codes.antt =====
-- What the wallet says of a submission, by the node's answer (src/core/node.ts `post`, `signAndSubmit`).
use cairn_wallet.Base.{
  ◌≡◌, ◌↔◌, Bool, true, false, ◌&&◌, not, Option, none, some, ltb, arith, if◌then◌else◌,
}
use cairn_wallet.Base.Text.{Text, codes, lower}
use cairn_wallet.Net.{
  HttpReply, network_error, responded, unreadable, not_object, fields, is_success, body_err, post,
}
use cairn_wallet.Spend.Errors.{Code, submit_duplicate, submit_maybe_inflight, submit_rejected}
use cairn_wallet.Spend.Submit.{contains, is_submit_duplicate_err, is_duplicate, submit_result}

-- The node has said that it did or did not take the request: a readable answer, and no server error; a success
-- status says so only with an object.
pub is_definitive : HttpReply → Bool
is_definitive network_error = false
is_definitive (responded status unreadable) = false
is_definitive (responded status not_object) = not (is_success status) && ltb status 500
is_definitive (responded status (fields f)) = ltb status 500

-- The node took the request.
pub accepts : HttpReply → Bool
accepts (responded status (fields f)) = is_success status && f.ok
accepts _ = false

pub is_rejected : Option Code → Bool
is_rejected (some submit_rejected) = true
is_rejected _ = false

-- The text that the wallet reads in an answer as the node's reason: of a success only its `err`, of a failure its
-- `err`, or where it has none its `error`.
pub reason : HttpReply → Option Text
reason (responded status (fields f)) =
    if is_success status then f.err else elim f.err [ some t ↦ some t | none ↦ f.error ]
reason _ = none

-- whether the answer says that the node already has the transaction, or one that spends its coins
pub says_present : HttpReply → Bool
says_present reply = elim (reason reply) [
  | none ↦ false
  | some t ↦ contains (codes "already present") (lower t)
]

-- What the answer tells of the submission, in the order in which it is read.
pub verdict : HttpReply → Option Code
verdict reply =
    if not (is_definitive reply)
    then some submit_maybe_inflight
    else if accepts reply
    then none
    else if says_present reply
    then some submit_duplicate
    else some submit_rejected

-- For every answer of the node: the submission is reported as possibly in flight where the answer is not definitive,
-- else as done where the node took it, else as a duplicate where the reason that the answer gives says "already
-- present" in any letter case, else as rejected; it is reported without an error code exactly where it is reported as
-- done; and the locally computed id is reported unless the submission is reported as rejected.
pub submit_result_classified :
    (id : Text) (reply : HttpReply)
    → let s = submit_result id (post reply) in
      (s.code ≡ verdict reply)
      × (s.ok ≡ accepts reply)
      × ((s.code ≡ none) ↔ (s.ok ≡ true))
      × (s.txid ≡ (if is_rejected s.code then none else some id))
unfolding submit_result is_duplicate is_submit_duplicate_err post body_err is_definitive accepts
    reason says_present verdict is_rejected is_success
submit_result_classified id network_error = ground arith
submit_result_classified id (responded status unreadable) = ground arith
submit_result_classified id (responded status not_object) = ground arith
submit_result_classified id (responded status (fields f)) = ground arith
