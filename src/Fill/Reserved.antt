-- ===== src/Fill/Reserved.antt =====
-- The lane of a fill that attests its reservation (src/core/fillpreflight.ts `fclaimLanePreflight`,
-- `tipDependentFillReason`): the replay of the proven events, the bound terms and the second source.
use cairn_wallet.Base.{
  ℕ, Bool, true, false, ◌&&◌, ◌||◌, not, Option, none, some, List, if◌then◌else◌,
}
use cairn_wallet.Base.Text.{Text, codes, text_eq, lower}
use cairn_wallet.Spend.Outputs.{is_hex_text}
use cairn_wallet.Spend.Submit.{starts_with, contains}
use cairn_wallet.CrossCheck
use cairn_wallet.CrossCheck.{
  Answer, second_source_offer_conflict, second_source_unanswered, reservation_record_verdict,
  ReservationVerdict, no_evidence, denied, unknown,
}
use cairn_wallet.Fill.{
  ServedOffer, ProvenTerms, ProvenEvent, FillSpvIo, SpvReply, offer_refused, body_mismatch,
  unavailable, source, FillVerdict, replay_threw, safe, not_safe, Market, OfferAnswer, pending,
  failed, answered, Reads, Verdict, refused, proceeds, fill_unsafe, verify_unavailable,
  rpc_block_mismatch, offer_source_conflict, reservation_denied, reservation_unconfirmed,
}
use cairn_wallet.Fill.Lanes.{text_of, need_refused}

-- `tipDependentFillReason`
unfoldable pub tip_dependent_fill_reason : Text → Bool
tip_dependent_fill_reason reason =
    starts_with (codes "no live claim by you") reason
    || (starts_with (codes "this fclaim is not the live granted hold") reason
        || (starts_with (codes "too close to the hold deadline") reason
            || contains (codes "not buried deep enough yet") reason))

-- `okBody`
unfoldable pub ok_body : OfferAnswer → Option CrossCheck.Offer
ok_body pending = none
ok_body failed = none
ok_body (answered true body) = body
ok_body (answered false body) = none

unfoldable pub event_height : Option ProvenEvent → Option ℕ
event_height none = none
event_height (some ev) = some ev.height

module _ (market : Market) where
  -- the end of the own hold, from the proven reservation
  unfoldable pub own_hold_end : Option ProvenEvent → Option ℕ
  own_hold_end none = none
  own_hold_end (some ev) =
      if ev.is_propose then some (market.fclaim_hold_end ev.expires_epoch) else none

  -- A reservation that the second source does not know is signed only with the acknowledgement for it.
  unfoldable pub confirm_unknown :
      (fclaim_txid : Text)
      → (ack : Option Text) → Option ProvenEvent
      → (tip_height : ℕ) → Answer
      → Verdict
  unfolding text_of
  confirm_unknown fclaim_txid ack none tip_height record_reply =
      proceeds (second_source_unanswered record_reply)
  confirm_unknown fclaim_txid ack (some ev) tip_height record_reply =
      if text_eq (lower (text_of ack)) (lower fclaim_txid)
      then proceeds (second_source_unanswered record_reply)
      else refused (reservation_unconfirmed (lower fclaim_txid) ev.height tip_height)

  unfoldable pub record_checked :
      (fclaim_txid : Text)
      → (ack : Option Text) → Option ProvenEvent
      → Answer
      → ReservationVerdict
      → Verdict
  unfolding confirm_unknown
  record_checked fclaim_txid ack ev record_reply denied = refused reservation_denied
  record_checked fclaim_txid ack ev record_reply (unknown tip_height) =
      confirm_unknown fclaim_txid ack ev tip_height record_reply
  record_checked fclaim_txid ack ev record_reply no_evidence =
      proceeds (second_source_unanswered record_reply)

  -- the second source's offer and record
  unfoldable pub second_source_checked :
      ServedOffer
      → (offer_id fclaim_txid : Text) → (ack : Option Text) → Reads
      → Option ProvenEvent
      → Verdict
  unfolding record_checked own_hold_end event_height ok_body
  second_source_checked offer offer_id fclaim_txid ack reads ev =
      elim (second_source_offer_conflict offer.paid offer.delivered (ok_body reads.second_offer)
        (record {
          offer_id = offer_id;
          fclaim_txid = fclaim_txid;
          own_hold_end = own_hold_end ev;
        })) [
          | some conflict ↦ refused offer_source_conflict
          | none ↦
              record_checked fclaim_txid ack ev reads.second_record
                (reservation_record_verdict reads.second_record fclaim_txid (event_height ev))
        ]

  module _ (offer : ServedOffer) (offer_id fclaim_txid me : Text) (sums : List (Text × ℕ)) (pay : ℕ)
      (ack : Option Text) (reads : Reads) where
    -- the terms of the proven offer against the served ones, then the outputs
    unfoldable pub terms_checked : FillSpvIo → Option ProvenTerms → Verdict
    unfolding second_source_checked
    terms_checked io none = refused verify_unavailable
    terms_checked io (some terms) =
        if market.bind_offer_terms offer terms
        then refused fill_unsafe
        else if need_refused market offer pay sums
        then refused fill_unsafe
        else second_source_checked offer offer_id fclaim_txid ack reads
            (io.proven_event fclaim_txid)

    unfoldable pub replay_checked : FillSpvIo → FillVerdict → Verdict
    unfolding terms_checked
    replay_checked io replay_threw = refused verify_unavailable
    replay_checked io (not_safe reason) =
        if io.tip_floored && tip_dependent_fill_reason reason
        then refused verify_unavailable
        else refused fill_unsafe
    replay_checked io safe = terms_checked io io.proven_terms

    -- without a count of the other holds nothing is signed
    unfoldable pub holds_checked : FillSpvIo → Option ℕ → Verdict
    unfolding replay_checked
    holds_checked io none = refused verify_unavailable
    holds_checked io (some holds) =
        replay_checked io (market.verify_fill_spv offer_id fclaim_txid me io holds pay sums)

    unfoldable pub source_checked : SpvReply → Verdict
    unfolding holds_checked
    source_checked offer_refused = refused fill_unsafe
    source_checked body_mismatch = refused rpc_block_mismatch
    source_checked unavailable = refused verify_unavailable
    source_checked (source io) = holds_checked io io.my_live_holds_at_grant

  -- `fclaimLanePreflight`
  unfoldable pub fclaim_lane :
      ServedOffer
      → (fclaim_txid me : Text) → (sums : List (Text × ℕ)) → (pay : ℕ) → (ack : Option Text) → Reads
      → Verdict
  unfolding source_checked
  fclaim_lane offer fclaim_txid me sums pay ack reads =
      if not (is_hex_text 64 (lower offer.id))
      then refused fill_unsafe
      else source_checked offer (lower offer.id) fclaim_txid me sums pay ack reads
          (reads.fill_spv (lower offer.id) fclaim_txid me offer.height)
