-- ===== src/Fill/Backed/Hold.antt =====
-- The lane that attests the reservation: what a fill that passes it rests on (src/core/fillpreflight.ts
-- `fclaimLanePreflight`).
use cairn_wallet.Base.{
  ℕ, ◌≡◌, ◌≢◌, refl, inl, inr, false, Option, none, some, List, [], arith, Bool-cases, Option-cases,
}
use cairn_wallet.Base.Text.{Text, text_eq, eq_of_text_eq, lower}
use cairn_wallet.Spend.Outputs.{Payout}
use cairn_wallet.CrossCheck.{
  Unanswered, second_source_offer_conflict, reservation_record_verdict, ReservationVerdict,
  no_evidence, denied, unknown,
}
use cairn_wallet.Fill.{
  ServedOffer, ProvenTerms, ProvenEvent, FillSpvIo, SpvReply, offer_refused, body_mismatch,
  unavailable, source, FillVerdict, replay_threw, safe, not_safe, Market, Reads, proceeds,
}
use cairn_wallet.Fill.Sums.{sum_at, sums_from}
use cairn_wallet.Fill.Lanes.{text_of}
use cairn_wallet.Fill.Reserved.{
  ok_body, event_height, own_hold_end, confirm_unknown, record_checked, second_source_checked,
  terms_checked, replay_checked, source_checked, fclaim_lane,
}
use cairn_wallet.Fill.Backed.{IsWellPaid, past_refusal, need_refused-IsWellPaid}

module _ (market : Market) (offer : ServedOffer) (fclaim_txid me : Text) (ack : Option Text)
    (reads : Reads) where
  -- The second source shows no conflict and no denial, and where it has read past a reservation that it does not know,
  -- the user acknowledged this one.
  pub record IsUncontested (ev : Option ProvenEvent) : Type 0 where
    pub no_conflict :
        second_source_offer_conflict offer.paid offer.delivered
          (ok_body reads.second_offer)
          (record {
            offer_id = lower offer.id;
            fclaim_txid = fclaim_txid;
            own_hold_end = own_hold_end market ev;
          })
        ≡ none
    pub not_denied :
        reservation_record_verdict reads.second_record fclaim_txid (event_height ev) ≢ denied
    pub acknowledged :
        (tip_height : ℕ) (e : ProvenEvent)
        → ev ≡ some e
        → reservation_record_verdict reads.second_record fclaim_txid (event_height ev)
          ≡ unknown tip_height
        → lower (text_of ack) ≡ lower fclaim_txid

  -- The replay of the proven events, with the count of the other holds, finds exactly these sums safe; the served terms
  -- are the proven ones, every leg is paid, and the second source does not contest it.
  pub record IsReserved (outputs : List Payout) (sums : List (Text × ℕ)) : Type 0 where
    pub proof : FillSpvIo
    pub is_proof : reads.fill_spv (lower offer.id) fclaim_txid me offer.height ≡ source proof
    pub holds : ℕ
    pub is_counted : proof.my_live_holds_at_grant ≡ some holds
    pub is_safe :
        market.verify_fill_spv
          (lower offer.id)
          fclaim_txid
          me
          proof
          holds
          (sum_at (lower offer.payto) sums)
          sums
        ≡ safe
    pub terms : ProvenTerms
    pub is_proven : proof.proven_terms ≡ some terms
    pub is_bound : market.bind_offer_terms offer terms ≡ false
    pub well_paid : IsWellPaid market offer outputs (sum_at (lower offer.payto) sums)
    pub uncontested : IsUncontested (proof.proven_event fclaim_txid)

  module _ (n : Option Unanswered) where
    confirm_unknown-acknowledged :
        (ev : Option ProvenEvent) (tip_height : ℕ) (e : ProvenEvent)
        → confirm_unknown market fclaim_txid ack ev tip_height reads.second_record ≡ proceeds n
        → ev ≡ some e
        → lower (text_of ack) ≡ lower fclaim_txid
    unfolding confirm_unknown
    confirm_unknown-acknowledged none tip_height e h f = absurd (cc)
    confirm_unknown-acknowledged (some ev) tip_height e h f =
        elim (Bool-cases (text_eq (lower (text_of ack)) (lower fclaim_txid))) [
          | inl t ↦ eq_of_text_eq _ _ t
          | inr t ↦ absurd (ground (arith, h, t))
        ]

    record_checked-IsUncontested :
        (ev : Option ProvenEvent) (v : ReservationVerdict)
        → reservation_record_verdict reads.second_record fclaim_txid (event_height ev) ≡ v
        → second_source_offer_conflict offer.paid offer.delivered
            (ok_body reads.second_offer)
            (record {
              offer_id = lower offer.id;
              fclaim_txid = fclaim_txid;
              own_hold_end = own_hold_end market ev;
            })
          ≡ none
        → record_checked market fclaim_txid ack ev reads.second_record v ≡ proceeds n
        → IsUncontested ev
    unfolding record_checked
    record_checked-IsUncontested ev denied f c h = absurd (cc)
    record_checked-IsUncontested ev no_evidence f c h = record {
      no_conflict = c;
      not_denied = λ d. absurd (cc);
      acknowledged = λ tip_height e g d. absurd (cc);
    }
    record_checked-IsUncontested ev (unknown t) f c h = record {
      no_conflict = c;
      not_denied = λ d. absurd (cc);
      acknowledged = λ tip_height e g d. confirm_unknown-acknowledged ev t e h g;
    }

    second_source_checked-IsUncontested :
        (ev : Option ProvenEvent)
        → second_source_checked market offer (lower offer.id) fclaim_txid ack reads ev ≡ proceeds n
        → IsUncontested ev
    unfolding second_source_checked
    second_source_checked-IsUncontested ev h =
        elim (Option-cases (
          second_source_offer_conflict offer.paid offer.delivered (ok_body reads.second_offer)
            (record {
              offer_id = lower offer.id;
              fclaim_txid = fclaim_txid;
              own_hold_end = own_hold_end market ev;
            }))) [
              | inr (c, e) ↦ absurd (ground (arith, e, h))
              | inl e ↦
                  record_checked-IsUncontested ev
                    (reservation_record_verdict reads.second_record fclaim_txid (event_height ev))
                    refl e (ground (arith, e, h))
            ]

    module _ (outputs : List Payout) (sums : List (Text × ℕ))
        (summed : sums_from [] outputs ≡ some sums) where
      abbrev pay : ℕ
      pay = sum_at (lower offer.payto) sums

      terms_checked-IsReserved :
          (io : FillSpvIo) (holds : ℕ) (t : Option ProvenTerms)
          → reads.fill_spv (lower offer.id) fclaim_txid me offer.height ≡ source io
          → io.my_live_holds_at_grant ≡ some holds
          → market.verify_fill_spv (lower offer.id) fclaim_txid me io holds pay sums ≡ safe
          → io.proven_terms ≡ t
          → terms_checked market offer (lower offer.id) fclaim_txid me sums pay ack reads io t
            ≡ proceeds n
          → IsReserved outputs sums
      unfolding terms_checked
      terms_checked-IsReserved io holds none r c v p h = absurd (cc)
      terms_checked-IsReserved io holds (some terms) r c v p h =
          let (a, h1) = past_refusal _ _ _ n h in
          let (b, h2) = past_refusal _ _ _ n h1 in
          record {
            proof = io;
            is_proof = r;
            holds = holds;
            is_counted = c;
            is_safe = v;
            terms = terms;
            is_proven = p;
            is_bound = a;
            well_paid = need_refused-IsWellPaid market offer outputs sums summed b;
            uncontested = second_source_checked-IsUncontested (io.proven_event fclaim_txid) h2;
          }

      replay_checked-IsReserved :
          (io : FillSpvIo) (holds : ℕ) (v : FillVerdict)
          → reads.fill_spv (lower offer.id) fclaim_txid me offer.height ≡ source io
          → io.my_live_holds_at_grant ≡ some holds
          → market.verify_fill_spv (lower offer.id) fclaim_txid me io holds pay sums ≡ v
          → replay_checked market offer (lower offer.id) fclaim_txid me sums pay ack reads io v
            ≡ proceeds n
          → IsReserved outputs sums
      unfolding replay_checked
      replay_checked-IsReserved io holds replay_threw r c v h = absurd (cc)
      replay_checked-IsReserved io holds (not_safe reason) r c v h = absurd (ground (arith, h))
      replay_checked-IsReserved io holds safe r c v h =
          terms_checked-IsReserved io holds io.proven_terms r c v refl h

      source_checked-IsReserved :
          (r : SpvReply)
          → reads.fill_spv (lower offer.id) fclaim_txid me offer.height ≡ r
          → source_checked market offer (lower offer.id) fclaim_txid me sums pay ack reads r
            ≡ proceeds n
          → IsReserved outputs sums
      unfolding source_checked
      source_checked-IsReserved offer_refused e h = absurd (cc)
      source_checked-IsReserved body_mismatch e h = absurd (cc)
      source_checked-IsReserved unavailable e h = absurd (cc)
      source_checked-IsReserved (source io) e h = elim (Option-cases io.my_live_holds_at_grant) [
        | inl f ↦ absurd (ground (arith, f, h))
        | inr (holds, f) ↦ replay_checked-IsReserved io holds _ e f refl (ground (arith, f, h))
      ]

      pub fclaim_lane-IsReserved :
          fclaim_lane market offer fclaim_txid me sums pay ack reads ≡ proceeds n
          → IsReserved outputs sums
      unfolding fclaim_lane
      fclaim_lane-IsReserved h =
          let (a, h1) = past_refusal _ _ _ n h in
          source_checked-IsReserved (reads.fill_spv (lower offer.id) fclaim_txid me offer.height)
            refl h1
