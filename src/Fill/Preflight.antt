-- ===== src/Fill/Preflight.antt =====
-- What the wallet checks before it signs a fill (src/core/fillpreflight.ts `fillOfferPreflight`).
use cairn_wallet.Base.{
  ℕ, ◌+◌, Bool, true, false, ◌&&◌, not, Option, none, some, List, [], max, leb, ◌==◌, if◌then◌else◌,
}
use cairn_wallet.Base.Text.{Text, codes, text_eq, lower}
use cairn_wallet.Spend.Outputs.{Payout, is_hex_text}
use cairn_wallet.Fill.{
  ServedOffer, Market, OfferReply, unreachable, answered, Reads, TokenFillQuote, Verdict, refused,
  bad_request, bad_outputs, fill_unsafe, fill_wrong_target, fill_legacy_sunset, verify_unavailable,
  offer_unknown,
}
use cairn_wallet.Fill.Sums.{sum_at, sums_from}
use cairn_wallet.Fill.Lanes.{csd_checked, token_lane}
use cairn_wallet.Fill.Reserved.{fclaim_lane}

-- The offer that was read, and whether the read failed; a 404 is no failure.
unfoldable pub read_offer : OfferReply → Option ServedOffer × Bool
read_offer unreachable = (none, true)
read_offer (answered true status body) = (body, false)
read_offer (answered false status body) = (none, not (status == 404))

unfoldable pub or_zero : Option ℕ → ℕ
or_zero none = 0
or_zero (some n) = n

module _ (market : Market) where
  -- the first height at which no offer-id fill of an open offer is delivered
  unfoldable pub sunset : ℕ
  sunset = market.v28_height + market.claim_window_blocks + market.claim_fill_grace_blocks

  module _ (reads : Reads) (me : Text) (outputs : List Payout) (quote : Option TokenFillQuote)
      (ack : Option Text) where
    -- a fill that attests the offer itself
    unfoldable pub offer_id_lane : ServedOffer → (sums : List (Text × ℕ)) → (pay tip : ℕ) → Verdict
    unfolding csd_checked token_lane
    offer_id_lane offer sums pay tip =
        let is_open_csd = not offer.has_taker && not offer.token_want in
        if offer.has_claim_txid && market.has_live_claim offer me tip
        then refused fill_wrong_target
        else if is_open_csd && leb sunset (max tip reads.tip_floor)
        then refused fill_legacy_sunset
        else if is_open_csd && not (market.is_open_claim_lane offer tip)
        then refused verify_unavailable
        else if not (market.fill_is_safe offer me pay tip)
        then refused fill_unsafe
        else if offer.token_want
        then token_lane market reads.tip_floor_later offer sums tip quote
            (reads.proven_offer (lower offer.id) offer.height)
        else csd_checked market reads.tip_floor_later offer sums (lower offer.payto) pay tip
            (reads.proven_offer (lower offer.id) offer.height)

    -- The lane is chosen by the target alone.
    unfoldable pub lane_checked :
        (proposal_id : Text) → ServedOffer → Option (List (Text × ℕ)) → Verdict
    unfolding offer_id_lane fclaim_lane sum_at or_zero
    lane_checked proposal_id offer none = refused bad_outputs
    lane_checked proposal_id offer (some sums) =
        if not (text_eq (lower proposal_id) (lower offer.id))
        then fclaim_lane market offer proposal_id me sums (sum_at (lower offer.payto) sums) ack
            reads
        else offer_id_lane offer sums (sum_at (lower offer.payto) sums) (or_zero reads.tip)

    unfoldable pub status_checked :
        (proposal_id : Text) → (fetch_failed : Bool) → ServedOffer → Option Text → Verdict
    unfolding lane_checked
    status_checked proposal_id true offer none = refused verify_unavailable
    status_checked proposal_id false offer none = refused offer_unknown
    status_checked proposal_id fetch_failed offer (some status) =
        if not (text_eq status (codes "open"))
        then refused fill_unsafe
        else lane_checked proposal_id offer (sums_from [] outputs)

    unfoldable pub offer_checked : (proposal_id : Text) → Option ServedOffer × Bool → Verdict
    unfolding status_checked
    offer_checked proposal_id (none, true) = refused verify_unavailable
    offer_checked proposal_id (none, false) = refused offer_unknown
    offer_checked proposal_id (some offer, fetch_failed) =
        status_checked proposal_id fetch_failed offer offer.status

    -- `fillOfferPreflight`
    unfoldable pub fill_offer_preflight : (proposal_id : Text) → Verdict
    unfolding offer_checked read_offer
    fill_offer_preflight proposal_id =
        if not (is_hex_text 64 proposal_id)
        then refused bad_request
        else offer_checked proposal_id (read_offer reads.offer)
