-- ===== src/Fill/Backed/Whole.antt =====
-- The whole preflight (src/core/fillpreflight.ts `fillOfferPreflight`).
use cairn_wallet.Base.{
  ℕ, ◌≡◌, ◌<◌, ◌⊎◌, refl, ap, inl, inr, Bool, true, false, ◌&&◌, not, Option, none, some, List, [],
  max, leb, All, arith, Bool-cases, if◌then◌else◌,
}
use cairn_wallet.Base.Text.{Text, codes, text_eq, eq_of_text_eq, lower}
use cairn_wallet.Js.{is_safe, is_positive}
use cairn_wallet.Spend.Outputs.{Payout, is_hex_text}
use cairn_wallet.CrossCheck.{Unanswered}
use cairn_wallet.Fill.{ServedOffer, Market, Reads, TokenFillQuote, proceeds, fill_unsafe}
use cairn_wallet.Fill.Sums.{sum_at, sums_from, sum_at-paid_to, paid_to, All-positive}
use cairn_wallet.Fill.Lanes.{csd_checked, token_lane}
use cairn_wallet.Fill.Preflight.{
  read_offer, or_zero, sunset, offer_id_lane, lane_checked, status_checked, offer_checked,
  fill_offer_preflight,
}
use cairn_wallet.Fill.Backed.{past_refusal, not-false, eq_of_not_eq}
use cairn_wallet.Fill.Backed.Offer.{
  IsAuthored, IsTokenOnly, csd_checked-IsAuthored, token_lane-IsTokenOnly,
}
use cairn_wallet.Fill.Backed.Hold.{IsReserved, fclaim_lane-IsReserved}

module _ (market : Market) (reads : Reads) (me : Text) (outputs : List Payout)
    (quote : Option TokenFillQuote) (ack : Option Text) where
  -- The vendored rule finds this payment safe for this account; the offer has no live reservation of the account; an open
  -- offer in CSD is before the sunset, by the node's tip and by the floor, and its claim lane is active; and the offer is
  -- proven, as one in CSD or as one in tokens.
  pub record IsDirect (offer : ServedOffer) (pay tip : ℕ) : Type 0 where
    pub is_safe : market.fill_is_safe offer me pay tip ≡ true
    pub no_hold : (offer.has_claim_txid && market.has_live_claim offer me tip) ≡ false
    pub before_sunset :
        offer.has_taker ≡ false
        → offer.token_want ≡ false
        → (tip < sunset market)
          × (reads.tip_floor < sunset market)
          × (market.is_open_claim_lane offer tip ≡ true)
    pub is_proven :
        ((offer.token_want ≡ false)
          × IsAuthored market offer outputs pay
              (max tip reads.tip_floor_later)
              (reads.proven_offer (lower offer.id) offer.height))
        ⊎ ((offer.token_want ≡ true)
            × IsTokenOnly market offer outputs quote
                (max tip reads.tip_floor_later)
                (reads.proven_offer (lower offer.id) offer.height))

  -- The resolver serves an open offer, every output is a positive safe integer, and the fill attests either a reservation
  -- whose proof stands, or the offer itself.
  pub record IsBacked (proposal_id : Text) : Type 0 where
    pub offer : ServedOffer
    pub is_served : (read_offer reads.offer).0 ≡ some offer
    pub is_open : offer.status ≡ some (codes "open")
    pub each_positive :
        All (λ (o : Payout). (is_safe o.value && is_positive o.value) ≡ true) outputs
    pub sums : List (Text × ℕ)
    pub are_sums : (a : Text) → sum_at a sums ≡ paid_to a outputs
    pub lane :
        IsReserved market offer proposal_id me ack reads outputs sums
        ⊎ ((lower proposal_id ≡ lower offer.id)
            × IsDirect offer (sum_at (lower offer.payto) sums) (or_zero reads.tip))

  module _ (n : Option Unanswered) where
    offer_id_lane-IsDirect :
        (offer : ServedOffer) (sums : List (Text × ℕ)) (tip : ℕ)
        → sums_from [] outputs ≡ some sums
        → offer_id_lane market reads me outputs quote ack offer sums
            (sum_at (lower offer.payto) sums)
            tip
          ≡ proceeds n
        → IsDirect offer (sum_at (lower offer.payto) sums) tip
    unfolding offer_id_lane
    offer_id_lane-IsDirect offer sums tip s h =
        let (a, h1) = past_refusal _ _ _ n h in
        let is_open_csd = not offer.has_taker && not offer.token_want in
        let pay = sum_at (lower offer.payto) sums in
        let reply = reads.proven_offer (lower offer.id) offer.height in
        let (b, h2) =
          past_refusal (is_open_csd && leb (sunset market) (max tip reads.tip_floor)) _ _ n h1 in
        let (c, h3) =
          past_refusal (is_open_csd && not (market.is_open_claim_lane offer tip)) _ _ n h2 in
        let (d, h4) =
          past_refusal (not (market.fill_is_safe offer me pay tip)) fill_unsafe
            (if offer.token_want
              then token_lane market reads.tip_floor_later offer sums tip quote reply
              else csd_checked market reads.tip_floor_later offer sums (lower offer.payto) pay tip
                  reply)
            n h3 in
        record {
          is_safe = not-false _ d;
          no_hold = a;
          before_sunset =
              λ t w. (ground (arith, b, t, w), ground (arith, b, t, w), ground (arith, c, t, w));
          is_proven = elim (Bool-cases offer.token_want) [
            | inl w ↦ inr (
              w,
              token_lane-IsTokenOnly market offer outputs reads.tip_floor_later tip n quote sums _ s
                  (ground (arith, w, h4)),
            )
            | inr w ↦ inl (
              w,
              csd_checked-IsAuthored market offer outputs reads.tip_floor_later tip n sums _ s
                  (ground (arith, w, h4)),
            )
          ];
        }

    lane_checked-IsBacked :
        (proposal_id : Text) (offer : ServedOffer) (o : Option (List (Text × ℕ)))
        → sums_from [] outputs ≡ o
        → (read_offer reads.offer).0 ≡ some offer
        → offer.status ≡ some (codes "open")
        → lane_checked market reads me outputs quote ack proposal_id offer o ≡ proceeds n
        → IsBacked proposal_id
    unfolding lane_checked
    lane_checked-IsBacked proposal_id offer none s r e h = absurd (cc)
    lane_checked-IsBacked proposal_id offer (some sums) s r e h = record {
      offer = offer;
      is_served = r;
      is_open = e;
      each_positive = All-positive [] outputs sums s;
      sums = sums;
      are_sums = λ a. sum_at-paid_to a outputs sums s;
      lane = elim (Bool-cases (text_eq (lower proposal_id) (lower offer.id))) [
        | inl t ↦ inr (
          eq_of_text_eq _ _ t,
          offer_id_lane-IsDirect offer sums (or_zero reads.tip) s (ground (arith, t, h)),
        )
        | inr t ↦ inl (
            fclaim_lane-IsReserved market offer proposal_id me ack reads n outputs sums s
              (ground (arith, t, h)))
      ];
    }

    status_checked-IsBacked :
        (proposal_id : Text) (b : Bool) (offer : ServedOffer) (o : Option Text)
        → offer.status ≡ o
        → (read_offer reads.offer).0 ≡ some offer
        → status_checked market reads me outputs quote ack proposal_id b offer o ≡ proceeds n
        → IsBacked proposal_id
    unfolding status_checked
    status_checked-IsBacked proposal_id true offer none e r h = absurd (cc)
    status_checked-IsBacked proposal_id false offer none e r h = absurd (cc)
    status_checked-IsBacked proposal_id b offer (some status) e r h =
        let (a, h1) = past_refusal _ _ _ n h in
        let same : status ≡ codes "open" = eq_of_not_eq _ _ a in
        lane_checked-IsBacked proposal_id offer _ refl r (rw e (ap some same)) h1

    offer_checked-IsBacked :
        (proposal_id : Text) (r : Option ServedOffer × Bool)
        → read_offer reads.offer ≡ r
        → offer_checked market reads me outputs quote ack proposal_id r ≡ proceeds n
        → IsBacked proposal_id
    unfolding offer_checked
    offer_checked-IsBacked proposal_id (none, true) e h = absurd (cc)
    offer_checked-IsBacked proposal_id (none, false) e h = absurd (cc)
    offer_checked-IsBacked proposal_id (some offer, b) e h =
        status_checked-IsBacked proposal_id b offer offer.status refl
          (ap (λ (p : Option ServedOffer × Bool). p.0) e) h

    -- A fill that the preflight lets through has a well-formed target and rests on a served open offer, outputs that are
    -- positive safe integers, and a proof for its lane: of the reservation, or of the offer with the payment in CSD or
    -- the debit in tokens that it names; whatever the resolver, the node and the second source answer.
    pub fill_offer_preflight-IsBacked :
        (proposal_id : Text)
        → fill_offer_preflight market reads me outputs quote ack proposal_id ≡ proceeds n
        → (is_hex_text 64 proposal_id ≡ true) × IsBacked proposal_id
    unfolding fill_offer_preflight
    fill_offer_preflight-IsBacked proposal_id h =
        let (a, h1) = past_refusal _ _ _ n h in
        (not-false _ a, offer_checked-IsBacked proposal_id (read_offer reads.offer) refl h1)
