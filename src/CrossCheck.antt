-- ===== src/CrossCheck.antt =====
-- The second resolver's reads for a fill (src/core/offerxcheck.ts): which of its answers refuse the fill.
pub mod Evidence
use cairn_wallet.Base.{
  ℕ, ◌+◌, Bool, true, false, ◌&&◌, ◌||◌, not, Option, none, some, ltb, leb, ◌==◌, if◌then◌else◌,
}
use cairn_wallet.Base.Text.{Text, codes, text_eq, lower}
use cairn_wallet.Spend.Outputs.{is_hex_text}

-- A count of base units as served: absent, 1 to 40 digits, or anything else.
pub data Amount : Type 0 where
  absent malformed : Amount
  whole : ℕ → Amount

unfoldable pub units : Amount → Option ℕ
units absent = some 0
units malformed = none
units (whole n) = some n

-- The fields that are read. `status` and `claim_until` are `none` where they are not a text and not a safe integer;
-- heights are naturals.
pub record Offer : Type 0 where
  pub id : Text
  pub status : Option Text
  pub paid : Amount
  pub delivered : Amount
  pub claim_txid : Text
  pub claim_until : Option ℕ

pub record CrossCheckCtx : Type 0 where
  pub offer_id : Text
  pub fclaim_txid : Text
  pub own_hold_end : Option ℕ

pub data Conflict : Type 0 where
  closed more_paid more_delivered : Conflict
  held_until : ℕ → Conflict

unfoldable pub is_closed : Option Text → Bool
is_closed none = false
is_closed (some s) =
    text_eq s (codes "cancelled") || (text_eq s (codes "filled") || text_eq s (codes "expired"))

-- `units(p[k]) ?? 0n`
or_zero : Option ℕ → ℕ
or_zero none = 0
or_zero (some n) = n

exceeds_units : Option ℕ → ℕ → Bool
exceeds_units none p = false
exceeds_units (some s) p = ltb p s

-- the body of the loop over `paid` and `delivered`
unfoldable pub exceeds : Amount → Amount → Bool
unfolding units or_zero exceeds_units
exceeds absent p = false
exceeds s p = exceeds_units (units s) (or_zero (units p))

-- a hold that ends after ours
outlasts : Option ℕ → Option ℕ → Option ℕ
outlasts (some until) (some end) = if ltb end until then some until else none
outlasts _ _ = none

unfoldable pub other_hold : Offer → CrossCheckCtx → Option Conflict
unfolding outlasts
other_hold s ctx =
    if is_hex_text 64 (lower s.claim_txid)
      && not (text_eq (lower s.claim_txid) (lower ctx.fclaim_txid))
    then elim (outlasts s.claim_until ctx.own_hold_end) [
      | none ↦ none
      | some until ↦ some (held_until until)
    ]
    else none

-- `paid` and `delivered` are what the primary served; an absent offer counts as none of either.
unfoldable pub second_source_offer_conflict :
    (paid delivered : Amount) → Option Offer → CrossCheckCtx → Option Conflict
unfolding is_closed exceeds other_hold
second_source_offer_conflict paid delivered none ctx = none
second_source_offer_conflict paid delivered (some s) ctx =
    if not (text_eq (lower s.id) (lower ctx.offer_id))
    then none
    else if is_closed s.status
    then some closed
    else if exceeds s.paid paid
    then some more_paid
    else if exceeds s.delivered delivered
    then some more_delivered
    else other_hold s ctx

-- A record of the second resolver.
pub record RecordBody : Type 0 where
  pub is_fclaim : Bool
  -- `applied === false`
  pub denied : Bool
  pub txid : Option Text
  pub tip_height : Option ℕ

pub data Answer : Type 0 where
  pending failed : Answer
  -- `body` is `none` where it is not a JSON object
  answered : (status : ℕ) (body : Option RecordBody) → Answer

pub data Unanswered : Type 0 where
  still_pending has_failed : Unanswered

unfoldable pub second_source_unanswered : Answer → Option Unanswered
second_source_unanswered pending = some still_pending
second_source_unanswered failed = some has_failed
second_source_unanswered (answered status none) = some has_failed
second_source_unanswered (answered status (some b)) =
    if status == 200 || status == 404 then none else some has_failed

abbrev pub record_lag_margin : ℕ
record_lag_margin = 12

pub data ReservationVerdict : Type 0 where
  no_evidence denied : ReservationVerdict
  unknown : (tip_height : ℕ) → ReservationVerdict

is_own : Option Text → Text → Bool
is_own none id = false
is_own (some t) id = text_eq (lower t) (lower id)

lagging : Option ℕ → Option ℕ → ReservationVerdict
lagging (some tip) (some h) = if leb (h + record_lag_margin) tip then unknown tip else no_evidence
lagging _ _ = no_evidence

unfoldable pub reservation_record_verdict :
    Answer → (fclaim_txid : Text) (proven_height : Option ℕ) → ReservationVerdict
unfolding is_own lagging
reservation_record_verdict (answered status (some b)) fclaim_txid proven_height =
    if status == 200
    then (if b.is_fclaim && (b.denied && is_own b.txid fclaim_txid) then denied else no_evidence)
    else if status == 404
    then lagging b.tip_height proven_height
    else no_evidence
reservation_record_verdict _ fclaim_txid proven_height = no_evidence
