-- ===== src/Fill/Backed.antt =====
-- What a fill that passes the preflight rests on (src/core/fillpreflight.ts): the proven record, the paid legs and the
-- reviewed debit, whatever the resolver, the node and the second source answer.
pub mod Offer
pub mod Hold
pub mod Whole
use cairn_wallet.Base.{
  ℕ, ◌+◌, ◌≡◌, ◌≢◌, ◌≤◌, ◌<◌, ◌⊎◌, refl, inl, inr, sym, ◌∙◌, Bool, true, false, ◌&&◌, ◌||◌, not,
  Option, none, some, List, [], ◌∷◌, max, ltb, leb, All, arith, Bool-cases, Option-cases,
  if◌then◌else◌,
}
use mathlib.Core.Option.{some-injective}
use cairn_wallet.Base.Text.{Text, codes, text_eq, eq_of_text_eq, lower}
use cairn_wallet.Js.{Num, is_safe, is_positive}
use cairn_wallet.Spend.Outputs.{Payout}
use cairn_wallet.Vault.Accounts.{decimal}
use cairn_wallet.CrossCheck.{
  Unanswered, Answer, second_source_offer_conflict, reservation_record_verdict, ReservationVerdict,
  no_evidence, denied, unknown,
}
use cairn_wallet.Fill.{
  ServedOffer, ProvenTerms, ProvenOffer, ProvenEvent, FillSpvIo, ProvenReply, read_threw, unproven,
  not_admitted, proven, SpvReply, offer_refused, body_mismatch, unavailable, source, FillVerdict,
  replay_threw, safe, not_safe, Market, OfferReply, unreachable, answered, Reads, TokenFillQuote,
  Refusal, Verdict, threw, refused, proceeds,
}
use cairn_wallet.Fill.Sums.{
  sum_at, sums_from, is_underpaid, paid_to, sum_at-paid_to, sums_from-nil, All-positive, All-paid,
}
use cairn_wallet.Fill.Lanes.{
  text_of, is_given, big_int, offer_fill_too_late, is_expired_at, offer_expiry_refusal,
  need_refused, csd_checked, quote_bps, fee_refused, give_refused, is_reviewed, quote_checked,
  token_checked, token_lane,
}
use cairn_wallet.Fill.Reserved.{
  ok_body, event_height, own_hold_end, confirm_unknown, record_checked, second_source_checked,
  terms_checked, replay_checked, holds_checked, source_checked, fclaim_lane,
}

-- The outputs pay `pay` to the served recipient, and every leg that the market rules require for it.
pub record IsWellPaid (market : Market) (offer : ServedOffer) (outputs : List Payout) (pay : ℕ)
    : Type 0 where
  pub is_sum : pay ≡ paid_to (lower offer.payto) outputs
  pub need : List (Text × ℕ)
  pub is_need : market.required_fill_outputs offer pay ≡ some need
  pub each : All (λ (n : Text × ℕ). n.1 ≤ paid_to n.0 outputs) need

-- The offer can still be mined in time, by the node's tip and by the floor of the proof of work.
abbrev pub IsInTime : Market → (at : ℕ) → ProvenOffer → Type 0
IsInTime market at p =
    (e : ℕ)
    → p.expires_epoch ≡ some e
    → 0 < at
    → at + market.fill_tip_margin < market.offer_expiry_height e p.height

-- past a refusal
pub past_refusal :
    (b : Bool) (r : Refusal) (v : Verdict) (n : Option Unanswered)
    → (if b then refused r else v) ≡ proceeds n
    → (b ≡ false) × (v ≡ proceeds n)
past_refusal true r v n h = absurd (cc)
past_refusal false r v n h = (refl, h)

pub not-false : (b : Bool) → not b ≡ false → b ≡ true
not-false true h = refl
not-false false h = absurd (cc)

pub ||-false : (a b : Bool) → (a || b) ≡ false → (a ≡ false) × (b ≡ false)
||-false true b h = absurd (cc)
||-false false b h = (refl, h)

-- a text whose comparison did not refuse
pub eq_of_not_eq : (s t : Text) → not (text_eq s t) ≡ false → s ≡ t
eq_of_not_eq s t h = eq_of_text_eq s t (not-false (text_eq s t) h)

module _ (market : Market) where
  pub need_refused-IsWellPaid :
      (offer : ServedOffer) (outputs : List Payout) (sums : List (Text × ℕ))
      → sums_from [] outputs ≡ some sums
      → need_refused market offer (sum_at (lower offer.payto) sums) sums ≡ false
      → IsWellPaid market offer outputs (sum_at (lower offer.payto) sums)
  unfolding need_refused
  need_refused-IsWellPaid offer outputs sums s h =
      let pay = sum_at (lower offer.payto) sums in
      elim (Option-cases (market.required_fill_outputs offer pay)) [
        | inl e ↦ absurd (ground (arith, e, h))
        | inr (need, e) ↦ record {
          is_sum = sum_at-paid_to (lower offer.payto) outputs sums s;
          need = need;
          is_need = e;
          each = All-paid outputs sums need s (ground (arith, e, h));
        }
      ]

  pub offer_expiry_refusal-IsInTime :
      (tip_floor tip : ℕ) (p : ProvenOffer)
      → offer_expiry_refusal market tip_floor p tip ≡ false
      → IsInTime market (max tip tip_floor) p
  unfolding offer_expiry_refusal is_expired_at offer_fill_too_late
  offer_expiry_refusal-IsInTime tip_floor tip p h e f pos = ground (arith, h, f, pos)
