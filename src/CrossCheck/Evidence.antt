-- ===== src/CrossCheck/Evidence.antt =====
-- A second source refuses a fill only on evidence (src/core/offerxcheck.ts).
use cairn_wallet.Base.{ℕ, ◌<◌, ◌≡◌, ◌≢◌, refl, true, Option, none, some, arith}
use cairn_wallet.Base.Text.{lower, eq_of_text_eq, text_eq_iff}
use cairn_wallet.CrossCheck.{
  Amount, absent, malformed, whole, units, Offer, CrossCheckCtx, Conflict, closed, more_paid,
  more_delivered, held_until, is_closed, exceeds, exceeds_units, or_zero, outlasts, other_hold,
  second_source_offer_conflict,
}

-- What the reply must show for each refusal.
pub IsShown : Offer → CrossCheckCtx → (paid delivered : Amount) → Conflict → Type 0
IsShown s ctx paid delivered closed = is_closed s.status ≡ true
IsShown s ctx paid delivered more_paid =
    (n : ℕ) × (s.paid ≡ whole n) × ((m : ℕ) → paid ≡ whole m → m < n)
IsShown s ctx paid delivered more_delivered =
    (n : ℕ) × (s.delivered ≡ whole n) × ((m : ℕ) → delivered ≡ whole m → m < n)
IsShown s ctx paid delivered (held_until h) =
    (end : ℕ) × (ctx.own_hold_end ≡ some end)
    × (s.claim_until ≡ some h)
    × (end < h)
    × (lower s.claim_txid ≢ lower ctx.fclaim_txid)

exceeds_shown :
    (s p : Amount) → exceeds s p ≡ true → (n : ℕ) × (s ≡ whole n) × ((m : ℕ) → p ≡ whole m → m < n)
unfolding exceeds units exceeds_units or_zero
exceeds_shown absent p h = absurd (cc)
exceeds_shown malformed p h = absurd (cc)
exceeds_shown (whole n) p h = (n, refl, λ m e. ground arith)

outlasts_shown :
    (a b : Option ℕ) (h : ℕ)
    → outlasts a b ≡ some h
    → (end : ℕ) × (b ≡ some end) × (a ≡ some h) × (end < h)
unfolding outlasts
outlasts_shown none b h e = absurd (cc)
outlasts_shown (some a) none h e = absurd (cc)
outlasts_shown (some a) (some b) h e = (b, refl, ground arith, ground arith)

other_hold-IsShown :
    (s : Offer) (ctx : CrossCheckCtx) (paid delivered : Amount) (c : Conflict)
    → other_hold s ctx ≡ some c
    → IsShown s ctx paid delivered c
unfolding other_hold IsShown
other_hold-IsShown s ctx paid delivered closed h = absurd (ground arith)
other_hold-IsShown s ctx paid delivered more_paid h = absurd (ground arith)
other_hold-IsShown s ctx paid delivered more_delivered h = absurd (ground arith)
other_hold-IsShown s ctx paid delivered (held_until u) h =
    let e : outlasts s.claim_until ctx.own_hold_end ≡ some u = ground arith in
    let (end, a, b, lt) = outlasts_shown s.claim_until ctx.own_hold_end u e in
    (
      end,
      a,
      b,
      lt,
      λ q. ground (arith, (text_eq_iff (lower s.claim_txid) (lower ctx.fclaim_txid)).1 q),
    )

conflict-IsShown :
    (s : Offer) (ctx : CrossCheckCtx) (paid delivered : Amount) (c : Conflict)
    → second_source_offer_conflict paid delivered (some s) ctx ≡ some c
    → IsShown s ctx paid delivered c
unfolding second_source_offer_conflict IsShown
conflict-IsShown s ctx paid delivered c h = ground (
  arith,
  exceeds_shown s.paid paid,
  exceeds_shown s.delivered delivered,
  other_hold-IsShown s ctx paid delivered c,
)

-- The second source's offer refuses a fill only where it is the offer in question and shows the reason: a closed
-- status, more paid or delivered than the primary served, or another reservation that outlasts ours.
pub second_source_offer_conflict-IsShown :
    (paid delivered : Amount) (o : Option Offer) (ctx : CrossCheckCtx) (c : Conflict)
    → second_source_offer_conflict paid delivered o ctx ≡ some c
    → (s : Offer) × (o ≡ some s)
      × (lower s.id ≡ lower ctx.offer_id)
      × IsShown s ctx paid delivered c
unfolding second_source_offer_conflict IsShown
second_source_offer_conflict-IsShown paid delivered none ctx c h = absurd (cc)
second_source_offer_conflict-IsShown paid delivered (some s) ctx c h = (
  s,
  refl,
  ground (arith, eq_of_text_eq (lower s.id) (lower ctx.offer_id)),
  conflict-IsShown s ctx paid delivered c h,
)
