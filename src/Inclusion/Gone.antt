-- ===== src/Inclusion/Gone.antt =====
-- When a row is shown as gone (src/core/inclusion.ts `goneStep`).
use cairn_wallet.Base.{
  ℕ, ◌<◌, ◌≡◌, true, some, List, [], ◌∷◌, arith, inl, inr, Bool-cases, Option-cases,
}
use cairn_wallet.Base.Eq.{nat_eq, has}
use cairn_wallet.Inclusion.{
  Row, Reading, was_spent, was_open, gone_step, after_readings, untouched, first_tip,
}

-- the tips of the readings since the last `open`
pub streak : List (Reading × ℕ) → List ℕ
streak [] = []
streak ((was_open, tip) ∷ older) = []
streak ((was_spent, tip) ∷ older) = tip ∷ streak older

-- What the row remembers of its readings.
pub record IsBacked (h : List (Reading × ℕ)) (row : Row) : Type 0 where
  pub tip_read : (t : ℕ) → row.gone_tip ≡ some t → has t (streak h) ≡ true
  pub gone_later :
      row.gone ≡ true
      → (a : ℕ) × (b : ℕ) × (has a (streak h) ≡ true) × (has b (streak h) ≡ true) × (a < b)

step-IsBacked :
    (h : List (Reading × ℕ)) (row : Row) (r : Reading) (tip : ℕ)
    → IsBacked h row
    → IsBacked ((r, tip) ∷ h) (gone_step row r tip).1
unfolding gone_step untouched first_tip streak has
step-IsBacked h row was_open tip b = record {
  tip_read = λ t e. ground arith;
  gone_later = λ e. absurd (ground arith);
}
step-IsBacked h row was_spent tip b = elim (Option-cases row.gone_tip) [
  | inl f ↦ record {
    tip_read = λ t e. ground arith;
    gone_later = λ e.
        let (x, y, p, q, lt) = b.gone_later (ground arith) in
        (x, y, ground arith, ground arith, lt);
  }
  | inr (s, f) ↦ record {
    tip_read = λ t e. ground (arith, b.tip_read s f, b.tip_read t);
    gone_later = λ e. elim (Bool-cases row.gone) [
      | inl g ↦ let (x, y, p, q, lt) = b.gone_later g in (x, y, ground arith, ground arith, lt)
      | inr g ↦ (s, tip, ground (arith, b.tip_read s f), ground arith, ground arith)
    ];
  }
]

-- A row is shown as gone only after readings of a spent input at two different tips, with no open reading between
-- them or after them.
pub after_readings-IsBacked : (h : List (Reading × ℕ)) → IsBacked h (after_readings h)
unfolding after_readings
after_readings-IsBacked [] = record { tip_read = λ t e. absurd (cc); gone_later = λ e. absurd (cc) }
after_readings-IsBacked ((r, tip) ∷ older) =
    step-IsBacked older (after_readings older) r tip (after_readings-IsBacked older)
