-- ===== src/Inclusion.antt =====
-- Whether a sent transaction is included (src/core/inclusion.ts): the verdict of one status read, and what it does to
-- the history row.
pub mod Gone
use cairn_wallet.Base.{
  ℕ, Bool, true, false, ◌&&◌, ◌||◌, not, Option, none, some, List, [], ◌∷◌, any, ltb, if◌then◌else◌,
}
use cairn_wallet.Base.Eq.{Eq, has}

pub data TxState : Type 0 where
  mined pending unknown : TxState

pub record TxInclusion : Type 0 where
  pub state : TxState
  -- the source looked completely
  pub definite : Bool

pub data Verdict : Type 0 where
  included spent still_open no_reading : Verdict

-- Outpoints are of any type with an equality.
module _ {K : Type 0} ⦃e : Eq K⦄ where
  pub missing_input : Option (List K) → List K → Bool
  missing_input none mined_set = false
  missing_input (some inputs) mined_set = any (λ (op : K). not (has op mined_set)) inputs

  -- `inputs` is `none` where the row keeps no array of them.
  unfoldable pub inclusion_verdict :
      Option TxInclusion → Option (List K) → Option (List K) → Verdict
  unfolding missing_input
  inclusion_verdict none inputs mined_set = no_reading
  inclusion_verdict (some st) inputs mined_set = elim st.state [
    | mined ↦ included
    | pending ↦ still_open
    | unknown ↦ elim mined_set [
      | none ↦ no_reading
      | some m ↦
          if not st.definite
          then no_reading
          else if missing_input inputs m
          then spent
          else still_open
    ]
  ]

pub record Row : Type 0 where
  pub gone_tip : Option ℕ
  pub gone : Bool

-- a fresh reading: `spent` or `open`
pub data Reading : Type 0 where
  was_spent was_open : Reading

untouched : Row → Bool
untouched row = elim row.gone_tip [ none ↦ not row.gone | some t ↦ false ]

-- `Number(row.goneTip)`, which is not positive where there is none
first_tip : Option ℕ → ℕ
first_tip none = 0
first_tip (some t) = t

-- whether the row changed, and the row
unfoldable pub gone_step : Row → Reading → (tip : ℕ) → Bool × Row
unfolding untouched first_tip
gone_step row was_open tip =
    if untouched row then (false, row) else (true, record { gone_tip = none; gone = false })
gone_step row was_spent tip =
    if not (ltb 0 (first_tip row.gone_tip))
    then (true, record row { gone_tip = some tip })
    else if ltb (first_tip row.gone_tip) tip && not row.gone
    then (true, record row { gone = true })
    else (false, row)

-- The row after readings at their tips, the newest first, from a row that has none.
unfoldable pub after_readings : List (Reading × ℕ) → Row
unfolding gone_step
after_readings [] = record { gone_tip = none; gone = false }
after_readings ((r, tip) ∷ older) = (gone_step (after_readings older) r tip).1

pub data Mark : Type 0 where
  mark_sent mark_stuck mark_gone : Mark

unfoldable pub inclusion_mark : (maybe stuck gone : Bool) → Option Mark
inclusion_mark maybe stuck gone =
    if gone
    then some mark_gone
    else if not maybe
    then none
    else if stuck
    then some mark_stuck
    else some mark_sent
