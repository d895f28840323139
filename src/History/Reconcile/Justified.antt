-- ===== src/History/Reconcile/Justified.antt =====
-- What the reconcile may do to a row (src/core/history.ts `pendingMerge`).
use cairn_wallet.Base.{
  ◌≢◌, ℕ, ◌+◌, ◌≤◌, ◌<◌, ◌≡◌, refl, inl, inr, arith, Bool-cases, Option-cases, Bool, true, false,
  ◌&&◌, ◌||◌, not, Option, none, some, List, if◌then◌else◌,
}
use cairn_wallet.Base.Text.{Text, lower}
use cairn_wallet.Base.Eq.{text_key, nat_eq, pair_eq, has, lookup}
use cairn_wallet.Spend.Coins.{Outpoint}
use cairn_wallet.Inclusion.{
  mined, unknown, TxInclusion, Verdict, included, spent, still_open, no_reading, inclusion_verdict,
  missing_input, Row, gone_step,
}
use cairn_wallet.History.{HistoryRow}
use cairn_wallet.History.Reconcile.{
  is_open_row, MinedSet, Reads, mined_ops, mined_has, row_verdict, include_row, go_step, sub_tip_or,
  wait_row, settle_open, settle_row, notice_blocks,
}

abbrev says_mined : Option TxInclusion → Bool
says_mined none = false
says_mined (some st) = elim st.state [ mined ↦ true | _ ↦ false ]

-- the reads show the transaction as mined
abbrev pub is_mined_read : List Text → Reads → HistoryRow → Bool
is_mined_read present reads e =
    (has (lower e.txid) present || mined_has (lower e.txid) reads.mined_set)
    || says_mined (lookup (lower e.txid) reads.states)

abbrev says_spent : Option TxInclusion → Option MinedSet → Option (List Outpoint) → Bool
says_spent none ms inputs = false
says_spent (some st) none inputs = false
says_spent (some st) (some m) inputs = elim st.state [
  | unknown ↦ st.definite && missing_input inputs m.ops
  | _ ↦ false
]

-- the read looked completely, found no such transaction, and an input that the row keeps is not in the mined set
abbrev pub is_spent_read : Reads → HistoryRow → Bool
is_spent_read reads e = says_spent (lookup (lower e.txid) reads.states) reads.mined_set e.inputs

-- What a pass did to a row, and why.
pub record IsJustified (present : List Text) (reads : Reads) (e f : HistoryRow) : Type 0 where
  pub same_transaction : f.txid ≡ e.txid
  pub settled_iff_mined : e.maybe ≡ true → f.maybe ≡ not (is_mined_read present reads e)
  pub confirmed_later :
      e.confirmed ≡ false → f.confirmed ≡ true → is_mined_read present reads e ≡ true
  pub gone_later :
      e.going.gone ≡ false
      → f.going.gone ≡ true
      → (is_mined_read present reads e ≡ false)
        × (is_spent_read reads e ≡ true)
        × (a : ℕ) × (b : ℕ) × (e.going.gone_tip ≡ some a)
        × (reads.tip ≡ some b)
        × (a < b)
  pub stuck_later :
      e.stuck ≡ false
      → f.stuck ≡ true
      → (a : ℕ) × (b : ℕ) × (f.sub_tip ≡ some a) × (reads.tip ≡ some b) × (a + notice_blocks ≤ b)

-- What a verdict says of the reads: `mined` and `lost` are `is_mined_read` and `is_spent_read`.
abbrev Means : (is_mined is_lost : Bool) → Verdict → Type 0
Means is_mined is_lost included = is_mined ≡ true
Means is_mined is_lost spent = (is_mined ≡ false) × (is_lost ≡ true)
Means is_mined is_lost still_open = is_mined ≡ false
Means is_mined is_lost no_reading = is_mined ≡ false

inclusion_verdict-Means :
    (listed : Bool) (o : Option TxInclusion) (ms : Option MinedSet)
    (inputs : Option (List Outpoint))
    → Means
        (listed || says_mined o)
        (says_spent o ms inputs)
        (if listed then included else inclusion_verdict o inputs (mined_ops ms))
unfolding mined_ops inclusion_verdict
inclusion_verdict-Means true o ms inputs = refl
inclusion_verdict-Means false none ms inputs = refl
inclusion_verdict-Means false (some st) none inputs = ground arith
inclusion_verdict-Means false (some st) (some m) inputs = ground arith

row_verdict-Means :
    (present : List Text) (reads : Reads) (e : HistoryRow)
    → Means (is_mined_read present reads e) (is_spent_read reads e) (row_verdict present reads e)
unfolding row_verdict
row_verdict-Means present reads e =
    inclusion_verdict-Means (has (lower e.txid) present || mined_has (lower e.txid) reads.mined_set)
      (lookup (lower e.txid) reads.states) reads.mined_set e.inputs

go_step-gone :
    (row : Row) (v : Verdict) (tip : ℕ)
    → row.gone ≡ false
    → (go_step row v tip).1.gone ≡ true
    → (v ≡ spent) × (a : ℕ) × (row.gone_tip ≡ some a) × (a < tip)
unfolding go_step gone_step
go_step-gone row included tip h g = absurd (ground arith)
go_step-gone row no_reading tip h g = absurd (ground arith)
go_step-gone row still_open tip h g = absurd (ground arith)
go_step-gone row spent tip h g = elim (Option-cases row.gone_tip) [
  | inl e ↦ absurd (ground arith)
  | inr (a, e) ↦ (refl, a, e, ground arith)
]

Means-spent :
    (is_mined is_lost : Bool) (v : Verdict) → v ≡ spent → Means is_mined is_lost v → is_lost ≡ true
Means-spent is_mined is_lost spent e m = m.1
Means-spent is_mined is_lost included e m = absurd (cc)
Means-spent is_mined is_lost still_open e m = absurd (cc)
Means-spent is_mined is_lost no_reading e m = absurd (cc)

Means-not-mined :
    (is_mined is_lost : Bool) (v : Verdict)
    → v ≢ included
    → Means is_mined is_lost v
    → is_mined ≡ false
Means-not-mined is_mined is_lost spent n m = m.0
Means-not-mined is_mined is_lost included n m = absurd (n refl)
Means-not-mined is_mined is_lost still_open n m = m
Means-not-mined is_mined is_lost no_reading n m = m

module _ (present : List Text) (reads : Reads) (e : HistoryRow) where
  same-IsJustified :
      (e.maybe ≡ true → is_mined_read present reads e ≡ false) → IsJustified present reads e e
  same-IsJustified h = record {
    same_transaction = refl;
    settled_iff_mined = λ m. ground (arith, h m);
    confirmed_later = λ a b. ground arith;
    gone_later = λ a b. absurd (ground arith);
    stuck_later = λ a b. absurd (ground arith);
  }

  include_row-IsJustified :
      is_mined_read present reads e ≡ true → IsJustified present reads e (include_row e)
  unfolding include_row
  include_row-IsJustified h = record {
    same_transaction = refl;
    settled_iff_mined = λ m. ground arith;
    confirmed_later = λ a b. h;
    gone_later = λ a b. absurd (ground arith);
    stuck_later = λ a b. absurd (ground arith);
  }

  wait_row-IsJustified :
      (v : Verdict) (st : Option TxInclusion) (tip : ℕ)
      → reads.tip ≡ some tip
      → v ≢ included
      → Means (is_mined_read present reads e) (is_spent_read reads e) v
      → IsJustified present reads e (wait_row v st tip e).1
  unfolding wait_row gone_step
  wait_row-IsJustified v st tip t n m =
      let not_mined : is_mined_read present reads e ≡ false =
        Means-not-mined (is_mined_read present reads e) (is_spent_read reads e) v n m in
      record {
        same_transaction = refl;
        settled_iff_mined = λ a. rw (a, not_mined);
        confirmed_later = λ a b. absurd (ground arith);
        gone_later = λ a b.
            let (s, x, had, less) = go_step-gone e.going v tip a b in
            (
              not_mined,
              Means-spent (is_mined_read present reads e) (is_spent_read reads e) v s m,
              x,
              tip,
              had,
              t,
              less,
            );
        stuck_later = λ a b. ((sub_tip_or e.sub_tip tip).1, tip, refl, t, ground arith);
      }

  settle_open-IsJustified :
      (v : Verdict) (tip : Option ℕ)
      → reads.tip ≡ tip
      → Means (is_mined_read present reads e) (is_spent_read reads e) v
      → IsJustified present reads e (settle_open v (lookup (lower e.txid) reads.states) tip e).1
  unfolding settle_open
  settle_open-IsJustified included tip t m = include_row-IsJustified m
  settle_open-IsJustified spent none t m = same-IsJustified (λ _. m.0)
  settle_open-IsJustified still_open none t m = same-IsJustified (λ _. m)
  settle_open-IsJustified no_reading none t m = same-IsJustified (λ _. m)
  settle_open-IsJustified spent (some n) t m =
      wait_row-IsJustified spent (lookup (lower e.txid) reads.states) n t (λ c. cc) m
  settle_open-IsJustified still_open (some n) t m =
      wait_row-IsJustified still_open (lookup (lower e.txid) reads.states) n t (λ c. cc) m
  settle_open-IsJustified no_reading (some n) t m =
      wait_row-IsJustified no_reading (lookup (lower e.txid) reads.states) n t (λ c. cc) m

  -- What one pass of the reconcile does to a row has its reason in the chain reads. The `maybe` marker goes exactly
  -- where the transaction is in a utxo set or reported mined, and only then is a merge latched as confirmed. A row
  -- becomes gone only where a complete status read found no such transaction, a kept input is missing from the mined
  -- set, nothing showed it mined, and an earlier tip had already been noted for it. A row becomes stuck only ten
  -- blocks or more past the tip that it keeps. It stays the row of the same transaction.
  pub settle_row-IsJustified : IsJustified present reads e (settle_row present reads e).1
  unfolding settle_row
  settle_row-IsJustified = elim (Bool-cases (is_open_row e)) [
    | inl o ↦ rw o (
        settle_open-IsJustified (row_verdict present reads e) reads.tip refl
          (row_verdict-Means present reads e))
    | inr c ↦ rw c (same-IsJustified (λ m. absurd (ground arith)))
  ]
