-- ===== src/History/Record/Definite.antt =====
-- A definitive record settles what was in doubt (src/core/history.ts `recordTx`, `doRecordTx`).
use cairn_wallet.Base.{
  subst, ◌≡◌, refl, arith, inl, inr, Bool-cases, Bool, true, false, ◌&&◌, not, Option, none, some,
  List, [], ◌∷◌, ◌++◌, take, if◌then◌else◌,
}
use mathlib.Core.Option.{some-injective}
use cairn_wallet.Base.Text.{Text, text_eq_iff}
use cairn_wallet.Base.Eq.{text_key, has, put}
use cairn_wallet.History.{HistoryRow, Lists, rows_at, Disk, History, max_rows}
use cairn_wallet.History.Record.{
  find_row, settle_first, write_rows, file_row, do_record_tx, park_on_failure, record_tx, history,
}
use cairn_wallet.History.Record.View.{
  ids, rows_at-put, shown_rows, is_stored-has, is_shown, is_shown_iff,
}
use cairn_wallet.History.Record.Filed.{do_record_tx-has}

-- the row that the search finds, if any, is not in doubt
abbrev pub IsDefinite : Option HistoryRow → Type 0
IsDefinite none = Unit
IsDefinite (some r) = r.maybe ≡ false

settle_first-IsDefinite :
    (id : Text) (rows : List HistoryRow) → IsDefinite (find_row id (settle_first id rows))
unfolding find_row settle_first
settle_first-IsDefinite id [] = tt
settle_first-IsDefinite id (r ∷ rs) = ground (arith, settle_first-IsDefinite id rs)

find_row-append :
    (id : Text) (a b : List HistoryRow)
    → find_row id a ≡ none
    → find_row id (a ++ b) ≡ find_row id b
unfolding find_row
find_row-append id [] b h = refl
find_row-append id (r ∷ rs) b h = ground (arith, find_row-append id rs b)

-- A stored row hides the parked ones of its transaction.
find_row-shown_rows :
    (k id : Text) (rows : List HistoryRow) (ps : List (Text × HistoryRow))
    → has id (ids rows) ≡ true
    → find_row id (shown_rows k rows ps) ≡ none
unfolding find_row shown_rows
find_row-shown_rows k id rows [] h = refl
find_row-shown_rows k id rows ((j, e) ∷ ps) h =
    ground (arith, find_row-shown_rows k id rows ps h, is_stored-has rows e, text_eq_iff e.txid id)

find_row-history :
    (k id : Text) (h : History)
    → has id (ids (rows_at k h.stored)) ≡ true
    → find_row id (history true k h) ≡ find_row id (rows_at k h.stored)
unfolding history shown_rows
find_row-history k id h m =
    find_row-append id (shown_rows k (rows_at k h.stored) h.parked) (rows_at k h.stored)
      (find_row-shown_rows k id (rows_at k h.stored) h.parked m)

put-IsDefinite :
    (k id : Text) (rows : List HistoryRow) (s : Lists)
    → IsDefinite (find_row id rows)
    → IsDefinite (find_row id (rows_at k (put k rows s)))
put-IsDefinite k id rows s d = rw (rows_at-put k k rows s) (rw ((text_eq_iff k k).1 refl) d)

pushed-IsDefinite :
    (e : HistoryRow) (rows : List HistoryRow)
    → e.maybe ≡ false
    → IsDefinite (find_row e.txid (take max_rows (e ∷ rows)))
unfolding find_row
pushed-IsDefinite e rows d = rw ((text_eq_iff e.txid e.txid).1 refl) d

file_row-IsDefinite :
    (disk : Disk) (k : Text) (e : HistoryRow) (o : Option HistoryRow) (s s' : Lists)
    → e.maybe ≡ false
    → find_row e.txid (rows_at k s) ≡ o
    → file_row disk k e o s ≡ some s'
    → IsDefinite (find_row e.txid (rows_at k s'))
unfolding file_row write_rows
file_row-IsDefinite disk k e none s s' d f h = elim (Bool-cases disk.writes) [
  | inl w ↦
      let g : some (put k (take max_rows (e ∷ rows_at k s)) s) ≡ some s' =
        rw (w, if◌then◌else◌) at h in
      subst (λ (t : Lists). IsDefinite (find_row e.txid (rows_at k t))) (some-injective _ _ g)
        (put-IsDefinite k e.txid (take max_rows (e ∷ rows_at k s)) s
          (pushed-IsDefinite e (rows_at k s) d))
  | inr w ↦ absurd (ground arith)
]
file_row-IsDefinite disk k e (some old) s s' d f h = elim (Bool-cases old.maybe) [
  | inl m ↦ elim (Bool-cases disk.writes) [
    | inl w ↦
        let g : some (put k (settle_first e.txid (rows_at k s)) s) ≡ some s' =
          rw (m, d, w, if◌then◌else◌) at h in
        subst (λ (t : Lists). IsDefinite (find_row e.txid (rows_at k t))) (some-injective _ _ g)
          (put-IsDefinite k e.txid (settle_first e.txid (rows_at k s)) s
            (settle_first-IsDefinite e.txid (rows_at k s)))
    | inr w ↦ absurd (ground arith)
  ]
  | inr m ↦
      let g : some s ≡ some s' = rw (m, if◌then◌else◌) at h in
      subst (λ (t : Lists). IsDefinite (find_row e.txid (rows_at k t))) (some-injective _ _ g)
        (rw f m)
]

-- a store whose next read and write succeed
abbrev pub works : Disk
works = record { reads = true; writes = true }

file_row-works :
    (k : Text) (e : HistoryRow) (o : Option HistoryRow) (s : Lists)
    → (s' : Lists) × (file_row works k e o s ≡ some s')
unfolding file_row write_rows
file_row-works k e none s = (put k (take max_rows (e ∷ rows_at k s)) s, refl)
file_row-works k e (some old) s = elim (Bool-cases (old.maybe && not e.maybe)) [
  | inl d ↦ (put k (settle_first e.txid (rows_at k s)) s, rw d)
  | inr d ↦ (s, rw d)
]

filed-IsDefinite :
    (k : Text) (e : HistoryRow) (s : Lists) (h : History)
    → has e.txid (ids (rows_at k s)) ≡ true
    → IsDefinite (find_row e.txid (rows_at k s))
    → h.stored ≡ s
    → (is_shown k e.txid h ≡ true) × IsDefinite (find_row e.txid (history true k h))
filed-IsDefinite k e s h m d f = (
  rw (is_shown_iff k e.txid h, f, m) (ground arith),
  rw (find_row-history k e.txid h (rw f m), f) d,
)

-- A definitive record that the store takes ends the doubt: the account's history then has the transaction, and the
-- row that it shows for it, earlier ambiguous records of it included, is not marked as perhaps in flight.
pub record_tx-IsDefinite :
    (wiped : Bool) (k : Text) (e : HistoryRow) (h : History)
    → e.maybe ≡ false
    → (is_shown k e.txid (record_tx true wiped works k e h) ≡ true)
      × IsDefinite (find_row e.txid (history true k (record_tx true wiped works k e h)))
unfolding record_tx do_record_tx park_on_failure
record_tx-IsDefinite wiped k e h d =
    let (s, f) = file_row-works k e (find_row e.txid (rows_at k h.stored)) h.stored in
    rw (f, park_on_failure)
      (filed-IsDefinite k e s _ (do_record_tx-has works k e h.stored s f)
        (file_row-IsDefinite works k e (find_row e.txid (rows_at k h.stored)) h.stored s d refl f)
        refl)
