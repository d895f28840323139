-- ===== src/History/Invariant.antt =====
-- The lists of the history under every piece of work (src/core/history.ts): they stay bounded, and no transaction has
-- two rows.
use cairn_wallet.Base.{
  subst, ℕ, zero, suc, ◌≤◌, ◌≡◌, refl, ap, inl, inr, arith, Bool-cases, Option-cases, Bool, true,
  false, ◌&&◌, not, Option, none, some, List, [], ◌∷◌, take, length, length-take, if◌then◌else◌,
}
use mathlib.Core.Option.{some-injective}
use cairn_wallet.Base.Text.{Text, text_eq, text_eq_iff}
use cairn_wallet.Base.Eq.{text_key, has, put}
use cairn_wallet.History.{HistoryRow, Lists, rows_at, Disk, History, max_rows}
use cairn_wallet.History.Record.{
  find_row, settle_first, write_rows, file_row, do_record_tx, park_on_failure, record_tx,
  drain_rows, drain_parked, settle_maybe, update_rows, clear_maybe, latch_rows, latch_spent_merges,
}
use cairn_wallet.History.Record.View.{ids, rows_at-put, ids-settle_first}
use cairn_wallet.History.Record.Kept.{ids-settle_maybe, ids-latch_rows, ids-update_rows}
use cairn_wallet.History.Reconcile.{
  Reads, settle_rows, reconcile, NodeAnswers, open_rows, reads_for, pending_merge,
}
use cairn_wallet.History.Reconcile.Justified.{settle_row-IsJustified}

-- no text stands twice
abbrev pub AllDiffer : List Text → Type 0
AllDiffer [] = Unit
AllDiffer (i ∷ is) = (has i is ≡ false) × AllDiffer is

-- The list of an account: at most 200 rows, one for each transaction.
pub record IsList (rows : List HistoryRow) : Type 0 where
  pub bounded : length (ids rows) ≤ max_rows
  pub one_each : AllDiffer (ids rows)

abbrev pub IsHistory : Lists → Type 0
IsHistory s = (k : Text) → IsList (rows_at k s)

IsList-same_ids : (a b : List HistoryRow) → ids b ≡ ids a → IsList a → IsList b
IsList-same_ids a b e i = record { bounded = rw e i.bounded; one_each = rw e i.one_each }

ids-take : (n : ℕ) (rows : List HistoryRow) → ids (take n rows) ≡ take n (ids rows)
ids-take zero rows = refl
ids-take (suc n) [] = refl
ids-take (suc n) (r ∷ rs) = ap (◌∷◌ r.txid) (ids-take n rs)

has-take-false : (i : Text) (n : ℕ) (is : List Text) → has i is ≡ false → has i (take n is) ≡ false
unfolding has
has-take-false i zero is h = refl
has-take-false i (suc n) [] h = refl
has-take-false i (suc n) (j ∷ js) h = ground (arith, h, has-take-false i n js)

AllDiffer-take : (n : ℕ) (is : List Text) → AllDiffer is → AllDiffer (take n is)
AllDiffer-take zero is h = tt
AllDiffer-take (suc n) [] h = tt
AllDiffer-take (suc n) (i ∷ is) h = (has-take-false i n is h.0, AllDiffer-take n is h.1)

-- A row that the search does not find is not there.
has-find_row-none :
    (id : Text) (rows : List HistoryRow) → find_row id rows ≡ none → has id (ids rows) ≡ false
unfolding find_row has
has-find_row-none id [] h = refl
has-find_row-none id (x ∷ xs) h =
    ground (arith, has-find_row-none id xs, text_eq_iff x.txid id, text_eq_iff id x.txid)

push-IsList :
    (e : HistoryRow) (rows : List HistoryRow)
    → find_row e.txid rows ≡ none
    → IsList rows
    → IsList (take max_rows (e ∷ rows))
push-IsList e rows f i = record {
  bounded = rw (ids-take 199 rows) (omega (arith, length-take 199 (ids rows)));
  one_each = rw (ids-take 199 rows) (
    has-take-false e.txid 199 (ids rows) (has-find_row-none e.txid rows f),
    AllDiffer-take 199 (ids rows) i.one_each,
  );
}

put-IsHistory :
    (k : Text) (rows : List HistoryRow) (s : Lists)
    → IsList rows
    → IsHistory s
    → IsHistory (put k rows s)
put-IsHistory k rows s i h j =
    rw (rows_at-put j k rows s)
      (elim (Bool-cases (text_eq j k)) [ inl e ↦ rw e i | inr e ↦ rw e (h j) ])

file_row-IsHistory :
    (disk : Disk) (k : Text) (e : HistoryRow) (o : Option HistoryRow) (s s' : Lists)
    → find_row e.txid (rows_at k s) ≡ o
    → file_row disk k e o s ≡ some s'
    → IsHistory s
    → IsHistory s'
unfolding file_row write_rows
file_row-IsHistory disk k e none s s' f h i = elim (Bool-cases disk.writes) [
  | inl w ↦
      let g : some (put k (take max_rows (e ∷ rows_at k s)) s) ≡ some s' =
        rw (w, if◌then◌else◌) at h in
      (subst IsHistory (some-injective _ _ g) (
        put-IsHistory k (take max_rows (e ∷ rows_at k s)) s (push-IsList e (rows_at k s) f (i k))
          i))
  | inr w ↦ absurd (ground arith)
]
file_row-IsHistory disk k e (some old) s s' f h i = elim (Bool-cases (old.maybe && not e.maybe)) [
  | inl d ↦ elim (Bool-cases disk.writes) [
    | inl w ↦
        let g : some (put k (settle_first e.txid (rows_at k s)) s) ≡ some s' =
          rw (d, w, if◌then◌else◌) at h in
        (subst IsHistory (some-injective _ _ g) (
          put-IsHistory k (settle_first e.txid (rows_at k s)) s
            (IsList-same_ids (rows_at k s) (settle_first e.txid (rows_at k s))
              (ids-settle_first e.txid (rows_at k s)) (i k))
            i))
    | inr w ↦ absurd (ground arith)
  ]
  | inr d ↦
      let g : some s ≡ some s' = rw (d, if◌then◌else◌) at h in
      subst IsHistory (some-injective _ _ g) i
]

park_on_failure-IsHistory :
    (disk : Disk) (k : Text) (e : HistoryRow) (o : Option Lists) (h : History)
    → do_record_tx disk k e h.stored ≡ o
    → IsHistory h.stored
    → IsHistory (park_on_failure k e o h).stored
unfolding park_on_failure do_record_tx
park_on_failure-IsHistory disk k e none h f i = i
park_on_failure-IsHistory disk k e (some s) h f i = elim (Bool-cases disk.reads) [
  | inl r ↦
      let g : file_row disk k e (find_row e.txid (rows_at k h.stored)) h.stored ≡ some s =
        rw (r, if◌then◌else◌) at f in
      (file_row-IsHistory disk k e (find_row e.txid (rows_at k h.stored)) h.stored s refl g i)
  | inr r ↦ absurd (ground arith)
]

record_tx-IsHistory :
    (unlocked wiped : Bool) (disk : Disk) (k : Text) (e : HistoryRow) (h : History)
    → IsHistory h.stored
    → IsHistory (record_tx unlocked wiped disk k e h).stored
unfolding record_tx
record_tx-IsHistory false true disk k e h i = i
record_tx-IsHistory false false disk k e h i = i
record_tx-IsHistory true wiped disk k e h i =
    park_on_failure-IsHistory disk k e (do_record_tx disk k e h.stored) _ refl i

drain_rows-IsHistory :
    (disks : List (Text × HistoryRow) → Disk) (ps : List (Text × HistoryRow)) (h : History)
    → IsHistory h.stored
    → IsHistory (drain_rows disks ps h).stored
unfolding drain_rows
drain_rows-IsHistory disks [] h i = i
drain_rows-IsHistory disks ((k, e) ∷ ps) h i =
    drain_rows-IsHistory disks ps (park_on_failure k e (do_record_tx (disks ps) k e h.stored) h)
      (park_on_failure-IsHistory (disks ps) k e (do_record_tx (disks ps) k e h.stored) h refl i)

drain_parked-IsHistory :
    (unlocked : Bool) (disks : List (Text × HistoryRow) → Disk) (h : History)
    → IsHistory h.stored
    → IsHistory (drain_parked unlocked disks h).stored
unfolding drain_parked
drain_parked-IsHistory false disks h i = i
drain_parked-IsHistory true disks h i =
    drain_rows-IsHistory disks h.parked (record h { parked = [] }) i

update_rows-IsHistory :
    (unlocked : Bool) (disk : Disk) (k : Text) (f : List HistoryRow → Bool × List HistoryRow)
    (s : Lists)
    → ((rows : List HistoryRow) → ids (f rows).1 ≡ ids rows)
    → IsHistory s
    → IsHistory (update_rows unlocked disk k f s)
update_rows-IsHistory unlocked disk k f s same i j =
    IsList-same_ids (rows_at j s) (rows_at j (update_rows unlocked disk k f s))
      (ids-update_rows unlocked disk j k f s same) (i j)

ids-settle_rows :
    (present : List Text) (reads : Reads) (rows : List HistoryRow)
    → ids (settle_rows present reads rows).1 ≡ ids rows
unfolding settle_rows
ids-settle_rows present reads [] = refl
ids-settle_rows present reads (r ∷ rs) =
    rw ((settle_row-IsJustified present reads r).same_transaction, ids-settle_rows present reads rs)

reconcile-IsHistory :
    (unlocked : Bool) (disk : Disk) (k : Text) (present : List Text) (reads : Reads) (h : History)
    → IsHistory h.stored
    → IsHistory (reconcile unlocked disk k present reads h).0.stored
unfolding reconcile write_rows
reconcile-IsHistory unlocked disk k present reads h i =
    let rows : List HistoryRow = (settle_rows present reads (rows_at k h.stored)).1 in
    let done : IsHistory (put k rows h.stored) =
      put-IsHistory k rows h.stored
        (IsList-same_ids (rows_at k h.stored) rows
          (ids-settle_rows present reads (rows_at k h.stored)) (i k))
        i in
    elim (Bool-cases (unlocked && disk.reads)) [
      | inr r ↦ rw (r, if◌then◌else◌) i
      | inl r ↦ elim (Bool-cases (settle_rows present reads (rows_at k h.stored)).0) [
        | inr d ↦ rw (r, d, if◌then◌else◌) i
        | inl d ↦ elim (Bool-cases disk.writes) [
          | inr w ↦ rw (r, d, w, if◌then◌else◌) i
          | inl w ↦ rw (r, d, w, if◌then◌else◌) done
        ]
      ]
    ]

pending_merge-IsHistory :
    (peek : List HistoryRow) (utxos : Option (List (Option Text))) (node : NodeAnswers)
    (unlocked : Bool) (disk : Disk) (k : Text) (h : History)
    → IsHistory h.stored
    → IsHistory (pending_merge peek utxos node unlocked disk k h).0.stored
unfolding pending_merge
pending_merge-IsHistory peek utxos node unlocked disk k h i =
    elim (Option-cases (open_rows peek utxos node.balance)) [
      | inl e ↦ rw (e, pending_merge) i
      | inr ((present, ones), e) ↦
          rw (e, pending_merge)
            (reconcile-IsHistory unlocked disk k present
              (reads_for node.tip node.status node.confirmed ones) h i)
    ]

-- The pieces of work that the write chain runs one after another. What the reads before a piece gave is any value.
pub data Step (h : History) : History → Type 0 where
  recorded :
      (unlocked wiped : Bool) (disk : Disk) (k : Text) (e : HistoryRow)
      → Step h (record_tx unlocked wiped disk k e h)
  drained :
      (unlocked : Bool) (disks : List (Text × HistoryRow) → Disk)
      → Step h (drain_parked unlocked disks h)
  cleared :
      (unlocked : Bool) (disk : Disk) (k id : Text) → Step h (clear_maybe unlocked disk k id h)
  latched :
      (unlocked : Bool) (disk : Disk) (k : Text) (spent : List Text)
      → Step h (latch_spent_merges unlocked disk k spent h)
  reconciled :
      (peek : List HistoryRow) (utxos : Option (List (Option Text))) (node : NodeAnswers)
      (unlocked : Bool) (disk : Disk) (k : Text)
      → Step h (pending_merge peek utxos node unlocked disk k h).0

pub data Run (s : History) : History → Type 0 where
  here : Run s s
  next : {h h' : History} → Run s h → Step h h' → Run s h'

Step-IsHistory : {h h' : History} → Step h h' → IsHistory h.stored → IsHistory h'.stored
unfolding clear_maybe latch_spent_merges
Step-IsHistory {h} (recorded unlocked wiped disk k e) i =
    record_tx-IsHistory unlocked wiped disk k e h i
Step-IsHistory {h} (drained unlocked disks) i = drain_parked-IsHistory unlocked disks h i
Step-IsHistory {h} (cleared unlocked disk k id) i =
    update_rows-IsHistory unlocked disk k (settle_maybe id) h.stored (ids-settle_maybe id) i
Step-IsHistory {h} (latched unlocked disk k spent) i =
    update_rows-IsHistory unlocked disk k (latch_rows spent) h.stored (ids-latch_rows spent) i
Step-IsHistory {h} (reconciled peek utxos node unlocked disk k) i =
    pending_merge-IsHistory peek utxos node unlocked disk k h i

-- Whatever sequence of records, drains of parked rows, cleared flags, latched merges and reconciles runs on the write
-- chain, with any reads and writes of the store failing, and whichever account and lock state each piece meets:
-- from lists that hold at most 200 rows each, and no transaction twice, only such lists are reached.
pub Run-IsHistory : {s h : History} → Run s h → IsHistory s.stored → IsHistory h.stored
Run-IsHistory here i = i
Run-IsHistory (next r st) i = Step-IsHistory st (Run-IsHistory r i)
