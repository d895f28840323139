-- ===== src/History/Record/Filed.antt =====
-- What one piece of work does to the rows that are shown (src/core/history.ts).
use cairn_wallet.Base.{
  ◌<◌, ◌≡◌, refl, inl, inr, true, Option, none, some, List, ◌∷◌, take, length, arith, Bool-cases,
}
use cairn_wallet.Base.Text.{Text, text_eq, text_eq_iff}
use cairn_wallet.Base.Eq.{text_key, has, put}
use cairn_wallet.History.{HistoryRow, Lists, rows_at, Disk, max_rows}
use cairn_wallet.History.Record.{find_row, settle_first, write_rows, file_row, do_record_tx}
use cairn_wallet.History.Record.View.{ids, rows_at-put, ids-settle_first, has-find_row, has-take}

-- the list takes one more row and drops none
abbrev pub HasRoom : Text → Lists → Type 0
HasRoom k s = length (rows_at k s) < max_rows

file_row-has :
    (disk : Disk) (k : Text) (e : HistoryRow) (o : Option HistoryRow) (s s' : Lists)
    → find_row e.txid (rows_at k s) ≡ o
    → file_row disk k e o s ≡ some s'
    → has e.txid (ids (rows_at k s')) ≡ true
unfolding file_row write_rows has
file_row-has disk k e none s s' f h = ground (
  arith,
  rows_at-put k k (take max_rows (e ∷ rows_at k s)) s,
  text_eq_iff k k,
  text_eq_iff e.txid e.txid,
)
file_row-has disk k e (some old) s s' f h = ground (
  arith,
  has-find_row e.txid (rows_at k s) old,
  rows_at-put k k (settle_first e.txid (rows_at k s)) s,
  text_eq_iff k k,
  ids-settle_first e.txid (rows_at k s),
)

pub do_record_tx-has :
    (disk : Disk) (k : Text) (e : HistoryRow) (s s' : Lists)
    → do_record_tx disk k e s ≡ some s'
    → has e.txid (ids (rows_at k s')) ≡ true
unfolding do_record_tx
do_record_tx-has disk k e s s' h =
    file_row-has disk k e (find_row e.txid (rows_at k s)) s s' refl (ground (arith, h))

has-pushed :
    (id : Text) (e : HistoryRow) (rows : List HistoryRow)
    → length rows < max_rows
    → has id (ids rows) ≡ true
    → has id (ids (take max_rows (e ∷ rows))) ≡ true
unfolding has
has-pushed id e rows room m = rw (has-take id 199 rows (omega (arith, room))) (rw m (ground arith))

rows-keep :
    (j k id : Text) (r : List HistoryRow) (s : Lists)
    → (text_eq j k ≡ true → has id (ids (rows_at k s)) ≡ true → has id (ids r) ≡ true)
    → has id (ids (rows_at j s)) ≡ true
    → has id (ids (rows_at j (put k r s))) ≡ true
rows-keep j k id r s f m = elim (Bool-cases (text_eq j k)) [
  | inl same ↦
      let e : j ≡ k = (text_eq_iff j k).0 same in
      rw (rows_at-put j k r s) (rw same (f same (rw (← e) m)))
  | inr other ↦ rw (rows_at-put j k r s) (rw other m)
]

file_row-keeps :
    (disk : Disk) (k : Text) (e : HistoryRow) (o : Option HistoryRow) (s s' : Lists) (j id : Text)
    → file_row disk k e o s ≡ some s'
    → (text_eq j k ≡ true → HasRoom k s)
    → has id (ids (rows_at j s)) ≡ true
    → has id (ids (rows_at j s')) ≡ true
unfolding file_row write_rows
file_row-keeps disk k e none s s' j id h room m = ground (
  arith,
  rows-keep j k id (take max_rows (e ∷ rows_at k s)) s
      (λ same. has-pushed id e (rows_at k s) (room same)) m,
)
file_row-keeps disk k e (some old) s s' j id h room m = ground (
  arith,
  rows-keep j k id (settle_first e.txid (rows_at k s)) s
      (λ same n. rw (ids-settle_first e.txid (rows_at k s)) n) m,
)

pub do_record_tx-keeps :
    (disk : Disk) (k : Text) (e : HistoryRow) (s s' : Lists) (j id : Text)
    → do_record_tx disk k e s ≡ some s'
    → (text_eq j k ≡ true → HasRoom k s)
    → has id (ids (rows_at j s)) ≡ true
    → has id (ids (rows_at j s')) ≡ true
unfolding do_record_tx
do_record_tx-keeps disk k e s s' j id h room m =
    file_row-keeps disk k e (find_row e.txid (rows_at k s)) s s' j id (ground (arith, h)) room m
