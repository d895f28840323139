-- ===== src/History/Record/Kept.antt =====
-- No recorded submission is lost (src/core/history.ts `recordTx`, `history`).
use cairn_wallet.Base.{
  ℕ, ◌≡◌, refl, inl, inr, Bool, true, false, ◌&&◌, ◌||◌, not, Option, none, some, List, [], ◌∷◌,
  ◌++◌, &&_split, keep, arith, Bool-cases, Option-cases,
}
use cairn_wallet.Base.Text.{Text, text_eq, text_eq_iff}
use cairn_wallet.Base.Eq.{text_key, has}
use cairn_wallet.History.{HistoryRow, Lists, rows_at, Disk, History}
use cairn_wallet.History.Record.{
  do_record_tx, is_superseded, park_on_failure, record_tx, settle_maybe, update_rows, settle_parked,
  clear_maybe, latch_rows, latch_spent_merges, Meta, Work, no_work, file, settle, file_ambiguous,
  work_for, run_work, latch_result, maybe_record,
}
use cairn_wallet.Spend.Errors.{submit_maybe_inflight}
use cairn_wallet.Spend.Submit.{SubmitResult}
use cairn_wallet.History.Record.View.{
  ids, parked_has, is_shown, is_shown_iff, rows_at-put, parked_has-append,
}
use cairn_wallet.History.Record.Filed.{HasRoom, do_record_tx-has, do_record_tx-keeps}

-- what the work leaves to see: a parked or a stored row has the id
abbrev keeps_id : Text → Text → History → Bool
keeps_id k id h = parked_has k id h.parked || has id (ids (rows_at k h.stored))

parked_has-last :
    (k : Text) (e : HistoryRow) (ps : List (Text × HistoryRow))
    → parked_has k e.txid (ps ++ (k, e) ∷ []) ≡ true
unfolding parked_has
parked_has-last k e ps =
    ground (
      arith,
      parked_has-append k e.txid ps ((k, e) ∷ []),
      text_eq_iff k k,
      text_eq_iff e.txid e.txid,
    )

-- The filter takes away parked twins of the row alone.
parked_has-keep :
    (k : Text) (e : HistoryRow) (j id : Text) (ps : List (Text × HistoryRow))
    → (text_eq j k && text_eq e.txid id) ≡ false
    → parked_has j id (keep (λ (p : Text × HistoryRow). not (is_superseded k e p)) ps)
      ≡ parked_has j id ps
unfolding parked_has is_superseded
parked_has-keep k e j id [] h = refl
parked_has-keep k e j id (p ∷ ps) h = ground (
  arith,
  parked_has-keep k e j id ps h,
  text_eq_iff p.0 k,
  text_eq_iff p.0 j,
  text_eq_iff j k,
  text_eq_iff p.1.txid e.txid,
  text_eq_iff p.1.txid id,
  text_eq_iff e.txid id,
)

park_on_failure-has :
    (disk : Disk) (k : Text) (e : HistoryRow) (o : Option Lists) (h : History)
    → do_record_tx disk k e h.stored ≡ o
    → keeps_id k e.txid (park_on_failure k e o h) ≡ true
unfolding park_on_failure
park_on_failure-has disk k e none h f = ground (arith, parked_has-last k e h.parked)
park_on_failure-has disk k e (some s) h f = ground (arith, do_record_tx-has disk k e h.stored s f)

park_on_failure-keeps :
    (disk : Disk) (k : Text) (e : HistoryRow) (o : Option Lists) (h : History) (j id : Text)
    → do_record_tx disk k e h.stored ≡ o
    → (text_eq j k ≡ true → HasRoom k h.stored)
    → keeps_id j id h ≡ true
    → keeps_id j id (park_on_failure k e o h) ≡ true
unfolding park_on_failure
park_on_failure-keeps disk k e none h j id f room m =
    ground (arith, parked_has-append j id h.parked ((k, e) ∷ []))
park_on_failure-keeps disk k e (some s) h j id f room m =
    ground (arith, do_record_tx-keeps disk k e h.stored s j id f room)

-- Recording shows: the row itself, and every row shown before whose list has room.
record_tx-keeps_id :
    (unlocked wiped : Bool) (disk : Disk) (k : Text) (e : HistoryRow) (h : History) (j id : Text)
    → (unlocked || not wiped) ≡ true
    → ((text_eq j k && not (text_eq e.txid id)) ≡ true → HasRoom k h.stored)
    → ((text_eq j k && text_eq e.txid id) || keeps_id j id h) ≡ true
    → keeps_id j id (record_tx unlocked wiped disk k e h) ≡ true
unfolding record_tx parked_has
record_tx-keeps_id false wiped disk k e h j id live room m =
    ground
      (arith, live, parked_has-append j id h.parked ((k, e) ∷ []), text_eq_iff j k, text_eq_iff k j)
record_tx-keeps_id true wiped disk k e h j id live room m =
    let h' : History = record h {
      parked = keep (λ (p : Text × HistoryRow). not (is_superseded k e p)) h.parked;
    } in
    elim (Bool-cases (text_eq j k && text_eq e.txid id)) [
      | inl same ↦
          let (a, b) = &&_split same in
          rw ((text_eq_iff j k).0 a) (
            rw (← (text_eq_iff e.txid id).0 b)
              (park_on_failure-has disk k e (do_record_tx disk k e h.stored) h' refl))
      | inr other ↦
          park_on_failure-keeps disk k e (do_record_tx disk k e h.stored) h' j id refl
            (λ same. room (ground (arith, other, same)))
            (rw (parked_has-keep k e j id h.parked other) (ground (arith, m, other)))
    ]

pub ids-settle_maybe :
    (id : Text) (rows : List HistoryRow) → ids (settle_maybe id rows).1 ≡ ids rows
unfolding settle_maybe
ids-settle_maybe id [] = refl
ids-settle_maybe id (r ∷ rs) = ground (arith, ids-settle_maybe id rs)

pub ids-latch_rows :
    (spent : List Text) (rows : List HistoryRow) → ids (latch_rows spent rows).1 ≡ ids rows
unfolding latch_rows
ids-latch_rows spent [] = refl
ids-latch_rows spent (r ∷ rs) = ground (arith, ids-latch_rows spent rs)

pub ids-update_rows :
    (unlocked : Bool) (disk : Disk) (j k : Text) (f : List HistoryRow → Bool × List HistoryRow)
    (s : Lists)
    → ((rows : List HistoryRow) → ids (f rows).1 ≡ ids rows)
    → ids (rows_at j (update_rows unlocked disk k f s)) ≡ ids (rows_at j s)
unfolding update_rows
ids-update_rows unlocked disk j k f s same =
    ground (arith, rows_at-put j k (f (rows_at k s)).1 s, same (rows_at k s), text_eq_iff j k)

parked_has-settle_parked :
    (k i j id : Text) (ps : List (Text × HistoryRow))
    → parked_has j id (settle_parked k i ps) ≡ parked_has j id ps
unfolding parked_has settle_parked
parked_has-settle_parked k i j id [] = refl
parked_has-settle_parked k i j id (p ∷ ps) = ground (arith, parked_has-settle_parked k i j id ps)

keeps_id-clear_maybe :
    (unlocked : Bool) (disk : Disk) (k i : Text) (h : History) (j id : Text)
    → keeps_id j id (clear_maybe unlocked disk k i h) ≡ keeps_id j id h
unfolding clear_maybe
keeps_id-clear_maybe unlocked disk k i h j id = rw (
  parked_has-settle_parked k i j id h.parked,
  ids-update_rows unlocked disk j k (settle_maybe i) h.stored (ids-settle_maybe i),
)

keeps_id-latch_result :
    (unlocked : Bool) (disk : Disk) (k : Text) (r : SubmitResult) (h : History) (j id : Text)
    → keeps_id j id (latch_result unlocked disk k r h) ≡ keeps_id j id h
unfolding latch_result latch_spent_merges
keeps_id-latch_result unlocked disk k r h j id = elim (Option-cases r.spent_txids) [
  | inl e ↦ rw (e, latch_result)
  | inr (spent, e) ↦ ground (
    arith,
    e,
    ids-update_rows unlocked disk j k (latch_rows spent) h.stored (ids-latch_rows spent),
  )
]

-- the row that a result files has the result's id
Files : Text → Work → Type 0
Files id no_work = ⊥
Files id (file e) = e.txid ≡ id
Files id (settle i) = ⊥

-- a result after which the transaction may be under way: it was accepted, or its submission may have got through
abbrev pub may_be_sent : SubmitResult → Bool
may_be_sent r = r.ok || elim r.code [ some submit_maybe_inflight ↦ true | _ ↦ false ]

-- the result reports the transaction as sent, or perhaps sent
abbrev pub reports : Text → SubmitResult → Bool
reports id r = elim r.txid [ none ↦ false | some t ↦ text_eq t id ] && may_be_sent r

run_work-keeps_id :
    (unlocked wiped : Bool) (disk : Disk) (k : Text) (w : Work) (h : History) (j id : Text)
    (filed : Bool)
    → (unlocked || not wiped) ≡ true
    → (filed ≡ true → Files id w)
    → ((text_eq j k && not filed) ≡ true → HasRoom k h.stored)
    → ((text_eq j k && filed) || keeps_id j id h) ≡ true
    → keeps_id j id (run_work unlocked wiped disk k w h) ≡ true
unfolding run_work Files
run_work-keeps_id unlocked wiped disk k no_work h j id filed live files room m =
    ground (arith, files, m)
run_work-keeps_id unlocked wiped disk k (settle i) h j id filed live files room m =
    rw (keeps_id-clear_maybe unlocked disk k i h j id) (ground (arith, files, m))
run_work-keeps_id unlocked wiped disk k (file e) h j id filed live files room m =
    record_tx-keeps_id unlocked wiped disk k e h j id live
      (ground (arith, files, room, text_eq_iff e.txid id))
      (ground (arith, files, m, text_eq_iff e.txid id))

work_for-Files :
    (now : ℕ) (m : Meta) (r : SubmitResult) (id : Text)
    → reports id r ≡ true
    → Files id (work_for now m r)
unfolding work_for file_ambiguous Files
work_for-Files now m r id h = elim (Option-cases r.txid) [
  | inl e ↦ ground (arith, e, h)
  | inr (t, e) ↦ ground (arith, e, h, text_eq_iff t id)
]

-- After `maybeRecord` the account's history shows the transaction of a result that was accepted or may be in
-- flight, whichever reads and writes of the store fail and also where the wallet was locked meanwhile, unless a
-- reset wiped it. Every transaction that the history of any account showed before is shown still, where its list is
-- not the full list of 200 rows that the new row enters.
pub maybe_record-is_shown :
    (unlocked wiped : Bool) (disk1 disk2 : Disk) (now : ℕ) (k : Text) (m : Meta) (r : SubmitResult)
    (h : History) (j id : Text)
    → (unlocked || not wiped) ≡ true
    → ((text_eq j k && not (reports id r)) ≡ true → HasRoom k h.stored)
    → ((text_eq j k && reports id r) || is_shown j id h) ≡ true
    → is_shown j id (maybe_record unlocked wiped disk1 disk2 now k m r h) ≡ true
unfolding maybe_record
maybe_record-is_shown unlocked wiped disk1 disk2 now k m r h j id live room shown =
    let h' : History = run_work unlocked wiped disk1 k (work_for now m r) h in
    rw
      (
        is_shown_iff j id (latch_result unlocked disk2 k r h'),
        keeps_id-latch_result unlocked disk2 k r h' j id,
      )
      (run_work-keeps_id unlocked wiped disk1 k (work_for now m r) h j id (reports id r) live
        (work_for-Files now m r id) room (rw (← is_shown_iff j id h) shown))
