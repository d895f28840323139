-- ===== src/History/Record.antt =====
-- Recording a submission (src/core/history.ts `maybeRecord`, `recordTx`, `clearMaybe`, `latchSpentMerges`,
-- `drainPendingHist`, `history`).
pub mod View
pub mod Filed
pub mod Kept
pub mod Definite
use cairn_wallet.Base.{
  ℕ, Bool, true, false, ◌&&◌, ◌||◌, not, Option, none, some, List, [], ◌∷◌, ◌++◌, map, take, any,
  keep, if◌then◌else◌,
}
use cairn_wallet.Base.Text.{Text, text_eq, lower}
use cairn_wallet.Base.Eq.{text_key, has, put}
use cairn_wallet.Spend.Errors.{Code, submit_duplicate, submit_maybe_inflight}
use cairn_wallet.Spend.Coins.{Outpoint}
use cairn_wallet.Spend.Submit.{SubmitResult}
use cairn_wallet.History.{
  HistoryRow, Lists, rows_at, Disk, History, max_rows, inclusion_inputs_kept,
}

-- `h.find((x) => x.txid === txid)`
unfoldable pub find_row : Text → List HistoryRow → Option HistoryRow
find_row id [] = none
find_row id (r ∷ rs) = let rest = find_row id rs in if text_eq r.txid id then some r else rest

-- `delete e.maybe` on the row that the search found
unfoldable pub settle_first : Text → List HistoryRow → List HistoryRow
settle_first id [] = []
settle_first id (r ∷ rs) =
    let rest = settle_first id rs in
    if text_eq r.txid id then record r { maybe = false } ∷ rs else r ∷ rest

-- A write of one list: `none` where it throws.
unfoldable pub write_rows : Disk → Text → List HistoryRow → Lists → Option Lists
write_rows disk k h s = if disk.writes then some (put k h s) else none

-- `doRecordTx` behind its search
unfoldable pub file_row : Disk → Text → HistoryRow → Option HistoryRow → Lists → Option Lists
unfolding settle_first write_rows
file_row disk k e none s = write_rows disk k (take max_rows (e ∷ rows_at k s)) s
file_row disk k e (some old) s =
    if old.maybe && not e.maybe
    then write_rows disk k (settle_first e.txid (rows_at k s)) s
    else some s

-- `doRecordTx`: `none` where it throws, and nothing is written.
unfoldable pub do_record_tx : Disk → Text → HistoryRow → Lists → Option Lists
unfolding find_row file_row
do_record_tx disk k e s =
    if disk.reads then file_row disk k e (find_row e.txid (rows_at k s)) s else none

-- a parked twin of the row that a definitive record supersedes
is_superseded : Text → HistoryRow → Text × HistoryRow → Bool
is_superseded k e p = text_eq p.0 k && (text_eq p.1.txid e.txid && (p.1.maybe && not e.maybe))

unfoldable pub park_on_failure : Text → HistoryRow → Option Lists → History → History
park_on_failure k e none h = record h { parked = h.parked ++ (k, e) ∷ [] }
park_on_failure k e (some s) h = record h { stored = s }

-- The chained work of `recordTx`.
unfoldable pub record_tx : (unlocked wiped : Bool) → Disk → Text → HistoryRow → History → History
unfolding do_record_tx is_superseded park_on_failure
record_tx unlocked wiped disk k e h =
    if not unlocked
    then (if wiped then h else record h { parked = h.parked ++ (k, e) ∷ [] })
    else let kept = keep (λ (p : Text × HistoryRow). not (is_superseded k e p)) h.parked in
      park_on_failure k e (do_record_tx disk k e h.stored) (record h { parked = kept })

-- The loop of `drainPendingHist` over the parked rows; `disks n` is the store with `n` rows left behind it.
unfoldable pub drain_rows :
    (disks : List (Text × HistoryRow) → Disk) → List (Text × HistoryRow) → History → History
unfolding do_record_tx park_on_failure
drain_rows disks [] h = h
drain_rows disks ((k, e) ∷ ps) h =
    drain_rows disks ps (park_on_failure k e (do_record_tx (disks ps) k e h.stored) h)

unfoldable pub drain_parked :
    (unlocked : Bool) → (List (Text × HistoryRow) → Disk) → History → History
unfolding drain_rows
drain_parked unlocked disks h =
    if unlocked then drain_rows disks h.parked (record h { parked = [] }) else h

-- the parked twins of a row, which a duplicate answer settles
settle_parked : Text → Text → List (Text × HistoryRow) → List (Text × HistoryRow)
settle_parked k id = map (λ (p : Text × HistoryRow).
    if text_eq p.0 k && text_eq p.1.txid id then (p.0, record p.1 { maybe = false }) else p)

-- `h.find((x) => x.txid === txid && x.maybe)`, and `delete e.maybe` on it
unfoldable pub settle_maybe : Text → List HistoryRow → Bool × List HistoryRow
settle_maybe id [] = (false, [])
settle_maybe id (r ∷ rs) =
    let (found, rest) = settle_maybe id rs in
    if text_eq r.txid id && r.maybe
    then (true, record r { maybe = false } ∷ rs)
    else (found, r ∷ rest)

-- A read-modify-write whose failure is ignored: nothing changes where the store throws or nothing is to be written.
unfoldable pub update_rows :
    (unlocked : Bool) → Disk → Text → (List HistoryRow → Bool × List HistoryRow) → Lists → Lists
update_rows unlocked disk k f s =
    let (dirty, h) = f (rows_at k s) in
    if unlocked && (disk.reads && (disk.writes && dirty)) then put k h s else s

unfoldable pub clear_maybe : (unlocked : Bool) → Disk → Text → Text → History → History
unfolding settle_parked settle_maybe update_rows
clear_maybe unlocked disk k id h = record {
  stored = update_rows unlocked disk k (settle_maybe id) h.stored;
  parked = settle_parked k id h.parked;
}

-- whether the row is a merge whose output was spent
is_latched : List Text → HistoryRow → Bool
is_latched spent r = r.is_merge && (not r.confirmed && has (lower r.txid) (map lower spent))

unfoldable pub latch_rows : List Text → List HistoryRow → Bool × List HistoryRow
unfolding is_latched
latch_rows spent h = (
  any (is_latched spent) h,
  map
      (λ (r : HistoryRow).
        if is_latched spent r then record r { confirmed = true; maybe = false } else r)
      h,
)

unfoldable pub latch_spent_merges : (unlocked : Bool) → Disk → Text → List Text → History → History
unfolding latch_rows update_rows
latch_spent_merges unlocked disk k spent h = record h {
  stored = update_rows unlocked disk k (latch_rows spent) h.stored;
}

-- What a flow says of its transaction: `meta`.
pub record Meta : Type 0 where
  pub is_merge : Bool
  pub amount : ℕ
  pub fee : ℕ

-- the few inputs that a row keeps for the reconcile
kept_inputs : Option (List Outpoint) → Option (List Outpoint)
kept_inputs none = none
kept_inputs (some []) = none
kept_inputs (some (o ∷ os)) = some (take inclusion_inputs_kept (o ∷ os))

abbrev pub new_row :
    (now : ℕ) (id : Text) → Meta → (inputs : Option (List Outpoint)) (maybe : Bool) → HistoryRow
new_row now id m inputs maybe = record {
  txid = id;
  is_merge = m.is_merge;
  ts = now;
  amount = m.amount;
  fee = m.fee;
  inputs = inputs;
  maybe = maybe;
  confirmed = false;
  stuck = false;
  going = record { gone_tip = none; gone = false };
  sub_tip = none;
  chk_tip = none;
}

-- The work that `maybeRecord` chains for a result.
pub data Work : Type 0 where
  no_work : Work
  file : HistoryRow → Work
  settle : (id : Text) → Work

file_ambiguous : (now : ℕ) → Meta → Option (List Outpoint) → Text → Option Code → Work
unfolding kept_inputs
file_ambiguous now m inputs id (some submit_maybe_inflight) =
    file (new_row now id m (kept_inputs inputs) true)
file_ambiguous now m inputs id (some submit_duplicate) = settle id
file_ambiguous now m inputs id _ = no_work

unfoldable pub work_for : (now : ℕ) → Meta → SubmitResult → Work
unfolding kept_inputs file_ambiguous
work_for now m r = elim r.txid [
  | none ↦ no_work
  | some id ↦
      if r.ok
      then file (new_row now id m (if m.is_merge then kept_inputs r.inputs else none) false)
      else file_ambiguous now m r.inputs id r.code
]

run_work : (unlocked wiped : Bool) → Disk → Text → Work → History → History
unfolding record_tx clear_maybe
run_work unlocked wiped disk k no_work h = h
run_work unlocked wiped disk k (file e) h = record_tx unlocked wiped disk k e h
run_work unlocked wiped disk k (settle id) h = clear_maybe unlocked disk k id h

latch_result : (unlocked : Bool) → Disk → Text → SubmitResult → History → History
unfolding latch_spent_merges
latch_result unlocked disk k r h = elim r.spent_txids [
  | none ↦ h
  | some ids ↦ if r.ok then latch_spent_merges unlocked disk k ids h else h
]

-- `maybeRecord`, with the store as it is for its two pieces of work.
unfoldable pub maybe_record :
    (unlocked wiped : Bool) (disk1 disk2 : Disk) (now : ℕ) (k : Text)
    → Meta
    → SubmitResult
    → History
    → History
unfolding work_for run_work latch_result
maybe_record unlocked wiped disk1 disk2 now k m r h =
    latch_result unlocked disk2 k r (run_work unlocked wiped disk1 k (work_for now m r) h)

-- whether a stored row has the id of the parked one
pub is_stored : List HistoryRow → HistoryRow → Bool
is_stored h e = any (λ (x : HistoryRow). text_eq x.txid e.txid) h

-- `history()`: the parked rows that are not stored, before the stored ones
unfoldable pub history : (unlocked : Bool) → Text → History → List HistoryRow
unfolding is_stored
history unlocked k h =
    if unlocked
    then map (λ (p : Text × HistoryRow). p.1)
        (keep (λ (p : Text × HistoryRow). text_eq p.0 k && not (is_stored (rows_at k h.stored) p.1))
          h.parked)
      ++ rows_at k h.stored
    else []
