-- ===== src/History/Reconcile.antt =====
-- The inclusion reconcile of the history (src/core/history.ts `pendingMerge`, `inclusionReads`).
pub mod Justified
use cairn_wallet.Base.{
  ℕ, ◌+◌, ◌-◌, ◌==◌, ltb, leb, Bool, true, false, ◌&&◌, ◌||◌, not, Option, none, some, List, [],
  ◌∷◌, map, take, keep, any, if◌then◌else◌,
}
use cairn_wallet.Base.Text.{Text, lower}
use cairn_wallet.Base.Eq.{nat_eq, text_key, pair_eq, has, put, lookup}
use cairn_wallet.Spend.Coins.{Outpoint, op_key}
use cairn_wallet.Inclusion.{
  TxState, mined, pending, unknown, TxInclusion, Verdict, included, spent, still_open, no_reading,
  inclusion_verdict, Row, Reading, was_spent, was_open, gone_step,
}
use cairn_wallet.History.{HistoryRow, Lists, rows_at, Disk, History}
use cairn_wallet.History.Record.{write_rows}

abbrev pub notice_blocks : ℕ
notice_blocks = 10

abbrev pub reads_max : ℕ
reads_max = 8

abbrev pub gone_read_interval : ℕ
gone_read_interval = 100

-- `isMergeCandidate`
unfoldable pub is_merge_candidate : HistoryRow → Bool
is_merge_candidate r = r.is_merge && (not r.confirmed && not r.going.gone)

abbrev is_some : Option ℕ → Bool
is_some none = false
is_some (some t) = true

-- `isOpenRow`
unfoldable pub is_open_row : HistoryRow → Bool
unfolding is_merge_candidate
is_open_row r = r.maybe || (is_merge_candidate r || (r.going.gone || is_some r.going.gone_tip))

-- the mined utxo set: its outpoints, and the ids of its transactions
pub record MinedSet : Type 0 where
  pub ops : List Outpoint
  pub txids : List Text

-- what the chain reads of one pass gave
pub record Reads : Type 0 where
  pub tip : Option ℕ
  pub states : List (Text × TxInclusion)
  pub mined_set : Option MinedSet

abbrev no_reads : Reads
no_reads = record { tip = none; states = []; mined_set = none }

mined_ops : Option MinedSet → Option (List Outpoint)
mined_ops none = none
mined_ops (some m) = some m.ops

pub mined_has : Text → Option MinedSet → Bool
mined_has id none = false
mined_has id (some m) = has id m.txids

unfoldable pub row_verdict : (present : List Text) → Reads → HistoryRow → Verdict
unfolding mined_ops mined_has
row_verdict present reads e =
    let id = lower e.txid in
    if has id present || mined_has id reads.mined_set
    then included
    else inclusion_verdict (lookup id reads.states) e.inputs (mined_ops reads.mined_set)

-- The markers of an included row go, and a merge is latched.
unfoldable pub include_row : HistoryRow → HistoryRow
include_row e = record e {
  maybe = false;
  stuck = false;
  going = record { gone_tip = none; gone = false };
  confirmed = e.is_merge || e.confirmed;
}

-- `verdict !== "noreading" && goneStep(e, verdict, reads.tip)`
go_step : Row → Verdict → ℕ → Bool × Row
go_step row spent tip = gone_step row was_spent tip
go_step row still_open tip = gone_step row was_open tip
go_step row _ tip = (false, row)

-- `Number(e.subTip) > 0`, else the tip of this pass
sub_tip_or : Option ℕ → ℕ → Bool × ℕ
sub_tip_or none tip = (true, tip)
sub_tip_or (some s) tip = if ltb 0 s then (false, s) else (true, tip)

-- `st && e.chkTip !== reads.tip`
is_newly_read : Option TxInclusion → Option ℕ → ℕ → Bool
is_newly_read none chk tip = false
is_newly_read (some st) none tip = true
is_newly_read (some st) (some c) tip = not (c == tip)

-- An open row that is not included, at the tip.
unfoldable pub wait_row : Verdict → Option TxInclusion → (tip : ℕ) → HistoryRow → Bool × HistoryRow
unfolding go_step sub_tip_or is_newly_read
wait_row verdict st tip e =
    let (stepped, going) = go_step e.going verdict tip in
    let (filled, sub) = sub_tip_or e.sub_tip tip in
    let checked = is_newly_read st e.chk_tip tip in
    let late = not e.stuck && leb (sub + notice_blocks) tip in
    (
      stepped || (filled || (checked || late)),
      record e {
        going = going;
        sub_tip = some sub;
        chk_tip = if checked then some tip else e.chk_tip;
        stuck = e.stuck || late;
      },
    )

settle_open : Verdict → Option TxInclusion → Option ℕ → HistoryRow → Bool × HistoryRow
unfolding include_row wait_row
settle_open included st tip e = (true, include_row e)
settle_open verdict st none e = (false, e)
settle_open verdict st (some tip) e = wait_row verdict st tip e

-- One round of the loop: whether the row is dirty, and the row.
unfoldable pub settle_row : (present : List Text) → Reads → HistoryRow → Bool × HistoryRow
unfolding is_open_row row_verdict settle_open
settle_row present reads e =
    if is_open_row e
    then settle_open (row_verdict present reads e) (lookup (lower e.txid) reads.states) reads.tip e
    else (false, e)

unfoldable pub settle_rows :
    (present : List Text) → Reads → List HistoryRow → Bool × List HistoryRow
unfolding settle_row
settle_rows present reads h = (
  any (λ (e : HistoryRow). (settle_row present reads e).0) h,
  map (λ (e : HistoryRow). (settle_row present reads e).1) h,
)

-- What the popup shows of the merges.
pub record Summary : Type 0 where
  pub pending : Bool
  pub amount : ℕ
  pub maybe : Bool
  pub stuck : Bool

abbrev pub quiet : Summary
quiet = record { pending = false; amount = 0; maybe = false; stuck = false }

-- The loop over the merges that wait: what comes back is the input total less the fee.
unfoldable pub summary_from : Summary → List HistoryRow → Summary
summary_from s [] = s
summary_from s (e ∷ h) =
    summary_from
      (if is_merge_candidate e
        then record {
          pending = true;
          amount = s.amount + (e.amount - e.fee);
          maybe = s.maybe || e.maybe;
          stuck = s.stuck || e.stuck;
        }
        else s)
      h

-- The chained work of `pendingMerge`; the second is its answer, `quiet` where the store throws.
unfoldable pub reconcile :
    (unlocked : Bool) → Disk → Text → (present : List Text) → Reads → History → History × Summary
unfolding settle_rows summary_from
reconcile unlocked disk k present reads h =
    let (dirty, rows) = settle_rows present reads (rows_at k h.stored) in
    if not (unlocked && disk.reads)
    then (h, quiet)
    else if not dirty
    then (h, summary_from quiet rows)
    else elim (write_rows disk k rows h.stored) [
      | none ↦ (h, quiet)
      | some s ↦ (record h { stored = s }, summary_from quiet rows)
    ]

-- The ids of an answer, less the elements that have none.
live_ids : List (Option Text) → List Text
live_ids [] = []
live_ids (none ∷ us) = live_ids us
live_ids (some id ∷ us) = lower id ∷ live_ids us

pick_rows : List HistoryRow → List (Option Text) → List Text × List HistoryRow
unfolding live_ids
pick_rows peek us = (
  live_ids us,
  keep (λ (x : HistoryRow). is_open_row x && not (has (lower x.txid) (live_ids us))) peek,
)

-- The part of `pendingMerge` before its chain reads: the ids in a utxo set, and the rows to read; `none` where it
-- answers `quiet`. `utxos` is the caller's set, `balance` what `node.balance` gives.
unfoldable pub open_rows :
    (peek : List HistoryRow) (utxos balance : Option (List (Option Text)))
    → Option (List Text × List HistoryRow)
unfolding pick_rows
open_rows peek utxos balance = elim utxos [
  | none ↦
      if any is_merge_candidate peek
      then elim balance [ none ↦ none | some us ↦ some (pick_rows peek us) ]
      else none
  | some us ↦
      if any is_merge_candidate peek || any is_open_row peek then some (pick_rows peek us) else none
]

-- `!(Number(x.chkTip) >= t) && !(x.gone && t - Number(x.chkTip) < INCLUSION_GONE_READ_INTERVAL)`
is_due : ℕ → Option ℕ → (gone : Bool) → Bool
is_due t none gone = true
is_due t (some c) gone = not (leb t c) && not (gone && ltb t (c + gone_read_interval))

unfoldable pub due_rows : ℕ → List HistoryRow → List HistoryRow
unfolding is_due
due_rows t open_ones =
    take reads_max (keep (λ (x : HistoryRow). is_due t x.chk_tip x.going.gone) open_ones)

put_state : Text → Option TxInclusion → List (Text × TxInclusion) → List (Text × TxInclusion)
put_state id none states = states
put_state id (some st) states = put (lower id) st states

unfoldable pub read_states :
    (status : Text → Option TxInclusion)
    → List HistoryRow
    → List (Text × TxInclusion)
    → List (Text × TxInclusion)
unfolding put_state
read_states status [] states = states
read_states status (x ∷ due) states =
    read_states status due (put_state x.txid (status x.txid) states)

is_unknown : Text × TxInclusion → Bool
is_unknown p = elim p.1.state [ unknown ↦ true | _ ↦ false ]

live_ops : List (Option (Text × ℕ)) → List (Text × ℕ)
live_ops [] = []
live_ops (none ∷ us) = live_ops us
live_ops (some u ∷ us) = u ∷ live_ops us

mined_of : Option (List (Option (Text × ℕ))) → Option MinedSet
unfolding live_ops
mined_of none = none
mined_of (some us) = some (record {
  ops = map (λ (u : Text × ℕ). op_key u.0 u.1) (live_ops us);
  txids = map (λ (u : Text × ℕ). lower u.0) (live_ops us);
})

-- `inclusionReads`: `tip` is 0 where the node gives none; `status` and `confirmed` are the node's answers.
unfoldable pub inclusion_reads :
    (tip : ℕ) (status : Text → Option TxInclusion) (confirmed : Option (List (Option (Text × ℕ))))
    → List HistoryRow
    → Reads
unfolding due_rows read_states is_unknown mined_of
inclusion_reads tip status confirmed open_ones =
    let states = read_states status (due_rows tip open_ones) [] in
    if not (ltb 0 tip) then no_reads else record {
      tip = some tip;
      states = states;
      mined_set = if any is_unknown states then mined_of confirmed else none;
    }

-- `open.length ? await this.inclusionReads(open, addr) : …`
pub reads_for :
    (tip : ℕ) (status : Text → Option TxInclusion) (confirmed : Option (List (Option (Text × ℕ))))
    → List HistoryRow
    → Reads
unfolding inclusion_reads
reads_for tip status confirmed [] = no_reads
reads_for tip status confirmed (x ∷ xs) = inclusion_reads tip status confirmed (x ∷ xs)

-- What the node answers during one pass.
pub record NodeAnswers : Type 0 where
  pub balance : Option (List (Option Text))
  pub tip : ℕ
  pub status : Text → Option TxInclusion
  pub confirmed : Option (List (Option (Text × ℕ)))

-- `pendingMerge`: `peek` holds the rows of its first read, `h` the state that its chained work meets, after the reads.
unfoldable pub pending_merge :
    (peek : List HistoryRow) (utxos : Option (List (Option Text)))
    → NodeAnswers
    → (unlocked : Bool) → Disk
    → Text
    → History
    → History × Summary
unfolding open_rows reads_for reconcile
pending_merge peek utxos node unlocked disk k h = elim (open_rows peek utxos node.balance) [
  | none ↦ (h, quiet)
  | some (present, open_ones) ↦
      reconcile unlocked disk k present (reads_for node.tip node.status node.confirmed open_ones) h
]
