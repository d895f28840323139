-- ===== src/History.antt =====
-- The transaction history (src/core/history.ts): its rows, the per-account lists in the store, and the rows parked in
-- memory. Every piece of work runs alone on the write chain, so each is one step on this state.
pub mod Record
pub mod Reconcile
pub mod Invariant
use cairn_wallet.Base.{ℕ, Bool, true, false, ◌||◌, Option, none, some, List, [], ◌∷◌}
use cairn_wallet.Base.Text.{Text}
use cairn_wallet.Base.Eq.{text_key, lookup}
use cairn_wallet.Spend.Coins.{Outpoint}
use cairn_wallet.Inclusion

-- What a flow files: the fields of a row that the store's work reads. `type` tells merges from the rest.
pub record HistoryRow : Type 0 where
  pub txid : Text
  pub is_merge : Bool
  pub ts : ℕ
  pub amount : ℕ
  pub fee : ℕ
  pub inputs : Option (List Outpoint)
  pub maybe : Bool
  pub confirmed : Bool
  pub stuck : Bool
  -- `goneTip`, `gone`
  pub going : Inclusion.Row
  -- `subTip`, `chkTip`: the tip of the first pass, and the tip of the last status read
  pub sub_tip : Option ℕ
  pub chk_tip : Option ℕ

-- The lists by their storage key; a key that is not there reads as the empty list.
abbrev pub Lists : Type 0
Lists = List (Text × List HistoryRow)

abbrev rows_or_empty : Option (List HistoryRow) → List HistoryRow
rows_or_empty none = []
rows_or_empty (some h) = h

-- `(await this.store.get(k)) || []`
unfoldable pub rows_at : Text → Lists → List HistoryRow
rows_at k s = rows_or_empty (lookup k s)

-- whether one read and one write of the store succeed
pub record Disk : Type 0 where
  pub reads : Bool
  pub writes : Bool

pub record History : Type 0 where
  pub stored : Lists
  -- `pendingHist`
  pub parked : List (Text × HistoryRow)

abbrev pub max_rows : ℕ
max_rows = 200

abbrev pub inclusion_inputs_kept : ℕ
inclusion_inputs_kept = 8
