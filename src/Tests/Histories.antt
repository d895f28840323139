-- ===== src/Tests/Histories.antt =====
-- The history on concrete inputs (src/core/history.ts).
use cairn_wallet.Base.{◌≡◌, refl, true, false, none, some, [], ◌∷◌, arith}
use cairn_wallet.Base.Text.{Text, codes, text_eq, lower}
use cairn_wallet.Base.Eq.{has, lookup}
use cairn_wallet.Spend.Coins.{op_key}
use cairn_wallet.Spend.Errors.{submit_maybe_inflight}
use cairn_wallet.Spend.Submit.{SubmitResult}
use cairn_wallet.Inclusion
use cairn_wallet.Inclusion.{TxInclusion, inclusion_verdict, gone_step}
use cairn_wallet.History.{HistoryRow, rows_at, History}
use cairn_wallet.History.Record.{
  Meta, new_row, maybe_record, record_tx, latch_spent_merges, find_row, history,
}
use cairn_wallet.History.Record.View.{is_shown}
use cairn_wallet.History.Record.Kept.{maybe_record-is_shown}
use cairn_wallet.History.Record.Definite.{IsDefinite, works, record_tx-IsDefinite}
use cairn_wallet.History.Reconcile.{Reads, settle_row, is_open_row, row_verdict, wait_row}
use cairn_wallet.History.Reconcile.Justified.{IsJustified, settle_row-IsJustified}
use cairn_wallet.History.Invariant.{IsHistory, Run, here, next, recorded, latched, Run-IsHistory}

abbrev account : Text
account = codes "txHistory:0xaa"

abbrev merge : Meta
merge = record { is_merge = true; amount = 900; fee = 10 }

abbrev row_of : Text → HistoryRow
row_of id = new_row 5 id merge (some (op_key (codes "0x11") 0 ∷ [])) true

abbrev empty : History
empty = record { stored = []; parked = [] }

abbrev one_row : History
one_row = record { stored = (account, row_of (codes "0xa1") ∷ []) ∷ []; parked = [] }

abbrev in_doubt : SubmitResult
in_doubt = record {
  ok = false;
  txid = some (codes "0xb2");
  code = some submit_maybe_inflight;
  inputs = none;
  spent_txids = none;
}

-- The store throws at the write, and the row is shown from memory.
maybe_record-is_shown_example :
    is_shown account (codes "0xb2") (
      maybe_record true false
        (record { reads = true; writes = false })
        works
        7
        account
        merge
        in_doubt
        one_row)
    ≡ true
unfolding is_shown history rows_at lookup text_eq
maybe_record-is_shown_example =
    maybe_record-is_shown true false (record { reads = true; writes = false }) works 7 account merge
      in_doubt one_row account (codes "0xb2") refl (λ h. omega arith) refl

record_tx-IsDefinite_example :
    (is_shown account
        (codes "0xa1")
        (record_tx true false works account (new_row 9 (codes "0xa1") merge none false) one_row)
      ≡ true)
    × IsDefinite (
        find_row (codes "0xa1") (
          history true account (
            record_tx true false works account
              (new_row 9 (codes "0xa1") merge none false)
              one_row)))
record_tx-IsDefinite_example =
    record_tx-IsDefinite false account (new_row 9 (codes "0xa1") merge none false) one_row refl

-- Two tips after a spent reading, with the input missing from the mined set.
abbrev second_read : Reads
second_read = record {
  tip = some 60;
  states = (codes "0xa1", record { state = Inclusion.unknown; definite = true }) ∷ [];
  mined_set = some (record { ops = []; txids = [] });
}

abbrev noted : HistoryRow
noted = record (row_of (codes "0xa1")) {
  going = record { gone_tip = some 59; gone = false };
  sub_tip = some 50;
}

gone_now : (settle_row [] second_read noted).1.going.gone ≡ true
unfolding settle_row is_open_row row_verdict wait_row inclusion_verdict gone_step lookup has text_eq
    lower
gone_now = refl

settle_row-IsJustified_example :
    IsJustified [] second_read noted (settle_row [] second_read noted).1
settle_row-IsJustified_example = settle_row-IsJustified [] second_read noted

abbrev filed : History
filed = record_tx true false works account (row_of (codes "0xa1")) empty

abbrev combined : History
combined = latch_spent_merges true works account (codes "0xa1" ∷ []) filed

abbrev busy : Run empty combined
busy =
    next (next here (recorded true false works account (row_of (codes "0xa1"))))
      (latched true works account (codes "0xa1" ∷ []))

empty-IsHistory : IsHistory empty.stored
unfolding rows_at lookup
empty-IsHistory k = record { bounded = omega arith; one_each = tt }

Run-IsHistory_example : IsHistory combined.stored
Run-IsHistory_example = Run-IsHistory busy empty-IsHistory
