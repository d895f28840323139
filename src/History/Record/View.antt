-- ===== src/History/Record/View.antt =====
-- The view that a user has of the history (src/core/history.ts `history`): the ids of its rows.
use cairn_wallet.Base.{
  ℕ, zero, suc, ◌≤◌, ◌≡◌, refl, ap, ◌∙◌, Bool, true, false, ◌&&◌, ◌||◌, not, some, List, [], ◌∷◌,
  ◌++◌, map, take, keep, length, arith, if◌then◌else◌,
}
use cairn_wallet.Base.Text.{Text, text_eq, text_eq_iff}
use cairn_wallet.Base.Eq.{text_key, ◌===◌, has, has-append, put, lookup-put}
use cairn_wallet.History.{HistoryRow, Lists, rows_at, History}
use cairn_wallet.History.Record.{find_row, settle_first, is_stored, history}

-- the ids of rows, in order
abbrev pub ids : List HistoryRow → List Text
ids [] = []
ids (r ∷ rs) = r.txid ∷ ids rs

-- the id stands on a parked row of the list
unfoldable pub parked_has : Text → Text → List (Text × HistoryRow) → Bool
parked_has k id [] = false
parked_has k id (p ∷ ps) = (text_eq p.0 k && text_eq p.1.txid id) || parked_has k id ps

-- The user sees the transaction in the account's history.
unfoldable pub is_shown : Text → Text → History → Bool
is_shown k id h = has id (ids (history true k h))

pub is_stored-has :
    (rows : List HistoryRow) (e : HistoryRow) → is_stored rows e ≡ has e.txid (ids rows)
unfolding is_stored has
is_stored-has [] e = refl
is_stored-has (r ∷ rs) e =
    ground (arith, is_stored-has rs e, text_eq_iff r.txid e.txid, text_eq_iff e.txid r.txid)

pub ids-append : (a b : List HistoryRow) → ids (a ++ b) ≡ ids a ++ ids b
ids-append [] b = refl
ids-append (r ∷ rs) b = ap (◌∷◌ r.txid) (ids-append rs b)

unfoldable pub shown_rows : Text → List HistoryRow → List (Text × HistoryRow) → List HistoryRow
shown_rows k rows ps =
    map (λ (p : Text × HistoryRow). p.1)
      (keep (λ (p : Text × HistoryRow). text_eq p.0 k && not (is_stored rows p.1)) ps)

pub has-shown_rows :
    (k id : Text) (rows : List HistoryRow) (ps : List (Text × HistoryRow))
    → (has id (ids (shown_rows k rows ps)) || has id (ids rows))
      ≡ (parked_has k id ps || has id (ids rows))
unfolding shown_rows parked_has has
has-shown_rows k id rows [] = refl
has-shown_rows k id rows ((j, e) ∷ ps) = ground (
  arith,
  has-shown_rows k id rows ps,
  is_stored-has rows e,
  text_eq_iff e.txid id,
  text_eq_iff id e.txid,
)

-- A transaction is shown exactly where a parked or a stored row has its id.
pub is_shown_iff :
    (k id : Text) (h : History)
    → is_shown k id h ≡ (parked_has k id h.parked || has id (ids (rows_at k h.stored)))
unfolding is_shown history shown_rows
is_shown_iff k id h =
    ap (has id) (ids-append (shown_rows k (rows_at k h.stored) h.parked) (rows_at k h.stored))
    ∙ (has-append id (ids (shown_rows k (rows_at k h.stored) h.parked)) (ids (rows_at k h.stored))
        ∙ has-shown_rows k id (rows_at k h.stored) h.parked)

pub rows_at-put :
    (j k : Text) (r : List HistoryRow) (s : Lists)
    → rows_at j (put k r s) ≡ (if j === k then r else rows_at j s)
unfolding rows_at
rows_at-put j k r s = ground (arith, lookup-put j k r s)

pub parked_has-append :
    (k id : Text) (ps qs : List (Text × HistoryRow))
    → parked_has k id (ps ++ qs) ≡ (parked_has k id ps || parked_has k id qs)
unfolding parked_has
parked_has-append k id [] qs = refl
parked_has-append k id (p ∷ ps) qs = ground (arith, parked_has-append k id ps qs)

pub ids-settle_first : (id : Text) (rows : List HistoryRow) → ids (settle_first id rows) ≡ ids rows
unfolding settle_first
ids-settle_first id [] = refl
ids-settle_first id (r ∷ rs) = ground (arith, ids-settle_first id rs)

pub has-find_row :
    (id : Text) (rows : List HistoryRow) (r : HistoryRow)
    → find_row id rows ≡ some r
    → has id (ids rows) ≡ true
unfolding find_row has
has-find_row id [] r h = absurd (cc)
has-find_row id (x ∷ xs) r h =
    ground (arith, has-find_row id xs r, text_eq_iff x.txid id, text_eq_iff id x.txid)

pub has-take :
    (id : Text) (n : ℕ) (rows : List HistoryRow)
    → length rows ≤ n
    → has id (ids (take n rows)) ≡ has id (ids rows)
unfolding has
has-take id zero [] l = refl
has-take id zero (x ∷ xs) l = absurd (omega (arith, l))
has-take id (suc n) [] l = refl
has-take id (suc n) (x ∷ xs) l = ground (arith, has-take id n xs (omega (arith, l)))
