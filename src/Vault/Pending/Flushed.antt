-- ===== src/Vault/Pending/Flushed.antt =====
-- What a whole flush leaves in the queue (src/core/wallet.ts `flushPending`).
use cairn_wallet.Base.{
  ℕ, ◌≡◌, refl, sym, inl, inr, true, ◌||◌, not, Option, none, some, List, [], ◌∷◌, ◌++◌, keep,
  append-nil, append_assoc, arith, Bool-cases,
}
use cairn_wallet.Base.Text.{Text, text_eq_iff, lower}
use cairn_wallet.Base.Eq.{text_key, has, has-add}
use cairn_wallet.Vault.Pending.{
  Entry, Flight, Queue, Visit, is_settled, start_flight, visited, merged, finish, visit_all,
  flush_from, flush_pending,
}
use cairn_wallet.Vault.Pending.Steps.{is_in}

-- The entries that a flush keeps are those that it visits and is not done with.
unfoldable pub unsettled : (now : ℕ) → (answer : Entry → Visit) → List Entry → List Entry
unsettled now answer = keep (λ (x : Entry). not (is_settled now x (answer x)))

visit_all-kept :
    (now : ℕ) (answer : Entry → Visit) (l : List Entry) (f : Flight)
    → (visit_all now answer l f).kept ≡ f.kept ++ unsettled now answer l
unfolding visit_all visited unsettled
visit_all-kept now answer [] f = sym (append-nil f.kept)
visit_all-kept now answer (x ∷ l) f = elim (Bool-cases (is_settled now x (answer x))) [
  | inl e ↦ ground (arith, e, visit_all-kept now answer l (visited now x (answer x) l f))
  | inr e ↦ ground (
    arith,
    e,
    visit_all-kept now answer l (visited now x (answer x) l f),
    append_assoc f.kept (x ∷ []) (unsettled now answer l),
  )
]

visit_all-processed :
    (now : ℕ) (answer : Entry → Visit) (k : Text) (l : List Entry) (f : Flight)
    → has k (visit_all now answer l f).processed ≡ (has k f.processed || is_in k l)
unfolding visit_all visited is_in
visit_all-processed now answer k [] f = ground arith
visit_all-processed now answer k (x ∷ l) f = ground (
  arith,
  visit_all-processed now answer k l (visited now x (answer x) l f),
  has-add k (lower x.txid) f.processed,
  text_eq_iff k (lower x.txid),
)

-- A union leaves out what was visited.
keep-visited :
    (p : List Text) (l : List Entry)
    → ((k : Text) → is_in k l ≡ true → has k p ≡ true)
    → keep (λ (x : Entry). not (has (lower x.txid) p)) l ≡ []
unfolding is_in
keep-visited p [] h = refl
keep-visited p (x ∷ l) h = ground (
  arith,
  h (lower x.txid),
  text_eq_iff (lower x.txid) (lower x.txid),
  keep-visited p l (λ k e. h k (ground (arith, e))),
)

flush_from-stored :
    (now : ℕ) (answer : Entry → Visit) (q : Queue) (l : List Entry)
    → q.stored ≡ l
    → (flush_from now answer (start_flight l none) q).stored ≡ unsettled now answer l
unfolding flush_from start_flight finish merged unsettled
flush_from-stored now answer q [] e = e
flush_from-stored now answer q (x ∷ l) e =
    let f : Flight = record { left = x ∷ l; kept = []; processed = [] } in
    rw
      (
        e,
        visit_all-kept now answer (x ∷ l) f,
        keep-visited (visit_all now answer (x ∷ l) f).processed (x ∷ l)
            (λ k h. ground (arith, h, visit_all-processed now answer k (x ∷ l) f)),
      )
      (append-nil (unsettled now answer (x ∷ l)))

flush_from-flight :
    (now : ℕ) (answer : Entry → Visit) (q : Queue) (o : Option Flight)
    → (flush_from now answer o q).flight ≡ none
unfolding flush_from finish
flush_from-flight now answer q none = refl
flush_from-flight now answer q (some f) = refl

-- A flush of an idle queue with no other step between ends, leaves exactly the entries that it is not done with, in
-- their order, and is no longer under way; so an entry that is mined and whose registration succeeds leaves the queue.
pub flush_pending-unsettled :
    (now : ℕ) (answer : Entry → Visit) (q : Queue)
    → q.flight ≡ none
    → ((flush_pending now answer q).stored ≡ unsettled now answer q.stored)
      × ((flush_pending now answer q).flight ≡ none)
unfolding flush_pending
flush_pending-unsettled now answer q e =
    let idle : Queue = record { stored = q.stored; flight = none } in
    rw e (
      flush_from-stored now answer idle q.stored refl,
      flush_from-flight now answer idle (start_flight q.stored none),
    )
