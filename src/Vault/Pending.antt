-- ===== src/Vault/Pending.antt =====
-- The queue of content to register (src/core/wallet.ts `addPending`, `flushPending`, `hasPending`). An addition and the
-- end of a flush read the stored list in one step and write it in a later one, and other steps may come between.
pub mod Steps
pub mod Kept
pub mod Flushed
use cairn_wallet.Base.{
  ℕ, ◌-◌, Bool, true, false, ◌||◌, not, Option, none, some, List, [], ◌∷◌, ◌++◌, keep, any, ltb,
  if◌then◌else◌,
}
use cairn_wallet.Base.Text.{Text, text_eq, lower}
use cairn_wallet.Base.Eq.{text_key, has, add}

pub record Entry : Type 0 where
  pub content : Text
  pub txid : Text
  pub ts : ℕ

-- A flush under way: the entries to visit, those that it keeps, and the ids that it visited.
pub record Flight : Type 0 where
  pub left : List Entry
  pub kept : List Entry
  pub processed : List Text

-- `flight` is `none` where `flushInFlight` is false.
pub record Queue : Type 0 where
  pub stored : List Entry
  pub flight : Option Flight

-- The write of `addPending`: `list` is the one that it read.
unfoldable pub add_pending : Entry → (list : List Entry) → Queue → Queue
add_pending e list q = record q {
  stored = if any (λ (x : Entry). text_eq x.txid e.txid) list then list else list ++ e ∷ [];
}

-- seven days
abbrev pub retry_ms : ℕ
retry_ms = 604800000

-- What the node and the content service answer on a visit. `read_threw` and `register_threw` are exceptions.
pub data Visit : Type 0 where
  read_threw not_mined register_threw : Visit
  registered : (is_ok : Bool) → Visit

-- whether a visited entry is done with: it is too old, or its content was registered
unfoldable pub is_settled : (now : ℕ) → Entry → Visit → Bool
is_settled now x read_threw = ltb retry_ms (now - x.ts)
is_settled now x not_mined = ltb retry_ms (now - x.ts)
is_settled now x register_threw = ltb retry_ms (now - x.ts)
is_settled now x (registered is_ok) = ltb retry_ms (now - x.ts) || is_ok

start_flight : List Entry → Option Flight → Option Flight
start_flight l (some f) = some f
start_flight [] none = none
start_flight (x ∷ l) none = some (record { left = x ∷ l; kept = []; processed = [] })

-- The first read of `flushPending`: nothing where one is under way or the queue is empty.
unfoldable pub start : Queue → Queue
unfolding start_flight
start q = record q { flight = start_flight q.stored q.flight }

unfoldable pub visited : (now : ℕ) → Entry → Visit → List Entry → Flight → Flight
visited now x v l f = record {
  left = l;
  kept = if is_settled now x v then f.kept else f.kept ++ x ∷ [];
  processed = add (lower x.txid) f.processed;
}

visit_left : (now : ℕ) → Visit → List Entry → Flight → Flight
visit_left now v [] f = f
visit_left now v (x ∷ l) f = visited now x v l f

visit_flight : (now : ℕ) → Visit → Option Flight → Option Flight
visit_flight now v none = none
visit_flight now v (some f) = some (visit_left now v f.left f)

-- one round of the loop of `flushPending`
unfoldable pub visit : (now : ℕ) → Visit → Queue → Queue
unfolding visit_left visit_flight visited
visit now v q = record q { flight = visit_flight now v q.flight }

-- the union by id of the kept entries and those that were queued meanwhile
unfoldable pub merged : Flight → List Entry → List Entry
merged f now = f.kept ++ keep (λ (x : Entry). not (has (lower x.txid) f.processed)) now

-- The last write of `flushPending`: `now` is the list that it read again behind the last visit.
unfoldable pub finish : Flight → (now : List Entry) → Queue → Queue
unfolding merged
finish f now q = record { stored = merged f now; flight = none }

-- A read or a write of the store fails: the flush ends, and the stored list is as before.
unfoldable pub abort : Queue → Queue
abort q = record q { flight = none }

-- A flush of its own, from its list to its end: `answer` is what each visit gives.
unfoldable pub visit_all : (now : ℕ) → (answer : Entry → Visit) → List Entry → Flight → Flight
unfolding visited
visit_all now answer [] f = f
visit_all now answer (x ∷ l) f = visit_all now answer l (visited now x (answer x) l f)

unfoldable pub flush_from : (now : ℕ) → (answer : Entry → Visit) → Option Flight → Queue → Queue
unfolding visit_all finish
flush_from now answer none q = record q { flight = none }
flush_from now answer (some f) q = finish (visit_all now answer f.left f) q.stored q

-- `flushPending` with no other step between
unfoldable pub flush_pending : (now : ℕ) → (answer : Entry → Visit) → Queue → Queue
unfolding flush_from start_flight
flush_pending now answer q = flush_from now answer (start_flight q.stored q.flight) q

unfoldable pub has_pending : Queue → Bool
has_pending q = any (λ (x : Entry). true) q.stored
