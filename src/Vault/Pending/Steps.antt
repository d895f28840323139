-- ===== src/Vault/Pending/Steps.antt =====
-- The steps of additions and flushes, in every order (src/core/wallet.ts `addPending`, `flushPending`).
use cairn_wallet.Base.{◌≡◌, Bool, true, false, ℕ, Option, none, some, List, [], ◌∷◌, ◌++◌, any}
use cairn_wallet.Base.Text.{Text, text_eq, lower}
use cairn_wallet.Vault.Pending.{
  Entry, Flight, Queue, add_pending, Visit, is_settled, start, visit, finish, abort,
}

-- whether an entry with this id, in lower case, is in the list
unfoldable pub is_in : Text → List Entry → Bool
is_in k = any (λ (x : Entry). text_eq k (lower x.txid))

-- The queue, the additions that have read the stored list and not written it yet, each with what it read, and what
-- the end of the flush under way has read.
pub record Work : Type 0 where
  pub queue : Queue
  pub adding : List (Entry × List Entry)
  pub merging : Option (List Entry)

-- A step of the wallet on its queue, with the ids that it is done with.
pub data Step : Work → List Text → Work → Type 0 where
  add_read :
      (e : Entry) (w : Work) → Step w [] (record w { adding = (e, w.queue.stored) ∷ w.adding })
  add_written :
      (e : Entry) (list : List Entry) (before after : List (Entry × List Entry)) (w : Work)
      → w.adding ≡ before ++ (e, list) ∷ after
      → Step w [] (record w { queue = add_pending e list w.queue; adding = before ++ after })
  -- a read or the write of an addition fails
  add_failed :
      (e : Entry) (list : List Entry) (before after : List (Entry × List Entry)) (w : Work)
      → w.adding ≡ before ++ (e, list) ∷ after
      → Step w [] (record w { adding = before ++ after })
  started : (w : Work) → Step w [] (record w { queue = start w.queue })
  -- the visited entry is dropped
  settled :
      (now : ℕ) (v : Visit) (x : Entry) (l : List Entry) (f : Flight) (w : Work)
      → w.queue.flight ≡ some f
      → f.left ≡ x ∷ l
      → is_settled now x v ≡ true
      → Step w (lower x.txid ∷ []) (record w { queue = visit now v w.queue })
  -- the visited entry is kept
  postponed :
      (now : ℕ) (v : Visit) (x : Entry) (l : List Entry) (f : Flight) (w : Work)
      → w.queue.flight ≡ some f
      → f.left ≡ x ∷ l
      → is_settled now x v ≡ false
      → Step w [] (record w { queue = visit now v w.queue })
  merge_read :
      (f : Flight) (w : Work)
      → w.queue.flight ≡ some f
      → f.left ≡ []
      → Step w [] (record w { merging = some w.queue.stored })
  merge_written :
      (f : Flight) (now : List Entry) (w : Work)
      → w.queue.flight ≡ some f
      → w.merging ≡ some now
      → Step w [] (record w { queue = finish f now w.queue; merging = none })
  aborted : (w : Work) → Step w [] (record w { queue = abort w.queue; merging = none })

pub data Run (w : Work) : List Text → Work → Type 0 where
  here : Run w [] w
  next : (r s : List Text) (v : Work) (v' : Work) → Run w r v → Step v s v' → Run w (r ++ s) v'

-- A write finds the stored list as it was read for it.
unfoldable pub IsFreshStep : (w : Work) (s : List Text) (w' : Work) → Step w s w' → Type 0
IsFreshStep w s w' (add_written e list before after _ a) = list ≡ w.queue.stored
IsFreshStep w s w' (merge_written f now _ e m) = now ≡ w.queue.stored
IsFreshStep w s w' (add_read e _) = Unit
IsFreshStep w s w' (add_failed e list before after _ a) = Unit
IsFreshStep w s w' (started _) = Unit
IsFreshStep w s w' (settled now v x l f _ e g t) = Unit
IsFreshStep w s w' (postponed now v x l f _ e g t) = Unit
IsFreshStep w s w' (merge_read f _ e g) = Unit
IsFreshStep w s w' (aborted _) = Unit

-- No write of the run overwrites another one that came since its read.
unfoldable pub IsFresh : (w : Work) (r : List Text) (w' : Work) → Run w r w' → Type 0
IsFresh w r w' here = Unit
IsFresh w _ w' (next r s v _ run step) = IsFresh w r v run × IsFreshStep v s w' step
