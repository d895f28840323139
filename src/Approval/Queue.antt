-- ===== src/Approval/Queue.antt =====
-- The approval queue (src/background.ts `pending`, `queueDappRequest`, `requeueFront`, `resolvePending`, the window's
-- `onRemoved`). A promise of a page is known by the sequence number of its request; `answered` is what pages received.
pub mod Accounted
use cairn_wallet.Base.{
  ℕ, ◌+◌, ◌≡◌, Bool, true, false, ◌&&◌, ◌||◌, not, Option, none, some, List, [], ◌∷◌, ◌++◌, map,
  length, leb, ◌==◌, any, if◌then◌else◌,
}
use cairn_wallet.Base.Text.{Text, codes, text_eq}
use cairn_wallet.Base.Eq.{nat_eq, text_key, pair_eq, has, lookup, put, delete}

-- `${Date.now()}-${reqSeq++}`: the time and the sequence number
abbrev pub RequestId : Type 0
RequestId = ℕ × ℕ

pub data PageCode : Type 0 where
  user_rejected wallet_locked account_changed first_party_only unsupported_method rate_limited
        approval_closed :
      PageCode
  forbidden unknown_kind wallet_unavailable internal : PageCode
  -- a code of the wallet's own answer
  wallet_code : Text → PageCode

abbrev pub dapp_methods : List Text
dapp_methods =
    codes "connect"
    ∷ codes "getAddress"
    ∷ codes "signin"
    ∷ codes "signinWithCsd"
    ∷ codes "getPermissions"
    ∷ codes "requestPermissions"
    ∷ codes "revokePermissions"
    ∷ codes "propose"
    ∷ codes "attest"
    ∷ codes "sealClaim"
    ∷ codes "revealClaim"
    ∷ codes "send"
    ∷ codes "fillOffer"
    ∷ []

abbrev pub max_pending_global : ℕ
max_pending_global = 32

abbrev pub max_pending_per_origin : ℕ
max_pending_per_origin = 5

-- `Params` are the parameters of a request.
module _ (Params : Type 0) where
  pub record Pending : Type 0 where
    pub origin : Text
    pub method : Text
    pub params : Params

-- `Answer` is what a page's promise resolves to.
module _ (Params Answer : Type 0) where
  pub record Queue : Type 0 where
    -- the `Map` in insertion order
    pub pending : List (RequestId × Pending Params)
    -- taken out by a `resolvePending` that has not finished
    pub in_flight : List (RequestId × Pending Params)
    pub answered : List (RequestId × Answer)
    pub req_seq : ℕ
    -- `approveWinId`
    pub window : Option ℕ

owns : ℕ → Option ℕ → Bool
owns w none = false
owns w (some v) = w == v

unfoldable pub count_origin : {Params : Type 0} → Text → List (RequestId × Pending Params) → ℕ
count_origin o [] = 0
count_origin o ((k, p) ∷ ps) =
    let rest = count_origin o ps in if text_eq p.origin o then rest + 1 else rest

module _ {Params Answer : Type 0} where
  -- The queue after a page's request, or the code of its refusal.
  unfoldable pub queue_dapp_request :
      (now : ℕ) (origin method : Text)
      → Params
      → Queue Params Answer
      → Option PageCode × Queue Params Answer
  unfolding count_origin
  queue_dapp_request now origin method params q =
      if not (has method dapp_methods)
      then (some unsupported_method, q)
      else if leb max_pending_global (length q.pending)
      then (some rate_limited, q)
      else if leb max_pending_per_origin (count_origin origin q.pending)
      then (some rate_limited, q)
      else (
        none,
        record q {
          pending =
              put (now, q.req_seq) (record { origin = origin; method = method; params = params })
                q.pending;
          req_seq = q.req_seq + 1;
        },
      )

  -- `resolvePending` up to its first `await`: the request leaves the queue.
  unfoldable pub take_request :
      RequestId → Queue Params Answer → Option (Pending Params) × Queue Params Answer
  take_request id q = elim (lookup id q.pending) [
    | none ↦ (none, q)
    | some p ↦
        (some p, record q { pending = delete id q.pending; in_flight = (id, p) ∷ q.in_flight })
  ]

  -- The end of a `resolvePending`: `finish` answers the page.
  unfoldable pub finish : RequestId → Answer → Queue Params Answer → Queue Params Answer
  finish id answer q = record q {
    in_flight = delete id q.in_flight;
    answered = (id, answer) ∷ q.answered;
  }

  -- `requeueFront`: back at the head, every other request behind it in its order
  unfoldable pub requeue_front :
      RequestId → Pending Params → Queue Params Answer → Queue Params Answer
  requeue_front id p q = record q {
    pending = (id, p) ∷ delete id q.pending;
    in_flight = delete id q.in_flight;
  }

  -- The end of a fill that was not confirmed: back to the window, or answered `closed` where the window is gone.
  unfoldable pub unconfirmed :
      (closed : Answer) → RequestId → Pending Params → Queue Params Answer → Queue Params Answer
  unfolding finish requeue_front
  unconfirmed closed id p q = elim q.window [
    | none ↦ finish id closed q
    | some w ↦ requeue_front id p q
  ]

  -- The callback of `chrome.windows.create`: the first window to report owns the queue.
  unfoldable pub window_created : ℕ → Queue Params Answer → Queue Params Answer
  window_created w q = elim q.window [ none ↦ record q { window = some w } | some v ↦ q ]

  close_all : Answer → List (RequestId × Pending Params) → List (RequestId × Answer)
  close_all closed [] = []
  close_all closed ((k, p) ∷ ps) = (k, closed) ∷ close_all closed ps

  -- `onRemoved`: closing the owner's window answers all that is still queued.
  unfoldable pub window_removed : (closed : Answer) → ℕ → Queue Params Answer → Queue Params Answer
  unfolding close_all owns
  window_removed closed w q =
      if owns w q.window
      then record q {
        window = none;
        pending = [];
        answered = close_all closed q.pending ++ q.answered;
      }
      else q

-- Before the first request.
abbrev pub empty_queue : (Params Answer : Type 0) → Queue Params Answer
empty_queue Params Answer = record {
  pending = [];
  in_flight = [];
  answered = [];
  req_seq = 0;
  window = none;
}

-- What the service worker may do next: several requests may be in flight at once, and each ends when its wallet call
-- does.
pub data Step {Params Answer : Type 0} : Queue Params Answer → Queue Params Answer → Type 0 where
  arrives :
      (q : Queue Params Answer) (now : ℕ) (origin method : Text) (params : Params)
      → Step q (queue_dapp_request now origin method params q).1
  taken : (q : Queue Params Answer) (id : RequestId) → Step q (take_request id q).1
  settled :
      (q : Queue Params Answer) (id : RequestId) (p : Pending Params) (answer : Answer)
      → lookup id q.in_flight ≡ some p
      → Step q (finish id answer q)
  returned :
      (q : Queue Params Answer) (id : RequestId) (p : Pending Params) (closed : Answer)
      → lookup id q.in_flight ≡ some p
      → Step q (unconfirmed closed id p q)
  opened : (q : Queue Params Answer) (w : ℕ) → Step q (window_created w q)
  removed : (q : Queue Params Answer) (w : ℕ) (closed : Answer) → Step q (window_removed closed w q)

pub data Reaches {Params Answer : Type 0} (s : Queue Params Answer)
    : Queue Params Answer → Type 0 where
  here : Reaches s s
  next : {t u : Queue Params Answer} → Reaches s t → Step t u → Reaches s u
