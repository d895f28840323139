-- ===== src/Approval/Queue/Accounted.antt =====
-- No request of a page is lost and none is answered twice, in every interleaving of arrivals, approvals and window
-- events (src/background.ts); and arrivals respect the caps.
use cairn_wallet.Base.{
  ℕ, ◌+◌, ◌≤◌, ◌<◌, ◌≡◌, refl, inl, inr, some, List, [], ◌∷◌, ◌++◌, length, ltb, ◌==◌, max, arith,
  Option-cases, if◌then◌else◌,
}
use cairn_wallet.Base.Text.{Text, text_eq, text_eq_iff}
use cairn_wallet.Base.Eq.{nat_eq, text_key, pair_eq, lookup, put, delete, length-put-le}
use cairn_wallet.Approval.Queue.{
  RequestId, Pending, Queue, count_origin, queue_dapp_request, take_request, finish, requeue_front,
  unconfirmed, window_created, close_all, window_removed, empty_queue, Step, arrives, taken,
  settled, returned, opened, removed, Reaches, here, next,
}

-- how many entries stand for the request with sequence number `n`
pub tally : {V : Type 0} → ℕ → List (RequestId × V) → ℕ
tally n [] = 0
tally n ((k, v) ∷ m) = let rest = tally n m in if k.1 == n then rest + 1 else rest

module _ {V : Type 0} where
  tally-append : (n : ℕ) (m l : List (RequestId × V)) → tally n (m ++ l) ≡ tally n m + tally n l
  unfolding tally
  tally-append n [] l = omega arith
  tally-append n ((k, v) ∷ m) l = ground (arith, tally-append n m l)

  -- an id whose sequence number does not occur is not there
  tally-delete-absent :
      (n : ℕ) (k : RequestId) (m : List (RequestId × V))
      → tally k.1 m ≡ 0
      → tally n (delete k m) ≡ tally n m
  unfolding tally delete
  tally-delete-absent n k [] h = refl
  tally-delete-absent n k ((j, v) ∷ m) h =
      ground (arith, tally-delete-absent n k m, pair_eq.beq_iff k j)

  tally-put-absent :
      (n : ℕ) (k : RequestId) (v : V) (m : List (RequestId × V))
      → tally k.1 m ≡ 0
      → tally n (put k v m) ≡ tally n m + (if k.1 == n then 1 else 0)
  unfolding tally put
  tally-put-absent n k v [] h = ground arith
  tally-put-absent n k v ((j, w) ∷ m) h =
      ground (arith, tally-put-absent n k v m, pair_eq.beq_iff k j)

  tally-lookup :
      (k : RequestId) (v : V) (m : List (RequestId × V)) → lookup k m ≡ some v → 0 < tally k.1 m
  unfolding tally lookup
  tally-lookup k v [] h = absurd (cc)
  tally-lookup k v ((j, w) ∷ m) h = ground (arith, tally-lookup k v m, pair_eq.beq_iff k j)

  tally-delete :
      (n : ℕ) (k : RequestId) (v : V) (m : List (RequestId × V))
      → lookup k m ≡ some v
      → tally k.1 m ≤ 1
      → tally n (delete k m) + (if k.1 == n then 1 else 0) ≡ tally n m
  unfolding tally delete lookup
  tally-delete n k v [] h one = absurd (cc)
  tally-delete n k v ((j, w) ∷ m) h one = ground (
    arith,
    tally-delete n k v m,
    tally-delete-absent n k m,
    tally-lookup k v m,
    pair_eq.beq_iff k j,
  )

  tally-lookup-le :
      (k : RequestId) (v : V) (m : List (RequestId × V)) (n : ℕ)
      → lookup k m ≡ some v
      → tally k.1 m ≡ n
      → 0 < n
  tally-lookup-le k v m n h e = omega (arith, tally-lookup k v m h)

-- Only the origin of a new entry gains one.
count_origin-put-le :
    {Params : Type 0} (o : Text) (k : RequestId) (p : Pending Params)
    (m : List (RequestId × Pending Params))
    → count_origin o (put k p m) ≤ count_origin o m + (if text_eq p.origin o then 1 else 0)
unfolding count_origin put
count_origin-put-le o k p [] = ground arith
count_origin-put-le o k p ((j, w) ∷ m) = ground (arith, count_origin-put-le o k p m)

module _ {Params Answer : Type 0} where
  -- Every request that arrived, and no other, is in exactly one place: queued, in flight, or answered.
  pub record IsAccounted (q : Queue Params Answer) : Type 0 where
    pub balance :
        (n : ℕ)
        → tally n q.pending + (tally n q.in_flight + tally n q.answered)
          ≡ (if ltb n q.req_seq then 1 else 0)

  arrives-balance :
      (q : Queue Params Answer) (now : ℕ) (origin method : Text) (params : Params) (n : ℕ)
      → IsAccounted q
      → tally n (queue_dapp_request now origin method params q).1.pending
          + (tally n (queue_dapp_request now origin method params q).1.in_flight
              + tally n (queue_dapp_request now origin method params q).1.answered)
        ≡ (if ltb n (queue_dapp_request now origin method params q).1.req_seq then 1 else 0)
  unfolding queue_dapp_request
  arrives-balance q now origin method params n h = ground (
    arith,
    h.balance n,
    h.balance q.req_seq,
    tally-put-absent n (now, q.req_seq)
        (record { origin = origin; method = method; params = params }) q.pending,
  )

  taken-balance :
      (q : Queue Params Answer) (id : RequestId) (n : ℕ)
      → IsAccounted q
      → tally n (take_request id q).1.pending
          + (tally n (take_request id q).1.in_flight + tally n (take_request id q).1.answered)
        ≡ (if ltb n (take_request id q).1.req_seq then 1 else 0)
  unfolding take_request tally
  taken-balance q id n h = elim (Option-cases (lookup id q.pending)) [
    | inl e ↦ rw (e, take_request) (h.balance n)
    | inr (p, e) ↦
        rw (e, take_request)
          (ground (arith, h.balance n, h.balance id.1, tally-delete n id p q.pending e))
  ]

  finish-balance :
      (q : Queue Params Answer) (id : RequestId) (p : Pending Params) (answer : Answer) (n : ℕ)
      → lookup id q.in_flight ≡ some p
      → IsAccounted q
      → tally n (finish id answer q).pending
          + (tally n (finish id answer q).in_flight + tally n (finish id answer q).answered)
        ≡ (if ltb n (finish id answer q).req_seq then 1 else 0)
  unfolding finish tally
  finish-balance q id p answer n e h =
      ground (arith, h.balance n, h.balance id.1, tally-delete n id p q.in_flight e)

  requeue_front-balance :
      (q : Queue Params Answer) (id : RequestId) (p : Pending Params) (n : ℕ)
      → lookup id q.in_flight ≡ some p
      → IsAccounted q
      → tally n (requeue_front id p q).pending
          + (tally n (requeue_front id p q).in_flight + tally n (requeue_front id p q).answered)
        ≡ (if ltb n (requeue_front id p q).req_seq then 1 else 0)
  unfolding requeue_front tally
  requeue_front-balance q id p n e h = ground (
    arith,
    h.balance n,
    h.balance id.1,
    tally-lookup id p q.in_flight e,
    tally-delete-absent n id q.pending,
    tally-delete n id p q.in_flight e,
  )

  tally-close_all :
      (n : ℕ) (closed : Answer) (m : List (RequestId × Pending Params))
      → tally n (close_all closed m) ≡ tally n m
  unfolding tally close_all
  tally-close_all n closed [] = refl
  tally-close_all n closed ((k, p) ∷ m) = ground (arith, tally-close_all n closed m)

  removed-balance :
      (q : Queue Params Answer) (w : ℕ) (closed : Answer) (n : ℕ)
      → IsAccounted q
      → tally n (window_removed closed w q).pending
          + (tally n (window_removed closed w q).in_flight
              + tally n (window_removed closed w q).answered)
        ≡ (if ltb n (window_removed closed w q).req_seq then 1 else 0)
  unfolding window_removed tally
  removed-balance q w closed n h = ground (
    arith,
    h.balance n,
    tally-append n (close_all closed q.pending) q.answered,
    tally-close_all n closed q.pending,
  )

  Step-IsAccounted : {q r : Queue Params Answer} → Step q r → IsAccounted q → IsAccounted r
  unfolding window_created unconfirmed
  Step-IsAccounted (arrives q now origin method params) h = record {
    balance = λ n. arrives-balance q now origin method params n h;
  }
  Step-IsAccounted (taken q id) h = record { balance = λ n. taken-balance q id n h }
  Step-IsAccounted (settled q id p answer e) h = record {
    balance = λ n. finish-balance q id p answer n e h;
  }
  Step-IsAccounted (returned q id p closed e) h = record {
    balance = λ n. elim (Option-cases q.window) [
      | inl f ↦ rw (f, unconfirmed) (finish-balance q id p closed n e h)
      | inr (w, f) ↦ rw (f, unconfirmed) (requeue_front-balance q id p n e h)
    ];
  }
  Step-IsAccounted (opened q w) h = record {
    balance = λ n. elim (Option-cases q.window) [
      | inl f ↦ rw (f, window_created) (h.balance n)
      | inr (v, f) ↦ rw (f, window_created) (h.balance n)
    ];
  }
  Step-IsAccounted (removed q w closed) h = record { balance = λ n. removed-balance q w closed n h }

  -- In every run of the service worker from the empty queue, each request that was queued is, once and in one place
  -- only, still queued, in flight, or answered; nothing else is.
  pub reachable-IsAccounted :
      (q : Queue Params Answer) → Reaches (empty_queue Params Answer) q → IsAccounted q
  unfolding tally
  reachable-IsAccounted q here = record { balance = λ n. ground arith }
  reachable-IsAccounted q (next r s) = Step-IsAccounted s (reachable-IsAccounted _ r)

  -- An arrival never lifts the queue above 32 requests, nor those of any one origin above 5.
  pub queue_dapp_request_bounded :
      (q : Queue Params Answer) (now : ℕ) (origin method : Text) (params : Params)
      → let r = (queue_dapp_request now origin method params q).1 in
        (length r.pending ≤ max 32 (length q.pending))
        × ((o : Text) → count_origin o r.pending ≤ max 5 (count_origin o q.pending))
  unfolding queue_dapp_request
  queue_dapp_request_bounded q now origin method params =
      let p : Pending Params = record { origin = origin; method = method; params = params } in
      (
        ground (arith, length-put-le (now, q.req_seq) p q.pending),
        λ o.
            ground
              (arith, count_origin-put-le o (now, q.req_seq) p q.pending, text_eq_iff origin o),
      )
