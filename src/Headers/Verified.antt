-- ===== src/Headers/Verified.antt =====
-- The cache stays within its capacity and holds only chunks that verify, and an acquisition returns only such a chunk
-- (src/core/headerstore.ts `ChunkLru`, `chunkAcquirer`).
use cairn_wallet.Base.{
  ℕ, ◌-◌, ◌∙◌, ◌≤◌, ◌≡◌, refl, sym, ap, subst, inl, inr, Bool, true, Option, none, some, List, [],
  ◌∷◌, length, All, arith, Bool-cases, Option-cases, get_elem?,
}
use mathlib.Core.Option.{some-injective}
use cairn_wallet.Base.Text.{Text}
use cairn_wallet.Base.Eq.{nat_eq, lookup, put, delete}
use cairn_wallet.Codec.{Bytes}
use cairn_wallet.Headers.{
  ChunkSpec, chunk_spec, spec_at, ChunkLru, lru_get, lru_set, StoreWrite, put_chunk, delete_chunk,
  Acquired, spec_of, try_stored, fetched_for, missed, cached_or, acquire_spec, acquire,
}
use cairn_wallet.Headers.Cache.{
  trim_bounded, length-reput, All-trim, All-delete, All-put, All-lookup,
}

module _ (anchors : List Text) (verify : Bytes → ChunkSpec → Bool) where
  -- The records verify against the spec of their chunk.
  pub record IsVerifiedChunk (e : ℕ × Bytes) : Type 0 where
    pub spec : ChunkSpec
    pub anchored : chunk_spec anchors e.0 ≡ some spec
    pub verifies : verify e.1 spec ≡ true

  pub record IsCache (c : ChunkLru) : Type 0 where
    pub bounded : length c.entries ≤ c.capacity
    pub verified : All IsVerifiedChunk c.entries

  lru_get-IsCache : (k : ℕ) (c : ChunkLru) → IsCache c → IsCache (lru_get k c).1
  unfolding lru_get
  lru_get-IsCache k c h = elim (Option-cases (lookup k c.entries)) [
    | inl e ↦ rw (e, lru_get) h
    | inr (v, e) ↦
        rw (e, lru_get)
          (record {
            bounded = omega (arith, length-reput k v c.entries e, h.bounded);
            verified =
                All-put IsVerifiedChunk k v (delete k c.entries)
                  (All-lookup IsVerifiedChunk k v c.entries h.verified e)
                  (All-delete IsVerifiedChunk k c.entries h.verified);
          })
  ]

  lru_get_verified :
      (k : ℕ) (v : Bytes) (c : ChunkLru)
      → IsCache c
      → (lru_get k c).0 ≡ some v
      → IsVerifiedChunk (k, v)
  unfolding lru_get
  lru_get_verified k v c h e = elim (Option-cases (lookup k c.entries)) [
    | inl f ↦ absurd (ground arith)
    | inr (w, f) ↦ All-lookup IsVerifiedChunk k v c.entries h.verified (ground arith)
  ]

  lru_set-IsCache :
      (k : ℕ) (v : Bytes) (c : ChunkLru)
      → IsVerifiedChunk (k, v)
      → IsCache c
      → IsCache (lru_set k v c)
  unfolding lru_set
  lru_set-IsCache k v c p h = record {
    bounded = trim_bounded c.capacity (put k v (delete k c.entries));
    verified = All-trim IsVerifiedChunk c.capacity (put k v (delete k c.entries)) (
        All-put IsVerifiedChunk k v (delete k c.entries) p
          (All-delete IsVerifiedChunk k c.entries h.verified));
  }

  -- What a write puts into the store verifies.
  pub IsVerifiedWrite : StoreWrite → Type 0
  IsVerifiedWrite (put_chunk k r) = IsVerifiedChunk (k, r)
  IsVerifiedWrite (delete_chunk k) = Unit

  pub record IsSafe (o : Option ChunkSpec) (a : Acquired) : Type 0 where
    pub cache : IsCache a.lru
    pub proven :
        (s : ChunkSpec) (r : Bytes) → a.chunk ≡ some (s, r) → (o ≡ some s) × (verify r s ≡ true)
    pub writes : All IsVerifiedWrite a.writes

  k-spec_at : (k i : ℕ) (t : Text) → (spec_at anchors k i t).k ≡ k
  unfolding spec_at
  k-spec_at k i t = ground arith

  chunk_spec_k : (k : ℕ) (spec : ChunkSpec) → chunk_spec anchors k ≡ some spec → spec.k ≡ k
  unfolding chunk_spec
  chunk_spec_k k spec h =
      ground (arith, Option-cases (get_elem? anchors (k - 7)), k-spec_at k (k - 7))

  chunk_spec_own :
      (k : ℕ) (spec : ChunkSpec)
      → chunk_spec anchors k ≡ some spec
      → chunk_spec anchors spec.k ≡ some spec
  chunk_spec_own k spec h =
      subst (λ (j : ℕ). chunk_spec anchors j ≡ some spec) (sym (chunk_spec_k k spec h)) h

  spec_of_own :
      (stored : ℕ → Option Bytes) (fetch : ChunkSpec → Option Bytes) (height : ℕ) (spec : ChunkSpec)
      → spec_of anchors verify stored fetch height ≡ some spec
      → chunk_spec anchors spec.k ≡ some spec
  unfolding spec_of
  spec_of_own stored fetch height spec h = ground (arith, chunk_spec_own _ spec)

  nothing-IsSafe :
      (o : Option ChunkSpec) (c : ChunkLru) (ws : List StoreWrite)
      → IsCache c
      → All IsVerifiedWrite ws
      → IsSafe o (record { chunk = none; lru = c; writes = ws })
  nothing-IsSafe o c ws h w = record { cache = h; proven = λ s r e. absurd (cc); writes = w }

  found-IsSafe :
      (spec : ChunkSpec) (r : Bytes) (c : ChunkLru) (ws : List StoreWrite)
      → verify r spec ≡ true
      → IsCache c
      → All IsVerifiedWrite ws
      → IsSafe (some spec) (record { chunk = some (spec, r); lru = c; writes = ws })
  found-IsSafe spec r c ws v h w = record {
    cache = h;
    proven = λ s t e.
        let e1 : (spec, r) ≡ (s, t) = some-injective _ _ e in
        let a : spec ≡ s = ap (λ (x : ChunkSpec × Bytes). x.0) e1 in
        let b : r ≡ t = ap (λ (x : ChunkSpec × Bytes). x.1) e1 in (ap some a, rw (← a, ← b) v);
    writes = w;
  }

  module _ (stored : ℕ → Option Bytes) (fetch : ChunkSpec → Option Bytes) (spec : ChunkSpec)
      (own : chunk_spec anchors spec.k ≡ some spec) where
    chunk_of_spec : (r : Bytes) → verify r spec ≡ true → IsVerifiedChunk (spec.k, r)
    chunk_of_spec r v = record { spec = spec; anchored = own; verifies = v }

    fetched_for-IsSafe :
        (o : Option Bytes) (c : ChunkLru) (ws : List StoreWrite)
        → IsCache c
        → All IsVerifiedWrite ws
        → IsSafe (some spec) (fetched_for anchors verify stored fetch spec o c ws)
    unfolding fetched_for IsVerifiedWrite
    fetched_for-IsSafe none c ws h w = nothing-IsSafe (some spec) c ws h w
    fetched_for-IsSafe (some r) c ws h w = elim (Bool-cases (verify r spec)) [
      | inl e ↦ rw e (
          found-IsSafe spec r (lru_set spec.k r c) (put_chunk spec.k r ∷ ws) e
            (lru_set-IsCache spec.k r c (chunk_of_spec r e) h) (chunk_of_spec r e, w))
      | inr e ↦ rw e (nothing-IsSafe (some spec) c ws h w)
    ]

    missed-IsSafe :
        (x : Option Bytes) (ws : List StoreWrite) (c : ChunkLru)
        → ((r : Bytes) → x ≡ some r → verify r spec ≡ true)
        → All IsVerifiedWrite ws
        → IsCache c
        → IsSafe (some spec) (missed anchors verify stored fetch spec (x, ws) c)
    unfolding missed
    missed-IsSafe (some r) ws c v w h =
        found-IsSafe spec r (lru_set spec.k r c) ws (v r refl)
          (lru_set-IsCache spec.k r c (chunk_of_spec r (v r refl)) h) w
    missed-IsSafe none ws c v w h = fetched_for-IsSafe (fetch spec) c ws h w

    try_stored_verified :
        (r : Bytes)
        → (try_stored anchors verify stored fetch spec).0 ≡ some r
        → verify r spec ≡ true
    unfolding try_stored
    try_stored_verified r h = ground arith

    try_stored_writes : All IsVerifiedWrite (try_stored anchors verify stored fetch spec).1
    unfolding try_stored IsVerifiedWrite
    try_stored_writes = ground arith

    cached_or-IsSafe :
        (x : Option Bytes) (c : ChunkLru) (rest : ChunkLru → Acquired)
        → IsCache c
        → ((r : Bytes) → x ≡ some r → IsVerifiedChunk (spec.k, r))
        → (IsCache c → IsSafe (some spec) (rest c))
        → IsSafe (some spec) (cached_or anchors verify stored fetch spec (x, c) rest)
    unfolding cached_or
    cached_or-IsSafe (some r) c rest h v later =
        let hit = v r refl in
        let same : spec ≡ hit.spec = some-injective _ _ (sym own ∙ hit.anchored) in
        found-IsSafe spec r c [] (rw same hit.verifies) h tt
    cached_or-IsSafe none c rest h v later = later h

    acquire_spec-IsSafe :
        (wait : ChunkLru → ChunkLru) (c : ChunkLru)
        → ((d : ChunkLru) → IsCache d → IsCache (wait d))
        → IsCache c
        → IsSafe (some spec) (acquire_spec anchors verify stored fetch (some spec) wait c)
    unfolding acquire_spec
    acquire_spec-IsSafe wait c keeps h =
        let first = lru_get spec.k c in
        let turn = lru_get spec.k (wait first.1) in
        let h1 = lru_get-IsCache spec.k c h in
        let h2 = keeps first.1 h1 in
        cached_or-IsSafe first.0 first.1 _ h1 (λ r e. lru_get_verified spec.k r c h e)
          (λ _.
            cached_or-IsSafe turn.0 turn.1 _ (lru_get-IsCache spec.k (wait first.1) h2)
              (λ r e. lru_get_verified spec.k r (wait first.1) h2 e)
              (λ h3.
                missed-IsSafe (try_stored anchors verify stored fetch spec).0
                  (try_stored anchors verify stored fetch spec).1 turn.1 try_stored_verified
                  try_stored_writes h3))

  -- Whatever the store and the node return, and whatever other acquisitions that keep the cache sound do meanwhile, an
  -- acquisition returns only records that verify against the spec of the chunk that holds the height, writes only such
  -- records to the store, and leaves the cache within its capacity and with verified chunks only.
  pub acquire-IsSafe :
      (stored : ℕ → Option Bytes) (fetch : ChunkSpec → Option Bytes) (height : ℕ)
      (wait : ChunkLru → ChunkLru) (c : ChunkLru)
      → ((d : ChunkLru) → IsCache d → IsCache (wait d))
      → IsCache c
      → IsSafe
          (spec_of anchors verify stored fetch height)
          (acquire anchors verify stored fetch height wait c)
  unfolding acquire acquire_spec
  acquire-IsSafe stored fetch height wait c keeps h =
      elim (Option-cases (spec_of anchors verify stored fetch height)) [
        | inl e ↦ rw e (nothing-IsSafe none c [] h tt)
        | inr (spec, e) ↦ rw e (
            acquire_spec-IsSafe stored fetch spec (spec_of_own stored fetch height spec e) wait c
              keeps h)
      ]
