-- ===== src/Headers.antt =====
-- Header chunks (src/core/headerstore.ts): the bounds of an anchored chunk, the cache of verified chunks, and the
-- acquisition of a chunk. What IndexedDB and the network return, and the hash walk over the records
-- (`verifyLinkedRecords`, vendored), are arguments.
pub mod Cache
pub mod Verified
use cairn_wallet.Base.{
  ℕ, ◌+◌, ◌-◌, ◌*◌, ◌/◌, Bool, true, false, ◌||◌, not, Option, none, some, List, [], ◌∷◌, length,
  get_elem?, ltb, leb, ◌==◌, if◌then◌else◌,
}
use cairn_wallet.Base.Text.{Text, codes}
use cairn_wallet.Base.Maybe.{◌>>=◌}
use cairn_wallet.Base.Eq.{nat_eq, lookup, put, delete}
use cairn_wallet.Codec.{Bytes}

abbrev pub spv_chunk : ℕ
spv_chunk = 4096

abbrev pub floor_height : ℕ
floor_height = 29960

abbrev pub floor_hash : Text
floor_hash = codes "0x00000000000376f1b00dfa976b2314ee3d1cbe25431b008293fa93e28cdce9fb"

-- `Math.floor(SPV_FLOOR.height / SPV_CHUNK)`
abbrev pub first_chunk : ℕ
first_chunk = 7

unfoldable pub chunk_of : ℕ → ℕ
chunk_of height = height / spv_chunk

pub record ChunkSpec : Type 0 where
  pub k : ℕ
  pub first_height : ℕ
  pub last_height : ℕ
  pub first_hash : Option Text
  pub prev_hash : Option Text
  pub last_hash : Text

-- the spec of the chunk at index `i` of the anchor table
spec_at : List Text → (k i : ℕ) → Text → ChunkSpec
spec_at anchors k i last_hash =
    if i == 0
    then record {
      k = k;
      first_height = floor_height;
      last_height = k * spv_chunk + spv_chunk - 1;
      first_hash = some floor_hash;
      prev_hash = none;
      last_hash = last_hash;
    }
    else record {
      k = k;
      first_height = k * spv_chunk;
      last_height = k * spv_chunk + spv_chunk - 1;
      first_hash = none;
      prev_hash = get_elem? anchors (i - 1);
      last_hash = last_hash;
    }

unfoldable pub chunk_spec : List Text → ℕ → Option ChunkSpec
unfolding spec_at
chunk_spec anchors k =
    let i = k - first_chunk in
    if ltb k first_chunk
    then none
    else get_elem? anchors i >>= λ last_hash. some (spec_at anchors k i last_hash)

-- `ChunkLru`: the `Map` in insertion order, the least recently used first
pub record ChunkLru : Type 0 where
  pub entries : List (ℕ × Bytes)
  pub capacity : ℕ

unfoldable pub lru_get : ℕ → ChunkLru → Option Bytes × ChunkLru
lru_get k c = elim (lookup k c.entries) [
  | none ↦ (none, c)
  | some v ↦ (some v, record c { entries = put k v (delete k c.entries) })
]

-- `while (this.m.size > this.capacity) this.m.delete(this.m.keys().next().value!)`
unfoldable pub trim : ℕ → List (ℕ × Bytes) → List (ℕ × Bytes)
trim capacity [] = []
trim capacity (e ∷ m) =
    let rest = trim capacity m in if ltb capacity (length (e ∷ m)) then rest else e ∷ m

unfoldable pub lru_set : ℕ → Bytes → ChunkLru → ChunkLru
unfolding trim
lru_set k v c = record c { entries = trim c.capacity (put k v (delete k c.entries)) }

pub data StoreWrite : Type 0 where
  put_chunk : (k : ℕ) → Bytes → StoreWrite
  delete_chunk : (k : ℕ) → StoreWrite

pub record Acquired : Type 0 where
  -- `none` where the promise rejects
  pub chunk : Option (ChunkSpec × Bytes)
  pub lru : ChunkLru
  pub writes : List StoreWrite

-- `verify` says whether the vendored walk accepts the records; `stored` is what the store returns, `none` also where it
-- throws; `fetch` is what the node returns.
module _ (anchors : List Text) (verify : Bytes → ChunkSpec → Bool) (stored : ℕ → Option Bytes)
    (fetch : ChunkSpec → Option Bytes) where
  -- the spec that `acquire` looks for
  unfoldable pub spec_of : ℕ → Option ChunkSpec
  unfolding chunk_of chunk_spec
  spec_of height = if leb floor_height height then chunk_spec anchors (chunk_of height) else none

  -- the stored chunk, where it verifies, and the delete of one that does not
  unfoldable pub try_stored : ChunkSpec → Option Bytes × List StoreWrite
  try_stored spec = elim (stored spec.k) [
    | none ↦ (none, [])
    | some r ↦ if verify r spec then (some r, []) else (none, delete_chunk spec.k ∷ [])
  ]

  -- the fetched chunk, where it verifies
  fetched_for : ChunkSpec → Option Bytes → ChunkLru → List StoreWrite → Acquired
  fetched_for spec none lru writes = record { chunk = none; lru = lru; writes = writes }
  fetched_for spec (some r) lru writes =
      if verify r spec
      then record {
        chunk = some (spec, r);
        lru = lru_set spec.k r lru;
        writes = put_chunk spec.k r ∷ writes;
      }
      else record { chunk = none; lru = lru; writes = writes }

  missed : ChunkSpec → Option Bytes × List StoreWrite → ChunkLru → Acquired
  unfolding fetched_for
  missed spec (some r, writes) lru = record {
    chunk = some (spec, r);
    lru = lru_set spec.k r lru;
    writes = writes;
  }
  missed spec (none, writes) lru = fetched_for spec (fetch spec) lru writes

  cached_or : ChunkSpec → Option Bytes × ChunkLru → (ChunkLru → Acquired) → Acquired
  cached_or spec (some r, lru) rest = record { chunk = some (spec, r); lru = lru; writes = [] }
  cached_or spec (none, lru) rest = rest lru

  acquire_spec : Option ChunkSpec → (wait : ChunkLru → ChunkLru) → ChunkLru → Acquired
  unfolding missed try_stored cached_or
  acquire_spec none wait lru = record { chunk = none; lru = lru; writes = [] }
  acquire_spec (some spec) wait lru = cached_or spec (lru_get spec.k lru) (λ lru1.
      cached_or spec (lru_get spec.k (wait lru1)) (λ lru2. missed spec (try_stored spec) lru2))

  -- `acquire`: `wait` is what other acquisitions do to the cache before the serializer gives this one its turn.
  unfoldable pub acquire : (height : ℕ) → (wait : ChunkLru → ChunkLru) → ChunkLru → Acquired
  unfolding spec_of acquire_spec
  acquire height wait lru = acquire_spec (spec_of height) wait lru
