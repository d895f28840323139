-- ===== src/Headers/Cache.antt =====
-- What the cache of verified chunks keeps (src/core/headerstore.ts).
use cairn_wallet.Base.{
  ℕ, ◌+◌, ◌≤◌, ◌≡◌, inl, inr, some, List, [], ◌∷◌, length, All, arith, Bool-cases,
}
use mathlib.Core.Option.{some-injective}
use cairn_wallet.Base.Eq.{nat_eq, ◌===◌, lookup, put, delete, length-put-le, length-delete-le}
use cairn_wallet.Codec.{Bytes}
use cairn_wallet.Headers.{trim}

pub trim_bounded : (n : ℕ) (m : List (ℕ × Bytes)) → length (trim n m) ≤ n
unfolding trim
trim_bounded n [] = omega arith
trim_bounded n (e ∷ m) = ground (arith, trim_bounded n m)

length-delete-lt :
    (k : ℕ) (v : Bytes) (m : List (ℕ × Bytes))
    → lookup k m ≡ some v
    → length (delete k m) + 1 ≤ length m
unfolding delete lookup
length-delete-lt k v [] h = absurd (cc)
length-delete-lt k v ((j, w) ∷ m) h = ground (arith, length-delete-lt k v m, length-delete-le k m)

-- An entry that is read again goes to the end, and no other is lost.
pub length-reput :
    (k : ℕ) (v : Bytes) (m : List (ℕ × Bytes))
    → lookup k m ≡ some v
    → length (put k v (delete k m)) ≤ length m
length-reput k v m h = omega (arith, length-put-le k v (delete k m), length-delete-lt k v m h)

module _ {κ} (P : ℕ × Bytes → Type κ) where
  pub All-trim : (n : ℕ) (m : List (ℕ × Bytes)) → All P m → All P (trim n m)
  unfolding trim
  All-trim n [] h = tt
  All-trim n (e ∷ m) h = ground (arith, All-trim n m h.1)

  pub All-delete : (k : ℕ) (m : List (ℕ × Bytes)) → All P m → All P (delete k m)
  unfolding delete
  All-delete k [] h = tt
  All-delete k ((j, w) ∷ m) h = ground (arith, All-delete k m h.1)

  pub All-put : (k : ℕ) (v : Bytes) (m : List (ℕ × Bytes)) → P (k, v) → All P m → All P (put k v m)
  unfolding put
  All-put k v [] p h = (p, tt)
  All-put k v ((j, w) ∷ m) p h = ground (arith, All-put k v m p h.1)

  pub All-lookup :
      (k : ℕ) (v : Bytes) (m : List (ℕ × Bytes)) → All P m → lookup k m ≡ some v → P (k, v)
  unfolding lookup
  All-lookup k v [] h e = absurd (cc)
  All-lookup k v ((j, w) ∷ m) h e = elim (Bool-cases (k === j)) [
    | inl q ↦
        let same : k ≡ j = (nat_eq.beq_iff k j).0 q in
        let value : w ≡ v = some-injective _ _ (rw q at e) in rw (same, ← value) h.0
    | inr q ↦ All-lookup k v m h.1 (rw q at e)
  ]
