-- ===== src/Codec/Read.antt =====
-- Reading fixed-width numbers and length-prefixed bytes back off the front of a byte list.
use native.Mathlib.Nat.{pow-suc}
use cairn_wallet.Base.{
  ℕ, zero, suc, ◌+◌, ◌*◌, ◌/◌, ◌^◌, ◌<◌, ◌≡◌, refl, ap, Option, none, some, [], ◌∷◌, ◌++◌,
  append_assoc, length, arith,
}
use cairn_wallet.Base.Maybe.{◌>>=◌}
use cairn_wallet.Codec.{Bytes, le_bytes, len_bytes}

pub read : ℕ → Bytes → Option (Bytes × Bytes)
read zero b = some ([], b)
read (suc n) [] = none
read (suc n) (x ∷ b) = read n b >>= λ p. some (x ∷ p.0, p.1)

pub read-append : (b r : Bytes) → read (length b) (b ++ r) ≡ some (b, r)
unfolding read
read-append [] r = refl
read-append (x ∷ b) r = rw (read-append b r)

pub le_value : Bytes → ℕ
le_value [] = 0
le_value (x ∷ b) = x + 256 * le_value b

length-le_bytes : (k n : ℕ) → length (le_bytes k n) ≡ k
unfolding le_bytes
length-le_bytes zero n = refl
length-le_bytes (suc k) n = ap suc (length-le_bytes k (n / 256))

le_value-le_bytes : (k n : ℕ) → n < 256 ^ k → le_value (le_bytes k n) ≡ n
unfolding le_bytes le_value
le_value-le_bytes zero n h = omega arith
le_value-le_bytes (suc k) n h =
    let h' : n < 256 ^ k * 256 = rw pow-suc at h in
    omega (arith, le_value-le_bytes k (n / 256) (omega arith))

pub read_le : ℕ → Bytes → Option (ℕ × Bytes)
read_le k b = read k b >>= λ p. some (le_value p.0, p.1)

pub read_le-append :
    (k n : ℕ) (r : Bytes) → n < 256 ^ k → read_le k (le_bytes k n ++ r) ≡ some (n, r)
unfolding read_le
read_le-append k n r h =
    let e : read k (le_bytes k n ++ r) ≡ some (le_bytes k n, r) =
      rw length-le_bytes at (read-append (le_bytes k n) r) in
    rw (e, le_value-le_bytes k n h)

pub read_prefixed : Bytes → Option (Bytes × Bytes)
read_prefixed b = read_le 8 b >>= λ p. read p.0 p.1

pub read_prefixed-append :
    (b r : Bytes) → length b < 2 ^ 64 → read_prefixed (len_bytes b ++ r) ≡ some (b, r)
unfolding read_prefixed len_bytes
read_prefixed-append b r h =
    rw (append_assoc (le_bytes 8 (length b)) b r, read_le-append 8 (length b) (b ++ r) h)
      (read-append b r)

-- The same where more of one value follows the field: the shape in which an encoder's parts stand.
pub read_le-front :
    (k n : ℕ) (s r : Bytes) → n < 256 ^ k → read_le k ((le_bytes k n ++ s) ++ r) ≡ some (n, s ++ r)
read_le-front k n s r h = rw (append_assoc (le_bytes k n) s r) (read_le-append k n (s ++ r) h)

pub read-width : (n : ℕ) (b r : Bytes) → length b ≡ n → read n (b ++ r) ≡ some (b, r)
read-width n b r h = rw h at (read-append b r)

pub read-front : (n : ℕ) (b s r : Bytes) → length b ≡ n → read n ((b ++ s) ++ r) ≡ some (b, s ++ r)
read-front n b s r h = rw (append_assoc b s r) (read-width n b (s ++ r) h)

pub read_prefixed-front :
    (b s r : Bytes) → length b < 2 ^ 64 → read_prefixed ((len_bytes b ++ s) ++ r) ≡ some (b, s ++ r)
read_prefixed-front b s r h =
    rw (append_assoc (len_bytes b) s r) (read_prefixed-append b (s ++ r) h)
