-- ===== src/Js.antt =====
-- The JavaScript numbers that the wallet's checks tell apart, and the conversions that the code and its codec call
-- (`Number.isSafeInteger`, `>>> 0`, `BigInt(n)` written as 64 bits). A double that is an integer is that integer;
-- of any other only what a test can see is kept.
use cairn_wallet.Base.{
  ℕ, ◌+◌, ◌-◌, ◌%◌, ◌^◌, ◌≤◌, ◌<◌, ◌≡◌, Bool, true, false, Option, none, some, arith, ltb, leb,
}

pub data Num : Type 0 where
  nat : ℕ → Num
  -- -(n + 1)
  neg : ℕ → Num
  -- not an integer: whether it is negative, and the integer part of its magnitude
  frac : Bool → ℕ → Num
  -- an infinity: whether it is negative
  inf : Bool → Num
  nan : Num

-- `Number.MAX_SAFE_INTEGER`
abbrev pub max_safe : ℕ
max_safe = 9007199254740991

unfoldable pub is_safe : Num → Bool
is_safe (nat n) = leb n max_safe
is_safe (neg n) = ltb n max_safe
is_safe _ = false

-- `n > 0`
unfoldable pub is_positive : Num → Bool
is_positive (nat n) = ltb 0 n
is_positive (neg n) = false
is_positive (frac negative t) = elim negative [ true ↦ false | false ↦ true ]
is_positive (inf negative) = elim negative [ true ↦ false | false ↦ true ]
is_positive nan = false

-- `n < 0`
unfoldable pub is_negative : Num → Bool
is_negative (neg n) = true
is_negative (frac negative t) = negative
is_negative (inf negative) = negative
is_negative _ = false

-- -(n + 1) modulo 2 ^ w
abbrev pub wrap_negative : ℕ → ℕ → ℕ
wrap_negative w n = (2 ^ w - (n + 1) % 2 ^ w) % 2 ^ w

-- `n >>> 0`
unfoldable pub to_uint32 : Num → ℕ
to_uint32 (nat n) = n % 2 ^ 32
to_uint32 (neg n) = wrap_negative 32 n
to_uint32 (frac negative t) = elim negative [
  | true ↦ (2 ^ 32 - t % 2 ^ 32) % 2 ^ 32
  | false ↦ t % 2 ^ 32
]
to_uint32 (inf negative) = 0
to_uint32 nan = 0

-- `setBigUint64` of `BigInt(n)`, which throws on what is not an integer
unfoldable pub to_uint64 : Num → Option ℕ
to_uint64 (nat n) = some (n % 2 ^ 64)
to_uint64 (neg n) = some (wrap_negative 64 n)
to_uint64 _ = none

to_uint32-lt : (n : Num) → to_uint32 n < 2 ^ 32
unfolding to_uint32
to_uint32-lt (nat n) = omega arith
to_uint32-lt (neg n) = omega arith
to_uint32-lt (frac true t) = omega arith
to_uint32-lt (frac false t) = omega arith
to_uint32-lt (inf b) = omega arith
to_uint32-lt nan = omega arith

pub to_uint64-lt : (n : Num) (v : ℕ) → to_uint64 n ≡ some v → v < 2 ^ 64
unfolding to_uint64
to_uint64-lt (nat n) v h = ground arith
to_uint64-lt (neg n) v h = ground arith
to_uint64-lt (frac b t) v h = absurd (cc)
to_uint64-lt (inf b) v h = absurd (cc)
to_uint64-lt nan v h = absurd (cc)

-- A JSON field that should hold a number: absent, a number, or a text with what `Number` and `BigInt` read from it
-- (`none` where `BigInt` throws).
pub data Val : Type 0 where
  undef : Val
  num : Num → Val
  text : Num → Option ℕ → Val

-- `Number(v)`
unfoldable pub number : Val → Num
number undef = nan
number (num n) = n
number (text n b) = n

unfoldable pub val_uint32 : Val → ℕ
unfolding number
val_uint32 v = to_uint32 (number v)

pub val_uint32-lt : (v : Val) → val_uint32 v < 2 ^ 32
unfolding val_uint32
val_uint32-lt v = to_uint32-lt (number v)

unfoldable pub val_uint64 : Val → Option ℕ
val_uint64 undef = none
val_uint64 (num n) = to_uint64 n
val_uint64 (text n none) = none
val_uint64 (text n (some b)) = some (b % 2 ^ 64)

pub val_uint64-lt : (x : Val) (v : ℕ) → val_uint64 x ≡ some v → v < 2 ^ 64
unfolding val_uint64
val_uint64-lt undef v h = absurd (cc)
val_uint64-lt (num n) v h = to_uint64-lt n v h
val_uint64-lt (text n none) v h = absurd (cc)
val_uint64-lt (text n (some b)) v h = ground arith

-- A safe non-negative number is a natural, at most `max_safe`.
pub safe_natural :
    (n : Num) → is_safe n ≡ true → is_negative n ≡ false → (k : ℕ) × (n ≡ nat k) × (k ≤ max_safe)
unfolding is_safe is_negative
safe_natural (nat k) s h = (k, cc, ground arith)
safe_natural (neg k) s h = absurd (cc)
safe_natural (frac b t) s h = absurd (cc)
safe_natural (inf b) s h = absurd (cc)
safe_natural nan s h = absurd (cc)
