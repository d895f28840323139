-- ===== src/Vault.antt =====
-- The vault (src/core/keystore.ts, src/core/account.ts, src/core/wallet.ts): what the wallet throws, and the results of
-- work that may throw.
pub mod Keystore
pub mod Account
pub mod State
pub mod Guard
pub mod Lock
pub mod Open
pub mod Accounts
pub mod Recover
pub mod Pending
pub mod Removal
pub mod Reach
pub mod Relock
use cairn_wallet.Base.{◌≡◌, refl, ap, ℕ, List, [], ◌∷◌, Option, none, some}

-- Every error that the code throws, by its cause.
pub data Error : Type 0 where
  already_exists no_wallet locked password_required weak_password bad_password
        iterations_out_of_range :
      Error
  bad_private_key bad_phrase no_phrase corrupt_vault duplicate_account no_such_account
        last_account :
      Error
  no_active_account reauthenticate locked_out write_failed : Error

pub data Result {ℓ} (V : Type ℓ) : Type ℓ where
  err : (cause : Error) → Result V
  ok : (value : V) → Result V

infixl 5 ◌>>=◌
-- The next step, unless this one throws.
abbrev pub ◌>>=◌ {ℓ κ} : {V : Type ℓ} {W : Type κ} → Result V → (V → Result W) → Result W
err cause >>= next = err cause
ok value >>= next = next value

-- A missing value throws.
abbrev pub or_throw {ℓ} : {A : Type ℓ} → Error → Option A → Result A
or_throw e none = err e
or_throw e (some a) = ok a

-- A phrase that is there: the empty text counts as none.
abbrev pub phrase : Option (List ℕ) → Option (List ℕ)
phrase none = none
phrase (some []) = none
phrase (some (c ∷ t)) = some (c ∷ t)

-- What the two steps gave where neither threw.
pub >>=-steps {ℓ κ} :
    {V : Type ℓ} {W : Type κ} (next : V → Result W) {w : W} (step : Result V)
    → (step >>= next) ≡ ok w
    → (value : V) × (step ≡ ok value) × (next value ≡ ok w)
>>=-steps next (err cause) threw = absurd (cc)
>>=-steps next (ok value) gave = (value, refl, gave)

ok_or {ℓ} : {A : Type ℓ} → A → Result A → A
ok_or d (ok a) = a
ok_or d (err e) = d

pub ok-injective {ℓ} : {A : Type ℓ} {a b : A} → ◌≡◌ {A = Result A} (ok a) (ok b) → a ≡ b
unfolding ok_or
ok-injective {a} h = ap (ok_or a) h
