-- ===== src/Vault/Guard.antt =====
-- The throttle of password checks, and the checks (src/core/wallet.ts `authGuardCheck`, `authGuardRecord`,
-- `withAuthGuard`, `openVaultDoc`, `exportKey`, `exportMnemonic`).
pub mod Throttled
use cairn_wallet.Base.{
  ℕ, ◌+◌, ◌-◌, ◌*◌, ◌^◌, min, Bool, true, false, ◌&&◌, not, Option, none, some, List, [], ◌∷◌, ◌++◌,
  length, get_elem?, ltb, leb, if◌then◌else◌,
}
use cairn_wallet.Base.Text.{Text, codes, text_eq}
use cairn_wallet.Codec.{strip}
use cairn_wallet.Spend.Submit.{starts_with}
use cairn_wallet.Vault.{
  Error, Result, ok, err, or_throw, ◌>>=◌, phrase, locked_out, no_wallet, no_phrase, corrupt_vault,
}
use cairn_wallet.Vault.Keystore.{Key, Sealed, derive_vault_key, open_with}
use cairn_wallet.Vault.State.{
  StoredAcct, VaultDoc, Plain, doc, raw, Env, Memory, Guard, Session, World,
}

abbrev pub free_attempts : ℕ
free_attempts = 5

abbrev pub max_lockout_ms : ℕ
max_lockout_ms = 5 * 60000

-- the lockout after `failed` failures in a row, in milliseconds
unfoldable pub lockout_ms : ℕ → ℕ
lockout_ms failed = min max_lockout_ms (5000 * 2 ^ (failed - free_attempts))

no_guard : Option Guard → Guard
no_guard none = record { failed = 0; until = 0 }
no_guard (some g) = g

-- What a password check meets in the session store, and when. Other checks may run while this one derives its key: they
-- write the guard between its check and its count.
pub record Attempt : Type 0 where
  -- `Date.now()` of the check and of the count
  pub checked_at : ℕ
  pub counted_at : ℕ
  -- whether the reads of the check and of the count succeed, and the write or the deletion of the count
  pub is_check_read : Bool
  pub is_count_read : Bool
  pub is_kept : Bool
  -- what others make of the guard before the count reads it, and from there until the count writes it
  pub before_read : Option Guard → Option Guard
  pub before_write : Option Guard → Option Guard

-- whether `authGuardCheck` lets an attempt through: a read that fails counts as no guard
unfoldable pub may_try : Attempt → Option Session → Bool
unfolding no_guard
may_try attempt none = true
may_try attempt (some s) =
    not (attempt.is_check_read && ltb attempt.checked_at (no_guard s.guard).until)

-- `authGuardRecord(false)` on the guard
unfoldable pub count_failure : (now : ℕ) → Option Guard → Guard
unfolding no_guard lockout_ms
count_failure now g =
    let failed = (no_guard g).failed + 1 in
    record {
      failed = failed;
      until = if leb free_attempts failed then now + lockout_ms failed else (no_guard g).until;
    }

-- `authGuardRecord` on the guard: the write of a count overwrites whatever came since its read, and one that fails
-- leaves the guard as it stands by then.
counted : Attempt → (succeeded : Bool) → Option Guard → Option Guard
counted attempt true g =
    if attempt.is_kept then none else attempt.before_write (attempt.before_read g)
counted attempt false g =
    let read = attempt.before_read g in
    if attempt.is_kept
    then some (count_failure attempt.counted_at (if attempt.is_count_read then read else none))
    else attempt.before_write read

-- `authGuardRecord`
unfoldable pub record_attempt : Attempt → (succeeded : Bool) → Option Session → Option Session
unfolding count_failure counted
record_attempt attempt succeeded none = none
record_attempt attempt succeeded (some s) =
    some (record s { guard = counted attempt succeeded s.guard })

succeeds {ℓ} : {A : Type ℓ} → Result A → Bool
succeeds (ok a) = true
succeeds (err e) = false

-- `withAuthGuard`: the password check runs only where the guard lets it, and its outcome is counted behind it.
unfoldable pub with_auth_guard {ℓ} :
    {A : Type ℓ} → Attempt → (verify : Result A) → World → Result A × World
unfolding may_try record_attempt succeeds
with_auth_guard attempt verify w =
    if may_try attempt w.session
    then (verify, record w { session = record_attempt attempt (succeeds verify) w.session })
    else (err locked_out, w)

-- `parsed`, which is null for a vault of an old version
unfoldable pub as_doc : Plain → Option VaultDoc
as_doc (doc d) = some d
as_doc (raw t) = none

slot_of : Memory → (vault_active : Option ℕ) → ℕ
slot_of m vault_active = elim m.accts [
  | some accts ↦ m.active
  | none ↦ elim vault_active [ none ↦ 0 | some n ↦ n ]
]

module _ (env : Env) where
  -- the derivation and the decryption that the guard runs
  unfoldable pub decrypt_vault : Sealed → (password : Text) → Result (Key × Plain)
  decrypt_vault v password = derive_vault_key env.kdf password v.salt v.iter >>= λ key.
      open_with env.cipher v key >>= λ p. ok (key, p)

  -- `openVaultDoc`
  unfoldable pub open_vault_doc :
      Attempt → Sealed → (password : Text) → World → Result (Key × Plain) × World
  unfolding decrypt_vault with_auth_guard
  open_vault_doc attempt v password w = with_auth_guard attempt (decrypt_vault v password) w

  -- The slot whose key `exportKey` shows: the active one, or where the wallet is locked the one that the vault names.
  unfoldable pub export_slot : Memory → VaultDoc → Result Text
  unfolding slot_of
  export_slot m d = elim (get_elem? d.accounts (min (slot_of m d.active) (length d.accounts - 1))) [
    | none ↦ err corrupt_vault
    | some a ↦ ok a.priv
  ]

  export_of : Memory → Plain → Result Text
  unfolding export_slot
  export_of m (doc d) = export_slot m d
  export_of m (raw priv) = ok (if starts_with (codes "0x") priv then priv else codes "0x" ++ priv)

  -- `exportKey`
  unfoldable pub export_key : Attempt → (password : Text) → World → Result Text × World
  unfolding export_of open_vault_doc
  export_key attempt password w = elim w.local.vault [
    | none ↦ (err no_wallet, w)
    | some v ↦
        let (opened, w') = open_vault_doc attempt v password w in
        ((opened >>= λ kp. export_of w.mem kp.1), w')
  ]

  phrase_of : Plain → Result Text
  phrase_of (raw priv) = err no_phrase
  phrase_of (doc d) = or_throw no_phrase (phrase d.mnemonic)

  -- `exportMnemonic`
  unfoldable pub export_mnemonic : Attempt → (password : Text) → World → Result Text × World
  unfolding phrase_of open_vault_doc
  export_mnemonic attempt password w = elim w.local.vault [
    | none ↦ (err no_wallet, w)
    | some v ↦
        let (opened, w') = open_vault_doc attempt v password w in
        ((opened >>= λ kp. phrase_of kp.1), w')
  ]
