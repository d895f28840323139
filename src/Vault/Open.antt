-- ===== src/Vault/Open.antt =====
-- Making and opening the wallet (src/core/wallet.ts `sealFresh`, `create`, `restore`, `importKey`, `unlock`,
-- `rehydrateSession`, `must`).
use cairn_wallet.Base.{
  ℕ, ◌+◌, Bool, true, false, Option, none, some, List, [], ◌∷◌, ltb, get_elem?, if◌then◌else◌,
}
use cairn_wallet.Base.Text.{Text, codes}
use cairn_wallet.Base.Eq.{text_key}
use cairn_wallet.Vault.{
  Result, ok, err, ◌>>=◌, already_exists, no_wallet, locked, bad_phrase, write_failed,
  no_active_account,
}
use cairn_wallet.Vault.Keystore.{Key, Sealed, seal_new, import_key_raw, open_with}
use cairn_wallet.Vault.Account.{Account, derive_account, is_valid_mnemonic, normalize_mnemonic}
use cairn_wallet.Vault.State.{
  Acct, Plain, doc, Env, Memory, Session, World, Writes, build_doc, mirror_of, write_vault, touch,
  persist_session, acct, apply_doc, persist_vault,
}
use cairn_wallet.Vault.Guard.{Attempt, open_vault_doc}
use cairn_wallet.Vault.Lock.{clear_session, lock}
use cairn_wallet.History.{HistoryRow, Disk}
use cairn_wallet.History.Record.{drain_parked}
use cairn_wallet.Claims.{SealRec, SealKey, persist_seal}

-- What the wallet draws or reads of its surroundings during one call: the time, what its password check meets in the
-- session store, a fresh salt and a fresh initialisation vector, and which writes of the store succeed.
pub record Draw : Type 0 where
  pub now : ℕ
  pub attempt : Attempt
  pub salt : Text
  pub iv : Text
  pub writes : Writes
  pub disks : List (Text × HistoryRow) → Disk
  pub seal_disks : Text → Disk
  pub seal_ivs : SealRec → Text

-- the state that `sealFresh` adopts
pub record NewState : Type 0 where
  pub mnemonic : Option Text
  pub next_index : ℕ
  pub accts : List Acct
  pub active : ℕ

-- the address of the active account; `none` where `must` throws
unfoldable pub active_addr : Option (List Acct) → ℕ → Result Text
active_addr none i = err locked
active_addr (some accts) i = elim (get_elem? accts i) [
  | none ↦ err no_active_account
  | some a ↦ ok a.keys.addr
]

-- `must().addr`
unfoldable pub must_addr : Memory → Result Text
unfolding active_addr
must_addr m = active_addr m.accts m.active

unfoldable pub adopt : (now : ℕ) → NewState → Sealed → Key → World → World
adopt now next v key w = persist_session (
    touch now (record w {
      mem = record w.mem {
        mnemonic = next.mnemonic;
        next_index = next.next_index;
        accts = some next.accts;
        active = next.active;
        vault_key = some key;
        salt = v.salt;
        iter = v.iter;
        wiped = false;
      };
    }))

-- the key that seals preimages, as the claims' host shows it
abbrev pub seal_key_of : Memory → SealKey
seal_key_of m = record { key = m.vault_key; salt = m.salt; iter = m.iter }

unfoldable pub is_expired : (now idle_ms : ℕ) → Option ℕ → Bool
is_expired now idle_ms none = ltb idle_ms now
is_expired now idle_ms (some t) = ltb (t + idle_ms) now

module _ (env : Env) where
  unfoldable pub store_fresh :
      Draw → NewState → Result (Sealed × Key) → World → Result (Unit {0}) × World
  unfolding adopt write_vault mirror_of
  store_fresh d next (err e) w = (err e, w)
  store_fresh d next (ok (v, key)) w =
      let (done, s) = write_vault d.writes v (mirror_of next.accts) next.active w.local in
      if done
      then (ok tt, adopt d.now next v key (record w { local = s }))
      else (err write_failed, record w { local = s })

  -- `sealFresh`: the wallet in memory changes only after the writes.
  unfoldable pub seal_fresh :
      Draw → (password : Text) → NewState → World → Result (Unit {0}) × World
  unfolding store_fresh build_doc
  seal_fresh d password next w =
      store_fresh d next
        (seal_new env.cipher env.kdf d.salt d.iv
          (doc (build_doc next.mnemonic next.next_index next.accts next.active)) password)
        w

  abbrev first_account : Account → Option ℕ → Bool → Acct
  first_account a index imported = record {
    keys = a;
    label = codes "Account 1";
    index = index;
    imported = imported;
  }

  unfoldable pub fresh_state : (mnemonic : Option Text) (next_index : ℕ) → Acct → NewState
  fresh_state mnemonic next_index a = record {
    mnemonic = mnemonic;
    next_index = next_index;
    accts = a ∷ [];
    active = 0;
  }

  -- the end of `create`, `restore` and `importKey`
  unfoldable pub found :
      Draw → (password : Text) → Result NewState → World → Result (Unit {0}) × World
  unfolding seal_fresh
  found d password (err e) w = (err e, w)
  found d password (ok next) w = seal_fresh d password next w

  unfoldable pub hd_state : Text → Result NewState
  unfolding fresh_state
  hd_state m = derive_account env.crypto env.signer env.phrases m 0 >>= λ a.
      ok (fresh_state (some m) 1 (first_account a (some 0) false))

  -- `create`, with the phrase that `newMnemonic` draws
  unfoldable pub create : Draw → (new_mnemonic password : Text) → World → Result (Unit {0}) × World
  unfolding found hd_state
  create d new_mnemonic password w = elim w.local.vault [
    | some v ↦ (err already_exists, w)
    | none ↦ found d password (hd_state new_mnemonic) w
  ]

  unfoldable pub restore : Draw → (mnemonic password : Text) → World → Result (Unit {0}) × World
  unfolding found hd_state
  restore d mnemonic password w = elim w.local.vault [
    | some v ↦ (err already_exists, w)
    | none ↦
        found d password
          (if is_valid_mnemonic env.crypto env.signer env.phrases mnemonic
            then hd_state (normalize_mnemonic mnemonic)
            else err bad_phrase)
          w
  ]

  unfoldable pub raw_state : Text → Result NewState
  unfolding fresh_state
  raw_state priv = acct env priv (codes "Account 1") none true >>= λ a. ok (fresh_state none 0 a)

  unfoldable pub import_key : Draw → (priv password : Text) → World → Result (Unit {0}) × World
  unfolding found raw_state
  import_key d priv password w = elim w.local.vault [
    | some v ↦ (err already_exists, w)
    | none ↦ found d password (raw_state priv) w
  ]

  -- `this.vaultKey = key; this.salt = v.salt; this.iter = v.iter`
  abbrev pub with_key : Sealed → Key → World → World
  with_key v key w = record w {
    mem = record w.mem { vault_key = some key; salt = v.salt; iter = v.iter };
  }

  -- The rows and records that were parked while locked are written.
  unfoldable pub drain_parked_work : Draw → World → World
  drain_parked_work d w = record w {
    hist = drain_parked true d.disks w.hist;
    claims = elim w.claims.parked [
      | [] ↦ w.claims
      | p ∷ ps ↦
          persist_seal env.seals true w.mem.wiped d.seal_ivs (seal_key_of w.mem) d.seal_disks none
            w.claims
    ];
  }

  unfoldable pub finish_unlock : Draw → Result (Unit {0}) × World → Result Text × World
  unfolding must_addr drain_parked_work
  finish_unlock d (err e, w) = (err e, w)
  finish_unlock d (ok u, w) =
      let w' = drain_parked_work d (persist_session (touch d.now w)) in (must_addr w'.mem, w')

  unfoldable pub persist_applied : Draw → Result (Unit {0}) × World → Result (Unit {0}) × World
  persist_applied d (err e, w) = (err e, w)
  persist_applied d (ok u, w) = persist_vault env d.iv d.writes w

  unfoldable pub opened : Draw → Sealed → Result (Key × Plain) × World → Result Text × World
  unfolding persist_applied finish_unlock
  opened d v (err e, w) = (err e, w)
  opened d v (ok (key, p), w) =
      finish_unlock d (persist_applied d (apply_doc env p (with_key v key w)))

  unfoldable pub unlock_from :
      Draw → (password : Text) → Option Sealed → World → Result Text × World
  unfolding opened
  unlock_from d password none w = (err no_wallet, w)
  unlock_from d password (some v) w = opened d v (open_vault_doc env d.attempt v password w)

  -- `unlock`
  unfoldable pub unlock : Draw → (password : Text) → World → Result Text × World
  unfolding unlock_from
  unlock d password w = unlock_from d password w.local.vault w

  unfoldable pub settle_rehydrate :
      (ts : Option ℕ) (now : ℕ) → Result (Unit {0}) × World → Bool × World
  unfolding lock
  settle_rehydrate ts now (err e, w) = (false, lock w)
  settle_rehydrate ts now (ok u, w) =
      (true, record w { mem = record w.mem { last_active = elim ts [ none ↦ now | some t ↦ t ] } })

  unfoldable pub reopened :
      (ts : Option ℕ) (now : ℕ) → Sealed → Result (Key × Plain) → World → Bool × World
  unfolding settle_rehydrate lock
  reopened ts now v (err e) w = (false, lock w)
  reopened ts now v (ok (key, p)) w = settle_rehydrate ts now (apply_doc env p (with_key v key w))

  -- the key of the session opens the vault
  unfoldable pub session_open : Sealed → Key → Result (Key × Plain)
  session_open v key_raw = elim (import_key_raw key_raw) [
    | none ↦ err locked
    | some key ↦ open_with env.cipher v key >>= λ p. ok (key, p)
  ]

  unfoldable pub rehydrate_vault :
      (now : ℕ) → (ts : Option ℕ) → Key → Option Sealed → World → Bool × World
  unfolding clear_session reopened session_open
  rehydrate_vault now ts key_raw none w = (false, clear_session w)
  rehydrate_vault now ts key_raw (some v) w = reopened ts now v (session_open v key_raw) w

  unfoldable pub rehydrate_key :
      (now idle_ms : ℕ) → (ts : Option ℕ) → Option Key → World → Bool × World
  unfolding rehydrate_vault is_expired
  rehydrate_key now idle_ms ts none w = (false, w)
  rehydrate_key now idle_ms ts (some key_raw) w =
      if is_expired now idle_ms ts
      then (false, clear_session w)
      else rehydrate_vault now ts key_raw w.local.vault w

  unfoldable pub rehydrate_from :
      (now idle_ms : ℕ) → Option (List Acct) → Option Session → World → Bool × World
  unfolding rehydrate_key
  rehydrate_from now idle_ms (some accts) s w = (false, w)
  rehydrate_from now idle_ms none none w = (false, w)
  rehydrate_from now idle_ms none (some s) w = rehydrate_key now idle_ms s.ts s.key_raw w

  -- `rehydrateSession`, after a restart of the service worker
  unfoldable pub rehydrate_session : (now idle_ms : ℕ) → World → Bool × World
  unfolding rehydrate_from
  rehydrate_session now idle_ms w = rehydrate_from now idle_ms w.mem.accts w.session w
