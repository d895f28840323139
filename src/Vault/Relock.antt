-- ===== src/Vault/Relock.antt =====
-- Locking loses nothing (src/core/wallet.ts `persistVault`, `lock`, `unlock`).
use cairn_wallet.Base.{subst, ℕ, ◌≡◌, refl, sym, ap, ◌∙◌, true, Option, none, some, List}
use cairn_wallet.Base.Text.{Text}
use cairn_wallet.Vault.{Result, ok, err, ◌>>=◌}
use cairn_wallet.Vault.Keystore.{Key, Sealed, seal_with, open_with, derive_vault_key}
use cairn_wallet.Vault.State.{
  Acct, Plain, doc, Env, Memory, Session, World, Writes, build_doc, write_vault, touch,
  persist_session, persist_in-same, apply_doc, write_state, persist_vault,
}
use cairn_wallet.Vault.Guard.{
  Attempt, may_try, record_attempt, with_auth_guard, decrypt_vault, open_vault_doc,
}
use cairn_wallet.Vault.Lock.{clear_keys, clear_session, lock}
use cairn_wallet.Vault.Open.{
  Draw, with_key, drain_parked_work, finish_unlock, persist_applied, opened, unlock_from, unlock,
}
use cairn_wallet.Vault.Recover.{IsState, recovered, apply_doc-build_doc}
use cairn_wallet.Vault.Reach.{IsWorld}

-- One wallet, unlocked with one key: all of the memory but the time of the last activity and the reset flag.
pub record IsSame (m n : Memory) : Type 0 where
  pub accts : m.accts ≡ n.accts
  pub active : m.active ≡ n.active
  pub vault_key : m.vault_key ≡ n.vault_key
  pub salt : m.salt ≡ n.salt
  pub iter : m.iter ≡ n.iter
  pub mnemonic : m.mnemonic ≡ n.mnemonic
  pub next_index : m.next_index ≡ n.next_index

IsSame-join : (k m n : Memory) → IsSame k m → IsSame n m → IsSame k n
IsSame-join k m n a b = record {
  accts = a.accts ∙ sym b.accts;
  active = a.active ∙ sym b.active;
  vault_key = a.vault_key ∙ sym b.vault_key;
  salt = a.salt ∙ sym b.salt;
  iter = a.iter ∙ sym b.iter;
  mnemonic = a.mnemonic ∙ sym b.mnemonic;
  next_index = a.next_index ∙ sym b.next_index;
}

abbrev pub all_written : Writes
all_written = record { vault_ok = true; wallets_ok = true; active_ok = true }

may_try-clear_keys :
    (attempt : Attempt) (s : Option Session) → may_try attempt (clear_keys s) ≡ may_try attempt s
unfolding may_try clear_keys
may_try-clear_keys attempt none = refl
may_try-clear_keys attempt (some s) = refl

module _ (env : Env) where
  write_state-mem :
      (iv : Text) (writes : Writes) (o : Option (List Acct)) (key : Option Key) (w : World)
      → (write_state env iv writes o key w).1.mem ≡ w.mem
  unfolding write_state
  write_state-mem iv writes none key w = refl
  write_state-mem iv writes (some accts) none w = refl
  write_state-mem iv writes (some accts) (some key) w = refl

  persist_applied-mem :
      (d : Draw) (r : Result (Unit {0})) (w : World) → (persist_applied env d (r, w)).1.mem ≡ w.mem
  unfolding persist_applied persist_vault
  persist_applied-mem d (err e) w = refl
  persist_applied-mem d (ok u) w = write_state-mem d.iv d.writes w.mem.accts w.mem.vault_key w

  finish_unlock-IsSame :
      (d : Draw) (r : Result (Unit {0})) (w : World)
      → IsSame (finish_unlock env d (r, w)).1.mem w.mem
  unfolding finish_unlock drain_parked_work persist_session touch
  finish_unlock-IsSame d (err e) w = record {
    accts = refl;
    active = refl;
    vault_key = refl;
    salt = refl;
    iter = refl;
    mnemonic = refl;
    next_index = refl;
  }
  finish_unlock-IsSame d (ok u) w =
      let w' : World = touch d.now w in
      let e : (persist_session w').mem ≡ w'.mem =
        (persist_in-same w'.session w'.mem.vault_key w').0 in
      record {
        accts = ap (λ (m : Memory). m.accts) e;
        active = ap (λ (m : Memory). m.active) e;
        vault_key = ap (λ (m : Memory). m.vault_key) e;
        salt = ap (λ (m : Memory). m.salt) e;
        iter = ap (λ (m : Memory). m.iter) e;
        mnemonic = ap (λ (m : Memory). m.mnemonic) e;
        next_index = ap (λ (m : Memory). m.next_index) e;
      }

  -- The vault that a write leaves opens under the password of its key.
  decrypt_vault-seal_with :
      (iv : Text) (p : Plain) (key : Key) (salt : Text) (iter : ℕ) (password : Text)
      → derive_vault_key env.kdf password salt iter ≡ ok key
      → decrypt_vault env (seal_with env.cipher iv p key salt iter) password ≡ ok (key, p)
  unfolding decrypt_vault seal_with open_with
  decrypt_vault-seal_with iv p key salt iter password e =
      rw (e, ◌>>=◌) (rw (env.cipher.decrypt_encrypt key iv p) refl)

  opened-IsSame :
      (d : Draw) (v : Sealed) (key : Key) (mnemonic : Option Text) (next_index : ℕ)
      (accts : List Acct) (active : ℕ) (w : World) (m : Memory)
      → IsState env mnemonic next_index accts active
      → IsSame m (recovered mnemonic next_index accts active (with_key env v key w)).mem
      → IsSame
          (opened env d v (ok (key, doc (build_doc mnemonic next_index accts active)), w)).1.mem
          m
  unfolding opened
  opened-IsSame d v key mnemonic next_index accts active w m st same =
      let r : World = recovered mnemonic next_index accts active (with_key env v key w) in
      let a : Result (Unit {0}) × World =
        apply_doc env (doc (build_doc mnemonic next_index accts active)) (with_key env v key w) in
      let b : Result (Unit {0}) × World = persist_applied env d a in
      let e : b.1.mem ≡ r.mem =
        persist_applied-mem d a.0 a.1
        ∙ ap (λ (x : Result (Unit {0}) × World). x.1.mem)
            (apply_doc-build_doc env mnemonic next_index accts active (with_key env v key w) st) in
      IsSame-join (finish_unlock env d b).1.mem r.mem m
        (subst (IsSame (finish_unlock env d b).1.mem) e (finish_unlock-IsSame d b.0 b.1)) same

  open_vault_doc-try :
      (attempt : Attempt) (v : Sealed) (password : Text) (kp : Key × Plain) (w : World)
      → may_try attempt w.session ≡ true
      → decrypt_vault env v password ≡ ok kp
      → open_vault_doc env attempt v password w
        ≡ (ok kp, record w { session = record_attempt attempt true w.session })
  unfolding open_vault_doc with_auth_guard
  open_vault_doc-try attempt v password kp w t f =
      subst
        (λ (r : Result (Key × Plain)).
          with_auth_guard attempt r w
          ≡ (ok kp, record w { session = record_attempt attempt true w.session }))
        (sym f) (rw t refl)

  unlock_sealed :
      (d : Draw) (password : Text) (v : Sealed) (kp : Key × Plain) (w : World) (m : Memory)
      → w.local.vault ≡ some v
      → may_try d.attempt w.session ≡ true
      → decrypt_vault env v password ≡ ok kp
      → ((w' : World) → IsSame (opened env d v (ok kp, w')).1.mem m)
      → IsSame (unlock env d password w).1.mem m
  unfolding unlock unlock_from
  unlock_sealed d password v kp w m e t f g =
      let w' : World = record w { session = record_attempt d.attempt true w.session } in
      subst (λ (o : Option Sealed). IsSame (unlock_from env d password o w).1.mem m) (sym e)
        (subst (λ (r : Result (Key × Plain) × World). IsSame (opened env d v r).1.mem m)
          (sym (open_vault_doc-try d.attempt v password kp w t f)) (g w'))

  unlock-lock-written :
      (w : World) (accts : List Acct) (key : Key) (iv password : Text) (d : Draw)
      → IsWorld env w
      → w.mem.accts ≡ some accts
      → w.mem.vault_key ≡ some key
      → derive_vault_key env.kdf password w.mem.salt w.mem.iter ≡ ok key
      → may_try d.attempt w.session ≡ true
      → IsSame
          (unlock env d password
            (lock (write_state env iv all_written (some accts) (some key) w).1)).1.mem
          w.mem
  unfolding lock clear_session write_state write_vault
  unlock-lock-written w accts key iv password d h e f k t =
      let p : Plain = doc (build_doc w.mem.mnemonic w.mem.next_index accts w.mem.active) in
      let v : Sealed = seal_with env.cipher iv p key w.mem.salt w.mem.iter in
      unlock_sealed d password v (key, p)
        (lock (write_state env iv all_written (some accts) (some key) w).1) w.mem refl
        (may_try-clear_keys d.attempt w.session ∙ t)
        (decrypt_vault-seal_with iv p key w.mem.salt w.mem.iter password k)
        (λ w'.
          opened-IsSame d v key w.mem.mnemonic w.mem.next_index accts w.mem.active w' w.mem
            (h.memory accts e)
            (unfold seal_with in
              record {
                accts = e;
                active = refl;
                vault_key = f;
                salt = refl;
                iter = refl;
                mnemonic = refl;
                next_index = refl;
              }))

  -- Locking loses nothing. Where the wallet's last state is in the vault, locking it and unlocking it with its
  -- password, which the throttle lets through, brings back the same accounts with their labels and keys, the same
  -- active account, recovery phrase and next index, under the same key, whether or not the unlock's own writes succeed.
  pub unlock-lock-IsSame :
      (w : World) (accts : List Acct) (key : Key) (iv password : Text) (d : Draw)
      → IsWorld env w
      → w.mem.accts ≡ some accts
      → w.mem.vault_key ≡ some key
      → derive_vault_key env.kdf password w.mem.salt w.mem.iter ≡ ok key
      → may_try d.attempt w.session ≡ true
      → IsSame (unlock env d password (lock (persist_vault env iv all_written w).1)).1.mem w.mem
  unfolding persist_vault
  unlock-lock-IsSame w accts key iv password d h e f k t =
      subst
        (λ (o : Option (List Acct)).
          IsSame
            (unlock env d password
              (lock (write_state env iv all_written o w.mem.vault_key w).1)).1.mem
            w.mem)
        (sym e)
        (subst
          (λ (o : Option Key).
            IsSame
              (unlock env d password
                (lock (write_state env iv all_written (some accts) o w).1)).1.mem
              w.mem)
          (sym f) (unlock-lock-written w accts key iv password d h e f k t))
