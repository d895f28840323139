-- ===== src/Vault/Reach/Opened.antt =====
-- Opening, closing and resetting keep the wallet sound (src/core/wallet.ts).
use cairn_wallet.Base.{
  subst, ℕ, ◌≡◌, refl, sym, ap, inl, inr, Bool, true, false, Option, none, some, List, [], ◌∷◌,
  arith, Bool-cases, Option-cases,
}
use cairn_wallet.Base.Text.{Text}
use cairn_wallet.Vault
use cairn_wallet.Vault.{Error, Result, ok, err, ◌>>=◌, ok-injective}
use cairn_wallet.Vault.Keystore.{Key, Sealed, open_with, derive_vault_key, import_key_raw}
use cairn_wallet.Vault.State.{
  Acct, PubAcct, Plain, Env, Session, World, touch, persist_session, persist_in-same, apply_doc,
}
use cairn_wallet.Vault.Guard.{Attempt, with_auth_guard, may_try, decrypt_vault, open_vault_doc}
use cairn_wallet.Vault.Lock.{
  clear_session, lock, lock_idle, auto_lock, drop_data, do_reset, wallets_of, reset,
}
use cairn_wallet.Vault.Open.{
  Draw, with_key, drain_parked_work, finish_unlock, persist_applied, opened, unlock, unlock_from,
  rehydrate_vault, rehydrate_key, rehydrate_from, is_expired, settle_rehydrate, reopened,
  session_open, rehydrate_session,
}
use cairn_wallet.Vault.Reach.{
  IsMemory, IsPlain, IsVault, IsLocal, IsWorld, open_with-IsPlain, persist_vault-IsWorld,
  apply_doc-IsWorld,
}

-- The session and the data of the accounts do not matter.
pub IsWorld-with :
    (env : Env) (w w' : World)
    → w'.mem ≡ w.mem
    → w'.local ≡ w.local
    → IsWorld env w
    → IsWorld env w'
IsWorld-with env w w' e f h = record {
  memory = subst (IsMemory env) (sym e) h.memory;
  stored = subst (IsLocal env) (sym f) h.stored;
}

pub open_vault_doc-same :
    (env : Env) (attempt : Attempt) (v : Sealed) (password : Text) (w : World)
    → ((open_vault_doc env attempt v password w).1.mem ≡ w.mem)
      × ((open_vault_doc env attempt v password w).1.local ≡ w.local)
unfolding open_vault_doc with_auth_guard
open_vault_doc-same env attempt v password w = elim (Bool-cases (may_try attempt w.session)) [
  | inl e ↦ rw e (refl, refl)
  | inr e ↦ rw e (refl, refl)
]

module _ (env : Env) where
  decrypt_vault-IsPlain :
      (v : Sealed) (password : Text) (key : Key) (p : Plain)
      → IsVault env v
      → decrypt_vault env v password ≡ ok (key, p)
      → IsPlain env p
  unfolding decrypt_vault
  decrypt_vault-IsPlain v password key p h e =
      let (k, a, b) = Vault.>>=-steps _ (derive_vault_key env.kdf password v.salt v.iter) e in
      let (q, c, d) = Vault.>>=-steps _ (open_with env.cipher v k) b in
      subst (IsPlain env) (ap (λ (t : Key × Plain). t.1) (ok-injective d))
        (open_with-IsPlain env v k q h c)

  pub open_vault_doc-IsPlain :
      (attempt : Attempt) (v : Sealed) (password : Text) (w : World) (key : Key) (p : Plain)
      → IsVault env v
      → (open_vault_doc env attempt v password w).0 ≡ ok (key, p)
      → IsPlain env p
  unfolding open_vault_doc with_auth_guard
  open_vault_doc-IsPlain attempt v password w key p h e =
      elim (Bool-cases (may_try attempt w.session)) [
        | inl f ↦
            decrypt_vault-IsPlain v password key p h (rw (f, open_vault_doc, with_auth_guard) at e)
        | inr f ↦ absurd (ground (arith, e, f))
      ]

  pub lock-IsWorld : (w : World) → IsWorld env w → IsWorld env (lock w)
  unfolding lock
  lock-IsWorld w h = record { memory = λ accts e. absurd (cc); stored = h.stored }

  lock_idle-IsWorld :
      (o : Option (List Acct)) (idle : Bool) (w : World)
      → IsWorld env w
      → IsWorld env (lock_idle o idle w)
  unfolding lock_idle
  lock_idle-IsWorld none idle w h = h
  lock_idle-IsWorld (some accts) true w h = lock-IsWorld w h
  lock_idle-IsWorld (some accts) false w h = h

  pub auto_lock-IsWorld :
      (now max_idle_ms : ℕ) (w : World) → IsWorld env w → IsWorld env (auto_lock now max_idle_ms w)
  unfolding auto_lock
  auto_lock-IsWorld now max_idle_ms w h =
      lock_idle-IsWorld w.mem.accts _ _ (record { memory = h.memory; stored = h.stored })

  drop_data-same :
      (l : List PubAcct) (w : World)
      → ((drop_data l w).mem ≡ w.mem) × ((drop_data l w).local ≡ w.local)
  unfolding drop_data
  drop_data-same [] w = (refl, refl)
  drop_data-same (a ∷ l) w = drop_data-same l _

  do_reset-IsWorld :
      (l : List PubAcct) (w : World) → w.mem.accts ≡ none → IsWorld env (do_reset l w)
  unfolding do_reset
  do_reset-IsWorld l w h = record {
    memory = subst (IsMemory env) (sym (drop_data-same l _).0) (λ accts e. absurd (cc));
    stored = λ v e. absurd (cc);
  }

  pub reset-IsWorld : (w : World) → IsWorld env (reset w)
  unfolding reset lock
  reset-IsWorld w =
      do_reset-IsWorld (wallets_of w.local.wallets)
        (lock (record w { mem = record w.mem { wiped = true } })) refl

  pub touched-IsWorld :
      (now : ℕ) (w : World) → IsWorld env w → IsWorld env (persist_session (touch now w))
  unfolding touch persist_session
  touched-IsWorld now w h =
      let w' : World = touch now w in
      let (a, b) = persist_in-same w'.session w'.mem.vault_key w' in
      IsWorld-with env w' _ a b (record { memory = h.memory; stored = h.stored })

  with_key-IsWorld :
      (v : Sealed) (key : Key) (w : World) → IsWorld env w → IsWorld env (with_key env v key w)
  with_key-IsWorld v key w h = record { memory = h.memory; stored = h.stored }

  persist_applied-IsWorld :
      (d : Draw) (r : Result (Unit {0})) (w : World)
      → IsWorld env w
      → IsWorld env (persist_applied env d (r, w)).1
  unfolding persist_applied
  persist_applied-IsWorld d (err e) w h = h
  persist_applied-IsWorld d (ok u) w h = persist_vault-IsWorld env d.iv d.writes w h

  finish_unlock-IsWorld :
      (d : Draw) (r : Result (Unit {0})) (w : World)
      → IsWorld env w
      → IsWorld env (finish_unlock env d (r, w)).1
  unfolding finish_unlock drain_parked_work
  finish_unlock-IsWorld d (err e) w h = h
  finish_unlock-IsWorld d (ok u) w h =
      let t : IsWorld env (persist_session (touch d.now w)) = touched-IsWorld d.now w h in
      record { memory = t.memory; stored = t.stored }

  opened-IsWorld :
      (d : Draw) (v : Sealed) (r : Result (Key × Plain)) (w : World)
      → ((key : Key) (p : Plain) → r ≡ ok (key, p) → IsPlain env p)
      → IsWorld env w
      → IsWorld env (opened env d v (r, w)).1
  unfolding opened
  opened-IsWorld d v (err e) w g h = h
  opened-IsWorld d v (ok (key, p)) w g h =
      let a : Result (Unit {0}) × World = apply_doc env p (with_key env v key w) in
      let b : Result (Unit {0}) × World = persist_applied env d a in
      finish_unlock-IsWorld d b.0 b.1 (
        persist_applied-IsWorld d a.0 a.1 (
          apply_doc-IsWorld env p (with_key env v key w) (g key p refl)
            (with_key-IsWorld v key w h)))

  unlocked-IsWorld :
      (d : Draw) (v : Sealed) (password : Text) (w : World)
      → IsVault env v
      → IsWorld env w
      → IsWorld env (opened env d v (open_vault_doc env d.attempt v password w)).1
  unlocked-IsWorld d v password w g h =
      let o : Result (Key × Plain) × World = open_vault_doc env d.attempt v password w in
      let (a, b) = open_vault_doc-same env d.attempt v password w in
      opened-IsWorld d v o.0 o.1
        (λ key p e. open_vault_doc-IsPlain d.attempt v password w key p g e)
        (IsWorld-with env w o.1 a b h)

  unlock_from-IsWorld :
      (d : Draw) (password : Text) (o : Option Sealed) (w : World)
      → w.local.vault ≡ o
      → IsWorld env w
      → IsWorld env (unlock_from env d password o w).1
  unfolding unlock_from
  unlock_from-IsWorld d password none w e h = h
  unlock_from-IsWorld d password (some v) w e h = unlocked-IsWorld d v password w (h.stored v e) h

  pub unlock-IsWorld :
      (d : Draw) (password : Text) (w : World)
      → IsWorld env w
      → IsWorld env (unlock env d password w).1
  unfolding unlock
  unlock-IsWorld d password w h = unlock_from-IsWorld d password w.local.vault w refl h

  clear_session-IsWorld : (w : World) → IsWorld env w → IsWorld env (clear_session w)
  unfolding clear_session
  clear_session-IsWorld w h = record { memory = h.memory; stored = h.stored }

  settle_rehydrate-IsWorld :
      (ts : Option ℕ) (now : ℕ) (r : Result (Unit {0})) (w : World)
      → IsWorld env w
      → IsWorld env (settle_rehydrate env ts now (r, w)).1
  unfolding settle_rehydrate
  settle_rehydrate-IsWorld ts now (err e) w h = lock-IsWorld w h
  settle_rehydrate-IsWorld ts now (ok u) w h = record { memory = h.memory; stored = h.stored }

  reopened-IsWorld :
      (ts : Option ℕ) (now : ℕ) (v : Sealed) (r : Result (Key × Plain)) (w : World)
      → ((key : Key) (p : Plain) → r ≡ ok (key, p) → IsPlain env p)
      → IsWorld env w
      → IsWorld env (reopened env ts now v r w).1
  unfolding reopened
  reopened-IsWorld ts now v (err e) w g h = lock-IsWorld w h
  reopened-IsWorld ts now v (ok (key, p)) w g h =
      let a : Result (Unit {0}) × World = apply_doc env p (with_key env v key w) in
      settle_rehydrate-IsWorld ts now a.0 a.1
        (apply_doc-IsWorld env p (with_key env v key w) (g key p refl) (with_key-IsWorld v key w h))

  session_open-IsPlain :
      (v : Sealed) (key_raw key : Key) (p : Plain)
      → IsVault env v
      → session_open env v key_raw ≡ ok (key, p)
      → IsPlain env p
  unfolding session_open
  session_open-IsPlain v key_raw key p g e = elim (Option-cases (import_key_raw key_raw)) [
    | inl a ↦ absurd (ground (arith, a, e))
    | inr (k, a) ↦
        let b : (open_with env.cipher v k >>= λ q. ok (k, q)) ≡ ok (key, p) =
          rw (a, session_open) at e in
        let (q, c, d) = Vault.>>=-steps _ (open_with env.cipher v k) b in
        subst (IsPlain env) (ap (λ (t : Key × Plain). t.1) (ok-injective d))
          (open_with-IsPlain env v k q g c)
  ]

  rehydrate_vault-IsWorld :
      (now : ℕ) (ts : Option ℕ) (key_raw : Key) (o : Option Sealed) (w : World)
      → w.local.vault ≡ o
      → IsWorld env w
      → IsWorld env (rehydrate_vault env now ts key_raw o w).1
  unfolding rehydrate_vault
  rehydrate_vault-IsWorld now ts key_raw none w e h = clear_session-IsWorld w h
  rehydrate_vault-IsWorld now ts key_raw (some v) w e h =
      reopened-IsWorld ts now v (session_open env v key_raw) w
        (λ key p f. session_open-IsPlain v key_raw key p (h.stored v e) f) h

  rehydrate_key-IsWorld :
      (now idle_ms : ℕ) (ts : Option ℕ) (o : Option Key) (w : World)
      → IsWorld env w
      → IsWorld env (rehydrate_key env now idle_ms ts o w).1
  unfolding rehydrate_key
  rehydrate_key-IsWorld now idle_ms ts none w h = h
  rehydrate_key-IsWorld now idle_ms ts (some key_raw) w h =
      elim (Bool-cases (is_expired now idle_ms ts)) [
        | inl e ↦ rw e (clear_session-IsWorld w h)
        | inr e ↦ rw e (rehydrate_vault-IsWorld now ts key_raw w.local.vault w refl h)
      ]

  rehydrate_from-IsWorld :
      (now idle_ms : ℕ) (o : Option (List Acct)) (s : Option Session) (w : World)
      → IsWorld env w
      → IsWorld env (rehydrate_from env now idle_ms o s w).1
  unfolding rehydrate_from
  rehydrate_from-IsWorld now idle_ms (some accts) s w h = h
  rehydrate_from-IsWorld now idle_ms none none w h = h
  rehydrate_from-IsWorld now idle_ms none (some s) w h =
      rehydrate_key-IsWorld now idle_ms s.ts s.key_raw w h

  pub rehydrate_session-IsWorld :
      (now idle_ms : ℕ) (w : World)
      → IsWorld env w
      → IsWorld env (rehydrate_session env now idle_ms w).1
  unfolding rehydrate_session
  rehydrate_session-IsWorld now idle_ms w h =
      rehydrate_from-IsWorld now idle_ms w.mem.accts w.session w h
