-- ===== src/Vault/Reach.antt =====
-- The wallet under every sequence of its operations (src/core/wallet.ts).
pub mod Opened
pub mod Founded
pub mod Listed
pub mod Changed
pub mod Removed
pub mod Steps
use cairn_wallet.Base.{
  subst, ℕ, ◌+◌, ◌-◌, ◌≤◌, ◌<◌, ◌≡◌, ◌⊎◌, refl, sym, ap, ◌∙◌, inl, inr, Bool, true, false, ◌&&◌,
  ◌||◌, not, Option, none, some, List, [], ◌∷◌, ◌++◌, map, length, All, All-append, arith,
  Bool-cases, Option-cases, if◌then◌else◌,
}
use mathlib.Core.Option.{some-injective}
use cairn_wallet.Base.Text.{Text, codes}
use cairn_wallet.Vault
use cairn_wallet.Vault.{Error, Result, ok, err, or_throw, ◌>>=◌}
use cairn_wallet.Vault.Keystore.{
  Key, Cipher, Sealed, seal_with, open_with, derive_vault_key, import_key_raw,
}
use cairn_wallet.Vault.Account.{
  Account, from_priv, from_priv-privkey, derive_account, derive_account-privkey,
}
use cairn_wallet.Vault.State.{
  Acct, PubAcct, Plain, doc, raw, Env, Memory, Local, Session, World, Writes, build_doc, mirror_of,
  write_vault, touch, persist_session, label_or_account, index_above, first_free, acct, apply_doc,
  apply_raw, migrate_legacy, write_state, persist_vault,
}
use cairn_wallet.Vault.Guard.{with_auth_guard, decrypt_vault, open_vault_doc}
use cairn_wallet.Vault.Recover.{IsAcct, IsState, recovered, apply_doc-build_doc}

-- What is unlocked is sound.
abbrev pub IsMemory : Env → Memory → Type 0
IsMemory env m =
    (accts : List Acct) → m.accts ≡ some accts → IsState env m.mnemonic m.next_index accts m.active

-- a plaintext that the wallet seals, or sealed in an old version
pub data IsPlain (env : Env) : Plain → Type 0 where
  of_state :
      (mnemonic : Option Text) (next_index : ℕ) (accts : List Acct) (active : ℕ)
      → IsState env mnemonic next_index accts active
      → IsPlain env (doc (build_doc mnemonic next_index accts active))
  of_key : (priv : Text) → IsPlain env (raw priv)

-- the vault holds such a plaintext
pub record IsVault (env : Env) (v : Sealed) : Type 0 where
  pub key : Key
  pub plain : Plain
  pub sealed : v.ct ≡ env.cipher.encrypt key v.iv plain
  pub good : IsPlain env plain

abbrev pub IsLocal : Env → Local → Type 0
IsLocal env s = (v : Sealed) → s.vault ≡ some v → IsVault env v

pub record IsWorld (env : Env) (w : World) : Type 0 where
  pub memory : IsMemory env w.mem
  pub stored : IsLocal env w.local

module _ (env : Env) where
  -- The wallet changes elsewhere.
  pub IsWorld-same :
      (w w' : World) → w'.mem ≡ w.mem → w'.local ≡ w.local → IsWorld env w → IsWorld env w'
  IsWorld-same w w' e f h = record {
    memory = subst (IsMemory env) (sym e) h.memory;
    stored = subst (IsLocal env) (sym f) h.stored;
  }

  open_with-IsPlain :
      (v : Sealed) (key : Key) (p : Plain)
      → IsVault env v
      → open_with env.cipher v key ≡ ok p
      → IsPlain env p
  unfolding open_with
  open_with-IsPlain v key p h e = elim (Option-cases (env.cipher.decrypt key v.iv v.ct)) [
    | inl f ↦ absurd (ground (arith, e, f))
    | inr (q, f) ↦
        let g : env.cipher.decrypt key v.iv (env.cipher.encrypt h.key v.iv h.plain) ≡ some q =
          ap (λ (c : Text). env.cipher.decrypt key v.iv c) (sym h.sealed) ∙ f in
        let same : q ≡ h.plain = env.cipher.decrypt_authentic h.key key v.iv h.plain q g in
        let k : ◌≡◌ {A = Result Plain} (ok q) (ok p) =
          ap (or_throw Vault.bad_password) (sym f) ∙ e in
        subst (IsPlain env) (sym same ∙ ground (arith, k)) h.good
  ]

  write_vault-IsLocal :
      (writes : Writes) (v : Sealed) (mirror : List PubAcct) (active : ℕ) (s : Local)
      → IsVault env v
      → IsLocal env s
      → IsLocal env (write_vault writes v mirror active s).1
  unfolding write_vault
  write_vault-IsLocal writes v mirror active s g h u e = elim (Bool-cases writes.vault_ok) [
    | inr a ↦ h u (rw (a, write_vault) at e)
    | inl a ↦ subst (IsVault env) (some-injective _ _ (ground (arith, a, e))) g
  ]

  write_state-IsWorld :
      (iv : Text) (writes : Writes) (o : Option (List Acct)) (key : Option Key) (w : World)
      → w.mem.accts ≡ o
      → IsWorld env w
      → IsWorld env (write_state env iv writes o key w).1
  unfolding write_state
  write_state-IsWorld iv writes none key w e h = h
  write_state-IsWorld iv writes (some accts) none w e h = h
  write_state-IsWorld iv writes (some accts) (some key) w e h = record {
    memory = h.memory;
    stored =
        write_vault-IsLocal writes
          (seal_with env.cipher iv
            (doc (build_doc w.mem.mnemonic w.mem.next_index accts w.mem.active)) key w.mem.salt
            w.mem.iter)
          (mirror_of accts) w.mem.active w.local
          (unfold seal_with in
            record {
              key = key;
              plain = doc (build_doc w.mem.mnemonic w.mem.next_index accts w.mem.active);
              sealed = refl;
              good = of_state w.mem.mnemonic w.mem.next_index accts w.mem.active (h.memory accts e);
            })
          h.stored;
  }

  pub persist_vault-IsWorld :
      (iv : Text) (writes : Writes) (w : World)
      → IsWorld env w
      → IsWorld env (persist_vault env iv writes w).1
  unfolding persist_vault
  persist_vault-IsWorld iv writes w h =
      write_state-IsWorld iv writes w.mem.accts w.mem.vault_key w refl h

  -- an imported account takes no index of the phrase
  pub acct-imported :
      (priv t : Text) (index : Option ℕ) (a : Acct)
      → acct env priv t index true ≡ ok a
      → index_above a ≡ 0
  unfolding acct index_above
  acct-imported priv t none a e =
      let (keys, k, f) = Vault.>>=-steps _ (from_priv env.crypto env.signer env.phrases priv) e in
      subst (λ (x : Acct). index_above x ≡ 0) (Vault.ok-injective f) refl
  acct-imported priv t (some i) a e =
      let (keys, k, f) = Vault.>>=-steps _ (from_priv env.crypto env.signer env.phrases priv) e in
      subst (λ (x : Acct). index_above x ≡ 0) (Vault.ok-injective f) refl

  -- A first account.
  pub single-IsState :
      (mnemonic : Option Text) (next_index : ℕ) (a : Acct)
      → index_above a ≤ next_index
      → IsAcct env mnemonic a
      → IsState env mnemonic next_index (a ∷ []) 0
  unfolding first_free
  single-IsState mnemonic next_index a l h = record {
    slot = omega arith;
    index_free = omega (arith, l);
    sound = (h, tt);
  }

  -- An account of a raw key is sound.
  pub acct-IsAcct :
      (priv t : Text) (index : Option ℕ) (mnemonic : Option Text) (a : Acct)
      → label_or_account t ≡ t
      → acct env priv t index true ≡ ok a
      → IsAcct env mnemonic a
  unfolding acct
  acct-IsAcct priv t index mnemonic a l e =
      let (keys, k, f) = Vault.>>=-steps _ (from_priv env.crypto env.signer env.phrases priv) e in
      subst (IsAcct env mnemonic) (Vault.ok-injective f) (record {
        keys_match = from_priv-privkey env.crypto env.signer env.phrases priv keys k;
        labelled = l;
        recoverable = inl refl;
      })

  apply_raw-IsWorld :
      (priv : Text) (r : Result Acct) (w : World)
      → acct env priv (codes "Account 1") none true ≡ r
      → IsWorld env w
      → IsWorld env (apply_raw env r w).1
  unfolding apply_raw migrate_legacy
  apply_raw-IsWorld priv (err e) w f h = h
  apply_raw-IsWorld priv (ok a) w f h = record {
    memory = λ accts e.
        subst (λ (l : List Acct). IsState env none 0 l 0) (some-injective _ _ e)
          (single-IsState none 0 a (omega (arith, acct-imported priv (codes "Account 1") none a f))
            (acct-IsAcct priv (codes "Account 1") none none a (unfold label_or_account in refl) f));
    stored = h.stored;
  }

  pub apply_doc-IsWorld :
      (p : Plain) (w : World) → IsPlain env p → IsWorld env w → IsWorld env (apply_doc env p w).1
  unfolding apply_doc
  apply_doc-IsWorld p w (of_key priv) h =
      apply_raw-IsWorld priv (acct env priv (codes "Account 1") none true) w refl h
  apply_doc-IsWorld p w (of_state mnemonic next_index accts active st) h =
      subst (λ (r : Result (Unit {0}) × World). IsWorld env r.1)
        (sym (apply_doc-build_doc env mnemonic next_index accts active w st))
        (record {
          memory = λ l e.
              subst (λ (l : List Acct). IsState env mnemonic next_index l active)
                (some-injective _ _ e) st;
          stored = h.stored;
        })
