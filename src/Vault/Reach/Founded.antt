-- ===== src/Vault/Reach/Founded.antt =====
-- Making a wallet makes a sound one (src/core/wallet.ts).
use cairn_wallet.Base.{
  subst, length, ◌==◌, ◌≡◌, refl, ap, inl, inr, Bool, true, false, none, some, List, ltb, arith,
  Bool-cases, Option-cases, if◌then◌else◌,
}
use mathlib.Core.Option.{some-injective}
use cairn_wallet.Base.Text.{Text, codes}
use cairn_wallet.Vault
use cairn_wallet.Vault.{Error, Result, ok, err, ◌>>=◌, ok-injective}
use cairn_wallet.Vault.Keystore.{Key, Sealed, seal_with, seal_new, min_password_len, pbkdf2_iters}
use cairn_wallet.Vault.Account.{
  derive_account, derive_account-privkey, is_valid_mnemonic, normalize_mnemonic,
}
use cairn_wallet.Vault.State.{
  Acct, Plain, doc, Env, Local, World, build_doc, mirror_of, write_vault, acct, label_or_account,
  index_above,
}
use cairn_wallet.Vault.Open.{
  Draw, NewState, adopt, store_fresh, seal_fresh, found, hd_state, raw_state, create, restore,
  import_key, fresh_state,
}
use cairn_wallet.Vault.Recover.{IsState}
use cairn_wallet.Vault.Reach.{
  IsPlain, of_state, IsVault, IsLocal, IsWorld, write_vault-IsLocal, acct-IsAcct, acct-imported,
  single-IsState,
}
use cairn_wallet.Vault.Reach.Opened.{touched-IsWorld}

module _ (env : Env) where
  -- A new wallet's state is sound.
  abbrev IsNew : NewState → Type 0
  IsNew n = IsState env n.mnemonic n.next_index n.accts n.active

  store_fresh-IsWorld :
      (d : Draw) (next : NewState) (v : Sealed) (key : Key) (w : World)
      → IsNew next
      → IsVault env v
      → IsWorld env w
      → IsWorld env (store_fresh env d next (ok (v, key)) w).1
  unfolding store_fresh adopt
  store_fresh-IsWorld d next v key w n g h =
      let s : Local = (write_vault d.writes v (mirror_of next.accts) next.active w.local).1 in
      let l : IsLocal env s =
        write_vault-IsLocal env d.writes v (mirror_of next.accts) next.active w.local g h.stored in
      elim (Bool-cases (write_vault d.writes v (mirror_of next.accts) next.active w.local).0) [
        | inr e ↦ rw e (record { memory = h.memory; stored = l })
        | inl e ↦ rw e (
            touched-IsWorld env d.now
              (record w {
                local = s;
                mem = record w.mem {
                  mnemonic = next.mnemonic;
                  next_index = next.next_index;
                  accts = some next.accts;
                  active = next.active;
                  vault_key = some key;
                  salt = v.salt;
                  iter = v.iter;
                  wiped = false;
                };
              })
              (record {
                memory = λ accts f.
                    subst
                      (λ (x : List Acct). IsState env next.mnemonic next.next_index x next.active)
                      (some-injective _ _ f) n;
                stored = l;
              }))
      ]

  seal_new-IsVault :
      (d : Draw) (password : Text) (p : Plain) (v : Sealed) (key : Key)
      → IsPlain env p
      → seal_new env.cipher env.kdf d.salt d.iv p password ≡ ok (v, key)
      → IsVault env v
  unfolding seal_new seal_with
  seal_new-IsVault d password p v key g e = elim (Bool-cases (length password == 0)) [
    | inl a ↦ absurd (ground (arith, a, e))
    | inr a ↦ elim (Bool-cases (ltb (length password) min_password_len)) [
      | inl b ↦ absurd (ground (arith, a, b, e))
      | inr b ↦
          let k : Key = env.kdf.derive password d.salt pbkdf2_iters in
          let f : ◌≡◌ {A = Result (Sealed × Key)}
              (ok (seal_with env.cipher d.iv p k d.salt pbkdf2_iters, k)) (ok (v, key)) =
            rw (a, b, seal_new) at e in
          subst (IsVault env) (ap (λ (t : Sealed × Key). t.0) (ok-injective f))
            (record { key = k; plain = p; sealed = refl; good = g })
    ]
  ]

  seal_fresh-IsWorld :
      (d : Draw) (password : Text) (next : NewState) (w : World)
      → IsNew next
      → IsWorld env w
      → IsWorld env (seal_fresh env d password next w).1
  unfolding seal_fresh
  seal_fresh-IsWorld d password next w n h =
      go
        (seal_new env.cipher env.kdf d.salt d.iv
          (doc (build_doc next.mnemonic next.next_index next.accts next.active)) password)
        refl
    where
      go :
          (r : Result (Sealed × Key))
          → seal_new env.cipher env.kdf d.salt d.iv
              (doc (build_doc next.mnemonic next.next_index next.accts next.active))
              password
            ≡ r
          → IsWorld env (store_fresh env d next r w).1
      go (err x) e = unfold store_fresh in h
      go (ok (v, key)) e =
          store_fresh-IsWorld d next v key w n
            (seal_new-IsVault d password _ v key
              (of_state next.mnemonic next.next_index next.accts next.active n) e)
            h

  found-IsWorld :
      (d : Draw) (password : Text) (r : Result NewState) (w : World)
      → ((n : NewState) → r ≡ ok n → IsNew n)
      → IsWorld env w
      → IsWorld env (found env d password r w).1
  unfolding found
  found-IsWorld d password (err e) w n h = h
  found-IsWorld d password (ok next) w n h = seal_fresh-IsWorld d password next w (n next refl) h

  hd_state-IsNew : (m : Text) (n : NewState) → hd_state env m ≡ ok n → IsNew n
  unfolding hd_state fresh_state
  hd_state-IsNew m n e =
      let (a, f, g) = Vault.>>=-steps _ (derive_account env.crypto env.signer env.phrases m 0) e in
      subst IsNew (ok-injective g) (
        single-IsState env (some m) 1 _ (unfold index_above in omega arith) (record {
          keys_match = derive_account-privkey env.crypto env.signer env.phrases m 0 a f;
          labelled = unfold label_or_account in refl;
          recoverable = inr (0, m, refl, refl, f);
        }))

  raw_state-IsNew : (priv : Text) (n : NewState) → raw_state env priv ≡ ok n → IsNew n
  unfolding raw_state fresh_state
  raw_state-IsNew priv n e =
      let (a, f, g) = Vault.>>=-steps _ (acct env priv (codes "Account 1") none true) e in
      subst IsNew (ok-injective g) (
        single-IsState env none 0 a
          (omega (arith, acct-imported env priv (codes "Account 1") none a f))
          (acct-IsAcct env priv (codes "Account 1") none none a (unfold label_or_account in refl)
            f))

  pub create-IsWorld :
      (d : Draw) (m password : Text) (w : World)
      → IsWorld env w
      → IsWorld env (create env d m password w).1
  unfolding create
  create-IsWorld d m password w h = elim (Option-cases w.local.vault) [
    | inr (v, e) ↦ rw (e, create) h
    | inl e ↦ rw (e, create) (found-IsWorld d password (hd_state env m) w (hd_state-IsNew m) h)
  ]

  restore_state-IsNew :
      (m : Text) (valid : Bool) (n : NewState)
      → (if valid then hd_state env (normalize_mnemonic m) else err Vault.bad_phrase) ≡ ok n
      → IsNew n
  restore_state-IsNew m true n e = hd_state-IsNew (normalize_mnemonic m) n e
  restore_state-IsNew m false n e = absurd (cc)

  pub restore-IsWorld :
      (d : Draw) (m password : Text) (w : World)
      → IsWorld env w
      → IsWorld env (restore env d m password w).1
  unfolding restore
  restore-IsWorld d m password w h = elim (Option-cases w.local.vault) [
    | inr (v, e) ↦ rw (e, restore) h
    | inl e ↦
        rw (e, restore)
          (found-IsWorld d password _ w
            (restore_state-IsNew m (is_valid_mnemonic env.crypto env.signer env.phrases m)) h)
  ]

  pub import_key-IsWorld :
      (d : Draw) (priv password : Text) (w : World)
      → IsWorld env w
      → IsWorld env (import_key env d priv password w).1
  unfolding import_key
  import_key-IsWorld d priv password w h = elim (Option-cases w.local.vault) [
    | inr (v, e) ↦ rw (e, import_key) h
    | inl e ↦
        rw (e, import_key)
          (found-IsWorld d password (raw_state env priv) w (raw_state-IsNew priv) h)
  ]
