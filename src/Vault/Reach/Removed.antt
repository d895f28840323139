-- ===== src/Vault/Reach/Removed.antt =====
-- New labels and removals keep the wallet sound (src/core/wallet.ts).
use cairn_wallet.Base.{
  subst, ℕ, ◌≡◌, ◌<◌, refl, inl, inr, Option, none, some, List, [], ◌∷◌, leb, length, any, All,
  arith, Bool-cases,
}
use mathlib.Core.Option.{some-injective}
use cairn_wallet.Base.Text.{Text}
use cairn_wallet.Vault
use cairn_wallet.Vault.{Error, Result, ok, err, ◌>>=◌, phrase, ok-injective}
use cairn_wallet.Vault.Keystore.{Key, Sealed}
use cairn_wallet.Vault.State.{Acct, Plain, Env, World, index_above, first_free}
use cairn_wallet.Vault.Guard.{open_vault_doc}
use cairn_wallet.Vault.Open.{Draw}
use cairn_wallet.Vault.Accounts.{label, must_unlocked, same_addr, find_index, relabel, splice}
use cairn_wallet.Vault.Accounts.Calls.{
  rename_in, rename_account, splice_at, splice_found_again, splice_again, checked, remove_checked,
  remove_imported, remove_target, acct_at, remove_in, remove_account,
}
use cairn_wallet.Vault.Recover.{IsAcct, IsState}
use cairn_wallet.Vault.Reach.{IsWorld}
use cairn_wallet.Vault.Reach.Opened.{IsWorld-with, open_vault_doc-same}
use cairn_wallet.Vault.Reach.Listed.{splice-IsWorld, persisted-IsWorld, must_unlocked-eq}
use cairn_wallet.Vault.Reach.Changed.{IsLabel, label-IsLabel}

first_free-relabel :
    (addr t : Text) (accts : List Acct) → first_free (relabel addr t accts) ≡ first_free accts
unfolding relabel first_free index_above
first_free-relabel addr t [] = refl
first_free-relabel addr t (a ∷ accts) = ground (arith, first_free-relabel addr t accts)

length-relabel : (addr t : Text) (accts : List Acct) → length (relabel addr t accts) ≡ length accts
unfolding relabel
length-relabel addr t [] = refl
length-relabel addr t (a ∷ accts) = ground (arith, length-relabel addr t accts)

module _ (env : Env) where
  renamed-IsAcct :
      (mnemonic : Option Text) (t : Text) (a : Acct)
      → IsAcct env mnemonic a
      → IsAcct env mnemonic (record a { label = label (some t) a.label })
  unfolding IsLabel
  renamed-IsAcct mnemonic t a h = record {
    keys_match = h.keys_match;
    labelled = label-IsLabel (some t) a.label h.labelled;
    recoverable = h.recoverable;
  }

  All-relabel :
      (mnemonic : Option Text) (addr t : Text) (accts : List Acct)
      → All (IsAcct env mnemonic) accts
      → All (IsAcct env mnemonic) (relabel addr t accts)
  unfolding relabel
  All-relabel mnemonic addr t [] h = tt
  All-relabel mnemonic addr t (a ∷ accts) h = elim (Bool-cases (same_addr addr a)) [
    | inl e ↦ rw e (renamed-IsAcct mnemonic t a h.0, h.1)
    | inr e ↦ rw e (h.0, All-relabel mnemonic addr t accts h.1)
  ]

  rename_in-IsWorld :
      (d : Draw) (addr t : Text) (r : Result (List Acct)) (w : World)
      → must_unlocked w.mem ≡ r
      → IsWorld env w
      → IsWorld env (rename_in env d addr t r w).1
  unfolding rename_in
  rename_in-IsWorld d addr t (err e) w f h = h
  rename_in-IsWorld d addr t (ok accts) w f h =
      let st : IsState env w.mem.mnemonic w.mem.next_index accts w.mem.active =
        h.memory accts (must_unlocked-eq env w.mem accts f) in
      let l : List Acct = relabel addr t accts in
      let w' : World = record w { mem = record w.mem { accts = some l } } in
      let g : IsWorld env w' = record {
        memory = λ x e.
            subst (λ (y : List Acct). IsState env w.mem.mnemonic w.mem.next_index y w.mem.active)
              (some-injective _ _ e)
              (record {
                slot = omega (arith, length-relabel addr t accts, st.slot);
                index_free = omega (arith, first_free-relabel addr t accts, st.index_free);
                sound = All-relabel w.mem.mnemonic addr t accts st.sound;
              });
        stored = h.stored;
      } in
      elim (Bool-cases (any (same_addr addr) accts)) [
        | inl b ↦ rw b (persisted-IsWorld env d w' g)
        | inr b ↦ rw b h
      ]

  pub rename_account-IsWorld :
      (d : Draw) (addr t : Text) (w : World)
      → IsWorld env w
      → IsWorld env (rename_account env d addr t w).1
  unfolding rename_account
  rename_account-IsWorld d addr t w h = rename_in-IsWorld d addr t (must_unlocked w.mem) w refl h

  splice_at-IsWorld :
      (d : Draw) (o : Option ℕ) (absent : Result (Unit {0})) (accts : List Acct) (w : World)
      → w.mem.accts ≡ some accts
      → 1 < length accts
      → IsWorld env w
      → IsWorld env (splice_at env d o absent accts w).1
  unfolding splice_at
  splice_at-IsWorld d none absent accts w e l h = h
  splice_at-IsWorld d (some i) absent accts w e l h =
      persisted-IsWorld env d (splice i accts w) (splice-IsWorld env i accts w e l h)

  splice_found_again-IsWorld :
      (d : Draw) (o : Option ℕ) (accts : List Acct) (w : World)
      → w.mem.accts ≡ some accts
      → IsWorld env w
      → IsWorld env (splice_found_again env d o accts w).1
  unfolding splice_found_again
  splice_found_again-IsWorld d none accts w e h = h
  splice_found_again-IsWorld d (some i) accts w e h = elim (Bool-cases (leb (length accts) 1)) [
    | inl b ↦ rw b h
    | inr b ↦ rw b (splice_at-IsWorld d (some i) (ok tt) accts w e (ground (arith, b)) h)
  ]

  splice_again-IsWorld :
      (d : Draw) (addr : Text) (r : Result (List Acct)) (w : World)
      → must_unlocked w.mem ≡ r
      → IsWorld env w
      → IsWorld env (splice_again env d addr r w).1
  unfolding splice_again
  splice_again-IsWorld d addr (err e) w f h = h
  splice_again-IsWorld d addr (ok accts) w f h =
      splice_found_again-IsWorld d (find_index addr accts) accts w
        (must_unlocked-eq env w.mem accts f) h

  module _ (between : World → World)
      (between-IsWorld : (w : World) → IsWorld env w → IsWorld env (between w)) where
    checked-IsWorld :
        (d : Draw) (addr : Text) (r : Result (Key × Plain)) (w : World)
        → IsWorld env w
        → IsWorld env (checked env d addr between (r, w)).1
    unfolding checked
    checked-IsWorld d addr (err e) w h = h
    checked-IsWorld d addr (ok kp) w h =
        let w' : World = between w in
        splice_again-IsWorld d addr (must_unlocked w'.mem) w' refl (between-IsWorld w h)

    remove_checked-IsWorld :
        (d : Draw) (addr password : Text) (o : Option Sealed) (w : World)
        → IsWorld env w
        → IsWorld env (remove_checked env d addr password between o w).1
    unfolding remove_checked
    remove_checked-IsWorld d addr password none w h = h
    remove_checked-IsWorld d addr password (some v) w h =
        let o : Result (Key × Plain) × World = open_vault_doc env d.attempt v password w in
        let (a, b) = open_vault_doc-same env d.attempt v password w in
        checked-IsWorld d addr o.0 o.1 (IsWorld-with env w o.1 a b h)

    remove_imported-IsWorld :
        (d : Draw) (addr : Text) (password : Option Text) (w : World)
        → IsWorld env w
        → IsWorld env (remove_imported env d addr password between w).1
    unfolding remove_imported
    remove_imported-IsWorld d addr none w h = h
    remove_imported-IsWorld d addr (some p) w h = remove_checked-IsWorld d addr p w.local.vault w h

    remove_target-IsWorld :
        (d : Draw) (addr : Text) (password : Option Text) (i : Option ℕ) (o : Option Acct)
        (accts : List Acct) (w : World)
        → w.mem.accts ≡ some accts
        → 1 < length accts
        → IsWorld env w
        → IsWorld env (remove_target env d addr password between i o accts w).1
    unfolding remove_target
    remove_target-IsWorld d addr password i none accts w e l h = h
    remove_target-IsWorld d addr password i (some a) accts w e l h = elim (Bool-cases a.imported) [
      | inl b ↦ rw b (remove_imported-IsWorld d addr (phrase password) w h)
      | inr b ↦ rw b (splice_at-IsWorld d i (err Vault.no_such_account) accts w e l h)
    ]

    remove_in-IsWorld :
        (d : Draw) (addr : Text) (password : Option Text) (r : Result (List Acct)) (w : World)
        → must_unlocked w.mem ≡ r
        → IsWorld env w
        → IsWorld env (remove_in env d addr password between r w).1
    unfolding remove_in
    remove_in-IsWorld d addr password (err e) w f h = h
    remove_in-IsWorld d addr password (ok accts) w f h = elim (Bool-cases (leb (length accts) 1)) [
      | inl b ↦ rw b h
      | inr b ↦ rw b (
          remove_target-IsWorld d addr password (find_index addr accts)
            (acct_at env (find_index addr accts) accts) accts w (must_unlocked-eq env w.mem accts f)
            (ground (arith, b)) h)
    ]

    pub remove_account-IsWorld :
        (d : Draw) (addr : Text) (password : Option Text) (w : World)
        → IsWorld env w
        → IsWorld env (remove_account env d addr password between w).1
    unfolding remove_account
    remove_account-IsWorld d addr password w h =
        remove_in-IsWorld d addr password (must_unlocked w.mem) w refl h
