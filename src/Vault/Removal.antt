-- ===== src/Vault/Removal.antt =====
-- Removing an imported account (src/core/wallet.ts `removeAccount`): its key is not in the recovery phrase.
use cairn_wallet.Base.{
  subst, ℕ, ◌≡◌, ◌<◌, ◌⊎◌, refl, sym, inl, inr, true, false, Option, none, some, List, leb, length,
  arith, Bool-cases,
}
use cairn_wallet.Base.Text.{Text}
use cairn_wallet.Vault.{Error, Result, ok, err, phrase, locked_out, no_wallet, reauthenticate}
use cairn_wallet.Vault.Keystore.{Key, Sealed}
use cairn_wallet.Vault.State.{Acct, Plain, Env, World}
use cairn_wallet.Vault.Guard.{may_try, with_auth_guard, decrypt_vault, open_vault_doc}
use cairn_wallet.Vault.Open.{Draw}
use cairn_wallet.Vault.Accounts.{find_index, must_unlocked}
use cairn_wallet.Vault.Accounts.Calls.{
  checked, remove_checked, remove_imported, remove_target, acct_at, remove_in, remove_account,
}

-- The password was given, the throttle let it through, and it opened the vault.
pub record IsReauthenticated (env : Env) (d : Draw) (password : Option Text) (w : World)
    : Type 0 where
  pub given : Text
  pub vault : Sealed
  pub opened : Key × Plain
  pub is_given : phrase password ≡ some given
  pub is_vault : w.local.vault ≡ some vault
  pub is_let_through : may_try d.attempt w.session ≡ true
  pub is_opened : decrypt_vault env vault given ≡ ok opened

-- The call throws, and all but the count of attempts is as before.
pub record IsRefused (w : World) (r : Result (Unit {0}) × World) : Type 0 where
  pub cause : Error
  pub throws : r.0 ≡ err cause
  pub same_memory : r.1.mem ≡ w.mem
  pub same_store : r.1.local ≡ w.local
  pub same_history : r.1.hist ≡ w.hist
  pub same_claims : r.1.claims ≡ w.claims

result_cases {ℓ} :
    {A : Type ℓ} (r : Result A) → ((e : Error) × (r ≡ err e)) ⊎ ((a : A) × (r ≡ ok a))
result_cases (err e) = inl (e, refl)
result_cases (ok a) = inr (a, refl)

module _ (env : Env) (d : Draw) (addr : Text) (password : Option Text) (between : World → World)
    (w : World) where
  abbrev Outcome : Result (Unit {0}) × World → Type 0
  Outcome r = IsReauthenticated env d password w ⊎ IsRefused w r

  checked-refused :
      (e : Error) (w' : World)
      → w'.mem ≡ w.mem
      → w'.local ≡ w.local
      → w'.hist ≡ w.hist
      → w'.claims ≡ w.claims
      → Outcome (checked env d addr between (err e, w'))
  unfolding checked
  checked-refused e w' m l h c = inr (record {
    cause = e;
    throws = refl;
    same_memory = m;
    same_store = l;
    same_history = h;
    same_claims = c;
  })

  remove_checked-Outcome :
      (p : Text) (o : Option Sealed)
      → phrase password ≡ some p
      → w.local.vault ≡ o
      → Outcome (remove_checked env d addr p between o w)
  unfolding remove_checked open_vault_doc with_auth_guard
  remove_checked-Outcome p none f g = inr (record {
    cause = no_wallet;
    throws = refl;
    same_memory = refl;
    same_store = refl;
    same_history = refl;
    same_claims = refl;
  })
  remove_checked-Outcome p (some v) f g = elim (Bool-cases (may_try d.attempt w.session)) [
    | inr t ↦ rw t (checked-refused locked_out w refl refl refl refl)
    | inl t ↦ elim (result_cases (decrypt_vault env v p)) [
      | inr (kp, x) ↦ inl (record {
        given = p;
        vault = v;
        opened = kp;
        is_given = f;
        is_vault = g;
        is_let_through = t;
        is_opened = x;
      })
      | inl (e, x) ↦ rw (t, x) (checked-refused e _ refl refl refl refl)
    ]
  ]

  remove_imported-Outcome :
      (o : Option Text) → phrase password ≡ o → Outcome (remove_imported env d addr o between w)
  unfolding remove_imported
  remove_imported-Outcome none f = inr (record {
    cause = reauthenticate;
    throws = refl;
    same_memory = refl;
    same_store = refl;
    same_history = refl;
    same_claims = refl;
  })
  remove_imported-Outcome (some p) f = remove_checked-Outcome p w.local.vault f refl

  remove_target-Outcome :
      (i : Option ℕ) (a : Acct) (accts : List Acct)
      → a.imported ≡ true
      → Outcome (remove_target env d addr password between i (some a) accts w)
  unfolding remove_target
  remove_target-Outcome i a accts e = rw e (remove_imported-Outcome (phrase password) refl)

  -- A call to remove an imported account from an unlocked wallet of several accounts throws and leaves the wallet, its
  -- store, its history and its claims as they are, unless a password was given, the throttle let it through, and it
  -- opened the stored vault.
  pub remove_account-IsRefused :
      (accts : List Acct) (a : Acct)
      → must_unlocked w.mem ≡ ok accts
      → 1 < length accts
      → acct_at env (find_index addr accts) accts ≡ some a
      → a.imported ≡ true
      → IsReauthenticated env d password w
        ⊎ IsRefused w (remove_account env d addr password between w)
  unfolding remove_account remove_in
  remove_account-IsRefused accts a u l f i =
      let several : leb (length accts) 1 ≡ false = ground (arith, l) in
      subst (λ (r : Result (List Acct)). Outcome (remove_in env d addr password between r w))
        (sym u)
        (rw several (
          subst
            (λ (o : Option Acct).
              Outcome (remove_target env d addr password between (find_index addr accts) o accts w))
            (sym f) (remove_target-Outcome (find_index addr accts) a accts i)))
