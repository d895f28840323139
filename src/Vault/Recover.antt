-- ===== src/Vault/Recover.antt =====
-- What makes an unlocked wallet sound, and what its document gives back (src/core/wallet.ts `buildDoc`, `applyDoc`).
use cairn_wallet.Base.{
  ℕ, ◌-◌, ◌≤◌, ◌<◌, ◌≡◌, ◌⊎◌, refl, min, max, true, false, Option, some, List, [], ◌∷◌, map, length,
  length-map, ◌==◌, All, arith,
}
use cairn_wallet.Base.Text.{Text}
use cairn_wallet.Vault.{ok, ◌>>=◌}
use cairn_wallet.Vault.Account.{from_priv, derive_account}
use cairn_wallet.Vault.State.{
  Acct, doc, Env, World, stored_of, build_doc, label_or_account, first_free, acct, accts_of,
  apply_parsed, apply_doc,
}

-- The account's keys belong together, and they are imported or come from the phrase.
pub record IsAcct (env : Env) (mnemonic : Option Text) (a : Acct) : Type 0 where
  pub keys_match : from_priv env.crypto env.signer env.phrases a.keys.privkey ≡ ok a.keys
  pub labelled : label_or_account a.label ≡ a.label
  pub recoverable :
      (a.imported ≡ true)
      ⊎ ((i : ℕ) × (p : Text) × (a.index ≡ some i)
          × (mnemonic ≡ some p)
          × (derive_account env.crypto env.signer env.phrases p i ≡ ok a.keys))

-- An unlocked wallet: the active slot is there, the next index is free, and every account is sound.
pub record IsState (env : Env) (mnemonic : Option Text) (next_index : ℕ) (accts : List Acct)
    (active : ℕ) : Type 0 where
  pub slot : active < length accts
  pub index_free : first_free accts ≤ next_index
  pub sound : All (IsAcct env mnemonic) accts

acct-stored :
    (env : Env) (mnemonic : Option Text) (a : Acct)
    → IsAcct env mnemonic a
    → acct env a.keys.privkey (label_or_account a.label) a.index a.imported ≡ ok a
unfolding acct
acct-stored env mnemonic a h = rw (h.keys_match, h.labelled, ◌>>=◌) refl

pub accts_of-stored :
    (env : Env) (mnemonic : Option Text) (accts : List Acct)
    → All (IsAcct env mnemonic) accts
    → accts_of env (map stored_of accts) ≡ ok accts
unfolding accts_of
accts_of-stored env mnemonic [] h = refl
accts_of-stored env mnemonic (a ∷ accts) h =
    rw (acct-stored env mnemonic a h.0, accts_of-stored env mnemonic accts h.1, ◌>>=◌) refl

-- the wallet in memory that a document gives
abbrev pub recovered :
    (mnemonic : Option Text) (next_index : ℕ) → List Acct → (active : ℕ) → World → World
recovered mnemonic next_index accts active w = record w {
  mem = record w.mem {
    mnemonic = mnemonic;
    accts = some accts;
    active = active;
    next_index = next_index;
  };
}

min_slot : (active n : ℕ) → active < n → min active (n - 1) ≡ active
min_slot active n h = omega (arith, h)

max_free : (next_index free : ℕ) → free ≤ next_index → max next_index free ≡ next_index
max_free next_index free h = omega (arith, h)

-- The document of a sound wallet gives the wallet back: the same phrase, next index, accounts, labels and active
-- account, whatever was in memory before.
pub apply_doc-build_doc :
    (env : Env) (mnemonic : Option Text) (next_index : ℕ) (accts : List Acct) (active : ℕ)
    (w : World)
    → IsState env mnemonic next_index accts active
    → apply_doc env (doc (build_doc mnemonic next_index accts active)) w
      ≡ (ok tt, recovered mnemonic next_index accts active w)
unfolding apply_doc build_doc
apply_doc-build_doc env mnemonic next_index accts active w h =
    let nonempty : (length (map stored_of accts) == 0) ≡ false =
      ground (arith, length-map stored_of accts, h.slot) in
    rw
      (
        nonempty,
        accts_of-stored env mnemonic accts h.sound,
        apply_parsed,
        min_slot active (length accts) h.slot,
        max_free next_index (first_free accts) h.index_free,
      )
      refl
