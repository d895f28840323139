-- ===== src/Vault/Accounts/Calls.antt =====
-- The calls that change the accounts (src/core/wallet.ts `addAccount`, `importAccount`, `switchAccount`,
-- `renameAccount`, `removeAccount`).
use cairn_wallet.Base.{
  ℕ, ◌+◌, true, false, Option, none, some, List, any, length, get_elem?, leb, if◌then◌else◌,
}
use cairn_wallet.Base.Text.{Text}
use cairn_wallet.Base.Eq.{text_key}
use cairn_wallet.Vault.{
  Result, ok, err, ◌>>=◌, phrase, duplicate_account, no_such_account, last_account, reauthenticate,
  no_wallet,
}
use cairn_wallet.Vault.Keystore.{Key, Sealed}
use cairn_wallet.Vault.Account.{derive_account}
use cairn_wallet.Vault.State.{Acct, Plain, Env, World, acct, persist_vault}
use cairn_wallet.Vault.Guard.{open_vault_doc}
use cairn_wallet.Vault.Open.{Draw}
use cairn_wallet.Vault.Accounts.{
  Selection, find_index, label, must_unlocked, numbered, push_acct, relabel, same_addr, selected,
  splice,
}

module _ (env : Env) where
  -- what an account operation ends with: `await this.persistVault()`
  unfoldable pub persisted : Draw → World → Result (Unit {0}) × World
  persisted d w = persist_vault env d.iv d.writes w

  unfoldable pub add_with :
      Draw → (next_index : ℕ) → List Acct → Result Acct → World → Result (Unit {0}) × World
  unfolding push_acct persisted
  add_with d next_index accts (err e) w = (err e, w)
  add_with d next_index accts (ok a) w = persisted d (push_acct a next_index accts w)

  unfoldable pub hd_acct : Text → ℕ → Text → Result Acct
  hd_acct m index t = derive_account env.crypto env.signer env.phrases m index >>= λ keys.
      ok (record { keys = keys; label = t; index = some index; imported = false })

  -- an account of the phrase where there is one, else of a random key
  unfoldable pub add_named :
      Draw
      → (random_key name : Text) → List Acct
      → (phrase : Option Text) → World
      → Result (Unit {0}) × World
  unfolding add_with hd_acct
  add_named d random_key name accts (some p) w =
      add_with d (w.mem.next_index + 1) accts (hd_acct p w.mem.next_index name) w
  add_named d random_key name accts none w =
      add_with d w.mem.next_index accts (acct env random_key name none true) w

  unfoldable pub add_to :
      Draw
      → (random_key : Text) → Option Text
      → Result (List Acct)
      → World
      → Result (Unit {0}) × World
  unfolding add_named numbered
  add_to d random_key t (err e) w = (err e, w)
  add_to d random_key t (ok accts) w =
      add_named d random_key (label t (numbered (length accts + 1))) accts (phrase w.mem.mnemonic) w

  -- `addAccount`; `random_key` is what `generate` draws.
  unfoldable pub add_account :
      Draw → (random_key : Text) → (label : Option Text) → World → Result (Unit {0}) × World
  unfolding add_to must_unlocked
  add_account d random_key t w = add_to d random_key t (must_unlocked w.mem) w

  unfoldable pub import_new : Draw → List Acct → Result Acct → World → Result (Unit {0}) × World
  unfolding add_with
  import_new d accts (err e) w = (err e, w)
  import_new d accts (ok a) w =
      if any (same_addr a.keys.addr) accts
      then (err duplicate_account, w)
      else add_with d w.mem.next_index accts (ok a) w

  unfoldable pub import_to :
      Draw → (priv : Text) → Option Text → Result (List Acct) → World → Result (Unit {0}) × World
  unfolding import_new numbered
  import_to d priv t (err e) w = (err e, w)
  import_to d priv t (ok accts) w =
      import_new d accts (acct env priv (label t (numbered (length accts + 1))) none true) w

  -- `importAccount`
  unfoldable pub import_account :
      Draw → (priv : Text) → (label : Option Text) → World → Result (Unit {0}) × World
  unfolding import_to must_unlocked
  import_account d priv t w = import_to d priv t (must_unlocked w.mem) w

  unfoldable pub switch_to : Draw → Option ℕ → World → Result (Unit {0}) × World
  unfolding persisted
  switch_to d none w = (err no_such_account, w)
  switch_to d (some i) w = persisted d (record w { mem = record w.mem { active = i } })

  unfoldable pub switch_in :
      Draw → Selection → Result (List Acct) → World → Result (Unit {0}) × World
  unfolding switch_to selected
  switch_in d sel (err e) w = (err e, w)
  switch_in d sel (ok accts) w = switch_to d (selected sel accts) w

  -- `switchAccount`
  unfoldable pub switch_account : Draw → Selection → World → Result (Unit {0}) × World
  unfolding switch_in must_unlocked
  switch_account d sel w = switch_in d sel (must_unlocked w.mem) w

  unfoldable pub rename_in :
      Draw → Text → Text → Result (List Acct) → World → Result (Unit {0}) × World
  unfolding persisted relabel
  rename_in d addr t (err e) w = (err e, w)
  rename_in d addr t (ok accts) w =
      if any (same_addr addr) accts
      then persisted d (record w { mem = record w.mem { accts = some (relabel addr t accts) } })
      else (err no_such_account, w)

  -- `renameAccount`
  unfoldable pub rename_account : Draw → (addr t : Text) → World → Result (Unit {0}) × World
  unfolding rename_in must_unlocked
  rename_account d addr t w = rename_in d addr t (must_unlocked w.mem) w

  unfoldable pub splice_at :
      Draw → Option ℕ → (absent : Result (Unit {0})) → List Acct → World → Result (Unit {0}) × World
  unfolding splice persisted
  splice_at d none absent accts w = (absent, w)
  splice_at d (some i) absent accts w = persisted d (splice i accts w)

  unfoldable pub splice_found_again :
      Draw → Option ℕ → List Acct → World → Result (Unit {0}) × World
  unfolding splice_at
  splice_found_again d none accts w = (ok tt, w)
  splice_found_again d (some i) accts w =
      if leb (length accts) 1 then (err last_account, w) else splice_at d (some i) (ok tt) accts w

  -- After the password check: the index is found again, and the last account stays.
  unfoldable pub splice_again : Draw → Text → Result (List Acct) → World → Result (Unit {0}) × World
  unfolding splice_found_again
  splice_again d addr (err e) w = (err e, w)
  splice_again d addr (ok accts) w = splice_found_again d (find_index addr accts) accts w

  unfoldable pub checked :
      Draw
      → Text
      → (between : World → World) → Result (Key × Plain) × World
      → Result (Unit {0}) × World
  unfolding splice_again must_unlocked
  checked d addr between (err e, w) = (err e, w)
  checked d addr between (ok kp, w) =
      let w' = between w in splice_again d addr (must_unlocked w'.mem) w'

  unfoldable pub remove_checked :
      Draw
      → Text
      → (password : Text) → (between : World → World) → Option Sealed
      → World
      → Result (Unit {0}) × World
  unfolding checked
  remove_checked d addr password between none w = (err no_wallet, w)
  remove_checked d addr password between (some v) w =
      checked d addr between (open_vault_doc env d.attempt v password w)

  unfoldable pub remove_imported :
      Draw
      → Text
      → (password : Option Text) → (between : World → World) → World
      → Result (Unit {0}) × World
  unfolding remove_checked
  remove_imported d addr none between w = (err reauthenticate, w)
  remove_imported d addr (some p) between w = remove_checked d addr p between w.local.vault w

  unfoldable pub remove_target :
      Draw
      → Text
      → (password : Option Text) → (between : World → World) → Option ℕ
      → Option Acct
      → List Acct
      → World
      → Result (Unit {0}) × World
  unfolding remove_imported splice_at
  remove_target d addr password between i none accts w = (err no_such_account, w)
  remove_target d addr password between i (some a) accts w =
      if a.imported
      then remove_imported d addr (phrase password) between w
      else splice_at d i (err no_such_account) accts w

  unfoldable pub acct_at : Option ℕ → List Acct → Option Acct
  acct_at none accts = none
  acct_at (some i) accts = get_elem? accts i

  unfoldable pub remove_in :
      Draw
      → Text
      → (password : Option Text) → (between : World → World) → Result (List Acct)
      → World
      → Result (Unit {0}) × World
  unfolding remove_target acct_at
  remove_in d addr password between (err e) w = (err e, w)
  remove_in d addr password between (ok accts) w =
      if leb (length accts) 1
      then (err last_account, w)
      else remove_target d addr password between (find_index addr accts)
          (acct_at (find_index addr accts) accts) accts w

  -- `removeAccount`: `between` is what other calls do to the wallet while it waits for the password check.
  unfoldable pub remove_account :
      Draw
      → (addr : Text) (password : Option Text) → (between : World → World) → World
      → Result (Unit {0}) × World
  unfolding remove_in must_unlocked
  remove_account d addr password between w =
      remove_in d addr password between (must_unlocked w.mem) w
