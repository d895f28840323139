-- ===== src/Vault/Reach/Steps.antt =====
-- Every sequence of the wallet's operations (src/core/wallet.ts).
use cairn_wallet.Base.{ℕ, Option}
use cairn_wallet.Base.Text.{Text}
use cairn_wallet.Vault.State.{Env, World}
use cairn_wallet.Vault.Lock.{lock, auto_lock, reset}
use cairn_wallet.Vault.Open.{Draw, create, restore, import_key, unlock, rehydrate_session}
use cairn_wallet.Vault.Accounts.{Selection}
use cairn_wallet.Vault.Accounts.Calls.{
  add_account, import_account, switch_account, rename_account, remove_account,
}
use cairn_wallet.Vault.Reach.{IsWorld}
use cairn_wallet.Vault.Reach.Opened.{
  unlock-IsWorld, lock-IsWorld, auto_lock-IsWorld, reset-IsWorld, rehydrate_session-IsWorld,
}
use cairn_wallet.Vault.Reach.Founded.{create-IsWorld, restore-IsWorld, import_key-IsWorld}
use cairn_wallet.Vault.Reach.Changed.{
  add_account-IsWorld, import_account-IsWorld, switch_account-IsWorld,
}
use cairn_wallet.Vault.Reach.Removed.{rename_account-IsWorld, remove_account-IsWorld}

-- What the popup, the page requests and the alarms make the wallet do. While a removal waits for its password check,
-- other operations run.
mutual
  pub data Operation : Type 0 where
    created : Draw → (new_mnemonic password : Text) → Operation
    restored : Draw → (mnemonic password : Text) → Operation
    key_imported : Draw → (priv password : Text) → Operation
    unlocked : Draw → (password : Text) → Operation
    idled : (now max_idle_ms : ℕ) → Operation
    rehydrated : (now idle_ms : ℕ) → Operation
    closed : Operation
    was_reset : Operation
    added : Draw → (random_key : Text) → Option Text → Operation
    imported : Draw → (priv : Text) → Option Text → Operation
    switched : Draw → Selection → Operation
    renamed : Draw → (addr t : Text) → Operation
    removed : Draw → (addr : Text) → Option Text → Operations → Operation

  pub data Operations : Type 0 where
    done : Operations
    then_ : Operation → Operations → Operations

unfoldable mutual
  pub run_one : Env → Operation → World → World
  run_one env (created d m p) w = (create env d m p w).1
  run_one env (restored d m p) w = (restore env d m p w).1
  run_one env (key_imported d k p) w = (import_key env d k p w).1
  run_one env (unlocked d p) w = (unlock env d p w).1
  run_one env (idled now idle) w = auto_lock now idle w
  run_one env (rehydrated now idle) w = (rehydrate_session env now idle w).1
  run_one env closed w = lock w
  run_one env was_reset w = reset w
  run_one env (added d k t) w = (add_account env d k t w).1
  run_one env (imported d k t) w = (import_account env d k t w).1
  run_one env (switched d sel) w = (switch_account env d sel w).1
  run_one env (renamed d a t) w = (rename_account env d a t w).1
  run_one env (removed d a p between) w = (remove_account env d a p (run env between) w).1

  pub run : Env → Operations → World → World
  run env done w = w
  run env (then_ o os) w = run env os (run_one env o w)

mutual
  unfolding run_one run

  run_one-IsWorld :
      (env : Env) (o : Operation) (w : World) → IsWorld env w → IsWorld env (run_one env o w)
  run_one-IsWorld env (created d m p) w h = create-IsWorld env d m p w h
  run_one-IsWorld env (restored d m p) w h = restore-IsWorld env d m p w h
  run_one-IsWorld env (key_imported d k p) w h = import_key-IsWorld env d k p w h
  run_one-IsWorld env (unlocked d p) w h = unlock-IsWorld env d p w h
  run_one-IsWorld env (idled now idle) w h = auto_lock-IsWorld env now idle w h
  run_one-IsWorld env (rehydrated now idle) w h = rehydrate_session-IsWorld env now idle w h
  run_one-IsWorld env closed w h = lock-IsWorld env w h
  run_one-IsWorld env was_reset w h = reset-IsWorld env w
  run_one-IsWorld env (added d k t) w h = add_account-IsWorld env d k t w h
  run_one-IsWorld env (imported d k t) w h = import_account-IsWorld env d k t w h
  run_one-IsWorld env (switched d sel) w h = switch_account-IsWorld env d sel w h
  run_one-IsWorld env (renamed d a t) w h = rename_account-IsWorld env d a t w h
  run_one-IsWorld env (removed d a p between) w h =
      remove_account-IsWorld env (run env between) (run_all-IsWorld env between) d a p w h

  run_all-IsWorld :
      (env : Env) (os : Operations) (w : World) → IsWorld env w → IsWorld env (run env os w)
  run_all-IsWorld env done w h = h
  run_all-IsWorld env (then_ o os) w h =
      run_all-IsWorld env os (run_one env o w) (run_one-IsWorld env o w h)

-- Whatever operations run one after another, and while a removal waits for its password, with any writes of the store
-- failing, a sound wallet stays sound. While it is unlocked, its active slot is one of its accounts, the next index of
-- the phrase is above the index of each account of the phrase, every account has the address and public key of its private key, and every
-- account that is not imported is the one that the recovery phrase derives at its index. The vault holds a document
-- of such a wallet, or a private key from an old version.
pub run-IsWorld :
    (env : Env) (os : Operations) (w : World) → IsWorld env w → IsWorld env (run env os w)
run-IsWorld env os w h = run_all-IsWorld env os w h
