-- ===== src/Vault/Lock.antt =====
-- Closing and emptying the wallet (src/core/wallet.ts `clearSession`, `lock`, `autoLock`, `doReset`, `reset`).
use cairn_wallet.Base.{
  ℕ, ◌-◌, Bool, true, false, Option, none, some, List, [], ◌∷◌, ltb, if◌then◌else◌,
}
use cairn_wallet.Base.Text.{codes}
use cairn_wallet.Base.Eq.{text_key, delete}
use cairn_wallet.Vault.State.{Acct, PubAcct, Session, World, hist_key, seal_key}

unfoldable pub clear_keys : Option Session → Option Session
clear_keys none = none
clear_keys (some s) = some (record s { key_raw = none; ts = none })

-- `clearSession`
unfoldable pub clear_session : World → World
unfolding clear_keys
clear_session w = record w { session = clear_keys w.session }

-- `lock`: the active slot stays.
unfoldable pub lock : World → World
unfolding clear_session
lock w = clear_session (record w {
  mem = record w.mem {
    accts = none;
    vault_key = none;
    salt = [];
    iter = 0;
    mnemonic = none;
    next_index = 0;
  };
})

unfoldable pub lock_idle : Option (List Acct) → (idle : Bool) → World → World
unfolding lock
lock_idle none idle w = w
lock_idle (some accts) true w = lock w
lock_idle (some accts) false w = w

-- `autoLock`
unfoldable pub auto_lock : (now max_idle_ms : ℕ) → World → World
unfolding lock_idle
auto_lock now max_idle_ms w =
    let last = if ltb now w.mem.last_active then now else w.mem.last_active in
    let w' = record w { mem = record w.mem { last_active = last } } in
    lock_idle w.mem.accts (ltb max_idle_ms (now - last)) w'

-- the keys of the store that belong to addresses, deleted one after another
unfoldable pub drop_data : List PubAcct → World → World
unfolding hist_key seal_key
drop_data [] w = w
drop_data (a ∷ as_) w = drop_data as_ (record w {
  hist = record w.hist { stored = delete (hist_key a.addr) w.hist.stored };
  claims = record w.claims { stored = delete (seal_key a.addr) w.claims.stored };
})

-- `doReset`
unfoldable pub do_reset : List PubAcct → World → World
unfolding drop_data
do_reset wallets w =
    let w' = drop_data wallets (record w {
      hist = record w.hist { parked = [] };
      claims = record w.claims { parked = [] };
    }) in
    record w' {
      local = record { vault = none; wallets = none; active = none };
      hist = record w'.hist { stored = delete (codes "txHistory") w'.hist.stored };
      claims = record w'.claims { stored = delete (codes "sealedClaims") w'.claims.stored };
    }

unfoldable pub wallets_of : Option (List PubAcct) → List PubAcct
wallets_of none = []
wallets_of (some l) = l

-- `reset`; it waits for the write chains before it deletes, so no older write follows it.
unfoldable pub reset : World → World
unfolding lock do_reset wallets_of
reset w =
    do_reset (wallets_of w.local.wallets) (lock (record w { mem = record w.mem { wiped = true } }))
