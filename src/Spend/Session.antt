-- ===== src/Spend/Session.antt =====
-- The session caches of coins that could not be proved (src/core/node.ts `ghostSeen`, `horizonSeen`, `unrepSeen`,
-- `sessionExclusions`, `rememberSkip`): module state of the service worker, passed explicitly.
pub mod Invariant
use cairn_wallet.Base.{ℕ, ◌+◌, Bool, List, [], ◌++◌, length, keep, ltb, leb, not, if◌then◌else◌}
use cairn_wallet.Base.Eq.{nat_eq, text_key, pair_eq, put, delete, keys}
use cairn_wallet.Spend.Coins.{Outpoint}

-- outpoint -> expiry, in milliseconds
abbrev pub SkipCache : Type 0
SkipCache = List (Outpoint × ℕ)

pub record Caches : Type 0 where
  pub ghosts : SkipCache
  pub horizons : SkipCache
  pub unreps : SkipCache

-- The cache that a coin is filed under.
pub data Class : Type 0 where
  ghost horizon unrep : Class

abbrev pub ghost_ttl_ms : ℕ
ghost_ttl_ms = 120000

abbrev pub skip_cache_max : ℕ
skip_cache_max = 2048

-- `for (const [k, exp] of m) if (exp <= now) m.delete(k)`
unfoldable pub drop_expired : ℕ → SkipCache → SkipCache
drop_expired now m = keep (λ (e : Outpoint × ℕ). not (leb e.1 now)) m

-- The caches without their expired entries, and every outpoint that one of them still holds.
unfoldable pub session_exclusions : ℕ → Caches → Caches × List Outpoint
unfolding drop_expired
session_exclusions now c =
    let g = drop_expired now c.ghosts in
    let h = drop_expired now c.horizons in
    let u = drop_expired now c.unreps in
    (record { ghosts = g; horizons = h; unreps = u }, keys g ++ (keys h ++ keys u))

-- `into.set(k, now + GHOST_TTL_MS); if (into.size > SKIP_CACHE_MAX) into.clear()`
unfoldable pub file_under : Outpoint → ℕ → SkipCache → SkipCache
file_under k now m =
    let m' = put k (now + ghost_ttl_ms) m in if ltb skip_cache_max (length m') then [] else m'

unfoldable pub remember_skip : Class → Outpoint → ℕ → Caches → Caches
unfolding file_under
remember_skip ghost k now c = record {
  ghosts = file_under k now c.ghosts;
  horizons = delete k c.horizons;
  unreps = delete k c.unreps;
}
remember_skip horizon k now c = record {
  ghosts = delete k c.ghosts;
  horizons = file_under k now c.horizons;
  unreps = delete k c.unreps;
}
remember_skip unrep k now c = record {
  ghosts = delete k c.ghosts;
  horizons = delete k c.horizons;
  unreps = file_under k now c.unreps;
}
