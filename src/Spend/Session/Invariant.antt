-- ===== src/Spend/Session/Invariant.antt =====
-- The caches stay bounded and disjoint, and exclude an outpoint exactly while one of them holds it unexpired
-- (src/core/node.ts `rememberSkip`, `sessionExclusions`).
use cairn_wallet.Base.{
  ℕ, ◌+◌, ◌≤◌, ◌≡◌, refl, Bool, true, false, ◌&&◌, ◌||◌, not, none, some, [], ◌∷◌, arith, length,
  length-keep-le, ltb, leb,
}
use cairn_wallet.Base.Eq.{
  nat_eq, text_key, pair_eq, ◌===◌, has, keys, lookup, delete, lookup-put, lookup-delete,
  length-delete-le, has-append,
}
use cairn_wallet.Spend.Coins.{Outpoint}
use cairn_wallet.Spend.Session.{
  SkipCache, Caches, Class, ghost, horizon, unrep, skip_cache_max, ghost_ttl_ms, drop_expired,
  session_exclusions, file_under, remember_skip,
}

abbrev pub holds : SkipCache → Outpoint → Bool
holds m k = elim (lookup k m) [ none ↦ false | some t ↦ true ]

pub record IsSession (c : Caches) : Type 0 where
  pub ghosts_bounded : length c.ghosts ≤ skip_cache_max
  pub horizons_bounded : length c.horizons ≤ skip_cache_max
  pub unreps_bounded : length c.unreps ≤ skip_cache_max
  pub ghosts_horizons : (k : Outpoint) → (holds c.ghosts k && holds c.horizons k) ≡ false
  pub ghosts_unreps : (k : Outpoint) → (holds c.ghosts k && holds c.unreps k) ≡ false
  pub horizons_unreps : (k : Outpoint) → (holds c.horizons k && holds c.unreps k) ≡ false

file_under_bounded :
    (k : Outpoint) (now : ℕ) (m : SkipCache) → length (file_under k now m) ≤ skip_cache_max
unfolding file_under
file_under_bounded k now m = ground arith

holds-delete :
    (j k : Outpoint) (m : SkipCache) → holds (delete k m) j ≡ (not (j === k) && holds m j)
holds-delete j k m = ground (arith, lookup-delete j k m)

-- A clear only removes entries.
holds-file_under :
    (j k : Outpoint) (now : ℕ) (m : SkipCache)
    → holds (file_under k now m) j ≡ true
    → (j === k || holds m j) ≡ true
unfolding file_under lookup
holds-file_under j k now m h = ground (arith, lookup-put j k (now + ghost_ttl_ms) m)

-- Filing one coin keeps any two caches apart.
apart_into :
    (j k : Outpoint) (now : ℕ) (m n : SkipCache)
    → (holds m j && holds n j) ≡ false
    → (holds (file_under k now m) j && holds (delete k n) j) ≡ false
apart_into j k now m n h = ground (arith, holds-file_under j k now m, holds-delete j k n)

apart_delete :
    (j k : Outpoint) (m n : SkipCache)
    → (holds m j && holds n j) ≡ false
    → (holds (delete k m) j && holds (delete k n) j) ≡ false
apart_delete j k m n h = ground (arith, holds-delete j k m, holds-delete j k n)

apart_from :
    (j k : Outpoint) (now : ℕ) (m n : SkipCache)
    → (holds n j && holds m j) ≡ false
    → (holds (delete k n) j && holds (file_under k now m) j) ≡ false
apart_from j k now m n h = ground (arith, holds-file_under j k now m, holds-delete j k n)

-- Filing a coin keeps every cache within its bound and the three apart, whichever class it is filed under.
pub remember_skip-IsSession :
    (class : Class) (k : Outpoint) (now : ℕ) (c : Caches)
    → IsSession c
    → IsSession (remember_skip class k now c)
unfolding remember_skip
remember_skip-IsSession ghost k now c s = record {
  ghosts_bounded = file_under_bounded k now c.ghosts;
  horizons_bounded = omega (arith, length-delete-le k c.horizons);
  unreps_bounded = omega (arith, length-delete-le k c.unreps);
  ghosts_horizons = λ j. apart_into j k now c.ghosts c.horizons (s.ghosts_horizons j);
  ghosts_unreps = λ j. apart_into j k now c.ghosts c.unreps (s.ghosts_unreps j);
  horizons_unreps = λ j. apart_delete j k c.horizons c.unreps (s.horizons_unreps j);
}
remember_skip-IsSession horizon k now c s = record {
  ghosts_bounded = omega (arith, length-delete-le k c.ghosts);
  horizons_bounded = file_under_bounded k now c.horizons;
  unreps_bounded = omega (arith, length-delete-le k c.unreps);
  ghosts_horizons = λ j. apart_from j k now c.horizons c.ghosts (s.ghosts_horizons j);
  ghosts_unreps = λ j. apart_delete j k c.ghosts c.unreps (s.ghosts_unreps j);
  horizons_unreps = λ j. apart_into j k now c.horizons c.unreps (s.horizons_unreps j);
}
remember_skip-IsSession unrep k now c s = record {
  ghosts_bounded = omega (arith, length-delete-le k c.ghosts);
  horizons_bounded = omega (arith, length-delete-le k c.horizons);
  unreps_bounded = file_under_bounded k now c.unreps;
  ghosts_horizons = λ j. apart_delete j k c.ghosts c.horizons (s.ghosts_horizons j);
  ghosts_unreps = λ j. apart_from j k now c.unreps c.ghosts (s.ghosts_unreps j);
  horizons_unreps = λ j. apart_from j k now c.unreps c.horizons (s.horizons_unreps j);
}

holds-drop_expired :
    (now : ℕ) (m : SkipCache) (k : Outpoint)
    → holds (drop_expired now m) k ≡ true
    → holds m k ≡ true
unfolding drop_expired lookup
holds-drop_expired now [] k h = h
holds-drop_expired now ((j, t) ∷ m) k h = ground (arith, holds-drop_expired now m k)

apart_drop :
    (now : ℕ) (m n : SkipCache) (k : Outpoint)
    → (holds m k && holds n k) ≡ false
    → (holds (drop_expired now m) k && holds (drop_expired now n) k) ≡ false
apart_drop now m n k h = ground (arith, holds-drop_expired now m k, holds-drop_expired now n k)

-- A cache has an entry for the outpoint that has not expired.
pub live : ℕ → SkipCache → Outpoint → Bool
live now [] k = false
live now ((j, t) ∷ m) k = (k === j && ltb now t) || live now m k

has-drop_expired :
    (now : ℕ) (m : SkipCache) (k : Outpoint) → has k (keys (drop_expired now m)) ≡ live now m k
unfolding drop_expired live has keys
has-drop_expired now [] k = refl
has-drop_expired now ((j, t) ∷ m) k = ground (arith, has-drop_expired now m k)

drop_expired_bounded : (now : ℕ) (m : SkipCache) → length (drop_expired now m) ≤ length m
unfolding drop_expired
drop_expired_bounded now m = length-keep-le (λ (e : Outpoint × ℕ). not (leb e.1 now)) m

-- Dropping what has expired keeps the invariant, and what is excluded is exactly the outpoints that a cache holds
-- unexpired.
pub session_exclusions-IsSession :
    (now : ℕ) (c : Caches)
    → IsSession c
    → IsSession (session_exclusions now c).0
      × ((k : Outpoint)
          → has k (session_exclusions now c).1
            ≡ (live now c.ghosts k || (live now c.horizons k || live now c.unreps k)))
unfolding session_exclusions
session_exclusions-IsSession now c s = (
  record {
    ghosts_bounded = omega (arith, drop_expired_bounded now c.ghosts);
    horizons_bounded = omega (arith, drop_expired_bounded now c.horizons);
    unreps_bounded = omega (arith, drop_expired_bounded now c.unreps);
    ghosts_horizons = λ k. apart_drop now c.ghosts c.horizons k (s.ghosts_horizons k);
    ghosts_unreps = λ k. apart_drop now c.ghosts c.unreps k (s.ghosts_unreps k);
    horizons_unreps = λ k. apart_drop now c.horizons c.unreps k (s.horizons_unreps k);
  },
  λ k. simp (has-append, has-drop_expired),
)
