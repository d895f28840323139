-- ===== src/Vault/Guard/Throttled.antt =====
-- How fast passwords can be guessed one after another (src/core/wallet.ts `authGuardCheck`, `authGuardRecord`).
use cairn_wallet.Base.{
  ltb→lt, All-imp, ap, ℕ, zero, suc, ◌+◌, ◌-◌, ◌*◌, ◌^◌, ◌≡◌, ◌≤◌, ◌<◌, refl, inl, inr, true, false,
  Option, none, some, List, [], ◌∷◌, ltb, All, arith, Bool-cases, if◌then◌else◌,
}
use cairn_wallet.Vault.State.{Guard, Session}
use cairn_wallet.Vault.Guard.{
  free_attempts, max_lockout_ms, lockout_ms, no_guard, Attempt, may_try, count_failure, counted,
  record_attempt,
}

-- The number of passwords that are tried where these attempts, each begun behind the count of the one before, all fail.
pub tried : Option Session → List Attempt → ℕ
tried s [] = 0
tried s (a ∷ rest) =
    let on = tried (record_attempt a false s) rest in
    let off = tried s rest in if may_try a s then on + 1 else off

-- No other attempt writes the guard from its check to its count, the session store answers, and its clock runs on.
pub record IsAlone (a : Attempt) : Type 0 where
  pub reads_check : a.is_check_read ≡ true
  pub reads_count : a.is_count_read ≡ true
  pub keeps : a.is_kept ≡ true
  pub undisturbed : (g : Option Guard) → a.before_read g ≡ g
  pub in_order : a.checked_at ≤ a.counted_at

ltb-false : (a b : ℕ) → ltb a b ≡ false → b ≤ a
ltb-false a b h = ground arith

pow_pos : (k : ℕ) → 0 < 2 ^ k
pow_pos zero = omega arith
pow_pos (suc k) = omega (arith, pow_pos k)

lockout_ms_bounds : (failed : ℕ) → (5000 ≤ lockout_ms failed) × (lockout_ms failed ≤ max_lockout_ms)
unfolding lockout_ms
lockout_ms_bounds failed = (omega (arith, pow_pos (failed - free_attempts)), omega arith)

-- the guard after one more failure
failure_at : Attempt → Session → Session
failure_at a s = record s { guard = some (count_failure a.counted_at s.guard) }

failure_at-until :
    (a : Attempt) (s : Session)
    → a.checked_at ≤ a.counted_at
    → free_attempts ≤ (no_guard s.guard).failed + 1
    → a.checked_at + 5000 ≤ (no_guard (failure_at a s).guard).until
unfolding failure_at no_guard count_failure
failure_at-until a s o h = ground (arith, o, h, lockout_ms_bounds ((no_guard s.guard).failed + 1))

failure_at-failed :
    (a : Attempt) (s : Session)
    → (no_guard (failure_at a s).guard).failed ≡ (no_guard s.guard).failed + 1
unfolding failure_at no_guard count_failure
failure_at-failed a s = refl

tried-cons :
    (a : Attempt) (rest : List Attempt) (s : Session)
    → IsAlone a
    → tried (some s) (a ∷ rest) ≡ (
        if ltb a.checked_at (no_guard s.guard).until
        then tried (some s) rest
        else tried (some (failure_at a s)) rest + 1)
unfolding tried may_try record_attempt failure_at counted
tried-cons a rest s h =
    rw (h.reads_check, h.reads_count, h.keeps, h.undisturbed s.guard) (ground arith)

-- once the free attempts are used
tried_late :
    (end : ℕ) (s : Session) (ts : List Attempt)
    → free_attempts ≤ (no_guard s.guard).failed
    → All (λ (a : Attempt). (a.checked_at ≤ end) × IsAlone a) ts
    → tried (some s) ts * 5000 ≤ end + 5000 - (no_guard s.guard).until
unfolding tried
tried_late end s [] f h = omega arith
tried_late end s (t ∷ ts) f h =
    rw (tried-cons t ts s h.0.1) (elim (Bool-cases (ltb t.checked_at (no_guard s.guard).until)) [
      | inl e ↦ rw e (tried_late end s ts f h.1)
      | inr e ↦ rw e (
          omega (
            arith,
            h.0.0,
            f,
            ltb-false t.checked_at (no_guard s.guard).until e,
            failure_at-until t s h.0.1.in_order (omega (arith, f)),
            tried_late end (failure_at t s) ts (omega (arith, failure_at-failed t s, f)) h.1,
          ))
    ])

failure_at-early :
    (t : Attempt) (s : Session)
    → (no_guard s.guard).failed + 1 < free_attempts
    → (no_guard (failure_at t s).guard).until ≡ (no_guard s.guard).until
unfolding failure_at no_guard count_failure
failure_at-early t s h = ground (arith, h)

-- while free attempts are left
tried_early :
    (start end : ℕ) (s : Session) (ts : List Attempt)
    → start ≤ end
    → (no_guard s.guard).failed < free_attempts
    → (no_guard s.guard).until ≤ start
    → All (λ (a : Attempt). (start ≤ a.checked_at) × (a.checked_at ≤ end) × IsAlone a) ts
    → (tried (some s) ts + (no_guard s.guard).failed) * 5000 ≤ free_attempts * 5000 + (end - start)
unfolding tried
tried_early start end s [] o f u h = omega arith
tried_early start end s (t ∷ ts) o f u h =
    rw (tried-cons t ts s h.0.2) (elim (Bool-cases (ltb t.checked_at (no_guard s.guard).until)) [
      | inl e ↦ rw e (tried_early start end s ts o f u h.1)
      | inr e ↦ rw e (elim (Bool-cases (ltb ((no_guard s.guard).failed + 1) free_attempts)) [
        | inl more ↦
            let m : (no_guard s.guard).failed + 1 < free_attempts = ltb→lt _ _ more in
            omega (
              arith,
              failure_at-failed t s,
              tried_early start end (failure_at t s) ts o (omega (arith, failure_at-failed t s, m))
                  (omega (arith, failure_at-early t s m, u)) h.1,
            )
        | inr last ↦
            let l : free_attempts ≤ (no_guard s.guard).failed + 1 = ltb-false _ _ last in
            omega (
              arith,
              h.0.0,
              h.0.1,
              f,
              failure_at-until t s h.0.2.in_order l,
              tried_late end (failure_at t s) ts (omega (arith, failure_at-failed t s, l)) (
                  All-imp
                    (λ (a : Attempt). (start ≤ a.checked_at) × (a.checked_at ≤ end) × IsAlone a)
                    (λ (a : Attempt). (a.checked_at ≤ end) × IsAlone a) ts (λ a p. (p.1, p.2)) h.1),
            )
      ])
    ])

-- In a browser session that has counted no failure, a guesser whose passwords are all wrong and who makes the attempts
-- one after another, each behind the count of the one before, gets at most five of them tried, and one more for every
-- five seconds from the first to the last, however many attempts are made, where the session store answers and keeps
-- each count and no clock is set back between the check and the count of an attempt.
pub tried_bounded :
    (start end : ℕ) (s : Session) (ts : List Attempt)
    → start ≤ end
    → s.guard ≡ none
    → All (λ (a : Attempt). (start ≤ a.checked_at) × (a.checked_at ≤ end) × IsAlone a) ts
    → tried (some s) ts * 5000 ≤ 25000 + (end - start)
unfolding no_guard
tried_bounded start end s ts o g h =
    let e : no_guard s.guard ≡ record { failed = 0; until = 0 } = ap no_guard g in
    omega (
      arith,
      tried_early start end s ts o (rw e (omega arith)) (rw e (omega arith)) h,
      ap (λ (x : Guard). x.failed) e,
    )
