-- ===== src/Vault/Reach/Listed.antt =====
-- One account more or less, and the store written, keep the wallet sound (src/core/wallet.ts).
use cairn_wallet.Base.{
  subst, ℕ, zero, suc, ◌-◌, ◌≡◌, ◌≤◌, ◌<◌, refl, ap, ◌∙◌, inl, inr, max, Option, none, some, List,
  [], ◌∷◌, ◌++◌, length, length-append, get_elem?, All, All-append, arith, Bool-cases, Option-cases,
}
use mathlib.Core.Option.{some-injective}
use cairn_wallet.Base.Text.{Text}
use cairn_wallet.Vault.{ok, phrase, ok-injective}
use cairn_wallet.Vault.State.{Acct, Env, Memory, World, index_above, first_free}
use cairn_wallet.Vault.Open.{Draw}
use cairn_wallet.Vault.Accounts.{
  must_unlocked, same_addr, find_index, remove_at, push_acct, active_after, drop_account_data,
  splice_found, splice,
}
use cairn_wallet.Vault.Accounts.Calls.{persisted}
use cairn_wallet.Vault.Recover.{IsAcct, IsState}
use cairn_wallet.Vault.Reach.{IsWorld, persist_vault-IsWorld}

first_free-append :
    (accts : List Acct) (a : Acct)
    → first_free (accts ++ a ∷ []) ≡ max (first_free accts) (index_above a)
unfolding first_free
first_free-append [] a = omega arith
first_free-append (x ∷ accts) a = omega (arith, first_free-append accts a)

first_free-remove_at-le :
    (i : ℕ) (accts : List Acct) → first_free (remove_at i accts) ≤ first_free accts
unfolding first_free
first_free-remove_at-le i [] = omega arith
first_free-remove_at-le zero (x ∷ accts) = omega arith
first_free-remove_at-le (suc i) (x ∷ accts) = omega (arith, first_free-remove_at-le i accts)

length-remove_at :
    (i : ℕ) (accts : List Acct) → i < length accts → length (remove_at i accts) ≡ length accts - 1
length-remove_at i [] h = omega arith
length-remove_at zero (x ∷ accts) h = omega arith
length-remove_at (suc i) (x ∷ accts) h =
    omega (arith, h, length-remove_at i accts (omega (arith, h)))

All-remove_at :
    (P : Acct → Type 0) (i : ℕ) (accts : List Acct) → All P accts → All P (remove_at i accts)
All-remove_at P i [] h = tt
All-remove_at P zero (x ∷ accts) h = h.1
All-remove_at P (suc i) (x ∷ accts) h = (h.0, All-remove_at P i accts h.1)

get_elem?-lt :
    (accts : List Acct) (i : ℕ) (a : Acct) → get_elem? accts i ≡ some a → i < length accts
get_elem?-lt [] i a h = absurd (cc)
get_elem?-lt (x ∷ accts) zero a h = omega arith
get_elem?-lt (x ∷ accts) (suc i) a h = omega (arith, get_elem?-lt accts i a h)

pub find_index-lt :
    (addr : Text) (accts : List Acct) (i : ℕ) → find_index addr accts ≡ some i → i < length accts
unfolding find_index
find_index-lt addr [] i h = absurd (cc)
find_index-lt addr (x ∷ accts) i h = elim (Bool-cases (same_addr addr x)) [
  | inl e ↦ ground (arith, e, h)
  | inr e ↦ elim (Option-cases (find_index addr accts)) [
    | inl f ↦ absurd (ground (arith, e, f, h))
    | inr (j, f) ↦ ground (arith, e, f, h, find_index-lt addr accts j f)
  ]
]

active_after-lt : (active i n : ℕ) → 0 < n → active_after active i n < n
unfolding active_after
active_after-lt active i n h = ground arith

module _ (env : Env) where
  pub push_acct-IsWorld :
      (a : Acct) (n : ℕ) (accts : List Acct) (w : World)
      → w.mem.accts ≡ some accts
      → index_above a ≤ n
      → w.mem.next_index ≤ n
      → IsAcct env w.mem.mnemonic a
      → IsWorld env w
      → IsWorld env (push_acct a n accts w)
  unfolding push_acct
  push_acct-IsWorld a n accts w e l k s h =
      let st : IsState env w.mem.mnemonic w.mem.next_index accts w.mem.active = h.memory accts e in
      record {
        memory = λ x f.
            subst (λ (y : List Acct). IsState env w.mem.mnemonic n y (length accts))
              (some-injective _ _ f)
              (record {
                slot = omega (arith, length-append accts (a ∷ []));
                index_free = omega (arith, first_free-append accts a, l, k, st.index_free);
                sound = All-append (IsAcct env w.mem.mnemonic) accts (a ∷ []) st.sound (s, tt);
              });
        stored = h.stored;
      }

  splice_found-IsWorld :
      (o : Option Acct) (i : ℕ) (accts : List Acct) (w : World)
      → get_elem? accts i ≡ o
      → w.mem.accts ≡ some accts
      → 1 < length accts
      → IsWorld env w
      → IsWorld env (splice_found o i accts w)
  unfolding splice_found drop_account_data
  splice_found-IsWorld none i accts w f e l h = h
  splice_found-IsWorld (some gone) i accts w f e l h =
      let st : IsState env w.mem.mnemonic w.mem.next_index accts w.mem.active = h.memory accts e in
      let shorter : length (remove_at i accts) ≡ length accts - 1 =
        length-remove_at i accts (get_elem?-lt accts i gone f) in
      record {
        memory = λ x g.
            subst
              (λ (y : List Acct).
                IsState env w.mem.mnemonic w.mem.next_index y
                  (active_after w.mem.active i (length accts - 1)))
              (some-injective _ _ g)
              (record {
                slot = omega (
                  arith,
                  shorter,
                  active_after-lt w.mem.active i (length accts - 1) (omega (arith, l)),
                );
                index_free = omega (arith, first_free-remove_at-le i accts, st.index_free);
                sound = All-remove_at (IsAcct env w.mem.mnemonic) i accts st.sound;
              });
        stored = h.stored;
      }

  pub splice-IsWorld :
      (i : ℕ) (accts : List Acct) (w : World)
      → w.mem.accts ≡ some accts
      → 1 < length accts
      → IsWorld env w
      → IsWorld env (splice i accts w)
  unfolding splice
  splice-IsWorld i accts w e l h = splice_found-IsWorld (get_elem? accts i) i accts w refl e l h

  pub persisted-IsWorld : (d : Draw) (w : World) → IsWorld env w → IsWorld env (persisted env d w).1
  unfolding persisted
  persisted-IsWorld d w h = persist_vault-IsWorld env d.iv d.writes w h

  -- What `mustUnlocked` gives is the list in memory.
  pub must_unlocked-eq :
      (m : Memory) (accts : List Acct) → must_unlocked m ≡ ok accts → m.accts ≡ some accts
  unfolding must_unlocked
  must_unlocked-eq m accts h = elim (Option-cases m.accts) [
    | inl e ↦ absurd (ground (arith, e, h))
    | inr (l, e) ↦ elim (Option-cases m.vault_key) [
      | inl f ↦ absurd (ground (arith, e, f, h))
      | inr (k, f) ↦ e ∙ ap some (ok-injective (ground (arith, e, f, h)))
    ]
  ]

  pub phrase-eq : (m : Option Text) (p : Text) → phrase m ≡ some p → m ≡ some p
  phrase-eq none p h = absurd (cc)
  phrase-eq (some []) p h = absurd (cc)
  phrase-eq (some (c ∷ t)) p h = h
