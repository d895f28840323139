-- ===== src/Vault/Reach/Changed.antt =====
-- Adding, importing and switching accounts keep the wallet sound (src/core/wallet.ts).
use cairn_wallet.Base.{
  subst, ℕ, ◌+◌, ◌≡◌, ◌≤◌, ◌<◌, refl, sym, ◌∙◌, inl, inr, true, Option, none, some, List, [], ◌∷◌,
  length, any, arith, Bool-cases,
}
use mathlib.Core.Option.{some-injective}
use cairn_wallet.Base.Text.{Text}
use cairn_wallet.Vault
use cairn_wallet.Vault.{Error, Result, ok, err, ◌>>=◌, phrase, ok-injective}
use cairn_wallet.Vault.Account.{trim, derive_account, derive_account-privkey}
use cairn_wallet.Vault.State.{Acct, Env, World, acct, label_or_account, index_above}
use cairn_wallet.Vault.Open.{Draw}
use cairn_wallet.Vault.Accounts.{
  text_of, label_or, label, numbered, must_unlocked, same_addr, push_acct, Selection, by_index,
  by_addr, selected,
}
use cairn_wallet.Vault.Accounts.Calls.{
  add_with, hd_acct, add_named, add_to, add_account, import_new, import_to, import_account,
  switch_to, switch_in, switch_account,
}
use cairn_wallet.Vault.Recover.{IsAcct, IsState}
use cairn_wallet.Vault.Reach.{IsWorld, acct-IsAcct, acct-imported}
use cairn_wallet.Vault.Reach.Listed.{
  find_index-lt, push_acct-IsWorld, persisted-IsWorld, must_unlocked-eq, phrase-eq,
}

-- A label is never empty.
unfoldable pub IsLabel : Text → Type 0
IsLabel t = label_or_account t ≡ t

label_or-IsLabel : (t fallback : Text) → IsLabel fallback → IsLabel (label_or t fallback)
unfolding label_or IsLabel label_or_account
label_or-IsLabel [] fallback h = h
label_or-IsLabel (c ∷ t) fallback h = refl

pub label-IsLabel :
    (t : Option Text) (fallback : Text) → IsLabel fallback → IsLabel (label t fallback)
unfolding label
label-IsLabel t fallback h = label_or-IsLabel (trim (text_of t)) fallback h

numbered-IsLabel : (n : ℕ) → IsLabel (numbered n)
unfolding numbered IsLabel label_or_account
numbered-IsLabel n = refl

module _ (env : Env) where
  add_with-IsWorld :
      (d : Draw) (n : ℕ) (accts : List Acct) (r : Result Acct) (w : World)
      → w.mem.accts ≡ some accts
      → w.mem.next_index ≤ n
      → ((a : Acct) → r ≡ ok a → (index_above a ≤ n) × IsAcct env w.mem.mnemonic a)
      → IsWorld env w
      → IsWorld env (add_with env d n accts r w).1
  unfolding add_with
  add_with-IsWorld d n accts (err e) w f k g h = h
  add_with-IsWorld d n accts (ok a) w f k g h =
      let (l, s) = g a refl in
      persisted-IsWorld env d (push_acct a n accts w) (push_acct-IsWorld env a n accts w f l k s h)

  hd_acct-IsAcct :
      (p : Text) (i : ℕ) (t : Text) (mnemonic : Option Text) (a : Acct)
      → IsLabel t
      → mnemonic ≡ some p
      → hd_acct env p i t ≡ ok a
      → (index_above a ≤ i + 1) × IsAcct env mnemonic a
  unfolding hd_acct index_above IsLabel
  hd_acct-IsAcct p i t mnemonic a l m e =
      let (keys, f, g) =
        Vault.>>=-steps _ (derive_account env.crypto env.signer env.phrases p i) e in
      subst (λ (x : Acct). (index_above x ≤ i + 1) × IsAcct env mnemonic x) (ok-injective g)
        (
          omega arith,
          record {
            keys_match = derive_account-privkey env.crypto env.signer env.phrases p i keys f;
            labelled = l;
            recoverable = inr (i, p, refl, m, f);
          },
        )

  raw_acct-IsAcct :
      (priv t : Text) (n : ℕ) (mnemonic : Option Text) (a : Acct)
      → IsLabel t
      → acct env priv t none true ≡ ok a
      → (index_above a ≤ n) × IsAcct env mnemonic a
  unfolding IsLabel
  raw_acct-IsAcct priv t n mnemonic a l e =
      (omega (arith, acct-imported env priv t none a e), acct-IsAcct env priv t none mnemonic a l e)

  add_named-IsWorld :
      (d : Draw) (random_key name : Text) (accts : List Acct) (o : Option Text) (w : World)
      → IsLabel name
      → w.mem.accts ≡ some accts
      → phrase w.mem.mnemonic ≡ o
      → IsWorld env w
      → IsWorld env (add_named env d random_key name accts o w).1
  unfolding add_named
  add_named-IsWorld d random_key name accts (some p) w l e f h =
      add_with-IsWorld d (w.mem.next_index + 1) accts (hd_acct env p w.mem.next_index name) w e
        (omega arith)
        (λ a g.
          hd_acct-IsAcct p w.mem.next_index name w.mem.mnemonic a l
            (phrase-eq env w.mem.mnemonic p f) g)
        h
  add_named-IsWorld d random_key name accts none w l e f h =
      add_with-IsWorld d w.mem.next_index accts (acct env random_key name none true) w e
        (omega arith) (λ a g. raw_acct-IsAcct random_key name w.mem.next_index w.mem.mnemonic a l g)
        h

  add_to-IsWorld :
      (d : Draw) (random_key : Text) (t : Option Text) (r : Result (List Acct)) (w : World)
      → must_unlocked w.mem ≡ r
      → IsWorld env w
      → IsWorld env (add_to env d random_key t r w).1
  unfolding add_to
  add_to-IsWorld d random_key t (err e) w f h = h
  add_to-IsWorld d random_key t (ok accts) w f h =
      add_named-IsWorld d random_key (label t (numbered (length accts + 1))) accts
        (phrase w.mem.mnemonic) w
        (label-IsLabel t (numbered (length accts + 1)) (numbered-IsLabel (length accts + 1)))
        (must_unlocked-eq env w.mem accts f) refl h

  pub add_account-IsWorld :
      (d : Draw) (random_key : Text) (t : Option Text) (w : World)
      → IsWorld env w
      → IsWorld env (add_account env d random_key t w).1
  unfolding add_account
  add_account-IsWorld d random_key t w h =
      add_to-IsWorld d random_key t (must_unlocked w.mem) w refl h

  import_new-IsWorld :
      (d : Draw) (accts : List Acct) (r : Result Acct) (w : World)
      → w.mem.accts ≡ some accts
      → ((a : Acct) → r ≡ ok a → (index_above a ≤ w.mem.next_index) × IsAcct env w.mem.mnemonic a)
      → IsWorld env w
      → IsWorld env (import_new env d accts r w).1
  unfolding import_new
  import_new-IsWorld d accts (err e) w f g h = h
  import_new-IsWorld d accts (ok a) w f g h =
      elim (Bool-cases (any (same_addr a.keys.addr) accts)) [
        | inl b ↦ rw b h
        | inr b ↦ rw b (add_with-IsWorld d w.mem.next_index accts (ok a) w f (omega arith) g h)
      ]

  import_to-IsWorld :
      (d : Draw) (priv : Text) (t : Option Text) (r : Result (List Acct)) (w : World)
      → must_unlocked w.mem ≡ r
      → IsWorld env w
      → IsWorld env (import_to env d priv t r w).1
  unfolding import_to
  import_to-IsWorld d priv t (err e) w f h = h
  import_to-IsWorld d priv t (ok accts) w f h =
      import_new-IsWorld d accts (acct env priv (label t (numbered (length accts + 1))) none true) w
        (must_unlocked-eq env w.mem accts f)
        (λ a g.
          raw_acct-IsAcct priv (label t (numbered (length accts + 1))) w.mem.next_index
            w.mem.mnemonic a
            (label-IsLabel t (numbered (length accts + 1)) (numbered-IsLabel (length accts + 1))) g)
        h

  pub import_account-IsWorld :
      (d : Draw) (priv : Text) (t : Option Text) (w : World)
      → IsWorld env w
      → IsWorld env (import_account env d priv t w).1
  unfolding import_account
  import_account-IsWorld d priv t w h = import_to-IsWorld d priv t (must_unlocked w.mem) w refl h

  selected-lt :
      (sel : Selection) (accts : List Acct) (i : ℕ) → selected sel accts ≡ some i → i < length accts
  unfolding selected
  selected-lt (by_index j) accts i h = ground arith
  selected-lt (by_addr addr) accts i h = find_index-lt addr accts i h

  switch_to-IsWorld :
      (d : Draw) (accts : List Acct) (o : Option ℕ) (w : World)
      → w.mem.accts ≡ some accts
      → ((i : ℕ) → o ≡ some i → i < length accts)
      → IsWorld env w
      → IsWorld env (switch_to env d o w).1
  unfolding switch_to
  switch_to-IsWorld d accts none w e l h = h
  switch_to-IsWorld d accts (some i) w e l h =
      let w' : World = record w { mem = record w.mem { active = i } } in
      persisted-IsWorld env d w' (record {
        memory = λ x f.
            let st : IsState env w.mem.mnemonic w.mem.next_index x w.mem.active = h.memory x f in
            record {
              slot =
                  subst (λ (y : List Acct). i < length y) (some-injective _ _ (sym e ∙ f))
                    (l i refl);
              index_free = st.index_free;
              sound = st.sound;
            };
        stored = h.stored;
      })

  switch_in-IsWorld :
      (d : Draw) (sel : Selection) (r : Result (List Acct)) (w : World)
      → must_unlocked w.mem ≡ r
      → IsWorld env w
      → IsWorld env (switch_in env d sel r w).1
  unfolding switch_in
  switch_in-IsWorld d sel (err e) w f h = h
  switch_in-IsWorld d sel (ok accts) w f h =
      switch_to-IsWorld d accts (selected sel accts) w (must_unlocked-eq env w.mem accts f)
        (selected-lt sel accts) h

  pub switch_account-IsWorld :
      (d : Draw) (sel : Selection) (w : World)
      → IsWorld env w
      → IsWorld env (switch_account env d sel w).1
  unfolding switch_account
  switch_account-IsWorld d sel w h = switch_in-IsWorld d sel (must_unlocked w.mem) w refl h
