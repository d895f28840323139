-- ===== src/Spend/Select/Sound.antt =====
-- What a selection that succeeds is worth (src/core/node.ts `selectVerified`).
use cairn_wallet.Base.{
  ℕ, zero, suc, ◌≤◌, ◌≡◌, refl, ap, subst, ◌∙◌, ◌⊎◌, inl, inr, true, false, Option, none, some,
  List, length, All, All-imp, arith,
}
use cairn_wallet.Base.Eq.{nat_eq, text_key, pair_eq, has}
use cairn_wallet.Js.{max_safe}
use cairn_wallet.Codec.{Crypto}
use cairn_wallet.Spend.Coins.{Outpoint, Utxo, Coin, coin_key, Selector, max_tx_inputs}
use cairn_wallet.Spend.Verify.{TxReply, Verified, verify_input_values}
use cairn_wallet.Spend.Verify.Sound.{
  Backed, IsVerified, verify_input_values-Backed, verify_input_values-IsVerified,
}
use cairn_wallet.Spend.Session.{Caches, session_exclusions}
use cairn_wallet.Spend.Errors.{Code}
use cairn_wallet.Spend.Select.{
  Round, Selection, selected, refused, Step, done, no_selection, again, aim, settle_selection,
  select_round, select_rounds, select_verified, first_round,
}
use cairn_wallet.Spend.Select.Rounds.{
  Excludes, known-settle_round, settle_round-Excludes, settle_round-selected,
}

module _ (crypto : Crypto) where
  -- A selection that a spend may rest on: the inputs are worth `total` on the chain, which covers `need`, they fit in
  -- one transaction, and none of them was excluded from the start.
  pub record IsFunded (base : List Outpoint) (need : ℕ) (inputs : List Coin) (total : ℕ)
      : Type 0 where
    pub backed : Backed crypto inputs total
    pub safe : total ≤ max_safe
    pub covers : need ≤ total
    pub fits : length inputs ≤ max_tx_inputs
    pub fresh : All (λ (c : Coin). has (coin_key c) base ≡ false) inputs

refused_ne : {c : Code} {i : List Coin} {t : ℕ} → refused c ≡ selected i t → ⊥
refused_ne h = cc

Step-cases : (s : Step) → ((x : Selection) × (s ≡ done x)) ⊎ ((s ≡ no_selection) ⊎ (s ≡ again))
Step-cases (done x) = inl (x, refl)
Step-cases no_selection = inr (inl refl)
Step-cases again = inr (inr refl)

no_selection_ne : {s : Selection} → no_selection ≡ done s → ⊥
no_selection_ne h = cc

pub fresh_of_excluded :
    (base ex : List Outpoint) (c : Coin)
    → ((k : Outpoint) → has k base ≡ true → has k ex ≡ true)
    → has (coin_key c) ex ≡ false
    → has (coin_key c) base ≡ false
fresh_of_excluded base ex c h e = ground (arith, h (coin_key c))

module _ (crypto : Crypto) (sel : Selector) (now : ℕ) (utxos : List Utxo)
    (need_of : Caches → List Outpoint → ℕ) (base : List Outpoint) where
  -- What every state between two rounds satisfies.
  record IsRound (r : Round) : Type 0 where
    known_proven : IsVerified crypto r.known
    excludes : Excludes base r

  settle_selection-IsRound :
      (ask : Coin → TxReply) (o : Option (List Coin)) (r : Round)
      → IsRound r
      → IsRound (settle_selection crypto sel now utxos need_of ask o r).1
  unfolding settle_selection
  settle_selection-IsRound ask none r h = h
  settle_selection-IsRound ask (some ins) r h =
      let ver = verify_input_values crypto ask ins r.known in
      record {
        known_proven =
            rw (known-settle_round now ins ver.0 (record r { known = ver.1 }))
              (verify_input_values-IsVerified crypto ask ins r.known h.known_proven);
        excludes = settle_round-Excludes base now ins ver.0 (record r { known = ver.1 }) h.excludes;
      }

  select_round-IsRound :
      (ask : Coin → TxReply) (r : Round)
      → IsRound r
      → IsRound (select_round crypto sel now utxos need_of ask r).1
  unfolding select_round
  select_round-IsRound ask r h =
      settle_selection-IsRound ask (sel.select utxos (need_of r.caches r.exclude) r.exclude)
        (aim crypto sel now utxos need_of r)
        (unfold aim in record { known_proven = h.known_proven; excludes = h.excludes })

  select_rounds-IsRound :
      (ask : ℕ → Coin → TxReply) (n : ℕ) (r : Round)
      → IsRound r
      → IsRound (select_rounds crypto sel now utxos need_of ask n r).1
  unfolding select_rounds
  select_rounds-IsRound ask zero r h = h
  select_rounds-IsRound ask (suc n) r h =
      let step = select_round crypto sel now utxos need_of (ask n) r in
      let one = select_round-IsRound (ask n) r h in
      elim (Step-cases step.0) [
        | inl (s, q) ↦ rw (q, select_rounds) one
        | inr (inl q) ↦ rw (q, select_rounds) one
        | inr (inr q) ↦ rw (q, select_rounds) (select_rounds-IsRound ask n step.1 one)
      ]

  -- A state after a success: the coins fund the target, and the target is what `need_of` gave.
  abbrev Succeeds : Round → List Coin → ℕ → Type 0
  Succeeds r ins total =
      IsFunded crypto base r.need ins total × (r.need ≡ need_of r.asked_caches r.asked_exclude)

  -- A round succeeds only on the selection that it verified.
  settle_selection_funded :
      (ask : Coin → TxReply) (o : Option (List Coin)) (r : Round) (ins : List Coin) (total : ℕ)
      → IsRound r
      → ((i : List Coin)
          → o ≡ some i
          → (length i ≤ max_tx_inputs) × All (λ (c : Coin). has (coin_key c) r.exclude ≡ false) i)
      → (settle_selection crypto sel now utxos need_of ask o r).0 ≡ done (selected ins total)
      → r.need ≡ need_of r.asked_caches r.asked_exclude
      → Succeeds (settle_selection crypto sel now utxos need_of ask o r).1 ins total
  unfolding settle_selection
  settle_selection_funded ask none r ins total h laws e aimed = absurd (no_selection_ne e)
  settle_selection_funded ask (some i) r ins total h laws e aimed =
      let ver = verify_input_values crypto ask i r.known in
      let (v, same, st, le) =
        settle_round-selected now i ver.0 (record r { known = ver.1 }) ins total e in
      let (b, s, _) = verify_input_values-Backed crypto ask i r.known total h.known_proven v in
      rw st (
        subst (λ (j : List Coin). IsFunded crypto base r.need j total) same
            (record {
              backed = b;
              safe = s;
              covers = le;
              fits = (laws i refl).0;
              fresh =
                  All-imp (λ (c : Coin). has (coin_key c) r.exclude ≡ false)
                    (λ (c : Coin). has (coin_key c) base ≡ false) i
                    (λ c. fresh_of_excluded base r.exclude c h.excludes) (laws i refl).1;
            }),
        aimed,
      )

  select_round_funded :
      (ask : Coin → TxReply) (r : Round) (ins : List Coin) (total : ℕ)
      → IsRound r
      → (select_round crypto sel now utxos need_of ask r).0 ≡ done (selected ins total)
      → Succeeds (select_round crypto sel now utxos need_of ask r).1 ins total
  unfolding select_round aim
  select_round_funded ask r ins total h e =
      settle_selection_funded ask (sel.select utxos (need_of r.caches r.exclude) r.exclude)
        (aim crypto sel now utxos need_of r) ins total
        (record { known_proven = h.known_proven; excludes = h.excludes })
        (λ i q. (sel.select_at_most_max _ _ _ _ q, sel.select_not_excluded _ _ _ _ q)) e refl

  select_rounds_funded :
      (ask : ℕ → Coin → TxReply) (n : ℕ) (r : Round) (ins : List Coin) (total : ℕ)
      → IsRound r
      → (select_rounds crypto sel now utxos need_of ask n r).0 ≡ selected ins total
      → Succeeds (select_rounds crypto sel now utxos need_of ask n r).1 ins total
  unfolding select_rounds
  select_rounds_funded ask zero r ins total h e = absurd (refused_ne e)
  select_rounds_funded ask (suc n) r ins total h e =
      let step = select_round crypto sel now utxos need_of (ask n) r in
      let later = select_rounds_funded ask n step.1 ins total (select_round-IsRound (ask n) r h) in
      elim (Step-cases step.0) [
        | inl (s, q) ↦
            rw (q, select_rounds)
              (select_round_funded (ask n) r ins total h (q ∙ ap done (rw (q, select_rounds) at e)))
        | inr (inl q) ↦ absurd (refused_ne (rw (q, select_rounds) at e))
        | inr (inr q) ↦ rw (q, select_rounds) (later (rw (q, select_rounds) at e))
      ]

module _ (crypto : Crypto) (sel : Selector) (now : ℕ) where
  first_round-IsRound :
      (us : List Utxo) (need_of : Caches → List Outpoint → ℕ) (caches : Caches) (known : Verified)
      → IsVerified crypto known
      → IsRound crypto sel now us need_of
          (session_exclusions now caches).1
          (first_round now us caches known)
  unfolding first_round
  first_round-IsRound us need_of caches known h = record { known_proven = h; excludes = λ k m. m }

  -- A selection that succeeds is worth its total on the chain, at every node's answers: each input has a source
  -- transaction with the id of the outpoint, the total is the sum of the values there, a safe integer, and covers the
  -- target of the last round; there are at most 512 inputs, and no session cache excluded one of them at the start.
  pub select_verified-IsFunded :
      (us : List Utxo) (need_of : List Utxo → Caches → List Outpoint → ℕ) (ask : ℕ → Coin → TxReply)
      (caches : Caches) (known : Verified) (ins : List Coin) (total : ℕ)
      → IsVerified crypto known
      → (select_verified crypto sel now (some us) need_of ask caches known).0 ≡ selected ins total
      → let r = (select_verified crypto sel now (some us) need_of ask caches known).1 in
        IsFunded crypto (session_exclusions now caches).1 r.need ins total
        × (r.need ≡ need_of us r.asked_caches r.asked_exclude)
  unfolding select_verified
  select_verified-IsFunded us need_of ask caches known ins total h e =
      select_rounds_funded crypto sel now us (need_of us) (session_exclusions now caches).1 ask 3
        (first_round now us caches known) ins total
        (first_round-IsRound us (need_of us) caches known h) e

  -- Whatever a selection answers, the values that it remembers are proven.
  pub select_verified-IsVerified :
      (us : Option (List Utxo)) (need_of : List Utxo → Caches → List Outpoint → ℕ)
      (ask : ℕ → Coin → TxReply) (caches : Caches) (known : Verified)
      → IsVerified crypto known
      → IsVerified crypto (select_verified crypto sel now us need_of ask caches known).1.known
  unfolding select_verified
  select_verified-IsVerified none need_of ask caches known h = h
  select_verified-IsVerified (some us) need_of ask caches known h =
      (select_rounds-IsRound crypto sel now us (need_of us) (session_exclusions now caches).1 ask 3
        (first_round now us caches known)
        (first_round-IsRound us (need_of us) caches known h)).known_proven
