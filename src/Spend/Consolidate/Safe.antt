-- ===== src/Spend/Consolidate/Safe.antt =====
-- What a merge posts (src/core/node.ts `consolidate`).
use cairn_wallet.Base.{
  ℕ, zero, suc, ◌-◌, ◌≤◌, ◌<◌, ◌≡◌, refl, ap, sym, subst, inl, inr, Bool, true, false, ◌||◌, not,
  Option, none, some, List, [], ◌∷◌, length, length-take, map, All, All-imp, All-take, arith, ltb,
  Bool-cases,
}
use cairn_wallet.Base.Text.{Text}
use cairn_wallet.Base.Maybe.{>>=-eq-some}
use mathlib.Core.Option.{some-injective}
use cairn_wallet.Base.Eq.{nat_eq, text_key, pair_eq, has}
use cairn_wallet.Js.{Num, nat, is_safe, is_positive}
use cairn_wallet.Codec
use cairn_wallet.Codec.{Crypto, Tx, TxOutput}
use cairn_wallet.Spend.Errors.{Code}
use cairn_wallet.Spend.Coins.{
  Outpoint, Utxo, Coin, coin_key, Selector, max_tx_inputs, spendable_coins,
  spendable_coins-not_excluded,
}
use cairn_wallet.Spend.Verify.{
  VerifyResult, verified, tampered, unreachable, beyond_horizon, unrepresented, ghosts_only,
  verify_input_values,
}
use cairn_wallet.Spend.Verify.Sound.{
  IsVerified-nil, Backed, IsVerified, verify_input_values-Backed, verify_input_values-IsVerified,
}
use cairn_wallet.Spend.Session.{Class, ghost, horizon, unrep, session_exclusions}
use cairn_wallet.Spend.Select.{Round, skip_coins, first_round}
use cairn_wallet.Spend.Select.Rounds.{Excludes, skip_coins-Excludes, known-skip_coins}
use cairn_wallet.Spend.Select.Sound.{fresh_of_excluded}
use cairn_wallet.Spend.Submit.{Signer, refuse, addr_from_priv, sign_and_submit}
use cairn_wallet.Spend.Outputs.{amount}
use cairn_wallet.Spend.Outputs.Sum.{positive_safe}
use cairn_wallet.Spend.Assemble.{World, max_fee, proportional_fee_cap, to_output, unsigned_tx}
use cairn_wallet.Spend.Assemble.Conserves.{names, coin_names, posted_tx}
use cairn_wallet.Spend.Consolidate.{
  insert_coin, sort_coins, Merge, no_merge, merge_pool, settle_merge, pool_of, merge_rounds,
  merge_listed, consolidate,
}

module _ {κ} (P : Coin → Type κ) where
  All-insert_coin : (c : Coin) (cs : List Coin) → P c → All P cs → All P (insert_coin c cs)
  unfolding insert_coin
  All-insert_coin c [] p h = (p, tt)
  All-insert_coin c (d ∷ ds) p h = ground (arith, All-insert_coin c ds p h.1)

  All-sort_coins : (cs : List Coin) → All P cs → All P (sort_coins cs)
  unfolding sort_coins
  All-sort_coins [] h = tt
  All-sort_coins (c ∷ cs) h = All-insert_coin c (sort_coins cs) h.0 (All-sort_coins cs h.1)

no_merge_posts_nothing :
    (c : Code) (m : Merge) (tx : Tx) → no_merge (refuse c) ≡ some m → m.outcome.posted ≡ some tx → ⊥
no_merge_posts_nothing c m tx h e = ground arith

both_not : {a b : Bool} → (not a || not b) ≡ false → (a ≡ true) × (b ≡ true)
both_not h = ground arith

-- `ins` is the pool, `total` its value on the chain.
module _ (crypto : Crypto) (sel : Selector) (signer : Signer) (world : World) where
  pub record IsMerge (fee : ℕ) (priv : Text) (m : Merge) (tx : Tx) : Type 0 where
    pub ins : List Coin
    pub backed : Backed crypto ins m.total
    pub several : 2 ≤ length ins
    pub fits : length ins ≤ max_tx_inputs
    pub fresh :
        All
          (λ (c : Coin). has (coin_key c) (session_exclusions world.now world.caches).1 ≡ false)
          ins
    pub spends : map names tx.inputs ≡ map coin_names ins
    pub pays_self :
        tx.outputs
        ≡ to_output
            (record { value = m.total - fee; script_pubkey = addr_from_priv crypto signer priv })
          ∷ []
    pub gains : fee < m.total
    pub fee_capped : fee ≤ max_fee
    pub fee_proportionate : fee ≤ proportional_fee_cap world m.total
    pub counted : m.merged ≡ length ins

  module _ (utxos : List Utxo) (fee : ℕ) (priv : Text) (capped : fee ≤ max_fee) where
    merge_pool-IsMerge :
        (pool : List Coin) (total spendable : ℕ) (m : Merge) (tx : Tx)
        → Backed crypto pool total
        → 2 ≤ length pool
        → length pool ≤ max_tx_inputs
        → All
            (λ (c : Coin). has (coin_key c) (session_exclusions world.now world.caches).1 ≡ false)
            pool
        → merge_pool crypto sel signer world utxos fee priv pool total spendable ≡ some m
        → m.outcome.posted ≡ some tx
        → IsMerge fee priv m tx
    unfolding merge_pool
    merge_pool-IsMerge pool total spendable m tx b two fits fresh h e =
        elim (Bool-cases (ltb 0 (total - fee))) [
          | inr q ↦ absurd (no_merge_posts_nothing _ m tx (rw q at h) e)
          | inl pos ↦ elim (Bool-cases (ltb (proportional_fee_cap world total) fee)) [
            | inl q ↦ absurd (no_merge_posts_nothing _ m tx (rw (pos, q) at h) e)
            | inr q ↦
                let (o, f, g) =
                  >>=-eq-some
                    (sign_and_submit crypto signer world.answer
                      (unsigned_tx pool
                        (record {
                          value = total - fee;
                          script_pubkey = addr_from_priv crypto signer priv;
                        }
                          ∷ [])
                        Codec.App.no_app)
                      priv)
                    _ (rw (pos, q) at h) in
                let (a, c, d) =
                  posted_tx crypto sel signer world pool _ Codec.App.no_app priv o m.outcome tx f
                    (ap (λ (x : Merge). x.outcome.posted) (sym (some-injective _ _ g))) e in
                let t : total ≡ m.total = ap (λ (x : Merge). x.total) (some-injective _ _ g) in
                record {
                  ins = pool;
                  backed = subst (Backed crypto pool) t b;
                  several = two;
                  fits = fits;
                  fresh = fresh;
                  spends = a;
                  pays_self =
                      subst
                        (λ (k : ℕ).
                          tx.outputs
                          ≡ to_output (record {
                            value = k - fee;
                            script_pubkey = addr_from_priv crypto signer priv;
                          })
                            ∷ [])
                        t c;
                  gains = ground arith;
                  fee_capped = capped;
                  fee_proportionate =
                      subst (λ (k : ℕ). fee ≤ proportional_fee_cap world k) t (ground arith);
                  counted = sym (ap (λ (x : Merge). x.merged) (some-injective _ _ g));
                }
          ]
        ]

    -- What every state between two rounds satisfies.
    record IsRound (r : Round) : Type 0 where
      known_proven : IsVerified crypto r.known
      excludes : Excludes (session_exclusions world.now world.caches).1 r

    skip_coins-IsRound :
        (class : Class) (cs : List Coin) (r : Round)
        → IsRound r
        → IsRound (skip_coins class world.now cs r)
    skip_coins-IsRound class cs r h = record {
      known_proven = rw (known-skip_coins class world.now cs r) h.known_proven;
      excludes =
          skip_coins-Excludes (session_exclusions world.now world.caches).1 class world.now cs r
            h.excludes;
    }

    -- Whatever the rest of the loop posts from a state of the loop is a merge.
    abbrev Merges : (Round → Option Merge × Round) → Type 0
    Merges rest =
        (r : Round) (m : Merge) (tx : Tx)
        → IsRound r
        → (rest r).0 ≡ some m
        → m.outcome.posted ≡ some tx
        → IsMerge fee priv m tx

    settle_merge-IsMerge :
        (pool : List Coin) (ver : VerifyResult) (r : Round) (rest : Round → Option Merge × Round)
        (m : Merge) (tx : Tx)
        → IsRound r
        → Merges rest
        → ((total : ℕ) → ver ≡ verified total → Backed crypto pool total)
        → 2 ≤ length pool
        → length pool ≤ max_tx_inputs
        → All
            (λ (c : Coin). has (coin_key c) (session_exclusions world.now world.caches).1 ≡ false)
            pool
        → (settle_merge crypto sel signer world utxos fee priv pool ver r rest).0 ≡ some m
        → m.outcome.posted ≡ some tx
        → IsMerge fee priv m tx
    unfolding settle_merge
    settle_merge-IsMerge pool (verified total) r rest m tx hr hm b two fits fresh h e =
        merge_pool-IsMerge pool total _ m tx (b total refl) two fits fresh h e
    settle_merge-IsMerge pool tampered r rest m tx hr hm b two fits fresh h e =
        absurd (no_merge_posts_nothing _ m tx h e)
    settle_merge-IsMerge pool unreachable r rest m tx hr hm b two fits fresh h e =
        absurd (no_merge_posts_nothing _ m tx h e)
    settle_merge-IsMerge pool (beyond_horizon hs gs) r rest m tx hr hm b two fits fresh h e =
        hm _ m tx (skip_coins-IsRound ghost gs _ (skip_coins-IsRound horizon hs r hr)) h e
    settle_merge-IsMerge pool (unrepresented us gs) r rest m tx hr hm b two fits fresh h e =
        hm _ m tx (skip_coins-IsRound ghost gs _ (skip_coins-IsRound unrep us r hr)) h e
    settle_merge-IsMerge pool (ghosts_only gs) r rest m tx hr hm b two fits fresh h e =
        hm _ m tx (skip_coins-IsRound ghost gs r hr) h e

    pool_of_fits :
        (ex : List Outpoint)
        → length (pool_of crypto sel signer world utxos fee priv ex) ≤ max_tx_inputs
    unfolding pool_of
    pool_of_fits ex =
        omega (arith, length-take {0} max_tx_inputs (sort_coins (spendable_coins sel utxos ex)))

    pool_of_fresh :
        (r : Round)
        → IsRound r
        → All
            (λ (c : Coin). has (coin_key c) (session_exclusions world.now world.caches).1 ≡ false)
            (pool_of crypto sel signer world utxos fee priv r.exclude)
    unfolding pool_of
    pool_of_fresh r h = All-take _ max_tx_inputs _ (
        All-sort_coins _ (spendable_coins sel utxos r.exclude) (
          All-imp (λ (c : Coin). has (coin_key c) r.exclude ≡ false) _ _
            (λ c. fresh_of_excluded _ r.exclude c h.excludes)
            (spendable_coins-not_excluded sel utxos r.exclude)))

    merge_rounds-Merges : (n : ℕ) → Merges (merge_rounds crypto sel signer world utxos fee priv n)
    unfolding merge_rounds
    merge_rounds-Merges zero r m tx hr h e = absurd (no_merge_posts_nothing _ m tx h e)
    merge_rounds-Merges (suc n) r m tx hr h e =
        let pool = pool_of crypto sel signer world utxos fee priv r.exclude in
        let ver = verify_input_values crypto (world.ask n) pool r.known in
        elim (Bool-cases (ltb (length pool) 2)) [
          | inl q ↦ absurd (no_merge_posts_nothing _ m tx (rw q at h) e)
          | inr q ↦
              settle_merge-IsMerge pool ver.0 (record r { known = ver.1 })
                (merge_rounds crypto sel signer world utxos fee priv n) m tx
                (record {
                  known_proven =
                      verify_input_values-IsVerified crypto (world.ask n) pool r.known
                        hr.known_proven;
                  excludes = hr.excludes;
                })
                (merge_rounds-Merges n)
                (λ total v.
                  (verify_input_values-Backed crypto (world.ask n) pool r.known total
                    hr.known_proven v).0)
                (ground arith) (pool_of_fits r.exclude) (pool_of_fresh r hr) (rw q at h) e
        ]

  first_round-IsRound :
      (utxos : List Utxo) (fee : ℕ) (priv : Text) (capped : fee ≤ max_fee)
      → IsRound utxos fee priv capped (first_round world.now utxos world.caches [])
  unfolding first_round
  first_round-IsRound utxos fee priv capped = record {
    known_proven = IsVerified-nil crypto;
    excludes = λ k m. m;
  }

  merge_listed-IsMerge :
      (us : Option (List Utxo)) (fee : ℕ) (priv : Text) (m : Merge) (tx : Tx)
      → fee ≤ max_fee
      → (merge_listed crypto sel signer world us fee priv).0 ≡ some m
      → m.outcome.posted ≡ some tx
      → IsMerge fee priv m tx
  unfolding merge_listed
  merge_listed-IsMerge none fee priv m tx capped h e = absurd (no_merge_posts_nothing _ m tx h e)
  merge_listed-IsMerge (some us) fee priv m tx capped h e =
      merge_rounds-Merges us fee priv capped 3 (first_round world.now us world.caches []) m tx
        (first_round-IsRound us fee priv capped) h e

  -- A merge posts only a transaction that spends between 2 and 512 coins, proven on the chain and excluded by no
  -- session cache at the start, on one output to the wallet's own address that is their whole proven value less the
  -- fee and is positive; the fee is a positive safe integer, at most 100 CSD and within the proportional cap.
  pub consolidate-IsMerge :
      (fee : Num) (priv : Text) (m : Merge) (tx : Tx)
      → (consolidate crypto sel signer world fee priv).0 ≡ some m
      → m.outcome.posted ≡ some tx
      → (fee ≡ nat (amount fee)) × (0 < amount fee) × IsMerge (amount fee) priv m tx
  unfolding consolidate
  consolidate-IsMerge fee priv m tx h e =
      elim (Bool-cases (not (is_safe fee) || not (is_positive fee))) [
        | inl q ↦ absurd (no_merge_posts_nothing _ m tx (rw q at h) e)
        | inr q ↦ elim (Bool-cases (ltb max_fee (amount fee))) [
          | inl p ↦ absurd (no_merge_posts_nothing _ m tx (rw (q, p) at h) e)
          | inr p ↦
              let (v, pos) = positive_safe fee (both_not q).1 (both_not q).0 in
              (
                v,
                pos,
                merge_listed-IsMerge world.utxos (amount fee) priv m tx (ground arith)
                    (rw (q, p) at h) e,
              )
        ]
      ]
