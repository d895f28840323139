-- ===== src/Spend/Select.antt =====
-- Selecting coins that the chain proves (src/core/node.ts `selectVerified`): at most three rounds of selection and
-- verification, each without the coins that the earlier ones could not prove.
pub mod Rounds
pub mod Sound
use cairn_wallet.Base.{
  ℕ, zero, suc, ◌+◌, ◌-◌, Bool, true, false, ◌&&◌, ◌||◌, Option, none, some, List, [], ◌∷◌, map,
  length, keep, ltb, leb, ◌==◌, if◌then◌else◌,
}
use cairn_wallet.Base.Eq.{nat_eq, text_key, pair_eq, has, add, keys}
use cairn_wallet.Js.{max_safe}
use cairn_wallet.Codec.{Crypto}
use cairn_wallet.Spend.Errors.{
  Code, insufficient, too_many_inputs, verify_tamper, verify_unavailable, verify_horizon,
  verify_unrepresentable, ghost_inputs_skipped,
}
use cairn_wallet.Spend.Coins.{Outpoint, Utxo, Coin, op_key, coin_key, Selector, spendable_coins}
use cairn_wallet.Spend.Verify.{
  TxReply, Verified, VerifyResult, verified, tampered, unreachable, beyond_horizon, unrepresented,
  ghosts_only, verify_input_values,
}
use cairn_wallet.Spend.Session.{
  Caches, Class, ghost, horizon, unrep, session_exclusions, remember_skip,
}

-- What one attempt keeps between its rounds. `need` is the target of the last round, and `asked_caches`,
-- `asked_exclude` are the state in which it was computed.
pub record Round : Type 0 where
  pub caches : Caches
  pub exclude : List Outpoint
  pub known : Verified
  pub ghost_count : ℕ
  pub horizon_count : ℕ
  pub unrep_count : ℕ
  pub need : ℕ
  pub asked_caches : Caches
  pub asked_exclude : List Outpoint

pub data Selection : Type 0 where
  selected : (inputs : List Coin) (total : ℕ) → Selection
  refused : Code → Selection

-- What a round ends with: an answer, no selection, or coins to leave out of the next round.
pub data Step : Type 0 where
  done : Selection → Step
  no_selection : Step
  again : Step

abbrev pub max_select_rounds : ℕ
max_select_rounds = 3

-- `for (const k of cache.keys()) if (reportedVal.has(k)) count++`
count_reported : List Utxo → List Outpoint → ℕ
count_reported us [] = 0
count_reported us (k ∷ ks) =
    let rest = count_reported us ks in
    if has k (map (λ (u : Utxo). op_key u.txid u.vout) us) then rest + 1 else rest

abbrev one_if_new : Outpoint → List Outpoint → ℕ
one_if_new k ex = if has k ex then 0 else 1

-- The loop over one class of unproven coins: count it once, exclude it, file it for later attempts.
unfoldable pub skip_coin : Class → ℕ → Outpoint → Round → Round
skip_coin ghost now k r = record r {
  caches = remember_skip ghost k now r.caches;
  exclude = add k r.exclude;
  ghost_count = r.ghost_count + one_if_new k r.exclude;
}
skip_coin horizon now k r = record r {
  caches = remember_skip horizon k now r.caches;
  exclude = add k r.exclude;
  horizon_count = r.horizon_count + one_if_new k r.exclude;
}
skip_coin unrep now k r = record r {
  caches = remember_skip unrep k now r.caches;
  exclude = add k r.exclude;
  unrep_count = r.unrep_count + one_if_new k r.exclude;
}

unfoldable pub skip_coins : Class → ℕ → List Coin → Round → Round
unfolding skip_coin
skip_coins class now [] r = r
skip_coins class now (c ∷ cs) r = skip_coins class now cs (skip_coin class now (coin_key c) r)

-- What a round does with the answer of `verifyInputValues` on `inputs`.
unfoldable pub settle_round : ℕ → List Coin → VerifyResult → Round → Step × Round
unfolding skip_coins
settle_round now inputs (verified total) r =
    if ltb total r.need || (ltb max_safe total || ltb max_safe (total - r.need))
    then (done (refused insufficient), r)
    else (done (selected inputs total), r)
settle_round now inputs tampered r = (done (refused verify_tamper), r)
settle_round now inputs unreachable r = (done (refused verify_unavailable), r)
settle_round now inputs (beyond_horizon hs gs) r =
    (again, skip_coins ghost now gs (skip_coins horizon now hs r))
settle_round now inputs (unrepresented us gs) r =
    (again, skip_coins ghost now gs (skip_coins unrep now us r))
settle_round now inputs (ghosts_only gs) r = (again, skip_coins ghost now gs r)

-- The sum of the reported values, 0 once it leaves the safe integers.
spendable_total : ℕ → List Coin → ℕ
spendable_total acc [] = acc
spendable_total acc (c ∷ cs) =
    let rest = spendable_total (acc + c.value) cs in
    if leb (acc + c.value) max_safe then rest else 0

module _ (crypto : Crypto) (sel : Selector) (now : ℕ) (utxos : List Utxo)
    (need_of : Caches → List Outpoint → ℕ) where
  -- the target of the round, from the state it starts in
  unfoldable pub aim : Round → Round
  aim r = record r {
    need = need_of r.caches r.exclude;
    asked_caches = r.caches;
    asked_exclude = r.exclude;
  }

  -- A round behind its selection, `none` where `selectInputs` returned null.
  unfoldable pub settle_selection : (Coin → TxReply) → Option (List Coin) → Round → Step × Round
  unfolding settle_round
  settle_selection ask none r = (no_selection, r)
  settle_selection ask (some inputs) r =
      let (ver, known) = verify_input_values crypto ask inputs r.known in
      settle_round now inputs ver (record r { known = known })

  -- One round: the target, the selection, its verification.
  unfoldable pub select_round : (Coin → TxReply) → Round → Step × Round
  unfolding aim settle_selection
  select_round ask r0 = let r = aim r0 in settle_selection ask (sel.select utxos r.need r.exclude) r

  -- The refusal once the rounds are over: `exhausted` says that the selection failed, and not the round budget.
  unfoldable pub select_refusal : Bool → Round → Code
  unfolding spendable_total
  select_refusal exhausted r =
      if exhausted && leb r.need (spendable_total 0 (spendable_coins sel utxos r.exclude))
      then too_many_inputs
      else if r.ghost_count == 0 && (r.horizon_count == 0 && r.unrep_count == 0)
      then insufficient
      else if exhausted
      then (if ltb 0 r.horizon_count
          then verify_horizon
          else if ltb 0 r.unrep_count
          then verify_unrepresentable
          else ghost_inputs_skipped)
      else verify_unavailable

  -- `ask n` is how the node answers in the round with `n` rounds left after it.
  unfoldable pub select_rounds : (ℕ → Coin → TxReply) → ℕ → Round → Selection × Round
  unfolding select_round select_refusal
  select_rounds ask zero r = (refused (select_refusal false r), r)
  select_rounds ask (suc n) r =
      let (step, r') = select_round (ask n) r in
      let rest = select_rounds ask n r' in
      elim step [
        | done s ↦ (s, r')
        | no_selection ↦ (refused (select_refusal true r'), r')
        | again ↦ rest
      ]

-- The state before the first round, from the session caches.
unfoldable pub first_round : ℕ → List Utxo → Caches → Verified → Round
unfolding count_reported
first_round now utxos caches known =
    let (c, exclude) = session_exclusions now caches in
    record {
      caches = c;
      exclude = exclude;
      known = known;
      ghost_count = count_reported utxos (keys c.ghosts);
      horizon_count = count_reported utxos (keys c.horizons);
      unrep_count = count_reported utxos (keys c.unreps);
      need = 0;
      asked_caches = c;
      asked_exclude = exclude;
    }

-- The state of an attempt that got no coin list: nothing has changed.
abbrev pub no_round : Caches → Verified → Round
no_round caches known = record {
  caches = caches;
  exclude = [];
  known = known;
  ghost_count = 0;
  horizon_count = 0;
  unrep_count = 0;
  need = 0;
  asked_caches = caches;
  asked_exclude = [];
}

-- `selectVerified`: `reported` is the answer of `balance`, `none` where the request throws.
module _ (crypto : Crypto) (sel : Selector) (now : ℕ) where
  unfoldable pub select_verified :
      Option (List Utxo)
      → (List Utxo → Caches → List Outpoint → ℕ)
      → (ℕ → Coin → TxReply)
      → Caches
      → Verified
      → Selection × Round
  unfolding select_rounds first_round
  select_verified none need_of ask caches known =
      (refused verify_unavailable, no_round caches known)
  select_verified (some utxos) need_of ask caches known =
      select_rounds crypto sel now utxos (need_of utxos) ask max_select_rounds
        (first_round now utxos caches known)
