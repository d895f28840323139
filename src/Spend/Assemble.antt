-- ===== src/Spend/Assemble.antt =====
-- Building one transaction that spends verified coins (src/core/node.ts `assembleValueTx`, `proportionalFeeCap`).
pub mod Conserves
use cairn_wallet.Base.{
  ℕ, zero, suc, ◌+◌, ◌-◌, Bool, true, false, ◌||◌, not, Option, none, some, List, [], ◌∷◌, ◌++◌,
  map, any, max, ltb, if◌then◌else◌,
}
use cairn_wallet.Base.Text.{Text, codes, lower}
use cairn_wallet.Base.Maybe.{◌>>=◌}
use cairn_wallet.Base.Eq.{text_key, add}
use cairn_wallet.Js.{nat, num}
use cairn_wallet.Codec.{Crypto, App, TxInput, TxOutput, Tx}
use cairn_wallet.Net.{HttpReply}
use cairn_wallet.Spend.Errors.{fee_too_low, fee_cap, zero_addr_refused, no_outputs}
use cairn_wallet.Spend.Coins.{Outpoint, Utxo, Coin, coin_key, Selector}
use cairn_wallet.Spend.Verify.{TxReply}
use cairn_wallet.Spend.Session.{Caches}
use cairn_wallet.Spend.Select.{Selection, selected, refused, select_verified}
use cairn_wallet.Spend.Submit.{
  Signer, SubmitResult, Outcome, refuse, addr_from_priv, sign_and_submit,
}
use cairn_wallet.Spend.Outputs.{Payment, is_zero_address, sum_payments}

-- 100 CSD in base units
abbrev pub max_fee : ℕ
max_fee = 10000000000

-- What a spend finds around it: the node's answers, the time, the session caches, and the double-precision product
-- `Math.floor(v * 0.10)`, which is `v / 10` but for rounding above 2 ^ 52.
pub record World : Type 0 where
  pub now : ℕ
  pub utxos : Option (List Utxo)
  pub ask : ℕ → Coin → TxReply
  pub answer : Tx → HttpReply
  pub caches : Caches
  pub tenth : ℕ → ℕ

-- `Math.max(100_000_000, Math.floor(verifiedTotal * 0.10))`
unfoldable pub proportional_fee_cap : World → ℕ → ℕ
proportional_fee_cap world total = max 100000000 (world.tenth total)

unfoldable pub to_output : Payment → TxOutput
to_output p = record { value = num (nat p.value); script_pubkey = p.script_pubkey }

unfoldable pub to_input : Coin → TxInput
to_input c = record { prev_txid = c.txid; vout = num (nat c.vout); script_sig = codes "0x" }

-- `if (change > 0) outs.push(...)`
unfoldable pub with_change : ℕ → Text → List Payment → List Payment
with_change change addr outs =
    if ltb 0 change then outs ++ record { value = change; script_pubkey = addr } ∷ [] else outs

-- `[...new Set(inputs.map((i) => i.txid.toLowerCase()))]`
spent_from : List Text → List Coin → List Text
spent_from seen [] = seen
spent_from seen (c ∷ cs) = spent_from (add (lower c.txid) seen) cs

-- the result with the inputs that the transaction spends
unfoldable pub with_inputs : List Coin → SubmitResult → SubmitResult
unfolding spent_from
with_inputs ins r = elim r.txid [
  | none ↦ r
  | some id ↦ record r {
    inputs = some (map coin_key ins);
    spent_txids = if r.ok then some (spent_from [] ins) else r.spent_txids;
  }
]

unfoldable pub unsigned_tx : List Coin → List Payment → App → Tx
unfolding to_input to_output
unsigned_tx ins outs app = record {
  version = num (nat 1);
  inputs = map to_input ins;
  outputs = map to_output outs;
  locktime = num (nat 0);
  app = app;
}

module _ (crypto : Crypto) (sel : Selector) (signer : Signer) (world : World) where
  -- Signing and posting, once the outputs are complete.
  unfoldable pub post_outputs : List Coin → List Payment → App → Text → Option Outcome
  unfolding with_inputs unsigned_tx
  post_outputs ins [] app priv = some (refuse no_outputs)
  post_outputs ins (p ∷ ps) app priv =
      sign_and_submit crypto signer world.answer (unsigned_tx ins (p ∷ ps) app) priv >>= λ o.
      some (record o { result = with_inputs ins o.result })

  -- The steps behind a selection of coins worth `total`.
  unfoldable pub pay_from :
      List Coin → ℕ → List Payment → (need fee : ℕ) → App → Text → Option Outcome
  unfolding with_change post_outputs
  pay_from ins total outputs need fee app priv =
      if ltb (proportional_fee_cap world total) fee
      then some (refuse fee_cap)
      else post_outputs ins (with_change (total - need) (addr_from_priv crypto signer priv) outputs)
          app priv

  unfoldable pub spend_selection :
      Selection → List Payment → (need fee : ℕ) → App → Text → Option Outcome
  spend_selection (refused code) outputs need fee app priv = some (refuse code)
  spend_selection (selected ins total) outputs need fee app priv =
      pay_from ins total outputs need fee app priv

  -- The outcome, `none` where the codec throws, and the session caches after the call.
  unfoldable pub assemble_value_tx : List Payment → (fee : ℕ) → App → Text → Option Outcome × Caches
  unfolding pay_from spend_selection
  assemble_value_tx outputs fee app priv =
      let need = sum_payments outputs + fee in
      let (selection, round) =
        select_verified crypto sel world.now world.utxos (λ _ _ _. need) world.ask world.caches
          [] in
      if not (ltb 0 fee)
      then (some (refuse fee_too_low), world.caches)
      else if ltb max_fee fee
      then (some (refuse fee_cap), world.caches)
      else if any (λ (o : Payment). is_zero_address o.script_pubkey) outputs
      then (some (refuse zero_addr_refused), world.caches)
      else (spend_selection selection outputs need fee app priv, round.caches)
