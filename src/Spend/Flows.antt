-- ===== src/Spend/Flows.antt =====
-- The flows that end in one transaction (src/core/node.ts `buildSignSubmit`, `propose`, `attest`, `send`, `sendMany`,
-- `fillOffer`): each validates its request and hands safe naturals to `assembleValueTx`.
pub mod Safe
use cairn_wallet.Base.{
  ℕ, ◌+◌, Bool, true, false, ◌&&◌, ◌||◌, not, Option, some, List, [], ◌∷◌, ltb, if◌then◌else◌,
}
use cairn_wallet.Base.Text.{Text}
use cairn_wallet.Js.{Num, nat, num, is_safe, is_positive, is_negative, to_uint32, max_safe}
use cairn_wallet.Codec
use cairn_wallet.Codec.{Crypto, App}
use cairn_wallet.Spend.Errors.{bad_fee, bad_outputs, bad_request}
use cairn_wallet.Spend.Coins.{Selector}
use cairn_wallet.Spend.Session.{Caches}
use cairn_wallet.Spend.Submit.{Signer, Outcome, refuse}
use cairn_wallet.Spend.Outputs.{
  Payout, Payment, is_hex_text, Checked, sum_out, bad, amount, validate_outputs, payments,
}
use cairn_wallet.Spend.Assemble.{World, assemble_value_tx}

-- `!Number.isSafeInteger(n) || n < 0`
abbrev pub is_bad_number : Num → Bool
is_bad_number n = not (is_safe n) || is_negative n

module _ (crypto : Crypto) (sel : Selector) (signer : Signer) (world : World) where
  -- A refusal before anything was read or signed.
  abbrev pub turn_down : Outcome → Option Outcome × Caches
  turn_down o = (some o, world.caches)

  -- `buildSignSubmit` behind its validation
  build_checked : Checked → App → Num → Text → List Payout → Option Outcome × Caches
  build_checked bad app fee priv payouts = turn_down (refuse bad_outputs)
  build_checked (sum_out s) app fee priv payouts =
      assemble_value_tx crypto sel signer world (payments payouts) (amount fee) app priv

  unfoldable pub build_sign_submit : App → Num → Text → List Payout → Option Outcome × Caches
  unfolding build_checked amount
  build_sign_submit app fee priv payouts =
      if is_bad_number fee
      then turn_down (refuse bad_fee)
      else build_checked (validate_outputs payouts 8 false) app fee priv payouts

  unfoldable pub propose :
      (domain payload_hash uri : Text) (expires_epoch fee : Num) (outputs : List Payout)
      (priv : Text)
      → Option Outcome × Caches
  unfolding build_sign_submit
  propose domain payload_hash uri expires_epoch fee outputs priv =
      if not (is_hex_text 64 payload_hash)
      then turn_down (refuse bad_request)
      else if is_bad_number expires_epoch
      then turn_down (refuse bad_request)
      else build_sign_submit (Codec.App.propose domain payload_hash uri (num expires_epoch)) fee
          priv outputs

  -- `score >>> 0`, `confidence >>> 0`
  abbrev pub attest_app : Text → Num → Num → App
  attest_app proposal_id score confidence =
      Codec.App.attest proposal_id (num (nat (to_uint32 score))) (num (nat (to_uint32 confidence)))

  unfoldable pub attest :
      (proposal_id : Text) (score confidence fee : Num) (priv : Text) → Option Outcome × Caches
  unfolding build_sign_submit
  attest proposal_id score confidence fee priv =
      if not (is_hex_text 64 proposal_id)
      then turn_down (refuse bad_request)
      else build_sign_submit (attest_app proposal_id score confidence) fee priv []

  unfoldable pub send : (to : Text) (value fee : Num) (priv : Text) → Option Outcome × Caches
  unfolding amount
  send to value fee priv =
      if not (is_hex_text 40 to)
      then turn_down (refuse bad_outputs)
      else if not (is_positive value)
      then turn_down (refuse bad_outputs)
      else if not (is_safe value)
          || (not (is_safe fee) || (is_negative fee || ltb max_safe (amount value + amount fee)))
      then turn_down (refuse bad_fee)
      else assemble_value_tx crypto sel signer world
          (record { value = amount value; script_pubkey = to } ∷ []) (amount fee) Codec.App.no_app
          priv

  -- `sendMany` and `fillOffer` behind their validation
  pay_checked : Checked → App → Num → Text → List Payout → Option Outcome × Caches
  pay_checked bad app fee priv payouts = turn_down (refuse bad_outputs)
  pay_checked (sum_out s) app fee priv payouts =
      if is_bad_number fee || ltb max_safe (s + amount fee)
      then turn_down (refuse bad_fee)
      else assemble_value_tx crypto sel signer world (payments payouts) (amount fee) app priv

  unfoldable pub send_many : List Payout → (fee : Num) (priv : Text) → Option Outcome × Caches
  unfolding pay_checked amount
  send_many outputs fee priv =
      pay_checked (validate_outputs outputs 500 true) Codec.App.no_app fee priv outputs

  unfoldable pub fill_offer :
      (proposal_id : Text) (score confidence : Num) (outputs : List Payout) (fee : Num)
      (priv : Text)
      → Option Outcome × Caches
  unfolding pay_checked amount
  fill_offer proposal_id score confidence outputs fee priv =
      if not (is_hex_text 64 proposal_id)
      then turn_down (refuse bad_request)
      else pay_checked (validate_outputs outputs 100 false)
          (attest_app proposal_id score confidence) fee priv outputs
