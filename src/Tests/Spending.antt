-- ===== src/Tests/Spending.antt =====
-- The flows on a concrete wallet with two coins (src/core/node.ts).
use cairn_wallet.Base.{◌+◌, ◌≤◌, ◌<◌, ◌≡◌, refl, true, Option, none, some, List, [], ◌∷◌, ◌++◌}
use cairn_wallet.Base.Text.{Text, codes, text_eq, lower}
use cairn_wallet.Base.Eq.{has, add, keys, lookup, put}
use cairn_wallet.Spend.Select.{select_verified}
use cairn_wallet.Spend.Session.{session_exclusions}
use cairn_wallet.Spend.Verify.{verify_input_values}
use cairn_wallet.Js.{is_safe, is_positive, is_negative, val_uint64, to_uint64, nat, num, max_safe}
use cairn_wallet.Codec
use cairn_wallet.Codec.{Tx, serialize_app, len_bytes, txid, sighash, hb_fixed, u64}
use cairn_wallet.Net.{post}
use cairn_wallet.Spend.Coins.{op_key, spendable_coins}
use cairn_wallet.Spend.Consolidate.{Merge, consolidate, sort_coins}
use cairn_wallet.Spend.Consolidate.Safe.{IsMerge, consolidate-IsMerge}
use cairn_wallet.Spend.Errors.{bad_fee}
use cairn_wallet.Spend.Submit.{Outcome, refuse, sign_and_submit, addr_from_priv}
use cairn_wallet.Spend.Outputs.{
  Payout, Payment, validate_outputs, is_hex_text, amount, payments, is_zero_address, sum_payments,
}
use cairn_wallet.Spend.Assemble.{proportional_fee_cap, assemble_value_tx}
use cairn_wallet.Spend.Assemble.Conserves.{IsSpend, assemble_value_tx-IsSpend}
use cairn_wallet.Spend.Flows.{send, send_many, fill_offer, propose}
use cairn_wallet.Spend.Flows.Safe.{IsRequest, send_safe, send_many_safe, propose_safe}
use cairn_wallet.Tests.Sample.{
  copies, sample_crypto, sample_selector, sample_signer, sample_world, priv, address, source_tx,
}

abbrev outcome_of : Option Outcome → Outcome
outcome_of none = refuse bad_fee
outcome_of (some o) = o

abbrev tx_of : Option Tx → Tx
tx_of none = source_tx
tx_of (some tx) = tx

abbrev seven : List Payment
seven = record { value = 700000000; script_pubkey = address } ∷ []

abbrev spent : Outcome
spent =
    outcome_of
      (assemble_value_tx sample_crypto sample_selector sample_signer sample_world seven 1000
        Codec.App.no_app priv).0

assemble_value_tx-IsSpend_example :
    IsSpend sample_crypto sample_selector sample_signer sample_world seven 1000 Codec.App.no_app
      priv
      (tx_of spent.posted)
unfolding assemble_value_tx is_zero_address text_eq select_verified sum_payments has
    session_exclusions keys verify_input_values lookup is_safe txid hb_fixed u64 val_uint64
    to_uint64 lower put op_key proportional_fee_cap sign_and_submit sighash addr_from_priv
assemble_value_tx-IsSpend_example =
    assemble_value_tx-IsSpend sample_crypto sample_selector sample_signer sample_world seven 1000
      Codec.App.no_app priv spent (tx_of spent.posted) refl refl

spent_ok : spent.result.ok ≡ true
unfolding assemble_value_tx is_zero_address text_eq select_verified sum_payments has
    session_exclusions keys verify_input_values lookup is_safe txid hb_fixed u64 val_uint64
    to_uint64 lower put op_key proportional_fee_cap sign_and_submit sighash addr_from_priv post
spent_ok = refl

abbrev payouts : List Payout
payouts =
    record { to = address; value = nat 300000000 }
    ∷ record { to = address; value = nat 400000000 }
    ∷ []

abbrev id_64 : Text
id_64 = codes "0x" ++ copies 64 b'c'

abbrev sent : Outcome
sent =
    outcome_of
      (send sample_crypto sample_selector sample_signer sample_world address (nat 700000000)
        (nat 1000) priv).0

send_safe_example :
    (is_hex_text 40 address ≡ true)
    × (nat 700000000 ≡ nat (amount (nat 700000000)))
    × (nat 1000 ≡ nat (amount (nat 1000)))
    × (0 < amount (nat 700000000))
    × (amount (nat 700000000) + amount (nat 1000) ≤ max_safe)
    × IsSpend sample_crypto sample_selector sample_signer sample_world
        (record { value = amount (nat 700000000); script_pubkey = address } ∷ [])
        (amount (nat 1000))
        Codec.App.no_app
        priv
        (tx_of sent.posted)
unfolding assemble_value_tx is_zero_address text_eq select_verified sum_payments has
    session_exclusions keys verify_input_values lookup is_safe txid hb_fixed u64 val_uint64
    to_uint64 lower put op_key proportional_fee_cap sign_and_submit sighash addr_from_priv send
    is_hex_text amount is_positive is_negative
send_safe_example =
    send_safe sample_crypto sample_selector sample_signer sample_world address (nat 700000000)
      (nat 1000) priv sent (tx_of sent.posted) refl refl

abbrev sent_many : Outcome
sent_many =
    outcome_of
      (send_many sample_crypto sample_selector sample_signer sample_world payouts (nat 1000) priv).0

send_many_safe_example :
    IsRequest sample_crypto sample_selector sample_signer sample_world payouts 500 Codec.App.no_app
      (nat 1000)
      priv
      (tx_of sent_many.posted)
unfolding assemble_value_tx is_zero_address text_eq select_verified sum_payments has
    session_exclusions keys verify_input_values lookup is_safe txid hb_fixed u64 val_uint64
    to_uint64 lower put op_key proportional_fee_cap sign_and_submit sighash addr_from_priv send_many
    is_hex_text amount is_positive is_negative validate_outputs payments
send_many_safe_example =
    send_many_safe sample_crypto sample_selector sample_signer sample_world payouts (nat 1000) priv
      sent_many (tx_of sent_many.posted) refl refl

abbrev filled : Outcome
filled =
    outcome_of
      (fill_offer sample_crypto sample_selector sample_signer sample_world id_64 (nat 100) (nat 5)
        payouts (nat 1000) priv).0

abbrev proposed : Outcome
proposed =
    outcome_of
      (propose sample_crypto sample_selector sample_signer sample_world (codes "csd") id_64
        (codes "u") (nat 9) (nat 1000) payouts priv).0

propose_safe_example :
    (is_hex_text 64 id_64 ≡ true)
    × (nat 9 ≡ nat (amount (nat 9)))
    × IsRequest sample_crypto sample_selector sample_signer sample_world payouts 8
        (Codec.App.propose (codes "csd") id_64 (codes "u") (num (nat 9)))
        (nat 1000)
        priv
        (tx_of proposed.posted)
unfolding assemble_value_tx is_zero_address text_eq select_verified sum_payments has
    session_exclusions keys verify_input_values lookup is_safe txid hb_fixed u64 val_uint64
    to_uint64 lower put op_key proportional_fee_cap sign_and_submit sighash addr_from_priv propose
    is_hex_text amount is_positive is_negative validate_outputs payments serialize_app len_bytes
propose_safe_example =
    propose_safe sample_crypto sample_selector sample_signer sample_world (codes "csd") id_64
      (codes "u") (nat 9) (nat 1000) payouts priv proposed (tx_of proposed.posted) refl refl

abbrev merge_of : Option Merge → Merge
merge_of none = record { outcome = refuse bad_fee; merged = 0; remaining = 0; total = 0 }
merge_of (some m) = m

abbrev merged : Merge
merged =
    merge_of
      (consolidate sample_crypto sample_selector sample_signer sample_world (nat 1000) priv).0

consolidate-IsMerge_example :
    (nat 1000 ≡ nat (amount (nat 1000)))
    × (0 < amount (nat 1000))
    × IsMerge sample_crypto sample_selector sample_signer sample_world
        (amount (nat 1000))
        priv
        merged
        (tx_of merged.outcome.posted)
unfolding assemble_value_tx is_zero_address text_eq select_verified sum_payments has
    session_exclusions keys verify_input_values lookup is_safe txid hb_fixed u64 val_uint64
    to_uint64 lower put op_key proportional_fee_cap sign_and_submit sighash addr_from_priv
    consolidate amount is_positive spendable_coins sort_coins add
consolidate-IsMerge_example =
    consolidate-IsMerge sample_crypto sample_selector sample_signer sample_world (nat 1000) priv
      merged (tx_of merged.outcome.posted) refl refl
