-- ===== src/Tests/Fills.antt =====
-- Fills of offers on a concrete market (src/core/fillpreflight.ts, src/core/wallet.ts).
use cairn_wallet.Base.{◌+◌, ◌≡◌, refl, true, false, Option, none, some, List, [], ◌∷◌, ◌++◌}
use cairn_wallet.Base.Text.{Text, codes, text_eq, lower}
use cairn_wallet.Base.Eq.{has, keys, lookup, put}
use cairn_wallet.Js.{nat, is_safe, is_positive, is_negative, val_uint64, to_uint64, to_uint32}
use cairn_wallet.Codec.{Tx, txid, sighash, hb_fixed, u64}
use cairn_wallet.Spend.Coins.{op_key}
use cairn_wallet.Spend.Select.{select_verified}
use cairn_wallet.Spend.Session.{session_exclusions}
use cairn_wallet.Spend.Verify.{verify_input_values}
use cairn_wallet.Spend.Submit.{sign_and_submit, addr_from_priv}
use cairn_wallet.Spend.Outputs.{
  Payout, validate_outputs, is_hex_text, amount, payments, is_zero_address, sum_payments,
}
use cairn_wallet.Spend.Assemble.{proportional_fee_cap, assemble_value_tx}
use cairn_wallet.Spend.Flows
use cairn_wallet.CrossCheck
use cairn_wallet.CrossCheck.{
  reservation_record_verdict, second_source_offer_conflict, second_source_unanswered, still_pending,
}
use cairn_wallet.History.Record.Definite.{works}
use cairn_wallet.History.{History}
use cairn_wallet.Vault.State.{Acct, Memory}
use cairn_wallet.Vault.Accounts.{capture_signer, signer_unchanged, same_addr, decimal}
use cairn_wallet.Fill.{
  ServedOffer, ProvenTerms, ProvenOffer, ProvenEvent, FillSpvIo, proven, source, safe, unproven,
  Market, OfferReply, Reads, Verdict, TokenFillQuote, proceeds, refused, fill_wrong_target,
  fill_legacy_sunset, reservation_unconfirmed, verify_unavailable,
}
use cairn_wallet.Fill.Sums.{is_underpaid, sums_from}
use cairn_wallet.Fill.Lanes.{offer_expiry_refusal, need_refused, fee_refused, give_refused}
use cairn_wallet.Fill.Preflight.{sunset, fill_offer_preflight}
use cairn_wallet.Fill.Backed.Whole.{IsBacked, fill_offer_preflight-IsBacked}
use cairn_wallet.Fill.Flow.{
  FillRequest, Filing, FlowRules, fill_offer, attest, expect_signer_refusal, is_bad_score,
  fill_confidence, or_else,
}
use cairn_wallet.Fill.Flow.Safe.{posted_by, IsSafeFill, fill_offer-IsSafeFill, attest-IsSafeFill}
use cairn_wallet.Tests.Sample.{
  copies, sample_crypto, sample_selector, sample_signer, sample_world, priv, address, source_tx,
}

abbrev market : Market
market = record {
  fill_is_safe = λ offer me pay tip. true;
  is_open_claim_lane = λ offer tip. true;
  has_live_claim = λ offer me tip. true;
  required_fill_outputs = λ offer pay. some ((address, 600000000) ∷ []);
  bind_offer_terms = λ offer terms. false;
  verify_fill_spv = λ offer_id fclaim_txid me io holds pay sums. safe;
  cairnx_trade_fee = λ amount bps. amount;
  fclaim_hold_end = λ epoch. epoch + 60000;
  offer_expiry_height = λ epoch height. epoch + 60000;
  fill_tip_margin = 2;
  v16_height = 100;
  v28_height = 60000;
  claim_window_blocks = 30;
  claim_fill_grace_blocks = 15;
  fee_bps = 100;
  fee_bps_v16 = 150;
}

abbrev id_64 : Text
id_64 = codes "0x" ++ copies 64 b'c'

abbrev fclaim : Text
fclaim = codes "0x" ++ copies 64 b'd'

abbrev offer : ServedOffer
offer = record {
  id = id_64;
  status = some (codes "open");
  payto = address;
  token_want = false;
  seller = address;
  has_taker = false;
  has_claim_txid = false;
  height = nat 40000;
  paid = CrossCheck.Amount.absent;
  delivered = CrossCheck.Amount.absent;
  rest = [];
}

abbrev terms : ProvenTerms
terms = record {
  value = some (codes "600000000");
  want_ticker = none;
  want_amount = none;
  give_ticker = none;
  give_amount = none;
  give_name = none;
  fee_bps = none;
  rest = [];
}

abbrev proven_offer : ProvenOffer
proven_offer = record {
  payto = address;
  seller = address;
  terms = terms;
  expires_epoch = some 3000;
  height = 40000;
}

abbrev hold : ProvenEvent
hold = record { is_propose = true; expires_epoch = 2100; height = 49990 }

abbrev proof : FillSpvIo
proof = record {
  my_live_holds_at_grant = some 0;
  proven_terms = some terms;
  tip_floored = false;
  proven_event = λ id. some hold;
  evidence = [];
}

abbrev reads : Reads
reads = record {
  offer = OfferReply.answered true 200 (some offer);
  tip = some 50000;
  tip_floor = 49000;
  tip_floor_later = 49000;
  proven_offer = λ id height. proven proven_offer;
  fill_spv = λ id fclaim_txid me height. source proof;
  second_offer = cairn_wallet.Fill.OfferAnswer.pending;
  second_record = CrossCheck.Answer.pending;
}

abbrev payouts : List Payout
payouts =
    record { to = address; value = nat 300000000 }
    ∷ record { to = address; value = nat 400000000 }
    ∷ []

-- The payments of one address are summed.
direct_proceeds : fill_offer_preflight market reads address payouts none none id_64 ≡ proceeds none
unfolding fill_offer_preflight sunset offer_expiry_refusal need_refused is_underpaid is_hex_text
    text_eq lower sums_from put lookup is_safe is_positive amount
direct_proceeds = refl

-- A floor past the sunset refuses, whatever the node's tip.
floor_refuses :
    fill_offer_preflight market (record reads { tip_floor = 60045 }) address payouts none none id_64
    ≡ refused fill_legacy_sunset
unfolding fill_offer_preflight sunset offer_expiry_refusal need_refused is_underpaid is_hex_text
    text_eq lower sums_from put lookup is_safe is_positive amount
floor_refuses = refl

reserved_proceeds :
    fill_offer_preflight market reads address payouts none none fclaim
    ≡ proceeds (some still_pending)
unfolding fill_offer_preflight sunset offer_expiry_refusal need_refused is_underpaid is_hex_text
    text_eq lower sums_from put lookup is_safe is_positive amount second_source_offer_conflict
    reservation_record_verdict second_source_unanswered
reserved_proceeds = refl

-- The second source has read 12 blocks past the reservation and has no record of it.
abbrev unaware : Reads
unaware = record reads {
  second_record =
      CrossCheck.Answer.answered 404
        (some (record { is_fclaim = false; denied = false; txid = none; tip_height = some 50002 }));
}

unknown_asks :
    fill_offer_preflight market unaware address payouts none none fclaim
    ≡ refused (reservation_unconfirmed fclaim 49990 50002)
unfolding fill_offer_preflight sunset offer_expiry_refusal need_refused is_underpaid is_hex_text
    text_eq lower sums_from put lookup is_safe is_positive amount second_source_offer_conflict
    reservation_record_verdict second_source_unanswered
unknown_asks = refl

acknowledged_proceeds :
    fill_offer_preflight market unaware address payouts none (some fclaim) fclaim ≡ proceeds none
unfolding fill_offer_preflight sunset offer_expiry_refusal need_refused is_underpaid is_hex_text
    text_eq lower sums_from put lookup is_safe is_positive amount second_source_offer_conflict
    reservation_record_verdict second_source_unanswered
acknowledged_proceeds = refl

fill_offer_preflight-IsBacked_example :
    (is_hex_text 64 id_64 ≡ true) × IsBacked market reads address payouts none none id_64
fill_offer_preflight-IsBacked_example =
    fill_offer_preflight-IsBacked market reads address payouts none none none id_64 direct_proceeds

abbrev account : Acct
account = record {
  keys = record { privkey = priv; pubkey = []; addr = address };
  label = codes "Main";
  index = none;
  imported = true;
}

abbrev memory : Memory
memory = record {
  accts = some (account ∷ []);
  active = 0;
  vault_key = none;
  salt = [];
  iter = 0;
  mnemonic = none;
  next_index = 0;
  last_active = 0;
  wiped = false;
}

abbrev rules : FlowRules
rules = record { score_fill = 100; conf_token_fill = 95; min_fee_attest = 5000000 }

abbrev filing : Filing
filing = record { unlocked = true; wiped = false; disk1 = works; disk2 = works; now = 7 }

abbrev request : FillRequest
request = record {
  proposal_id = id_64;
  score = none;
  confidence = none;
  outputs = payouts;
  fee = none;
  expect_signer = some address;
  token_quote = none;
  reservation_ack = none;
}

abbrev nothing : History
nothing = record { stored = []; parked = [] }

abbrev tx_of : Option Tx → Tx
tx_of none = source_tx
tx_of (some tx) = tx

abbrev filled : Option Tx
filled =
    posted_by
      (fill_offer sample_crypto sample_selector sample_signer sample_world market rules reads filing
        memory memory request nothing).0

fill_offer-IsSafeFill_example :
    IsSafeFill sample_crypto sample_selector sample_signer sample_world market rules reads filing
      memory memory request
      (tx_of filled)
unfolding fill_offer posted_by expect_signer_refusal is_bad_score fill_offer_preflight sunset
    offer_expiry_refusal need_refused is_underpaid is_hex_text text_eq lower sums_from put lookup
    is_safe is_positive amount capture_signer signer_unchanged same_addr assemble_value_tx
    is_zero_address select_verified sum_payments has session_exclusions keys verify_input_values
    txid hb_fixed u64 val_uint64 to_uint64 op_key proportional_fee_cap sign_and_submit sighash
    addr_from_priv Flows.fill_offer is_negative validate_outputs payments to_uint32
fill_offer-IsSafeFill_example =
    fill_offer-IsSafeFill sample_crypto sample_selector sample_signer sample_world market rules
      reads filing memory memory request nothing (tx_of filled) refl

-- An offer of a name for 8 RAIN.
abbrev token_reads : Reads
token_reads = record reads {
  offer = OfferReply.answered true 200 (some (record offer { token_want = true }));
  proven_offer = λ id height. proven (record proven_offer {
    terms = record terms {
      value = none;
      want_ticker = some (codes "RAIN");
      want_amount = some (codes "8");
      give_name = some (codes "rain");
    };
  });
}

abbrev shown : TokenFillQuote
shown = record {
  ticker = some (codes "RAIN");
  amount = some (codes "8");
  fee = some (codes "8");
  total = some (codes "16");
  give_ticker = none;
  give_amount = none;
  give_name = some (codes "rain");
}

-- The payouts that the request names are not paid.
abbrev token_request : FillRequest
token_request = record request { confidence = some (nat 95); token_quote = some shown }

abbrev attested : Option Tx
attested =
    posted_by
      (attest sample_crypto sample_selector sample_signer sample_world market rules token_reads
        filing memory memory token_request nothing).0

attest-IsSafeFill_example :
    IsSafeFill sample_crypto sample_selector sample_signer sample_world market rules token_reads
      filing memory memory
      (record token_request { outputs = []; reservation_ack = none })
      (tx_of attested)
unfolding attest fill_confidence or_else fill_offer posted_by expect_signer_refusal is_bad_score
    fill_offer_preflight sunset offer_expiry_refusal fee_refused give_refused decimal is_hex_text
    text_eq lower sums_from put lookup is_safe is_positive amount capture_signer signer_unchanged
    same_addr assemble_value_tx is_zero_address select_verified sum_payments has session_exclusions
    keys verify_input_values txid hb_fixed u64 val_uint64 to_uint64 op_key proportional_fee_cap
    sign_and_submit sighash addr_from_priv Flows.fill_offer is_negative validate_outputs payments
    to_uint32
attest-IsSafeFill_example =
    attest-IsSafeFill sample_crypto sample_selector sample_signer sample_world market rules
      token_reads filing memory memory token_request nothing (tx_of attested) refl refl
