-- ===== src/Fill.antt =====
-- The fill of a market offer (src/core/fillpreflight.ts): what the check before a fill reads, and what it answers.
pub mod Sums
pub mod Lanes
pub mod Reserved
pub mod Preflight
pub mod Backed
pub mod Flow
use cairn_wallet.Base.{ℕ, Bool, Option, List}
use cairn_wallet.Base.Text.{Text}
use cairn_wallet.Js.{Num}
use cairn_wallet.CrossCheck
use cairn_wallet.CrossCheck.{Amount, Unanswered}

-- The resolver's record of an offer: the fields that the wallet reads, and in `rest` those that only the vendored
-- functions read. `payto` is `want.payto`, empty where it is absent, and `token_want` whether `want` has a ticker.
pub record ServedOffer : Type 0 where
  pub id : Text
  pub status : Option Text
  pub payto : Text
  pub token_want : Bool
  pub seller : Text
  pub has_taker : Bool
  pub has_claim_txid : Bool
  pub height : Num
  pub paid : Amount
  pub delivered : Amount
  pub rest : Text

-- The terms that the vendored `provenOfferTerms` mints from a proven record; `fee_bps` is `none` where it is not finite.
pub record ProvenTerms : Type 0 where
  pub value : Option Text
  pub want_ticker : Option Text
  pub want_amount : Option Text
  pub give_ticker : Option Text
  pub give_amount : Option Text
  pub give_name : Option Text
  pub fee_bps : Option ℕ
  pub rest : Text

-- `expires_epoch` is `none` where it is not finite.
pub record ProvenOffer : Type 0 where
  pub payto : Text
  pub seller : Text
  pub terms : ProvenTerms
  pub expires_epoch : Option ℕ
  pub height : ℕ

-- What the proof of an offer's author gives; the read may also throw.
pub data ProvenReply : Type 0 where
  read_threw unproven not_admitted : ProvenReply
  proven : ProvenOffer → ProvenReply

pub record ProvenEvent : Type 0 where
  pub is_propose : Bool
  pub expires_epoch : ℕ
  pub height : ℕ

-- The proof source of a reservation. `my_live_holds_at_grant` is `none` where it is no integer, and `evidence` stands
-- for the events that the vendored replay reads through it.
pub record FillSpvIo : Type 0 where
  pub my_live_holds_at_grant : Option ℕ
  pub proven_terms : Option ProvenTerms
  pub tip_floored : Bool
  pub proven_event : Text → Option ProvenEvent
  pub evidence : Text

pub data SpvReply : Type 0 where
  offer_refused body_mismatch unavailable : SpvReply
  source : FillSpvIo → SpvReply

-- the verdict of the vendored replay
pub data FillVerdict : Type 0 where
  replay_threw safe : FillVerdict
  not_safe : (reason : Text) → FillVerdict

-- The vendored market rules. `bind_offer_terms` is true where the served offer differs from the proven terms.
pub record Market : Type 0 where
  pub fill_is_safe : ServedOffer → (me : Text) → (pay tip : ℕ) → Bool
  pub is_open_claim_lane : ServedOffer → (tip : ℕ) → Bool
  pub has_live_claim : ServedOffer → (me : Text) → (tip : ℕ) → Bool
  pub required_fill_outputs : ServedOffer → (pay : ℕ) → Option (List (Text × ℕ))
  pub bind_offer_terms : ServedOffer → ProvenTerms → Bool
  pub verify_fill_spv :
      (offer_id fclaim_txid me : Text)
      → FillSpvIo
      → (holds pay : ℕ) → (sums : List (Text × ℕ)) → FillVerdict
  pub cairnx_trade_fee : (amount bps : ℕ) → ℕ
  pub fclaim_hold_end : (expires_epoch : ℕ) → ℕ
  pub offer_expiry_height : (expires_epoch height : ℕ) → ℕ
  pub fill_tip_margin : ℕ
  pub v16_height : ℕ
  pub v28_height : ℕ
  pub claim_window_blocks : ℕ
  pub claim_fill_grace_blocks : ℕ
  pub fee_bps : ℕ
  pub fee_bps_v16 : ℕ

-- The answer of the resolver to the read of the offer: `body` is `none` where it is no JSON object.
pub data OfferReply : Type 0 where
  unreachable : OfferReply
  answered : (is_ok : Bool) (status : ℕ) (body : Option ServedOffer) → OfferReply

-- the second source's read of the offer
pub data OfferAnswer : Type 0 where
  pending failed : OfferAnswer
  answered : (is_ok : Bool) (body : Option CrossCheck.Offer) → OfferAnswer

-- What the reads of one preflight give. The floor of the tip is read twice.
pub record Reads : Type 0 where
  pub offer : OfferReply
  pub tip : Option ℕ
  pub tip_floor : ℕ
  pub tip_floor_later : ℕ
  pub proven_offer : (offer_id : Text) → (offer_height : Num) → ProvenReply
  pub fill_spv : (offer_id fclaim_txid me : Text) → (offer_height : Num) → SpvReply
  pub second_offer : OfferAnswer
  pub second_record : CrossCheck.Answer

-- The token debit that the approval window showed.
pub record TokenFillQuote : Type 0 where
  pub ticker : Option Text
  pub amount : Option Text
  pub fee : Option Text
  pub total : Option Text
  pub give_ticker : Option Text
  pub give_amount : Option Text
  pub give_name : Option Text

pub data Refusal : Type 0 where
  bad_request bad_outputs fill_unsafe fill_wrong_target fill_legacy_sunset : Refusal
  verify_unavailable offer_unknown rpc_block_mismatch review_required : Refusal
  offer_source_conflict reservation_denied account_changed : Refusal
  reservation_unconfirmed : (fclaim_txid : Text) (fclaim_height tip_height : ℕ) → Refusal

-- `proceeds` carries the note on the second source.
pub data Verdict : Type 0 where
  threw : Verdict
  refused : Refusal → Verdict
  proceeds : Option Unanswered → Verdict
