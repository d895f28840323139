-- ===== src/Fill/Lanes.antt =====
-- The lanes of a fill that attests the offer itself (src/core/fillpreflight.ts `csdLanePreflight`,
-- `tokenLanePreflight`, `offerExpiryRefusal`): the served offer against its proven record.
use cairn_wallet.Base.{
  ℕ, ◌+◌, ◌-◌, ◌*◌, Bool, true, false, ◌&&◌, ◌||◌, not, Option, none, some, List, [], ◌∷◌, max, ltb,
  leb, if◌then◌else◌,
}
use cairn_wallet.Base.Text.{Text, text_eq, lower}
use cairn_wallet.Js.{Num, nat, frac, inf}
use cairn_wallet.Spend.Outputs.{is_hex_text}
use cairn_wallet.Vault.Accounts.{decimal}
use cairn_wallet.Fill.{
  ServedOffer, ProvenTerms, ProvenOffer, ProvenReply, read_threw, unproven, not_admitted, proven,
  Market, TokenFillQuote, Verdict, threw, refused, proceeds, fill_unsafe, verify_unavailable,
  review_required,
}
use cairn_wallet.Fill.Sums.{is_underpaid}

-- `String(x ?? "")`
unfoldable pub text_of : Option Text → Text
text_of none = []
text_of (some t) = t

-- `x !== undefined`
unfoldable pub is_given : Option Text → Bool
is_given none = false
is_given (some t) = true

-- `n >= k`
unfoldable pub at_least : Num → ℕ → Bool
at_least (nat n) k = leb k n
at_least (frac negative t) k = not negative && leb k t
at_least (inf negative) k = not negative
at_least _ k = false

-- a decimal text as a number, from the digits before
whole_from : ℕ → Text → Option ℕ
whole_from acc [] = some acc
whole_from acc (c ∷ t) =
    let rest = whole_from (acc * 10 + (c - 48)) t in if leb b'0' c && leb c b'9' then rest else none

-- `BigInt(s)`, which is 0 of the empty text and throws on what is not a number; records hold decimal digits.
unfoldable pub big_int : Text → Option ℕ
unfolding whole_from
big_int = whole_from 0

module _ (market : Market) where
  -- `offerFillTooLate`
  unfoldable pub offer_fill_too_late : (expires_at tip : ℕ) → Bool
  offer_fill_too_late expires_at tip = ltb expires_at (tip + market.fill_tip_margin + 1)

  unfoldable pub is_expired_at : (at height : ℕ) → Option ℕ → Bool
  is_expired_at at height none = false
  is_expired_at at height (some e) =
      ltb 0 at && offer_fill_too_late (market.offer_expiry_height e height) at

  -- `offerExpiryRefusal`: whether it refuses
  unfoldable pub offer_expiry_refusal : (tip_floor : ℕ) → ProvenOffer → (tip : ℕ) → Bool
  unfolding is_expired_at offer_fill_too_late
  offer_expiry_refusal tip_floor p tip = is_expired_at (max tip tip_floor) p.height p.expires_epoch

  -- the check of the outputs against `requiredFillOutputs`: whether it refuses
  unfoldable pub need_refused : ServedOffer → (pay : ℕ) → (sums : List (Text × ℕ)) → Bool
  need_refused offer pay sums = elim (market.required_fill_outputs offer pay) [
    | none ↦ true
    | some need ↦ is_underpaid sums need
  ]

  -- `csdLanePreflight` past the read of the proof
  unfoldable pub csd_checked :
      (tip_floor : ℕ)
      → ServedOffer
      → (sums : List (Text × ℕ)) → (payto : Text) → (pay tip : ℕ) → ProvenReply
      → Verdict
  csd_checked tip_floor offer sums payto pay tip read_threw = threw
  csd_checked tip_floor offer sums payto pay tip not_admitted = refused fill_unsafe
  csd_checked tip_floor offer sums payto pay tip unproven = refused verify_unavailable
  csd_checked tip_floor offer sums payto pay tip (proven p) =
      if not (is_hex_text 40 p.payto && text_eq p.payto (lower p.payto))
        || not (is_hex_text 40 p.seller && text_eq p.seller (lower p.seller))
      then refused verify_unavailable
      else if offer_expiry_refusal tip_floor p tip
      then refused fill_unsafe
      else if not (is_given p.terms.value)
      then refused fill_unsafe
      else if not (text_eq payto p.payto) || not (text_eq (lower offer.seller) p.seller)
      then refused fill_unsafe
      else if market.bind_offer_terms offer p.terms
      then refused fill_unsafe
      else if need_refused offer pay sums
      then refused fill_unsafe
      else proceeds none

  -- the rate of the proven terms, or of the served height
  unfoldable pub quote_bps : ServedOffer → Option ℕ → ℕ
  unfolding at_least
  quote_bps offer (some bps) = bps
  quote_bps offer none =
      if at_least offer.height market.v16_height then market.fee_bps_v16 else market.fee_bps

  -- whether the fee and the total that were shown are not those of the proven amount
  unfoldable pub fee_refused : ServedOffer → ProvenTerms → TokenFillQuote → Bool
  unfolding text_of quote_bps big_int
  fee_refused offer t q = elim (big_int (text_of t.want_amount)) [
    | none ↦ true
    | some amount ↦
        let fee = market.cairnx_trade_fee amount (quote_bps offer t.fee_bps) in
        not (text_eq (text_of q.fee) (decimal fee))
        || not (text_eq (text_of q.total) (decimal (amount + fee)))
  ]

  -- whether the asset to receive was shown and is not the proven one
  unfoldable pub give_refused : ProvenTerms → TokenFillQuote → Bool
  unfolding text_of is_given
  give_refused t q =
      (is_given q.give_ticker || (is_given q.give_amount || is_given q.give_name))
      && (not (text_eq (text_of q.give_ticker) (text_of t.give_ticker))
          || (not (text_eq (text_of q.give_amount) (text_of t.give_amount))
              || not (text_eq (text_of q.give_name) (text_of t.give_name))))

  unfoldable pub is_reviewed : TokenFillQuote → Bool
  unfolding is_given
  is_reviewed q = is_given q.ticker && (is_given q.fee && is_given q.total)

  -- the checks of `tokenLanePreflight` on the reviewed quote
  unfoldable pub quote_checked : ServedOffer → ProvenTerms → Option TokenFillQuote → Verdict
  unfolding is_reviewed text_of fee_refused give_refused
  quote_checked offer t none = refused review_required
  quote_checked offer t (some q) =
      if not (is_reviewed q)
      then refused review_required
      else if not (text_eq (text_of q.ticker) (text_of t.want_ticker))
          || not (text_eq (text_of q.amount) (text_of t.want_amount))
      then refused fill_unsafe
      else if fee_refused offer t q
      then refused fill_unsafe
      else if give_refused t q
      then refused fill_unsafe
      else proceeds none

  -- `tokenLanePreflight` past the read of the proof
  unfoldable pub token_checked :
      (tip_floor : ℕ) → ServedOffer → (tip : ℕ) → Option TokenFillQuote → ProvenReply → Verdict
  unfolding quote_checked
  token_checked tip_floor offer tip quote read_threw = threw
  token_checked tip_floor offer tip quote not_admitted = refused fill_unsafe
  token_checked tip_floor offer tip quote unproven = refused verify_unavailable
  token_checked tip_floor offer tip quote (proven p) =
      if offer_expiry_refusal tip_floor p tip
      then refused fill_unsafe
      else if market.bind_offer_terms offer p.terms
      then refused fill_unsafe
      else quote_checked offer p.terms quote

  -- `tokenLanePreflight`; a token fill moves no CSD.
  unfoldable pub token_lane :
      (tip_floor : ℕ)
      → ServedOffer
      → (sums : List (Text × ℕ)) → (tip : ℕ) → Option TokenFillQuote
      → ProvenReply
      → Verdict
  unfolding token_checked
  token_lane tip_floor offer [] tip quote reply = token_checked tip_floor offer tip quote reply
  token_lane tip_floor offer (s ∷ sums) tip quote reply = refused fill_unsafe
