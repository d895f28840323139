-- ===== src/Fill/Backed/Offer.antt =====
-- The lanes that attest the offer: what a fill that passes them rests on (src/core/fillpreflight.ts `csdLanePreflight`,
-- `tokenLanePreflight`).
use cairn_wallet.Base.{
  ℕ, ◌+◌, ◌≡◌, refl, inl, inr, true, false, ◌||◌, not, Option, none, some, List, [], ◌∷◌, max,
  arith, Option-cases,
}
use cairn_wallet.Base.Text.{Text, text_eq, lower}
use cairn_wallet.Spend.Outputs.{Payout}
use cairn_wallet.Vault.Accounts.{decimal}
use cairn_wallet.CrossCheck.{Unanswered}
use cairn_wallet.Fill.{
  ServedOffer, ProvenTerms, ProvenOffer, ProvenReply, read_threw, unproven, not_admitted, proven,
  Market, TokenFillQuote, proceeds,
}
use cairn_wallet.Fill.Sums.{sum_at, sums_from, sums_from-nil}
use cairn_wallet.Fill.Lanes.{
  text_of, is_given, big_int, csd_checked, quote_bps, fee_refused, give_refused, quote_checked,
  token_checked, token_lane,
}
use cairn_wallet.Fill.Backed.{
  IsWellPaid, IsInTime, past_refusal, not-false, ||-false, eq_of_not_eq, need_refused-IsWellPaid,
  offer_expiry_refusal-IsInTime,
}

-- The served recipient and the seller are those of the proven offer, which is priced in CSD, binds the served terms and
-- can be mined in time, and every required leg is paid.
pub record IsAuthored (market : Market) (offer : ServedOffer) (outputs : List Payout) (pay at : ℕ)
    (reply : ProvenReply) : Type 0 where
  pub record_ : ProvenOffer
  pub is_proven : reply ≡ proven record_
  pub same_payto : lower offer.payto ≡ record_.payto
  pub same_seller : lower offer.seller ≡ record_.seller
  pub is_priced : is_given record_.terms.value ≡ true
  pub is_bound : market.bind_offer_terms offer record_.terms ≡ false
  pub in_time : IsInTime market at record_
  pub well_paid : IsWellPaid market offer outputs pay

-- The debit that the user reviewed is that of the proven offer: the want, the fee at the rate of the proven terms, and
-- the total; and what was shown of the give is the proven give.
pub record IsReviewed (market : Market) (offer : ServedOffer) (t : ProvenTerms) (q : TokenFillQuote)
    : Type 0 where
  pub same_ticker : text_of q.ticker ≡ text_of t.want_ticker
  pub same_amount : text_of q.amount ≡ text_of t.want_amount
  pub amount : ℕ
  pub is_amount : big_int (text_of t.want_amount) ≡ some amount
  pub same_fee :
      text_of q.fee ≡ decimal (market.cairnx_trade_fee amount (quote_bps market offer t.fee_bps))
  pub same_total :
      text_of q.total
      ≡ decimal (amount + market.cairnx_trade_fee amount (quote_bps market offer t.fee_bps))
  pub same_give :
      (is_given q.give_ticker || (is_given q.give_amount || is_given q.give_name)) ≡ true
      → (text_of q.give_ticker ≡ text_of t.give_ticker)
        × (text_of q.give_amount ≡ text_of t.give_amount)
        × (text_of q.give_name ≡ text_of t.give_name)

-- A fill in tokens moves no CSD, binds the served terms to the proven ones, and was reviewed.
pub record IsTokenOnly (market : Market) (offer : ServedOffer) (outputs : List Payout)
    (quote : Option TokenFillQuote) (at : ℕ) (reply : ProvenReply) : Type 0 where
  pub record_ : ProvenOffer
  pub is_proven : reply ≡ proven record_
  pub no_outputs : outputs ≡ []
  pub is_bound : market.bind_offer_terms offer record_.terms ≡ false
  pub in_time : IsInTime market at record_
  pub shown : TokenFillQuote
  pub is_shown : quote ≡ some shown
  pub reviewed : IsReviewed market offer record_.terms shown

module _ (market : Market) (offer : ServedOffer) (outputs : List Payout) (tip_floor tip : ℕ)
    (n : Option Unanswered) where
  pub csd_checked-IsAuthored :
      (sums : List (Text × ℕ)) (reply : ProvenReply)
      → sums_from [] outputs ≡ some sums
      → csd_checked market tip_floor offer sums
          (lower offer.payto)
          (sum_at (lower offer.payto) sums)
          tip
          reply
        ≡ proceeds n
      → IsAuthored market offer outputs (sum_at (lower offer.payto) sums) (max tip tip_floor) reply
  unfolding csd_checked
  csd_checked-IsAuthored sums read_threw s h = absurd (cc)
  csd_checked-IsAuthored sums unproven s h = absurd (cc)
  csd_checked-IsAuthored sums not_admitted s h = absurd (cc)
  csd_checked-IsAuthored sums (proven p) s h =
      let (a, h1) = past_refusal _ _ _ n h in
      let (b, h2) = past_refusal _ _ _ n h1 in
      let (c, h3) = past_refusal _ _ _ n h2 in
      let (d, h4) = past_refusal _ _ _ n h3 in
      let (e, h5) = past_refusal _ _ _ n h4 in
      let (f, h6) = past_refusal _ _ _ n h5 in
      let (d0, d1) = ||-false _ _ d in
      record {
        record_ = p;
        is_proven = refl;
        same_payto = eq_of_not_eq _ _ d0;
        same_seller = eq_of_not_eq _ _ d1;
        is_priced = not-false _ c;
        is_bound = e;
        in_time = offer_expiry_refusal-IsInTime market tip_floor tip p b;
        well_paid = need_refused-IsWellPaid market offer outputs sums s f;
      }

  fee_refused-same :
      (t : ProvenTerms) (q : TokenFillQuote)
      → fee_refused market offer t q ≡ false
      → text_of q.ticker ≡ text_of t.want_ticker
      → text_of q.amount ≡ text_of t.want_amount
      → give_refused market t q ≡ false
      → IsReviewed market offer t q
  unfolding fee_refused give_refused
  fee_refused-same t q h k a g = elim (Option-cases (big_int (text_of t.want_amount))) [
    | inl e ↦ absurd (ground (arith, e, h))
    | inr (amount, e) ↦
        let fee = market.cairnx_trade_fee amount (quote_bps market offer t.fee_bps) in
        let (x, y) =
          ||-false (not (text_eq (text_of q.fee) (decimal fee)))
            (not (text_eq (text_of q.total) (decimal (amount + fee)))) (ground (arith, e, h)) in
        record {
          same_ticker = k;
          same_amount = a;
          amount = amount;
          is_amount = e;
          same_fee = eq_of_not_eq _ _ x;
          same_total = eq_of_not_eq _ _ y;
          same_give = λ shown.
              let (u, v) = ||-false _ _ (ground (arith, g, shown)) in
              let (v0, v1) = ||-false _ _ v in
              (eq_of_not_eq _ _ u, eq_of_not_eq _ _ v0, eq_of_not_eq _ _ v1);
        }
  ]

  quote_checked-IsReviewed :
      (t : ProvenTerms) (o : Option TokenFillQuote)
      → quote_checked market offer t o ≡ proceeds n
      → (q : TokenFillQuote) × (o ≡ some q) × IsReviewed market offer t q
  unfolding quote_checked
  quote_checked-IsReviewed t none h = absurd (cc)
  quote_checked-IsReviewed t (some q) h =
      let (a, h1) = past_refusal _ _ _ n h in
      let (b, h2) = past_refusal _ _ _ n h1 in
      let (c, h3) = past_refusal _ _ _ n h2 in
      let (d, h4) = past_refusal _ _ _ n h3 in
      let (b0, b1) = ||-false _ _ b in
      (q, refl, fee_refused-same t q c (eq_of_not_eq _ _ b0) (eq_of_not_eq _ _ b1) d)

  token_checked-IsTokenOnly :
      (quote : Option TokenFillQuote) (reply : ProvenReply)
      → outputs ≡ []
      → token_checked market tip_floor offer tip quote reply ≡ proceeds n
      → IsTokenOnly market offer outputs quote (max tip tip_floor) reply
  unfolding token_checked
  token_checked-IsTokenOnly quote read_threw s h = absurd (cc)
  token_checked-IsTokenOnly quote unproven s h = absurd (cc)
  token_checked-IsTokenOnly quote not_admitted s h = absurd (cc)
  token_checked-IsTokenOnly quote (proven p) s h =
      let (a, h1) = past_refusal _ _ _ n h in
      let (b, h2) = past_refusal _ _ _ n h1 in
      let (q, e, r) = quote_checked-IsReviewed p.terms quote h2 in
      record {
        record_ = p;
        is_proven = refl;
        no_outputs = s;
        is_bound = b;
        in_time = offer_expiry_refusal-IsInTime market tip_floor tip p a;
        shown = q;
        is_shown = e;
        reviewed = r;
      }

  pub token_lane-IsTokenOnly :
      (quote : Option TokenFillQuote) (sums : List (Text × ℕ)) (reply : ProvenReply)
      → sums_from [] outputs ≡ some sums
      → token_lane market tip_floor offer sums tip quote reply ≡ proceeds n
      → IsTokenOnly market offer outputs quote (max tip tip_floor) reply
  unfolding token_lane
  token_lane-IsTokenOnly quote [] reply s h =
      token_checked-IsTokenOnly quote reply (sums_from-nil outputs s) h
  token_lane-IsTokenOnly quote (x ∷ sums) reply s h = absurd (cc)
