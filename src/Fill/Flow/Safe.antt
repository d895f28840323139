-- ===== src/Fill/Flow/Safe.antt =====
-- What a posted fill rests on (src/core/wallet.ts `fillOffer`, `attest`).
use cairn_wallet.Base.{
  ℕ, ◌≡◌, ◌⊎◌, refl, inl, inr, ap, ◌∙◌, sym, subst, Bool, true, false, Option, none, some, [], ◌∷◌,
  ◌==◌, arith, if◌then◌else◌,
}
use mathlib.Core.Option.{some-injective}
use cairn_wallet.Base.Text.{Text, eq_of_text_eq, lower}
use cairn_wallet.Js.{Num, nat, num, to_uint32}
use cairn_wallet.Codec
use cairn_wallet.Codec.{Crypto, Tx}
use cairn_wallet.Spend.Coins.{Selector}
use cairn_wallet.Spend.Submit.{Signer, Outcome}
use cairn_wallet.Spend.Assemble.{World}
use cairn_wallet.Spend.Flows
use cairn_wallet.Spend.Flows.Safe.{IsRequest, fill_offer_safe}
use cairn_wallet.CrossCheck.{Unanswered}
use cairn_wallet.History.{History}
use cairn_wallet.Vault.{Result, ok, err}
use cairn_wallet.Vault.State.{Memory}
use cairn_wallet.Vault.Accounts.{SignerCtx, capture_signer, signer_unchanged}
use cairn_wallet.Fill.{Market, Reads, Refusal, Verdict, proceeds}
use cairn_wallet.Fill.Preflight.{fill_offer_preflight}
use cairn_wallet.Fill.Backed.{not-false}
use cairn_wallet.Fill.Backed.Whole.{IsBacked, fill_offer_preflight-IsBacked}
use cairn_wallet.Fill.Flow.{
  FillRequest, Filing, FillAnswer, failed, threw, refused, submitted, FlowRules,
  expect_signer_refusal, is_bad_score, with_note, fill_fee, fill_confidence, fill_submitted,
  fill_signed, fill_captured, fill_offer, attest_captured, attest,
}

-- The transaction that a fill posted.
unfoldable pub posted_by : FillAnswer → Option Tx
posted_by (failed cause) = none
posted_by threw = none
posted_by (refused r) = none
posted_by (submitted o notice) = o.posted

module _ (crypto : Crypto) (sel : Selector) (signer : Signer) (world : World) (market : Market)
    (rules : FlowRules) (reads : Reads) (filing : Filing) where
  -- The account that signs is the one that was active at the call, that the caller displayed, that the preflight
  -- validated, and that is still active; the score is the required one, and the transaction is a spend of exactly the
  -- request's outputs with the attestation of its target.
  pub record IsSafeFill (before after : Memory) (p : FillRequest) (tx : Tx) : Type 0 where
    pub ctx : SignerCtx
    pub is_captured : capture_signer before ≡ ok ctx
    pub is_displayed : (t : Text) → p.expect_signer ≡ some t → (t ≡ []) ⊎ (lower t ≡ lower ctx.addr)
    pub is_unchanged : signer_unchanged ctx after ≡ true
    pub good_score : (s : Num) → p.score ≡ some s → to_uint32 s ≡ rules.score_fill
    pub backed :
        IsBacked market reads ctx.addr p.outputs p.token_quote p.reservation_ack p.proposal_id
    pub request :
        IsRequest crypto sel signer world p.outputs 100
          (Codec.App.attest p.proposal_id
            (num (nat (to_uint32 (nat rules.score_fill))))
            (num (nat (to_uint32 (nat (fill_confidence rules p))))))
          (fill_fee rules p)
          ctx.priv
          tx

  expect_signer_refusal-eq :
      (o : Option Text) (actual : Text)
      → expect_signer_refusal o actual ≡ false
      → (t : Text) → o ≡ some t
      → (t ≡ []) ⊎ (lower t ≡ lower actual)
  unfolding expect_signer_refusal
  expect_signer_refusal-eq none actual h t e = absurd (cc)
  expect_signer_refusal-eq (some []) actual h t e = inl (sym (some-injective _ _ e))
  expect_signer_refusal-eq (some (c ∷ s)) actual h t e =
      inr (ap lower (sym (some-injective _ _ e)) ∙ eq_of_text_eq _ _ (not-false _ h))

  is_bad_score-eq :
      (k : ℕ) (o : Option Num) → is_bad_score k o ≡ false → (s : Num) → o ≡ some s → to_uint32 s ≡ k
  unfolding is_bad_score
  is_bad_score-eq k none h s e = absurd (cc)
  is_bad_score-eq k (some n) h s e = ground (arith, h, ap to_uint32 (some-injective _ _ e))

  -- past a refusal of the wallet
  past_turn :
      (b : Bool) (r : Refusal) (rest : FillAnswer × History) (h : History) (tx : Tx)
      → posted_by (if b then (refused r, h) else rest).0 ≡ some tx
      → (b ≡ false) × (posted_by rest.0 ≡ some tx)
  unfolding posted_by
  past_turn true r rest h tx e = absurd (cc)
  past_turn false r rest h tx e = (refl, e)

  fill_submitted-request :
      (ctx : SignerCtx) (p : FillRequest) (n : Option Unanswered) (h : History) (tx : Tx)
      (r : Option Outcome)
      → (Flows.fill_offer crypto sel signer world p.proposal_id
          (nat rules.score_fill)
          (nat (fill_confidence rules p))
          p.outputs
          (fill_fee rules p)
          ctx.priv).0
        ≡ r
      → posted_by (fill_submitted rules filing ctx p n r h).0 ≡ some tx
      → IsRequest crypto sel signer world p.outputs 100
          (Codec.App.attest p.proposal_id
            (num (nat (to_uint32 (nat rules.score_fill))))
            (num (nat (to_uint32 (nat (fill_confidence rules p))))))
          (fill_fee rules p)
          ctx.priv
          tx
  unfolding fill_submitted posted_by with_note
  fill_submitted-request ctx p n h tx none f e = absurd (cc)
  fill_submitted-request ctx p n h tx (some o) f e =
      (fill_offer_safe crypto sel signer world p.proposal_id (nat rules.score_fill)
        (nat (fill_confidence rules p)) p.outputs (fill_fee rules p) ctx.priv o tx f e).1

  module _ (before after : Memory) (p : FillRequest) (h : History) (tx : Tx) where
    fill_signed-IsSafeFill :
        (ctx : SignerCtx) (v : Verdict)
        → capture_signer before ≡ ok ctx
        → expect_signer_refusal p.expect_signer ctx.addr ≡ false
        → is_bad_score rules.score_fill p.score ≡ false
        → fill_offer_preflight market reads ctx.addr p.outputs p.token_quote p.reservation_ack
            p.proposal_id
          ≡ v
        → posted_by
            (fill_signed crypto sel signer world market rules reads filing ctx p after v h).0
          ≡ some tx
        → IsSafeFill before after p tx
    unfolding fill_signed posted_by
    fill_signed-IsSafeFill ctx Verdict.threw c x s f e = absurd (cc)
    fill_signed-IsSafeFill ctx (Verdict.refused r) c x s f e = absurd (cc)
    fill_signed-IsSafeFill ctx (proceeds n) c x s f e =
        let (a, e1) = past_turn _ _ _ h tx e in
        record {
          ctx = ctx;
          is_captured = c;
          is_displayed = expect_signer_refusal-eq p.expect_signer ctx.addr x;
          is_unchanged = not-false _ a;
          good_score = is_bad_score-eq rules.score_fill p.score s;
          backed =
              (fill_offer_preflight-IsBacked market reads ctx.addr p.outputs p.token_quote
                p.reservation_ack n p.proposal_id f).1;
          request = fill_submitted-request ctx p n h tx _ refl e1;
        }

    fill_captured-IsSafeFill :
        (r : Result SignerCtx)
        → capture_signer before ≡ r
        → posted_by (fill_captured crypto sel signer world market rules reads filing r p after h).0
          ≡ some tx
        → IsSafeFill before after p tx
    unfolding fill_captured posted_by
    fill_captured-IsSafeFill (err x) c e = absurd (cc)
    fill_captured-IsSafeFill (ok ctx) c e =
        let (a, e1) = past_turn _ _ _ h tx e in
        let (b, e2) = past_turn _ _ _ h tx e1 in fill_signed-IsSafeFill ctx _ c a b refl e2

    -- A fill posts a transaction only signed by the account that was active at the call, that the caller displayed, if it
    -- named one, that the preflight validated, and that was still active after the preflight's reads; the preflight's
    -- proofs stand for the outputs, the score given, if one was, is the required one, and the transaction is a spend of
    -- exactly the outputs with the attestation of the target.
    pub fill_offer-IsSafeFill :
        posted_by (fill_offer crypto sel signer world market rules reads filing before after p h).0
          ≡ some tx
        → IsSafeFill before after p tx
    unfolding fill_offer
    fill_offer-IsSafeFill e = fill_captured-IsSafeFill (capture_signer before) refl e

  -- An attestation at the confidence of a token fill posts a transaction only as a fill with no outputs and no
  -- acknowledgement: with every guard and proof of a fill, whatever payments the request names.
  pub attest-IsSafeFill :
      (before after : Memory) (p : FillRequest) (h : History) (tx : Tx)
      → fill_confidence rules p ≡ rules.conf_token_fill
      → posted_by (attest crypto sel signer world market rules reads filing before after p h).0
        ≡ some tx
      → IsSafeFill before after (record p { outputs = []; reservation_ack = none }) tx
  unfolding attest
  attest-IsSafeFill before after p h tx c e =
      let same : (fill_confidence rules p == rules.conf_token_fill) ≡ true = ground (arith, c) in
      fill_offer-IsSafeFill before after (record p { outputs = []; reservation_ack = none }) h tx
        (subst
          (λ (b : Bool).
            posted_by
              (if b
                then fill_offer crypto sel signer world market rules reads filing before after
                    (record p { outputs = []; reservation_ack = none }) h
                else attest_captured crypto sel signer world market rules reads filing
                    (capture_signer before) p h).0
            ≡ some tx)
          same e)
