-- ===== src/Fill/Flow.antt =====
-- The wallet's fill of an offer and its attestation (src/core/wallet.ts `fillOffer`, `attest`): the captured signer, the
-- preflight under its address, the signature, and the row in the history.
pub mod Safe
use cairn_wallet.Base.{
  ℕ, ◌+◌, ◌≡◌, Bool, true, false, not, Option, none, some, List, [], ◌∷◌, ◌==◌, if◌then◌else◌,
}
use cairn_wallet.Base.Text.{Text, text_eq, lower}
use cairn_wallet.Js.{Num, nat, nan, to_uint32}
use cairn_wallet.Codec.{Crypto}
use cairn_wallet.Spend.Coins.{Selector}
use cairn_wallet.Spend.Submit.{Signer, Outcome}
use cairn_wallet.Spend.Outputs.{Payout, amount}
use cairn_wallet.Spend.Assemble.{World}
use cairn_wallet.Spend.Flows
use cairn_wallet.CrossCheck.{Unanswered}
use cairn_wallet.History.{History, Disk}
use cairn_wallet.History.Record.{Meta, maybe_record}
use cairn_wallet.Vault
use cairn_wallet.Vault.{Error, Result, ok, err}
use cairn_wallet.Vault.State.{Memory}
use cairn_wallet.Vault.Accounts.{SignerCtx, capture_signer, signer_unchanged}
use cairn_wallet.Fill
use cairn_wallet.Fill.{
  Market, Reads, TokenFillQuote, Refusal, Verdict, proceeds, fill_unsafe, account_changed,
}
use cairn_wallet.Fill.Preflight.{fill_offer_preflight}

pub record FillRequest : Type 0 where
  pub proposal_id : Text
  pub score : Option Num
  pub confidence : Option Num
  pub outputs : List Payout
  pub fee : Option Num
  pub expect_signer : Option Text
  pub token_quote : Option TokenFillQuote
  pub reservation_ack : Option Text

-- What surrounds the recording of a submission: whether the wallet is unlocked by then, was wiped, the store, the time.
pub record Filing : Type 0 where
  pub unlocked : Bool
  pub wiped : Bool
  pub disk1 : Disk
  pub disk2 : Disk
  pub now : ℕ

-- The answer of a fill; `threw` is an exception of the preflight or of the submission.
pub data FillAnswer : Type 0 where
  failed : (cause : Error) → FillAnswer
  threw : FillAnswer
  refused : Refusal → FillAnswer
  submitted : Outcome → (second_source : Option Unanswered) → FillAnswer

-- the constants of the vendored market rules that the flows read
pub record FlowRules : Type 0 where
  pub score_fill : ℕ
  pub conf_token_fill : ℕ
  pub min_fee_attest : ℕ

unfoldable pub or_else : Option Num → ℕ → Num
or_else none n = nat n
or_else (some k) n = k

-- an absent number
unfoldable pub or_nan : Option Num → Num
or_nan none = nan
or_nan (some k) = k

-- `expectSignerRefusal`: whether it refuses; the empty text counts as absent.
unfoldable pub expect_signer_refusal : Option Text → (actual : Text) → Bool
expect_signer_refusal none actual = false
expect_signer_refusal (some []) actual = false
expect_signer_refusal (some (c ∷ t)) actual = not (text_eq (lower (c ∷ t)) (lower actual))

-- whether a score is present and not the one that the market requires
unfoldable pub is_bad_score : (score_fill : ℕ) → Option Num → Bool
is_bad_score score_fill none = false
is_bad_score score_fill (some s) = not (to_uint32 s == score_fill)

-- the total of `summarizeOutputs`
unfoldable pub total_of : List Payout → ℕ
total_of [] = 0
total_of (o ∷ os) = amount o.value + total_of os

-- A note on the second source goes with an accepted submission.
unfoldable pub with_note : Outcome → Option Unanswered → FillAnswer
with_note o notice = submitted o (if o.result.ok then notice else none)

module _ (rules : FlowRules) where
  unfoldable pub fill_fee : FillRequest → Num
  fill_fee p = or_else p.fee rules.min_fee_attest

  -- the confidence that is signed
  unfoldable pub fill_confidence : FillRequest → ℕ
  fill_confidence p = to_uint32 (or_else p.confidence 100)

module _ (rules : FlowRules) (filing : Filing) where
  -- `this.hist.maybeRecord(ctx.histKey, r, …)`
  file_fill : SignerCtx → FillRequest → Outcome → History → History
  file_fill ctx p o h =
      maybe_record filing.unlocked filing.wiped filing.disk1 filing.disk2 filing.now ctx.hist_key
        (record { is_merge = false; amount = total_of p.outputs; fee = amount (fill_fee rules p) })
        o.result h

  unfoldable pub fill_submitted :
      SignerCtx
      → FillRequest
      → (notice : Option Unanswered) → Option Outcome
      → History
      → FillAnswer × History
  unfolding with_note file_fill fill_fee or_else total_of
  fill_submitted ctx p notice none h = (threw, h)
  fill_submitted ctx p notice (some o) h = (with_note o notice, file_fill ctx p o h)

  -- the attestation that is no fill: `node.attest` and its row
  unfoldable pub attest_submitted :
      SignerCtx → FillRequest → Option Outcome → History → FillAnswer × History
  unfolding fill_fee or_else
  attest_submitted ctx p none h = (threw, h)
  attest_submitted ctx p (some o) h = (
    submitted o none,
    maybe_record filing.unlocked filing.wiped filing.disk1 filing.disk2 filing.now ctx.hist_key
        (record { is_merge = false; amount = 0; fee = amount (fill_fee rules p) }) o.result h,
  )

module _ (crypto : Crypto) (sel : Selector) (signer : Signer) (world : World) (market : Market)
    (rules : FlowRules) (reads : Reads) (filing : Filing) where
  -- The submission goes to the node with the captured key, the required score and no other.
  unfoldable pub fill_signed :
      SignerCtx → FillRequest → (after : Memory) → Verdict → History → FillAnswer × History
  unfolding fill_submitted fill_confidence fill_fee or_else
  fill_signed ctx p after Verdict.threw h = (threw, h)
  fill_signed ctx p after (Verdict.refused r) h = (refused r, h)
  fill_signed ctx p after (proceeds notice) h =
      if not (signer_unchanged ctx after)
      then (refused account_changed, h)
      else fill_submitted rules filing ctx p notice
          (Flows.fill_offer crypto sel signer world p.proposal_id (nat rules.score_fill)
            (nat (fill_confidence rules p)) p.outputs (fill_fee rules p) ctx.priv).0
          h

  unfoldable pub fill_captured :
      Result SignerCtx → FillRequest → (after : Memory) → History → FillAnswer × History
  unfolding fill_signed
  fill_captured (err e) p after h = (failed e, h)
  fill_captured (ok ctx) p after h =
      if expect_signer_refusal p.expect_signer ctx.addr
      then (refused account_changed, h)
      else if is_bad_score rules.score_fill p.score
      then (refused fill_unsafe, h)
      else fill_signed ctx p after
          (fill_offer_preflight market reads ctx.addr p.outputs p.token_quote p.reservation_ack
            p.proposal_id)
          h

  -- `fillOffer`, from the wallet as it is at the call and as it is after the preflight's reads
  unfoldable pub fill_offer : (before after : Memory) → FillRequest → History → FillAnswer × History
  unfolding fill_captured
  fill_offer before after p h = fill_captured (capture_signer before) p after h

  unfoldable pub attest_captured : Result SignerCtx → FillRequest → History → FillAnswer × History
  unfolding attest_submitted fill_fee or_else or_nan
  attest_captured (err e) p h = (failed e, h)
  attest_captured (ok ctx) p h =
      attest_submitted rules filing ctx p
        (Flows.attest crypto sel signer world p.proposal_id (or_nan p.score) (or_nan p.confidence)
          (fill_fee rules p) ctx.priv).0
        h

  -- `attest`: at the confidence of a token fill it is a fill with no outputs and no acknowledgement.
  unfoldable pub attest : (before after : Memory) → FillRequest → History → FillAnswer × History
  unfolding fill_offer attest_captured
  attest before after p h =
      if fill_confidence rules p == rules.conf_token_fill
      then fill_offer before after (record p { outputs = []; reservation_ack = none }) h
      else attest_captured (capture_signer before) p h
