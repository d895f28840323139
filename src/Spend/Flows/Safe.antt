-- ===== src/Spend/Flows/Safe.antt =====
-- Each flow posts only the transaction that its request describes (src/core/node.ts).
use cairn_wallet.Base.{
  ℕ, ◌+◌, ◌≤◌, ◌<◌, ◌≡◌, refl, Bool, true, false, ◌||◌, not, Option, some, List, [], ◌∷◌, All,
  length, arith, ltb, if◌then◌else◌,
}
use cairn_wallet.Base.Text.{Text}
use cairn_wallet.Js.{
  Num, nat, num, neg, frac, inf, nan, is_safe, is_positive, is_negative, to_uint32, max_safe,
}
use cairn_wallet.Codec
use cairn_wallet.Codec.{Crypto, App, Tx}
use cairn_wallet.Spend.Errors.{Code}
use cairn_wallet.Spend.Coins.{Selector}
use cairn_wallet.Spend.Session.{Caches}
use cairn_wallet.Spend.Submit.{Signer, Outcome, refuse}
use cairn_wallet.Spend.Outputs.{
  Payout, is_hex_text, Checked, sum_out, bad, amount, validate_outputs, payments,
}
use cairn_wallet.Spend.Outputs.Sum.{IsPayable, positive_safe, validate_outputs_exact}
use cairn_wallet.Spend.Assemble.{World}
use cairn_wallet.Spend.Assemble.Conserves.{
  IsSpend, assemble_value_tx-IsSpend, refused_posts_nothing,
}
use cairn_wallet.Spend.Flows.{
  is_bad_number, turn_down, build_checked, build_sign_submit, propose, send, pay_checked, send_many,
  fill_offer,
}

-- A safe number that is not negative is a natural.
natural : (n : Num) → is_bad_number n ≡ false → n ≡ nat (amount n)
unfolding is_safe is_negative amount
natural (nat n) h = refl
natural (neg n) h = absurd (ground arith)
natural (frac b t) h = absurd (cc)
natural (inf b) h = absurd (cc)
natural nan h = absurd (cc)

send_numbers :
    (value fee : Num)
    → not (is_positive value) ≡ false
    → (not (is_safe value)
        || (not (is_safe fee) || (is_negative fee || ltb max_safe (amount value + amount fee))))
      ≡ false
    → (value ≡ nat (amount value))
      × (fee ≡ nat (amount fee))
      × (0 < amount value)
      × (amount value + amount fee ≤ max_safe)
send_numbers value fee p h = ground (arith, positive_safe value, natural fee)

fee_numbers :
    (s : ℕ) (fee : Num)
    → (is_bad_number fee || ltb max_safe (s + amount fee)) ≡ false
    → (fee ≡ nat (amount fee)) × (s + amount fee ≤ max_safe)
fee_numbers s fee h = ground (arith, natural fee)

not-not : (b : Bool) → not b ≡ false → b ≡ true
not-not b h = ground arith

module _ (crypto : Crypto) (sel : Selector) (signer : Signer) (world : World) where
  -- A posted transaction that answers a request of several payouts: every payout is payable, there are at most `max`,
  -- the fee is a natural, and the transaction is a spend of exactly those payouts with the payload.
  pub record IsRequest (payouts : List Payout) (max : ℕ) (app : App) (fee : Num) (priv : Text)
      (tx : Tx) : Type 0 where
    pub payable : All IsPayable payouts
    pub few : length payouts ≤ max
    pub fee_natural : fee ≡ nat (amount fee)
    pub spend : IsSpend crypto sel signer world (payments payouts) (amount fee) app priv tx

  -- A flow that has posted went past each of its guards.
  past_guard :
      (b : Bool) (c : Code) (rest : Option Outcome × Caches) (o : Outcome) (tx : Tx)
      → (if b then turn_down crypto sel signer world (refuse c) else rest).0 ≡ some o
      → o.posted ≡ some tx
      → (b ≡ false) × (rest.0 ≡ some o)
  past_guard true c rest o tx h e = absurd (refused_posts_nothing c o tx h e)
  past_guard false c rest o tx h e = (refl, h)

  -- A plain send posts a transaction only for a well-formed address, a positive amount and a fee that are safe
  -- integers with a safe sum; the transaction is then a spend of exactly that one payment.
  pub send_safe :
      (to : Text) (value fee : Num) (priv : Text) (o : Outcome) (tx : Tx)
      → (send crypto sel signer world to value fee priv).0 ≡ some o
      → o.posted ≡ some tx
      → (is_hex_text 40 to ≡ true)
        × (value ≡ nat (amount value))
        × (fee ≡ nat (amount fee))
        × (0 < amount value)
        × (amount value + amount fee ≤ max_safe)
        × IsSpend crypto sel signer world
            (record { value = amount value; script_pubkey = to } ∷ [])
            (amount fee)
            Codec.App.no_app
            priv
            tx
  unfolding send
  send_safe to value fee priv o tx h e =
      let (a, h1) = past_guard (not (is_hex_text 40 to)) _ _ o tx h e in
      let (p, h2) = past_guard (not (is_positive value)) _ _ o tx h1 e in
      let (n, h3) =
        past_guard
          (not (is_safe value)
            || (not (is_safe fee) || (is_negative fee || ltb max_safe (amount value + amount fee))))
          _ _ o tx h2 e in
      let (v, f, pos, fits) = send_numbers value fee p n in
      (
        not-not (is_hex_text 40 to) a,
        v,
        f,
        pos,
        fits,
        assemble_value_tx-IsSpend crypto sel signer world _ (amount fee) Codec.App.no_app priv o tx
            h3 e,
      )

  pay_checked_safe :
      (checked : Checked) (payouts : List Payout) (max : ℕ) (min_one : Bool) (app : App) (fee : Num)
      (priv : Text) (o : Outcome) (tx : Tx)
      → validate_outputs payouts max min_one ≡ checked
      → (pay_checked crypto sel signer world checked app fee priv payouts).0 ≡ some o
      → o.posted ≡ some tx
      → IsRequest payouts max app fee priv tx
  unfolding pay_checked
  pay_checked_safe bad payouts max min_one app fee priv o tx v h e =
      absurd (refused_posts_nothing _ o tx h e)
  pay_checked_safe (sum_out s) payouts max min_one app fee priv o tx v h e =
      let (n, h1) = past_guard (is_bad_number fee || ltb max_safe (s + amount fee)) _ _ o tx h e in
      let (_, _, all_payable, len, _) = validate_outputs_exact payouts max min_one s v in
      record {
        payable = all_payable;
        few = len;
        fee_natural = (fee_numbers s fee n).0;
        spend =
            assemble_value_tx-IsSpend crypto sel signer world (payments payouts) (amount fee) app
              priv o tx h1 e;
      }

  build_checked_safe :
      (checked : Checked) (payouts : List Payout) (app : App) (fee : Num) (priv : Text)
      (o : Outcome) (tx : Tx)
      → validate_outputs payouts 8 false ≡ checked
      → is_bad_number fee ≡ false
      → (build_checked crypto sel signer world checked app fee priv payouts).0 ≡ some o
      → o.posted ≡ some tx
      → IsRequest payouts 8 app fee priv tx
  unfolding build_checked
  build_checked_safe bad payouts app fee priv o tx v n h e =
      absurd (refused_posts_nothing _ o tx h e)
  build_checked_safe (sum_out s) payouts app fee priv o tx v n h e =
      let (_, _, all_payable, len, _) = validate_outputs_exact payouts 8 false s v in
      record {
        payable = all_payable;
        few = len;
        fee_natural = natural fee n;
        spend =
            assemble_value_tx-IsSpend crypto sel signer world (payments payouts) (amount fee) app
              priv o tx h e;
      }

  build_safe :
      (payouts : List Payout) (app : App) (fee : Num) (priv : Text) (o : Outcome) (tx : Tx)
      → (build_sign_submit crypto sel signer world app fee priv payouts).0 ≡ some o
      → o.posted ≡ some tx
      → IsRequest payouts 8 app fee priv tx
  unfolding build_sign_submit
  build_safe payouts app fee priv o tx h e =
      let (n, h1) = past_guard (is_bad_number fee) _ _ o tx h e in
      build_checked_safe (validate_outputs payouts 8 false) payouts app fee priv o tx refl n h1 e

  -- A batch send posts only a spend of exactly its payouts, at most 500 of them, each payable.
  pub send_many_safe :
      (outputs : List Payout) (fee : Num) (priv : Text) (o : Outcome) (tx : Tx)
      → (send_many crypto sel signer world outputs fee priv).0 ≡ some o
      → o.posted ≡ some tx
      → IsRequest outputs 500 Codec.App.no_app fee priv tx
  unfolding send_many
  send_many_safe outputs fee priv o tx =
      pay_checked_safe (validate_outputs outputs 500 true) outputs 500 true Codec.App.no_app fee
        priv o tx refl

  -- A fill posts only a spend of exactly its payouts, at most 100 of them, that carries the attestation of a
  -- well-formed proposal id with the score and the confidence taken as unsigned 32-bit numbers.
  pub fill_offer_safe :
      (proposal_id : Text) (score confidence : Num) (outputs : List Payout) (fee : Num)
      (priv : Text) (o : Outcome) (tx : Tx)
      → (fill_offer crypto sel signer world proposal_id score confidence outputs fee priv).0
        ≡ some o
      → o.posted ≡ some tx
      → (is_hex_text 64 proposal_id ≡ true)
        × IsRequest outputs 100
            (Codec.App.attest proposal_id
              (num (nat (to_uint32 score)))
              (num (nat (to_uint32 confidence))))
            fee
            priv
            tx
  unfolding fill_offer
  fill_offer_safe proposal_id score confidence outputs fee priv o tx h e =
      let (a, h1) = past_guard (not (is_hex_text 64 proposal_id)) _ _ o tx h e in
      (
        not-not (is_hex_text 64 proposal_id) a,
        pay_checked_safe (validate_outputs outputs 100 false) outputs 100 false _ fee priv o tx refl
            h1 e,
      )

  -- A proposal posts only a spend of at most eight payouts that carries the proposal with a well-formed payload hash
  -- and an expiry epoch that is a safe natural.
  pub propose_safe :
      (domain payload_hash uri : Text) (expires_epoch fee : Num) (outputs : List Payout)
      (priv : Text) (o : Outcome) (tx : Tx)
      → (propose crypto sel signer world domain payload_hash uri expires_epoch fee outputs priv).0
        ≡ some o
      → o.posted ≡ some tx
      → (is_hex_text 64 payload_hash ≡ true)
        × (expires_epoch ≡ nat (amount expires_epoch))
        × IsRequest outputs 8
            (Codec.App.propose domain payload_hash uri (num expires_epoch))
            fee
            priv
            tx
  unfolding propose
  propose_safe domain payload_hash uri expires_epoch fee outputs priv o tx h e =
      let (a, h1) = past_guard (not (is_hex_text 64 payload_hash)) _ _ o tx h e in
      let (b, h2) = past_guard (is_bad_number expires_epoch) _ _ o tx h1 e in
      (
        not-not (is_hex_text 64 payload_hash) a,
        natural expires_epoch b,
        build_safe outputs _ fee priv o tx h2 e,
      )
