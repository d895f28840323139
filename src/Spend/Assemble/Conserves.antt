-- ===== src/Spend/Assemble/Conserves.antt =====
-- What a transaction that the wallet posts spends and pays (src/core/node.ts `assembleValueTx`).
use cairn_wallet.Base.{
  ℕ, ◌+◌, ◌-◌, ◌≤◌, ◌<◌, ◌≡◌, refl, ap, sym, ◌∙◌, subst, inl, inr, Bool, false, Option, none, some,
  List, [], ◌∷◌, ◌++◌, map, any, All, arith, ltb, ltb→lt, Bool-cases,
}
use cairn_wallet.Base.Text.{Text}
use cairn_wallet.Base.Eq.{nat_eq, text_key, pair_eq}
use cairn_wallet.Base.Maybe.{>>=-eq-some}
use mathlib.Core.Option.{some-injective}
use cairn_wallet.Js.{nat, num, Val}
use cairn_wallet.Codec.{Crypto, App, TxInput, Tx, txid, sighash}
use cairn_wallet.Spend.Errors.{Code}
use cairn_wallet.Spend.Coins.{Utxo, Coin, Selector}
use cairn_wallet.Spend.Verify.Sound.{IsVerified-nil}
use cairn_wallet.Spend.Session.{session_exclusions}
use cairn_wallet.Spend.Select.{Selection, selected, refused, select_verified}
use cairn_wallet.Spend.Select.Sound.{IsFunded, select_verified-IsFunded}
use cairn_wallet.Spend.Submit.{
  Signer, Outcome, refuse, addr_from_priv, with_script, sign_and_submit,
}
use cairn_wallet.Spend.Outputs.{Payment, is_zero_address, sum_payments}
use cairn_wallet.Spend.Assemble.{
  World, max_fee, proportional_fee_cap, to_input, to_output, with_change, unsigned_tx, post_outputs,
  pay_from, spend_selection, assemble_value_tx,
}

-- The outpoint that an input names, and the one that a coin is.
abbrev pub names : TxInput → Text × Val
names i = (i.prev_txid, i.vout)

abbrev pub coin_names : Coin → Text × Val
coin_names c = (c.txid, num (nat c.vout))

names-with_script :
    (script : Text) (cs : List Coin)
    → map names (map (λ (i : TxInput). record i { script_sig = script }) (map to_input cs))
      ≡ map coin_names cs
unfolding to_input
names-with_script script [] = refl
names-with_script script (c ∷ cs) = ap (◌∷◌ (coin_names c)) (names-with_script script cs)

sum_payments-append :
    (ps : List Payment) (p : Payment) → sum_payments (ps ++ p ∷ []) ≡ sum_payments ps + p.value
unfolding sum_payments
sum_payments-append [] p = omega arith
sum_payments-append (q ∷ ps) p = omega (arith, sum_payments-append ps p)

-- The change makes up the difference.
sum_payments-with_change :
    (change : ℕ) (addr : Text) (outs : List Payment)
    → sum_payments (with_change change addr outs) ≡ sum_payments outs + change
unfolding with_change
sum_payments-with_change change addr outs =
    ground (arith, sum_payments-append outs (record { value = change; script_pubkey = addr }))

pub refused_posts_nothing :
    (c : Code) (o : Outcome) (tx : Tx) → some (refuse c) ≡ some o → o.posted ≡ some tx → ⊥
refused_posts_nothing c o tx h e = ground arith

refused_ne : {c : Code} {i : List Coin} {t : ℕ} → refused c ≡ selected i t → ⊥
refused_ne h = cc

none_passes {ℓ} :
    {A : Type ℓ} (p : A → Bool) (xs : List A) → any p xs ≡ false → All (λ x. p x ≡ false) xs
none_passes p [] h = tt
none_passes p (x ∷ xs) h = ground (arith, none_passes p xs)

module _ (crypto : Crypto) (sel : Selector) (signer : Signer) (world : World) where
  -- A transaction that spends proven coins on exactly the requested payments, the fee and change to the own address.
  pub record IsSpend (outputs : List Payment) (fee : ℕ) (app : App) (priv : Text) (tx : Tx)
      : Type 0 where
    pub ins : List Coin
    pub total : ℕ
    pub outs : List Payment
    pub funded :
        IsFunded crypto
          (session_exclusions world.now world.caches).1
          (sum_payments outputs + fee)
          ins
          total
    pub pays :
        outs
        ≡ with_change
            (total - (sum_payments outputs + fee))
            (addr_from_priv crypto signer priv)
            outputs
    pub balanced : sum_payments outs + fee ≡ total
    pub spends : map names tx.inputs ≡ map coin_names ins
    pub creates : tx.outputs ≡ map to_output outs
    pub carries : tx.app ≡ app
    pub fee_positive : 0 < fee
    pub fee_capped : fee ≤ max_fee
    pub fee_proportionate : fee ≤ proportional_fee_cap world total
    pub spendable : All (λ (o : Payment). is_zero_address o.script_pubkey ≡ false) outputs

  posted-sign_and_submit :
      (tx : Tx) (priv : Text) (o : Outcome)
      → sign_and_submit crypto signer world.answer tx priv ≡ some o
      → (script : Text) × (o.posted ≡ some (with_script crypto signer script tx))
  unfolding sign_and_submit
  posted-sign_and_submit tx priv o h =
      let (digest, e, h1) = >>=-eq-some (sighash crypto signer.chain_id_hash tx) _ h in
      let (id, f, h2) = >>=-eq-some (txid crypto _) _ h1 in
      (_, sym (ap (λ (x : Outcome). x.posted) (some-injective _ _ h2)))

  -- the shape of what the last step posts
  pub posted_tx :
      (ins : List Coin) (outs : List Payment) (app : App) (priv : Text) (o o' : Outcome) (tx : Tx)
      → sign_and_submit crypto signer world.answer (unsigned_tx ins outs app) priv ≡ some o
      → o'.posted ≡ o.posted
      → o'.posted ≡ some tx
      → (map names tx.inputs ≡ map coin_names ins)
        × (tx.outputs ≡ map to_output outs)
        × (tx.app ≡ app)
  unfolding with_script unsigned_tx
  posted_tx ins outs app priv o o' tx h same e =
      let (script, p) = posted-sign_and_submit (unsigned_tx ins outs app) priv o h in
      let q : with_script crypto signer script (unsigned_tx ins outs app) ≡ tx =
        some-injective _ _ (sym p ∙ (sym same ∙ e)) in
      (
        ap (λ (t : Tx). map names t.inputs) (sym q) ∙ names-with_script script ins,
        ap (λ (t : Tx). t.outputs) (sym q),
        ap (λ (t : Tx). t.app) (sym q),
      )

  posted_outputs :
      (ins : List Coin) (outs : List Payment) (app : App) (priv : Text) (o : Outcome) (tx : Tx)
      → post_outputs crypto sel signer world ins outs app priv ≡ some o
      → o.posted ≡ some tx
      → (map names tx.inputs ≡ map coin_names ins)
        × (tx.outputs ≡ map to_output outs)
        × (tx.app ≡ app)
  unfolding post_outputs
  posted_outputs ins [] app priv o tx h e = absurd (refused_posts_nothing _ o tx h e)
  posted_outputs ins (p ∷ ps) app priv o tx h e =
      let (o0, f, h1) =
        >>=-eq-some (sign_and_submit crypto signer world.answer (unsigned_tx ins (p ∷ ps) app) priv)
          _ h in
      posted_tx ins (p ∷ ps) app priv o0 o tx f
        (sym (ap (λ (x : Outcome). x.posted) (some-injective _ _ h1))) e

  posted-IsSpend :
      (ins : List Coin) (total : ℕ) (outputs : List Payment) (fee : ℕ) (app : App) (priv : Text)
      (o : Outcome) (tx : Tx)
      → 0 < fee
      → fee ≤ max_fee
      → All (λ (p : Payment). is_zero_address p.script_pubkey ≡ false) outputs
      → IsFunded crypto
          (session_exclusions world.now world.caches).1
          (sum_payments outputs + fee)
          ins
          total
      → pay_from crypto sel signer world ins total outputs (sum_payments outputs + fee) fee app priv
        ≡ some o
      → o.posted ≡ some tx
      → IsSpend outputs fee app priv tx
  unfolding pay_from
  posted-IsSpend ins total outputs fee app priv o tx pos cap zero funds h e =
      let need = sum_payments outputs + fee in
      let addr = addr_from_priv crypto signer priv in
      let outs = with_change (total - need) addr outputs in
      elim (Bool-cases (ltb (proportional_fee_cap world total) fee)) [
        | inl q ↦ absurd (refused_posts_nothing _ o tx (rw q at h) e)
        | inr q ↦
            let (a, b, c) = posted_outputs ins outs app priv o tx (rw q at h) e in
            record {
              ins = ins;
              total = total;
              outs = outs;
              funded = funds;
              pays = refl;
              balanced =
                  omega (arith, sum_payments-with_change (total - need) addr outputs, funds.covers);
              spends = a;
              creates = b;
              carries = c;
              fee_positive = pos;
              fee_capped = cap;
              fee_proportionate = ground arith;
              spendable = zero;
            }
      ]

  selection-IsSpend :
      (s : Selection) (outputs : List Payment) (fee : ℕ) (app : App) (priv : Text) (o : Outcome)
      (tx : Tx)
      → 0 < fee
      → fee ≤ max_fee
      → All (λ (p : Payment). is_zero_address p.script_pubkey ≡ false) outputs
      → ((ins : List Coin) (total : ℕ)
          → s ≡ selected ins total
          → IsFunded crypto
              (session_exclusions world.now world.caches).1
              (sum_payments outputs + fee)
              ins
              total)
      → spend_selection crypto sel signer world s outputs (sum_payments outputs + fee) fee app priv
        ≡ some o
      → o.posted ≡ some tx
      → IsSpend outputs fee app priv tx
  unfolding spend_selection
  selection-IsSpend (refused c) outputs fee app priv o tx pos cap zero funds h e =
      absurd (refused_posts_nothing _ o tx h e)
  selection-IsSpend (selected ins total) outputs fee app priv o tx pos cap zero funds h e =
      posted-IsSpend ins total outputs fee app priv o tx pos cap zero (funds ins total refl) h e

  selection_funds :
      (us : Option (List Utxo)) (need : ℕ) (ins : List Coin) (total : ℕ)
      → (select_verified crypto sel world.now us (λ _ _ _. need) world.ask world.caches []).0
        ≡ selected ins total
      → IsFunded crypto (session_exclusions world.now world.caches).1 need ins total
  selection_funds none need ins total h = absurd (unfold select_verified in refused_ne h)
  selection_funds (some us) need ins total h =
      let (f, n) =
        select_verified-IsFunded crypto sel world.now us (λ _ _ _. need) world.ask world.caches []
          ins total (IsVerified-nil crypto) h in
      subst (λ (k : ℕ). IsFunded crypto (session_exclusions world.now world.caches).1 k ins total) n
        f

  -- Every transaction that the wallet posts for a spend spends coins whose values the chain proves, worth together
  -- exactly the requested payments, the change to the wallet's own address and the fee; it carries the requested
  -- payments in order and only the change behind them, names exactly the proven coins as inputs, carries the given
  -- payload, pays no zero address, and its fee is positive, at most 100 CSD and within the proportional cap.
  pub assemble_value_tx-IsSpend :
      (outputs : List Payment) (fee : ℕ) (app : App) (priv : Text) (o : Outcome) (tx : Tx)
      → (assemble_value_tx crypto sel signer world outputs fee app priv).0 ≡ some o
      → o.posted ≡ some tx
      → IsSpend outputs fee app priv tx
  unfolding assemble_value_tx
  assemble_value_tx-IsSpend outputs fee app priv o tx h e =
      let need = sum_payments outputs + fee in
      elim (Bool-cases (ltb 0 fee)) [
        | inr q ↦ absurd (refused_posts_nothing _ o tx (rw q at h) e)
        | inl pos ↦ elim (Bool-cases (ltb max_fee fee)) [
          | inl q ↦ absurd (refused_posts_nothing _ o tx (rw (pos, q) at h) e)
          | inr cap ↦
              elim (Bool-cases (any (λ (p : Payment). is_zero_address p.script_pubkey) outputs)) [
                | inl q ↦ absurd (refused_posts_nothing _ o tx (rw (pos, cap, q) at h) e)
                | inr q ↦
                    selection-IsSpend
                      (select_verified crypto sel world.now world.utxos (λ _ _ _. need) world.ask
                        world.caches []).0
                      outputs fee app priv o tx (ltb→lt 0 fee pos) (ground arith)
                      (none_passes _ outputs q) (selection_funds world.utxos need)
                      (rw (pos, cap, q) at h) e
              ]
        ]
      ]
