-- ===== src/Spend/Verify/Sound.antt =====
-- What a verified total means (src/core/node.ts `verifyInputValues`): every input has a source transaction whose
-- recomputed id is the id of the outpoint, and the total is the sum of the values in those transactions.
use cairn_wallet.Base.{
  ℕ, ◌+◌, ◌≤◌, ◌<◌, ◌≡◌, refl, inl, inr, subst, sym, ap, true, Option, none, some, List, [], ◌∷◌,
  get_elem?, leb, leb→le, arith, Bool-cases, Option-cases, if◌then◌else◌,
}
use cairn_wallet.Base.Text.{Text, lower, text_eq, eq_of_text_eq}
use cairn_wallet.Base.Eq.{text_key, nat_eq, Eq, pair_eq, ◌===◌, lookup, lookup-put}
use mathlib.Core.Option.{some-injective}
use cairn_wallet.Js.{Num, nat, max_safe, number}
use cairn_wallet.Codec.{Crypto, TxOutput, Tx, txid, strip}
use cairn_wallet.Spend.Coins.{Outpoint, Coin, op_key, coin_key}
use cairn_wallet.Spend.Verify.{
  TxReply, missing, unavailable, failed, answered, InputVerdict, proven, value_verdict,
  output_verdict, Verified, body_verdict, reply_verdict, remember, verify_one, is_decisive,
  verify_all, unreached, verified, tampered, total_from, conclude, verify_input_values,
  body_numbers_representable,
}

module _ (crypto : Crypto) where
  -- The outpoint `k` is worth `v`: some transaction has its id and pays `v` at its index.
  pub record IsProven (k : Outpoint) (v : ℕ) : Type 0 where
    pub tx : Tx
    pub id : Text
    pub has_id : txid crypto tx ≡ some id
    pub names : op_key id k.1 ≡ k
    pub output : TxOutput
    pub at_vout : get_elem? tx.outputs k.1 ≡ some output
    pub amount : number output.value ≡ nat v
    pub positive : 0 < v
    pub safe : v ≤ max_safe
    pub exact : body_numbers_representable tx ≡ true

  -- The coins are worth `total` together.
  abbrev pub Backed : List Coin → ℕ → Type 0
  Backed [] total = total ≡ 0
  Backed (c ∷ cs) total =
      (v : ℕ) × (rest : ℕ) × IsProven (coin_key c) v × Backed cs rest × (total ≡ v + rest)

  pub record IsVerified (m : Verified) : Type 0 where
    pub entry : (k : Outpoint) (v : ℕ) → lookup k m ≡ some v → IsProven k v

  pub IsVerified-nil : IsVerified []
  unfolding lookup
  IsVerified-nil = record { entry = λ k v e. absurd (cc) }

value_verdict_proven :
    (n : Num) (v : ℕ) → value_verdict n ≡ proven v → (n ≡ nat v) × (0 < v) × (v ≤ max_safe)
unfolding value_verdict
value_verdict_proven (nat k) v h = ground arith
value_verdict_proven _ v h = absurd (cc)

abbrev outpoint_eq : Eq Outpoint
outpoint_eq = pair_eq

proven_injective : {a b : ℕ} → proven a ≡ proven b → a ≡ b
proven_injective h = cc

verified_injective : {a b : ℕ} → verified a ≡ verified b → a ≡ b
verified_injective h = cc

tampered_ne : {a : ℕ} → tampered ≡ verified a → ⊥
tampered_ne h = cc

conclude_verified :
    (inputs : List Coin) (vs : List (Option InputVerdict)) (total : ℕ)
    → conclude inputs vs ≡ verified total
    → total_from 0 vs ≡ verified total
unfolding conclude
conclude_verified inputs vs total h = ground arith

module _ (crypto : Crypto) where
  body_verdict_parts :
      (c : Coin) (body : Tx) (v : ℕ)
      → body_verdict crypto c body ≡ proven v
      → (id : Text) × (o : TxOutput) × (txid crypto body ≡ some id)
        × (get_elem? body.outputs c.vout ≡ some o)
        × (body_numbers_representable body ≡ true)
        × (text_eq (lower id) (lower c.txid) ≡ true)
        × (value_verdict (number o.value) ≡ proven v)
  unfolding body_verdict output_verdict
  body_verdict_parts c body v h = ground arith

  body_verdict_proven :
      (c : Coin) (body : Tx) (v : ℕ)
      → body_verdict crypto c body ≡ proven v
      → IsProven crypto (coin_key c) v
  unfolding op_key
  body_verdict_proven c body v h =
      let (id, o, e1, e2, e3, e4, e5) = body_verdict_parts c body v h in
      let (n, p, s) = value_verdict_proven (number o.value) v e5 in
      record {
        tx = body;
        id = id;
        has_id = e1;
        names = ap (λ (t : Text). (strip t, c.vout)) (eq_of_text_eq _ _ e4);
        output = o;
        at_vout = e2;
        amount = n;
        positive = p;
        safe = s;
        exact = e3;
      }

  reply_verdict_proven :
      (c : Coin) (r : TxReply) (v : ℕ)
      → reply_verdict crypto c r ≡ proven v
      → IsProven crypto (coin_key c) v
  unfolding reply_verdict
  reply_verdict_proven c missing v h = absurd (cc)
  reply_verdict_proven c (unavailable b) v h = absurd (ground arith)
  reply_verdict_proven c failed v h = absurd (cc)
  reply_verdict_proven c (answered none) v h = absurd (cc)
  reply_verdict_proven c (answered (some body)) v h = body_verdict_proven c body v h

  remember-IsVerified :
      (c : Coin) (r : InputVerdict) (m : Verified)
      → IsVerified crypto m
      → ((v : ℕ) → r ≡ proven v → IsProven crypto (coin_key c) v)
      → IsVerified crypto (remember c r m)
  unfolding remember
  remember-IsVerified c (proven v) m h p = record {
    entry = λ k w e.
        let e' : (if k === coin_key c then some v else lookup k m) ≡ some w = rw lookup-put at e in
        elim (Bool-cases (k === coin_key c)) [
          | inl q ↦
              subst (λ (j : Outpoint). IsProven crypto j w)
                (sym (((outpoint_eq).beq_iff k (coin_key c)).0 q))
                (p w (ap proven (some-injective _ _ (rw q at e'))))
          | inr q ↦ h.entry k w (rw q at e')
        ];
  }
  remember-IsVerified c _ m h p = h

  verify_one-IsVerified :
      (ask : Coin → TxReply) (c : Coin) (m : Verified)
      → IsVerified crypto m
      → IsVerified crypto (verify_one crypto ask c m).1
        × ((v : ℕ) → (verify_one crypto ask c m).0 ≡ proven v → IsProven crypto (coin_key c) v)
  unfolding verify_one
  verify_one-IsVerified ask c m h = elim (Option-cases (lookup (coin_key c) m)) [
    | inl e ↦
        rw (e, verify_one)
          (
            remember-IsVerified c (reply_verdict crypto c (ask c)) m h
                (reply_verdict_proven c (ask c)),
            reply_verdict_proven c (ask c),
          )
    | inr (v, e) ↦
        rw (e, verify_one)
          (
            h,
            λ w q.
                subst (IsProven crypto (coin_key c)) (proven_injective q)
                  (h.entry (coin_key c) v e),
          )
  ]

  -- Every proven verdict of the array stands beside a coin that is worth it.
  Sound : List Coin → List (Option InputVerdict) → Type 0
  Sound [] [] = Unit
  Sound [] (v ∷ vs) = ⊥
  Sound (c ∷ cs) [] = ⊥
  Sound (c ∷ cs) (r ∷ vs) =
      ((v : ℕ) → r ≡ some (proven v) → IsProven crypto (coin_key c) v) × Sound cs vs

  unreached-Sound : (cs : List Coin) → Sound cs (unreached cs)
  unfolding unreached Sound
  unreached-Sound [] = tt
  unreached-Sound (c ∷ cs) = ((λ v e. absurd (cc)), unreached-Sound cs)

  verify_all-Sound :
      (ask : Coin → TxReply) (cs : List Coin) (m : Verified)
      → IsVerified crypto m
      → Sound cs (verify_all crypto ask cs m).0 × IsVerified crypto (verify_all crypto ask cs m).1
  unfolding verify_all Sound
  verify_all-Sound ask [] m h = (tt, h)
  verify_all-Sound ask (c ∷ cs) m h =
      let one = verify_one-IsVerified ask c m h in
      elim (Bool-cases (is_decisive (verify_one crypto ask c m).0)) [
        | inl e ↦ rw e (((λ v q. one.1 v (some-injective _ _ q)), unreached-Sound cs), one.0)
        | inr e ↦
            let rest = verify_all-Sound ask cs (verify_one crypto ask c m).1 one.0 in
            rw e (((λ v q. one.1 v (some-injective _ _ q)), rest.0), rest.1)
      ]

  total_from-Backed :
      (cs : List Coin) (vs : List (Option InputVerdict)) (a total : ℕ)
      → Sound cs vs
      → a ≤ max_safe
      → total_from a vs ≡ verified total
      → (rest : ℕ) × Backed crypto cs rest × (total ≡ a + rest) × (total ≤ max_safe)
  unfolding total_from Sound
  total_from-Backed [] [] a total s fits h =
      (0, refl, omega (arith, verified_injective h), omega (arith, verified_injective h))
  total_from-Backed [] (v ∷ vs) a total s fits h = absurd s
  total_from-Backed (c ∷ cs) [] a total s fits h = absurd s
  total_from-Backed (c ∷ cs) (some (proven v) ∷ vs) a total s fits h =
      elim (Bool-cases (leb (a + v) max_safe)) [
        | inl e ↦
            let (r, b, t, fits') =
              total_from-Backed cs vs (a + v) total s.1 (leb→le (a + v) max_safe e) (rw e at h) in
            (v + r, (v, r, s.0 v refl, b, refl), omega arith, fits')
        | inr e ↦ absurd (tampered_ne (rw e at h))
      ]
  total_from-Backed (c ∷ cs) (_ ∷ vs) a total s fits h = absurd (cc)

  -- A verified total is the sum of the chain values of all the inputs, each bound to its outpoint by its id, and is a
  -- safe integer; and the values that the call remembers for later rounds are proven in the same way.
  pub verify_input_values-Backed :
      (ask : Coin → TxReply) (inputs : List Coin) (m : Verified) (total : ℕ)
      → IsVerified crypto m
      → (verify_input_values crypto ask inputs m).0 ≡ verified total
      → Backed crypto inputs total
        × (total ≤ max_safe)
        × IsVerified crypto (verify_input_values crypto ask inputs m).1
  unfolding verify_input_values
  verify_input_values-Backed ask inputs m total h e =
      let all_sound = verify_all-Sound ask inputs m h in
      let (rest, b, t, s) =
        total_from-Backed inputs (verify_all crypto ask inputs m).0 0 total all_sound.0
          (omega arith) (conclude_verified inputs (verify_all crypto ask inputs m).0 total e) in
      (subst (Backed crypto inputs) (omega arith) b, s, all_sound.1)

  -- Whatever a call answers, what it remembers is proven.
  pub verify_input_values-IsVerified :
      (ask : Coin → TxReply) (inputs : List Coin) (m : Verified)
      → IsVerified crypto m
      → IsVerified crypto (verify_input_values crypto ask inputs m).1
  unfolding verify_input_values
  verify_input_values-IsVerified ask inputs m h = (verify_all-Sound ask inputs m h).1
