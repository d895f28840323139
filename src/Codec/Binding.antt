-- ===== src/Codec/Binding.antt =====
-- A transaction id binds the fields of its transaction: two transactions with one id agree on the wire, or a
-- collision of the hash is at hand (src/core/csdtx.ts `serialize`, `txid`).
use cairn_wallet.Base.{
  ℕ, ◌^◌, ◌<◌, ◌≡◌, ◌≢◌, sym, ap, subst, ◌∙◌, ◌⊎◌, inl, inr, Bool-cases, some, List, [], append-nil,
  length, All, All-zip, arith, Option-cases,
}
use mathlib.Core.Option.{some-injective}
use cairn_wallet.Base.Text.{Text, text_eq, text_eq_refl, eq_of_text_eq}
use cairn_wallet.Base.Maybe.{traverse, >>=-eq-some, All-traverse}
use cairn_wallet.Js.{val_uint32, val_uint64, val_uint32-lt, val_uint64-lt}
use cairn_wallet.Codec.{
  Bytes, Crypto, App, TxInput, TxOutput, Tx, u32, u64, le_bytes, len_bytes, hb, hb_fixed, concat,
  serialize_app, serialize_input, serialize_output, serialize, stripped, sha256d, hx, txid,
}
use cairn_wallet.Codec
use cairn_wallet.Codec.Wire
use cairn_wallet.Codec.Wire.{
  WireApp, WireInput, WireOutput, WireTx, IsWireInput, IsWireOutput, IsWireApp, IsWireTx,
  encode_input, encode_output, encode_app, encode, decode, decode-encode,
}
use cairn_wallet.Codec.Fields.{input_view, output_view, app_view, view, serialize-view}

-- Lengths that fit their 64-bit prefixes: no list or byte array in a browser is longer.
abbrev pub IsShortApp : WireApp → Type 0
IsShortApp Wire.WireApp.no_app = Unit
IsShortApp (Wire.WireApp.propose d h u e) = (length d < 2 ^ 64) × (length u < 2 ^ 64)
IsShortApp (Wire.WireApp.attest p s c) = Unit

pub record IsShort (w : WireTx) : Type 0 where
  pub inputs_short : length w.inputs < 2 ^ 64
  pub scripts_short : All (λ (i : WireInput). length i.script_sig < 2 ^ 64) w.inputs
  pub outputs_short : length w.outputs < 2 ^ 64
  pub app_short : IsShortApp w.app

abbrev wire_of : Tx → List WireInput → List WireOutput → WireApp → WireTx
wire_of tx ins outs a = record {
  version = val_uint32 tx.version;
  inputs = ins;
  outputs = outs;
  locktime = val_uint32 tx.locktime;
  app = a;
}

module _ (crypto : Crypto) where
  hb_fixed_width : (h : Text) (n : ℕ) (b : Bytes) → hb_fixed crypto h n ≡ some b → length b ≡ n
  unfolding hb_fixed
  hb_fixed_width h n b e = ground arith

  input_view_widths :
      (i : TxInput) (w : WireInput)
      → input_view crypto i ≡ some w
      → (length w.prev_txid ≡ 32) × (w.vout < 256 ^ 4)
  unfolding input_view
  input_view_widths i w h = elim (Option-cases (hb_fixed crypto i.prev_txid 32)) [
    | inl e ↦ ground arith
    | inr (t, e) ↦ ground (
      arith,
      hb_fixed_width i.prev_txid 32 t e,
      val_uint32-lt i.vout,
      Option-cases (hb crypto i.script_sig),
    )
  ]

  output_view_widths :
      (o : TxOutput) (w : WireOutput) → output_view crypto o ≡ some w → IsWireOutput w
  unfolding output_view
  output_view_widths o w h = elim (Option-cases (val_uint64 o.value)) [
    | inl e ↦ ground arith
    | inr (v, e) ↦ elim (Option-cases (hb_fixed crypto o.script_pubkey 20)) [
      | inl f ↦ ground arith
      | inr (s, f) ↦
          ground (arith, val_uint64-lt o.value v e, hb_fixed_width o.script_pubkey 20 s f)
    ]
  ]

  app_view-IsWireApp :
      (a : App) (w : WireApp) → app_view crypto a ≡ some w → IsShortApp w → IsWireApp w
  unfolding app_view
  app_view-IsWireApp Codec.App.no_app Wire.WireApp.no_app h s = tt
  app_view-IsWireApp Codec.App.no_app _ h s = absurd (cc)
  app_view-IsWireApp (Codec.App.propose d p u x) w h s =
      elim (Option-cases (hb_fixed crypto p 32)) [
        | inl e ↦ ground arith
        | inr (b, e) ↦ elim (Option-cases (val_uint64 x)) [
          | inl f ↦ ground arith
          | inr (n, f) ↦ ground (arith, hb_fixed_width p 32 b e, val_uint64-lt x n f)
        ]
      ]
  app_view-IsWireApp (Codec.App.attest p x y) w h s = elim (Option-cases (hb_fixed crypto p 32)) [
    | inl e ↦ ground arith
    | inr (b, e) ↦ ground (arith, hb_fixed_width p 32 b e, val_uint32-lt x, val_uint32-lt y)
  ]

  parts-IsWireTx :
      (tx : Tx) (ins : List WireInput) (outs : List WireOutput) (a : WireApp)
      → traverse (input_view crypto) tx.inputs ≡ some ins
      → traverse (output_view crypto) tx.outputs ≡ some outs
      → app_view crypto tx.app ≡ some a
      → IsShort (wire_of tx ins outs a)
      → IsWireTx (wire_of tx ins outs a)
  parts-IsWireTx tx ins outs a e1 e2 e3 s = record {
    version_range = val_uint32-lt tx.version;
    inputs_short = s.inputs_short;
    inputs_wire =
        All-zip (λ (i : WireInput). (length i.prev_txid ≡ 32) × (i.vout < 256 ^ 4))
          (λ (i : WireInput). length i.script_sig < 2 ^ 64) IsWireInput ins (λ i p q. omega arith)
          (All-traverse _ (input_view crypto) input_view_widths tx.inputs ins e1) s.scripts_short;
    outputs_short = s.outputs_short;
    outputs_wire =
        All-traverse IsWireOutput (output_view crypto) output_view_widths tx.outputs outs e2;
    locktime_range = val_uint32-lt tx.locktime;
    app_wire = app_view-IsWireApp tx.app a e3 s.app_short;
  }

  view-IsWireTx : (tx : Tx) (w : WireTx) → view crypto tx ≡ some w → IsShort w → IsWireTx w
  unfolding view
  view-IsWireTx tx w h s =
      let (ins, e1, h1) = >>=-eq-some (traverse (input_view crypto) tx.inputs) _ h in
      let (outs, e2, h2) = >>=-eq-some (traverse (output_view crypto) tx.outputs) _ h1 in
      let (a, e3, h3) = >>=-eq-some (app_view crypto tx.app) _ h2 in
      let e : wire_of tx ins outs a ≡ w = some-injective _ _ h3 in
      subst IsWireTx e (parts-IsWireTx tx ins outs a e1 e2 e3 (subst IsShort (sym e) s))

  -- Decoding what the serializer wrote gives the view back: nothing of it is lost.
  pub decode-serialize :
      (tx : Tx) (w : WireTx) (b : Bytes)
      → view crypto tx ≡ some w
      → IsShort w
      → serialize crypto tx ≡ some b
      → decode b ≡ some (w, [])
  decode-serialize tx w b hv hs hb =
      let e : encode w ≡ b = some-injective _ _ (rw hv at (sym (serialize-view crypto tx)) ∙ hb) in
      rw (← e, ← append-nil (encode w)) (decode-encode w [] (view-IsWireTx tx w hv hs))

  -- Two transactions that serialize to the same bytes agree on every field that the bytes carry.
  pub serialize_binds :
      (t u : Tx) (v w : WireTx) (b : Bytes)
      → view crypto t ≡ some v
      → view crypto u ≡ some w
      → IsShort v
      → IsShort w
      → serialize crypto t ≡ some b
      → serialize crypto u ≡ some b
      → v ≡ w
  serialize_binds t u v w b ht hu sv sw et eu =
      ground (arith, decode-serialize t v b ht sv et, decode-serialize u w b hu sw eu)

  abbrev pub Collision : Type 0
  Collision = (a : Bytes) × (b : Bytes) × (a ≢ b) × (crypto.sha256 a ≡ crypto.sha256 b)

  sha256d_collision : (a b : Bytes) → sha256d crypto a ≡ sha256d crypto b → (a ≡ b) ⊎ Collision
  unfolding sha256d
  sha256d_collision a b h = elim (Bool-cases (text_eq a b)) [
    | inl e ↦ inl (eq_of_text_eq a b e)
    | inr ne ↦ elim (Bool-cases (text_eq (crypto.sha256 a) (crypto.sha256 b))) [
      | inl e ↦ inr (a, b, (λ p. cc (text_eq_refl a, ap (text_eq a) p)), eq_of_text_eq _ _ e)
      | inr ne2 ↦ inr (
        crypto.sha256 a,
        crypto.sha256 b,
        (λ p. cc (text_eq_refl (crypto.sha256 a), ap (text_eq (crypto.sha256 a)) p)),
        h,
      )
    ]
  ]

  hx_tail :
      (a b : Bytes) (id : Text)
      → some (hx crypto (sha256d crypto a)) ≡ some id
      → some (hx crypto (sha256d crypto b)) ≡ some id
      → crypto.bytes_to_hex (sha256d crypto a) ≡ crypto.bytes_to_hex (sha256d crypto b)
  unfolding hx
  hx_tail a b id h k = cc

  -- Where the hexadecimal text of a digest determines the digest, two transactions with one id, no list or text of
  -- which has 2 ^ 64 elements, agree on every field that their stripped forms write, or the hash collides.
  pub txid_binds :
      ((a b : Bytes)
        → crypto.bytes_to_hex (crypto.sha256 a) ≡ crypto.bytes_to_hex (crypto.sha256 b)
        → crypto.sha256 a ≡ crypto.sha256 b)
      → (t u : Tx) (v w : WireTx) (id : Text) → view crypto (stripped t) ≡ some v
      → view crypto (stripped u) ≡ some w
      → IsShort v
      → IsShort w
      → txid crypto t ≡ some id
      → txid crypto u ≡ some id
      → (v ≡ w) ⊎ Collision
  unfolding txid sha256d
  txid_binds hex_injective t u v w id ht hu sv sw et eu =
      let (a, ea, ha) = >>=-eq-some (serialize crypto (stripped t)) _ et in
      let (b, eb, hb) = >>=-eq-some (serialize crypto (stripped u)) _ eu in
      let same : sha256d crypto a ≡ sha256d crypto b = hex_injective _ _ (hx_tail a b id ha hb) in
      elim (sha256d_collision a b same) [
        | inl e ↦ inl (serialize_binds (stripped t) (stripped u) v w b ht hu sv sw (rw e at ea) eb)
        | inr c ↦ inr c
      ]
