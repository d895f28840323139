-- ===== src/Codec/Fields.antt =====
-- What the encodings of the fields bind (src/core/csdtx.ts).
use cairn_wallet.Base.{◌≡◌, refl, inl, inr, Option, some, arith, Option-cases}
use cairn_wallet.Base.Maybe.{◌>>=◌, traverse, length-traverse, traverse-map}
use cairn_wallet.Js.{val_uint32, val_uint64}
use cairn_wallet.Codec.{
  Bytes, Crypto, App, TxInput, TxOutput, Tx, u32, u64, le_bytes, len_bytes, hb, hb_fixed, concat,
  serialize_app, serialize_input, serialize_output, serialize, stripped, sha256d, hx, txid,
}
use cairn_wallet.Codec
use cairn_wallet.Codec.Wire
use cairn_wallet.Codec.Wire.{
  WireApp, WireInput, WireOutput, WireTx, IsWireInput, IsWireOutput, IsWireApp, IsWireTx,
  encode_input, encode_output, encode_app, encode, decode, decode-encode,
}

module _ (crypto : Crypto) where
  -- What the serializer writes for each part, as values: `none` where it throws.
  unfoldable pub input_view : TxInput → Option WireInput
  input_view i = hb_fixed crypto i.prev_txid 32 >>= λ t. hb crypto i.script_sig >>= λ s.
      some (record { prev_txid = t; vout = val_uint32 i.vout; script_sig = s })

  unfoldable pub output_view : TxOutput → Option WireOutput
  output_view o = val_uint64 o.value >>= λ v.
      hb_fixed crypto o.script_pubkey 20 >>= λ s. some (record { value = v; script_pubkey = s })

  unfoldable pub app_view : App → Option WireApp
  app_view Codec.App.no_app = some Wire.WireApp.no_app
  app_view (Codec.App.propose d h u e) = hb_fixed crypto h 32 >>= λ p. val_uint64 e >>= λ n.
      some (Wire.WireApp.propose (crypto.utf8_to_bytes d) p (crypto.utf8_to_bytes u) n)
  app_view (Codec.App.attest p s c) =
      hb_fixed crypto p 32 >>= λ b. some (Wire.WireApp.attest b (val_uint32 s) (val_uint32 c))

  unfoldable pub view : Tx → Option WireTx
  view tx = traverse input_view tx.inputs >>= λ ins. traverse output_view tx.outputs >>= λ outs.
      app_view tx.app >>= λ a. some (record {
        version = val_uint32 tx.version;
        inputs = ins;
        outputs = outs;
        locktime = val_uint32 tx.locktime;
        app = a;
      })

  serialize_input-view :
      (i : TxInput) → serialize_input crypto i ≡ (input_view i >>= λ w. some (encode_input w))
  unfolding serialize_input input_view encode_input u32
  serialize_input-view i = ground arith

  serialize_output-view :
      (o : TxOutput) → serialize_output crypto o ≡ (output_view o >>= λ w. some (encode_output w))
  unfolding serialize_output output_view encode_output u64
  serialize_output-view o = ground arith

  serialize_app-view :
      (a : App) → serialize_app crypto a ≡ (app_view a >>= λ w. some (encode_app w))
  unfolding serialize_app app_view encode_app u32 u64
  serialize_app-view Codec.App.no_app = refl
  serialize_app-view (Codec.App.propose d h u e) = ground arith
  serialize_app-view (Codec.App.attest p s c) = ground arith

  -- The serializer writes exactly the encoding of the view.
  pub serialize-view : (tx : Tx) → serialize crypto tx ≡ (view tx >>= λ w. some (encode w))
  unfolding serialize view encode u32
  serialize-view tx =
      let ins_eq =
        traverse-map input_view (serialize_input crypto) encode_input serialize_input-view
          tx.inputs in
      let outs_eq =
        traverse-map output_view (serialize_output crypto) encode_output serialize_output-view
          tx.outputs in
      elim (Option-cases (traverse input_view tx.inputs)) [
        | inl e ↦ ground (arith, ins_eq)
        | inr (ins, e) ↦ elim (Option-cases (traverse output_view tx.outputs)) [
          | inl f ↦ ground (arith, ins_eq, outs_eq)
          | inr (outs, f) ↦ ground (
            arith,
            ins_eq,
            outs_eq,
            serialize_app-view tx.app,
            length-traverse input_view tx.inputs ins e,
            length-traverse output_view tx.outputs outs f,
          )
        ]
      ]
