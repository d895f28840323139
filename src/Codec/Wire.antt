-- ===== src/Codec/Wire.antt =====
-- What the bytes of a transaction carry (src/core/csdtx.ts), the layout as an encoder, and a decoder for it.
use cairn_wallet.Base.{
  ℕ, zero, suc, ◌^◌, ◌<◌, ◌≡◌, refl, Option, none, some, List, [], ◌∷◌, ◌++◌, map, append_assoc,
  length, All, arith,
}
use cairn_wallet.Base.Maybe.{◌>>=◌}
use cairn_wallet.Codec.{Bytes, le_bytes, u64_length, len_bytes, concat}
use cairn_wallet.Codec.Read.{
  read, read_le, read_prefixed, read_le-append, read_le-front, read-width, read-front,
  read_prefixed-append, read_prefixed-front,
}

pub data WireApp : Type 0 where
  no_app : WireApp
  propose : (domain payload_hash uri : Bytes) (expires_epoch : ℕ) → WireApp
  attest : (proposal_id : Bytes) (score confidence : ℕ) → WireApp

pub record WireInput : Type 0 where
  pub prev_txid : Bytes
  pub vout : ℕ
  pub script_sig : Bytes

pub record WireOutput : Type 0 where
  pub value : ℕ
  pub script_pubkey : Bytes

pub record WireTx : Type 0 where
  pub version : ℕ
  pub inputs : List WireInput
  pub outputs : List WireOutput
  pub locktime : ℕ
  pub app : WireApp

-- Widths and ranges of the fields, those that the length prefixes need included.
pub record IsWireInput (i : WireInput) : Type 0 where
  pub txid_width : length i.prev_txid ≡ 32
  pub vout_range : i.vout < 256 ^ 4
  pub script_short : length i.script_sig < 2 ^ 64

pub record IsWireOutput (o : WireOutput) : Type 0 where
  pub value_range : o.value < 256 ^ 8
  pub script_width : length o.script_pubkey ≡ 20

abbrev pub IsWireApp : WireApp → Type 0
IsWireApp no_app = Unit
IsWireApp (propose d h u e) =
    (length d < 2 ^ 64) × (length h ≡ 32) × (length u < 2 ^ 64) × (e < 256 ^ 8)
IsWireApp (attest p s c) = (length p ≡ 32) × (s < 256 ^ 4) × (c < 256 ^ 4)

pub record IsWireTx (w : WireTx) : Type 0 where
  pub version_range : w.version < 256 ^ 4
  pub inputs_short : length w.inputs < 256 ^ 8
  pub inputs_wire : All IsWireInput w.inputs
  pub outputs_short : length w.outputs < 256 ^ 8
  pub outputs_wire : All IsWireOutput w.outputs
  pub locktime_range : w.locktime < 256 ^ 4
  pub app_wire : IsWireApp w.app

unfoldable pub encode_input : WireInput → Bytes
encode_input i = i.prev_txid ++ (le_bytes 4 i.vout ++ len_bytes i.script_sig)

unfoldable pub encode_output : WireOutput → Bytes
encode_output o = le_bytes 8 o.value ++ o.script_pubkey

unfoldable pub encode_app : WireApp → Bytes
encode_app no_app = le_bytes 4 0
encode_app (propose d h u e) = le_bytes 4 1 ++ (len_bytes d ++ (h ++ (len_bytes u ++ le_bytes 8 e)))
encode_app (attest p s c) = le_bytes 4 2 ++ (p ++ (le_bytes 4 s ++ le_bytes 4 c))

unfoldable pub encode : WireTx → Bytes
encode w =
    le_bytes 4 w.version
    ++ (u64_length (length w.inputs)
        ++ (concat (map encode_input w.inputs)
            ++ (u64_length (length w.outputs)
                ++ (concat (map encode_output w.outputs)
                    ++ (le_bytes 4 w.locktime ++ encode_app w.app)))))

decode_input : Bytes → Option (WireInput × Bytes)
decode_input b = read 32 b >>= λ t. read_le 4 t.1 >>= λ v.
    read_prefixed v.1 >>= λ s. some (record { prev_txid = t.0; vout = v.0; script_sig = s.0 }, s.1)

decode_output : Bytes → Option (WireOutput × Bytes)
decode_output b = read_le 8 b >>= λ v.
    read 20 v.1 >>= λ s. some (record { value = v.0; script_pubkey = s.0 }, s.1)

-- `n` elements, one after the other
decode_list {ℓ} : {A : Type ℓ} → (Bytes → Option (A × Bytes)) → ℕ → Bytes → Option (List A × Bytes)
decode_list d zero b = some ([], b)
decode_list d (suc n) b = d b >>= λ x. decode_list d n x.1 >>= λ xs. some (x.0 ∷ xs.0, xs.1)

decode_app_tag : ℕ → Bytes → Option (WireApp × Bytes)
decode_app_tag zero b = some (no_app, b)
decode_app_tag (suc zero) b = read_prefixed b >>= λ d. read 32 d.1 >>= λ h.
    read_prefixed h.1 >>= λ u. read_le 8 u.1 >>= λ e. some (propose d.0 h.0 u.0 e.0, e.1)
decode_app_tag (suc (suc zero)) b =
    read 32 b >>= λ p. read_le 4 p.1 >>= λ s. read_le 4 s.1 >>= λ c. some (attest p.0 s.0 c.0, c.1)
decode_app_tag (suc (suc (suc n))) b = none

decode_app : Bytes → Option (WireApp × Bytes)
decode_app b = read_le 4 b >>= λ t. decode_app_tag t.0 t.1

pub decode : Bytes → Option (WireTx × Bytes)
decode b = read_le 4 b >>= λ v. read_le 8 v.1 >>= λ ni.
    decode_list decode_input ni.0 ni.1 >>= λ ins. read_le 8 ins.1 >>= λ no.
    decode_list decode_output no.0 no.1 >>= λ outs. read_le 4 outs.1 >>= λ l.
    decode_app l.1 >>= λ a.
    some
      (record { version = v.0; inputs = ins.0; outputs = outs.0; locktime = l.0; app = a.0 }, a.1)

decode_input-encode :
    (i : WireInput) (r : Bytes) → IsWireInput i → decode_input (encode_input i ++ r) ≡ some (i, r)
unfolding decode_input encode_input
decode_input-encode i r h = rw (
  read-front 32 i.prev_txid (le_bytes 4 i.vout ++ len_bytes i.script_sig) r h.txid_width,
  read_le-front 4 i.vout (len_bytes i.script_sig) r h.vout_range,
  read_prefixed-append i.script_sig r h.script_short,
)

decode_output-encode :
    (o : WireOutput) (r : Bytes)
    → IsWireOutput o
    → decode_output (encode_output o ++ r) ≡ some (o, r)
unfolding decode_output encode_output
decode_output-encode o r h = rw (
  read_le-front 8 o.value o.script_pubkey r h.value_range,
  read-width 20 o.script_pubkey r h.script_width,
)

module _ {A : Type 0} (d : Bytes → Option (A × Bytes)) (e : A → Bytes) (P : A → Type 0)
    (round : (a : A) (r : Bytes) → P a → d (e a ++ r) ≡ some (a, r)) where
  decode_list-encode :
      (xs : List A) (r : Bytes)
      → All P xs
      → decode_list d (length xs) (concat (map e xs) ++ r) ≡ some (xs, r)
  unfolding decode_list concat
  decode_list-encode [] r h = refl
  decode_list-encode (x ∷ xs) r h = rw (
    append_assoc (e x) (concat (map e xs)) r,
    round x (concat (map e xs) ++ r) h.0,
    decode_list-encode xs r h.1,
  )

  decode_list-front :
      (xs : List A) (s r : Bytes)
      → All P xs
      → decode_list d (length xs) ((concat (map e xs) ++ s) ++ r) ≡ some (xs, s ++ r)
  decode_list-front xs s r h =
      rw (append_assoc (concat (map e xs)) s r) (decode_list-encode xs (s ++ r) h)

decode_app-encode :
    (a : WireApp) (r : Bytes) → IsWireApp a → decode_app (encode_app a ++ r) ≡ some (a, r)
unfolding decode_app decode_app_tag encode_app
decode_app-encode no_app r h = rw (read_le-append 4 0 r (omega arith))
decode_app-encode (propose d p u e) r (hd, hp, hu, he) = rw (
  read_le-front 4 1 (len_bytes d ++ (p ++ (len_bytes u ++ le_bytes 8 e))) r (omega arith),
  read_prefixed-front d (p ++ (len_bytes u ++ le_bytes 8 e)) r hd,
  read-front 32 p (len_bytes u ++ le_bytes 8 e) r hp,
  read_prefixed-front u (le_bytes 8 e) r hu,
  read_le-append 8 e r he,
)
decode_app-encode (attest p s c) r (hp, hs, hc) = rw (
  read_le-front 4 2 (p ++ (le_bytes 4 s ++ le_bytes 4 c)) r (omega arith),
  read-front 32 p (le_bytes 4 s ++ le_bytes 4 c) r hp,
  read_le-front 4 s (le_bytes 4 c) r hs,
  read_le-append 4 c r hc,
)

-- the parts of `encode` behind the inputs
abbrev outputs_part : WireTx → Bytes
outputs_part w = concat (map encode_output w.outputs) ++ (le_bytes 4 w.locktime ++ encode_app w.app)

-- Decoding undoes encoding, and leaves what follows the transaction.
pub decode-encode : (w : WireTx) (r : Bytes) → IsWireTx w → decode (encode w ++ r) ≡ some (w, r)
unfolding decode encode
decode-encode w r h = rw (
  read_le-front 4 w.version _ r h.version_range,
  read_le-front 8 (length w.inputs) _ r h.inputs_short,
  decode_list-front decode_input encode_input IsWireInput decode_input-encode w.inputs _ r
      h.inputs_wire,
  read_le-front 8 (length w.outputs) (outputs_part w) r h.outputs_short,
  decode_list-front decode_output encode_output IsWireOutput decode_output-encode w.outputs _ r
      h.outputs_wire,
  read_le-front 4 w.locktime (encode_app w.app) r h.locktime_range,
  decode_app-encode w.app r h.app_wire,
)
