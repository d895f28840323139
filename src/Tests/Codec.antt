-- ===== src/Tests/Codec.antt =====
-- The codec on concrete transactions (src/core/csdtx.ts).
use cairn_wallet.Base.{
  ℕ, ◌/◌, ◌%◌, ◌<◌, ◌≡◌, refl, ap, ◌⊎◌, none, some, List, [], ◌∷◌, ◌++◌, length, arith,
}
use cairn_wallet.Base.Text.{codes, text_eq}
use cairn_wallet.Codec.{Bytes, Tx, hb_fixed, u64, serialize, stripped, txid}
use cairn_wallet.Js.{nat, num, val_uint32, to_uint32, val_uint64, to_uint64}
use cairn_wallet.Codec.Wire
use cairn_wallet.Codec.Wire.{WireTx, decode}
use cairn_wallet.Codec.Fields.{view, input_view, output_view, app_view}
use cairn_wallet.Codec.Binding.{Collision, IsShort, decode-serialize, txid_binds}
use cairn_wallet.Tests.Sample.{copies, hex_digit, sample_crypto, source_tx, sample_id}

source_id : txid sample_crypto source_tx ≡ some sample_id
unfolding txid hb_fixed text_eq u64 val_uint64 to_uint64
source_id = refl

-- `source_tx` on the wire
abbrev source_wire : WireTx
source_wire = record {
  version = 1;
  inputs = record { prev_txid = copies 32 0; vout = 3; script_sig = [] } ∷ [];
  outputs =
      record { value = 500000000; script_pubkey = copies 20 119 }
      ∷ record { value = 600000000; script_pubkey = copies 20 119 }
      ∷ [];
  locktime = 0;
  app = Wire.WireApp.no_app;
}

source_wire-IsShort : IsShort source_wire
source_wire-IsShort = record {
  inputs_short = omega arith;
  scripts_short = (omega arith, tt);
  outputs_short = omega arith;
  app_short = tt;
}

abbrev source_bytes : Bytes
source_bytes = elim (serialize sample_crypto source_tx) [ none ↦ [] | some b ↦ b ]

decode-serialize_example : decode source_bytes ≡ some (source_wire, [])
unfolding serialize view input_view output_view app_view hb_fixed val_uint32 to_uint32 text_eq u64
    val_uint64 to_uint64
decode-serialize_example =
    decode-serialize sample_crypto source_tx source_wire source_bytes refl source_wire-IsShort refl

-- `source_tx` with a script: the id does not cover it
abbrev signed_source : Tx
signed_source = record source_tx {
  inputs =
      record {
        prev_txid = codes "0x" ++ copies 64 b'0';
        vout = num (nat 3);
        script_sig = codes "0xaa";
      }
      ∷ [];
}

hex_digit_injective : (a b : ℕ) → a < 16 → b < 16 → hex_digit a ≡ hex_digit b → a ≡ b
hex_digit_injective a b ha hb h = ground arith

byte_injective :
    (a b : ℕ)
    → a < 256
    → b < 256
    → hex_digit (a / 16) ≡ hex_digit (b / 16)
    → hex_digit (a % 16) ≡ hex_digit (b % 16)
    → a ≡ b
byte_injective a b ha hb h l =
    let p = hex_digit_injective (a / 16) (b / 16) (omega arith) (omega arith) h in
    let q = hex_digit_injective (a % 16) (b % 16) (omega arith) (omega arith) l in omega arith

head_injective : {a b : ℕ} {s t : List ℕ} → a ∷ s ≡ b ∷ t → (a ≡ b) × (s ≡ t)
head_injective h = (cc, cc)

digest_injective :
    (a b : Bytes)
    → sample_crypto.bytes_to_hex (sample_crypto.sha256 a)
      ≡ sample_crypto.bytes_to_hex (sample_crypto.sha256 b)
    → sample_crypto.sha256 a ≡ sample_crypto.sha256 b
digest_injective a b h =
    let (x, t) = head_injective h in
    let (y, _) = head_injective t in
    ap (copies 32)
      (byte_injective (length a % 256) (length b % 256) (omega arith) (omega arith) x y)

txid_binds_example : (source_wire ≡ source_wire) ⊎ Collision sample_crypto
unfolding txid stripped view input_view output_view app_view hb_fixed val_uint32 to_uint32 text_eq
    u64 val_uint64 to_uint64
txid_binds_example =
    txid_binds sample_crypto digest_injective source_tx signed_source source_wire source_wire
      sample_id refl refl source_wire-IsShort source_wire-IsShort refl refl
