-- ===== src/Codec.antt =====
-- The transaction codec of src/core/csdtx.ts: the consensus byte layout, the stripped form and the transaction id.
-- Hashing and hexadecimal text come from packages, and are the fields of `Crypto`.
pub mod Read
pub mod Wire
pub mod Fields
pub mod Binding
use cairn_wallet.Base.{
  ℕ, zero, suc, ◌/◌, ◌%◌, Bool, false, ◌&&◌, Option, none, some, List, [], ◌∷◌, ◌++◌, map, length,
  take, drop, ◌==◌, if◌then◌else◌,
}
use cairn_wallet.Base.Text.{Text, codes, text_eq}
use cairn_wallet.Base.Maybe.{◌>>=◌, traverse}
use cairn_wallet.Js.{nat, num, Val, val_uint32, val_uint64}

abbrev pub Bytes : Type 0
Bytes = List ℕ

-- `hexToBytes` throws on odd or non-hexadecimal text.
pub record Crypto : Type 0 where
  pub hex_to_bytes : Text → Option Bytes
  pub bytes_to_hex : Bytes → Text
  pub utf8_to_bytes : Text → Bytes
  pub sha256 : Bytes → Bytes
  pub ripemd160 : Bytes → Bytes

pub data App : Type 0 where
  no_app : App
  propose : (domain payload_hash uri : Text) (expires_epoch : Val) → App
  attest : (proposal_id : Text) (score confidence : Val) → App

pub record TxInput : Type 0 where
  pub prev_txid : Text
  pub vout : Val
  pub script_sig : Text

pub record TxOutput : Type 0 where
  pub value : Val
  pub script_pubkey : Text

pub record Tx : Type 0 where
  pub version : Val
  pub inputs : List TxInput
  pub outputs : List TxOutput
  pub locktime : Val
  pub app : App

-- the low `k` bytes of a number, the lowest first
unfoldable pub le_bytes : ℕ → ℕ → Bytes
le_bytes zero n = []
le_bytes (suc k) n = (n % 256) ∷ le_bytes k (n / 256)

unfoldable pub u32 : Val → Bytes
u32 v = le_bytes 4 (val_uint32 v)

unfoldable pub u64 : Val → Option Bytes
u64 v = val_uint64 v >>= λ n. some (le_bytes 8 n)

-- `u64` of a length, which never throws
abbrev pub u64_length : ℕ → Bytes
u64_length n = le_bytes 8 n

unfoldable pub len_bytes : Bytes → Bytes
len_bytes b = u64_length (length b) ++ b

-- `h.startsWith("0x") ? h.slice(2) : h`
unfoldable pub strip : Text → Text
strip h = if text_eq (take 2 h) (codes "0x") then drop 2 h else h

abbrev pub zero_bytes_hex : ℕ → Text
zero_bytes_hex zero = []
zero_bytes_hex (suc k) = b'0' ∷ b'0' ∷ zero_bytes_hex k

-- The previous transaction id of a coinbase input.
pub coinbase : Text
coinbase = codes "0x" ++ zero_bytes_hex 32

-- `i.vout === 0xffffffff`
unfoldable pub is_coinbase_vout : Val → Bool
is_coinbase_vout (num (nat n)) = n == 4294967295
is_coinbase_vout _ = false

unfoldable pub strip_input : TxInput → TxInput
unfolding coinbase is_coinbase_vout
strip_input i =
    if text_eq i.prev_txid coinbase && is_coinbase_vout i.vout
    then i
    else record i { script_sig = codes "0x" }

unfoldable pub stripped : Tx → Tx
unfolding strip_input
stripped tx = record tx { inputs = map strip_input tx.inputs }

-- `parts.push(...)` once for each element, then `concatBytes`
unfoldable pub concat : List Bytes → Bytes
concat [] = []
concat (b ∷ bs) = b ++ concat bs

module _ (crypto : Crypto) where
  open crypto use {hex_to_bytes, bytes_to_hex, utf8_to_bytes, sha256}

  unfoldable pub hb : Text → Option Bytes
  unfolding strip
  hb h = hex_to_bytes (strip h)

  -- A field of a fixed width; the codec throws on any other length.
  unfoldable pub hb_fixed : Text → ℕ → Option Bytes
  unfolding hb
  hb_fixed h n = hb h >>= λ b. if length b == n then some b else none

  unfoldable pub serialize_app : App → Option Bytes
  serialize_app no_app = some (le_bytes 4 0)
  serialize_app (propose domain payload_hash uri expires_epoch) = hb_fixed payload_hash 32 >>= λ h.
      u64 expires_epoch >>= λ e. some (
        le_bytes 4 1
        ++ (len_bytes (utf8_to_bytes domain) ++ (h ++ (len_bytes (utf8_to_bytes uri) ++ e))))
  serialize_app (attest proposal_id score confidence) =
      hb_fixed proposal_id 32 >>= λ p. some (le_bytes 4 2 ++ (p ++ (u32 score ++ u32 confidence)))

  unfoldable pub serialize_input : TxInput → Option Bytes
  serialize_input i = hb_fixed i.prev_txid 32 >>= λ t.
      hb i.script_sig >>= λ s. some (t ++ (u32 i.vout ++ len_bytes s))

  unfoldable pub serialize_output : TxOutput → Option Bytes
  serialize_output o = u64 o.value >>= λ v. hb_fixed o.script_pubkey 20 >>= λ s. some (v ++ s)

  unfoldable pub serialize : Tx → Option Bytes
  unfolding serialize_app serialize_input serialize_output concat
  serialize tx = traverse serialize_input tx.inputs >>= λ ins.
      traverse serialize_output tx.outputs >>= λ outs. serialize_app tx.app >>= λ a. some (
        u32 tx.version
        ++ (u64_length (length tx.inputs)
            ++ (concat ins
                ++ (u64_length (length tx.outputs) ++ (concat outs ++ (u32 tx.locktime ++ a))))))

  unfoldable pub sha256d : Bytes → Bytes
  sha256d b = sha256 (sha256 b)

  unfoldable pub hx : Bytes → Text
  hx b = codes "0x" ++ bytes_to_hex b

  -- `none` where the serializer throws
  unfoldable pub txid : Tx → Option Text
  unfolding stripped serialize sha256d hx
  txid tx = serialize (stripped tx) >>= λ b. some (hx (sha256d b))

  unfoldable pub tagged_hash : Text → Bytes → Bytes
  tagged_hash tag msg = let t = sha256 (utf8_to_bytes tag) in sha256 (t ++ (t ++ msg))

  unfoldable pub sighash : Bytes → Tx → Option Text
  unfolding stripped serialize sha256d hx tagged_hash
  sighash chain_id_hash tx = serialize (stripped tx) >>= λ b.
      some (hx (sha256d (tagged_hash (codes "CSD_SIG_V1") (b ++ chain_id_hash))))
