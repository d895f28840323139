-- ===== src/Tests/Sample.antt =====
-- Concrete instances of the parameters: hexadecimal text, a digest that is the length of its input, a selection that
-- takes every coin not excluded, a signer, and a node that serves one source transaction.
use cairn_wallet.Base.{
  ℕ, zero, suc, ◌+◌, ◌-◌, ◌*◌, ◌/◌, ◌%◌, ◌≤◌, ◌≡◌, subst, Bool, true, false, Option, none, some,
  List, [], ◌∷◌, ◌++◌, length, length-take, take, All, All-take, arith, leb, ltb, if◌then◌else◌,
}
use mathlib.Core.Option.{some-injective}
use cairn_wallet.Base.Text.{Text, codes}
use cairn_wallet.Base.Maybe.{◌>>=◌}
use cairn_wallet.Base.Eq.{nat_eq, text_key, pair_eq, has}
use cairn_wallet.Js.{nat, num}
use cairn_wallet.Codec
use cairn_wallet.Codec.{Bytes, Crypto, App, TxInput, TxOutput, Tx}
use cairn_wallet.Net.{HttpReply, responded, fields}
use cairn_wallet.Spend.Coins.{Outpoint, Utxo, Coin, coin_key, op_key, Selector, max_tx_inputs}
use cairn_wallet.Spend.Verify.{answered}
use cairn_wallet.Spend.Session.{Caches}
use cairn_wallet.Spend.Submit.{Signer}
use cairn_wallet.Spend.Assemble.{World}

abbrev pub hex_digit : ℕ → ℕ
hex_digit n = if ltb n 10 then b'0' + n else b'a' + (n - 10)

abbrev digit_value : ℕ → ℕ
digit_value c = if leb b'a' c then c - b'a' + 10 else c - b'0'

abbrev pub to_hex : Bytes → Text
to_hex [] = []
to_hex (b ∷ bs) = hex_digit (b / 16) ∷ hex_digit (b % 16) ∷ to_hex bs

abbrev of_hex : Text → Option Bytes
of_hex [] = some []
of_hex (c ∷ []) = none
of_hex (c ∷ d ∷ t) = of_hex t >>= λ bs. some ((digit_value c * 16 + digit_value d) ∷ bs)

abbrev pub copies : ℕ → ℕ → Bytes
copies zero b = []
copies (suc n) b = b ∷ copies n b

abbrev pub sample_crypto : Crypto
sample_crypto = record {
  hex_to_bytes = of_hex;
  bytes_to_hex = to_hex;
  utf8_to_bytes = λ t. t;
  sha256 = λ b. copies 32 (length b % 256);
  ripemd160 = λ b. take 20 b;
}

abbrev candidates : List Outpoint → List Utxo → List Coin
candidates ex [] = []
candidates ex (u ∷ us) =
    let rest = candidates ex us in
    if has (op_key u.txid u.vout) ex
    then rest
    else record { txid = u.txid; vout = u.vout; value = u.value } ∷ rest

abbrev worth : List Coin → ℕ
worth [] = 0
worth (c ∷ cs) = c.value + worth cs

abbrev take_all : List Utxo → ℕ → List Outpoint → Option (List Coin)
take_all us need ex =
    let cs = take max_tx_inputs (candidates ex us) in if leb need (worth cs) then some cs else none

pub candidates-fresh :
    (ex : List Outpoint) (us : List Utxo)
    → All (λ (c : Coin). has (coin_key c) ex ≡ false) (candidates ex us)
candidates-fresh ex [] = tt
candidates-fresh ex (u ∷ us) = ground (arith, candidates-fresh ex us)

pub some_if :
    {A : Type 0} (P : A → Type 0) (t : Bool) (a b : A)
    → P a
    → (if t then some a else none) ≡ some b
    → P b
some_if P true a b p h = subst P (some-injective _ _ h) p
some_if P false a b p h = absurd (cc)

pub candidates-few :
    (us : List Utxo) (ex : List Outpoint) → length (take 512 (candidates ex us)) ≤ 512
candidates-few us ex = omega (arith, length-take 512 (candidates ex us))

abbrev pub sample_selector : Selector
sample_selector = record {
  select = take_all;
  select_not_excluded = λ us need ex ins.
      some_if (All (λ (c : Coin). has (coin_key c) ex ≡ false)) _ (take 512 (candidates ex us)) ins
        (All-take (λ (c : Coin). has (coin_key c) ex ≡ false) 512 (candidates ex us)
          (candidates-fresh ex us));
  select_at_most_max = λ us need ex ins.
      some_if (λ (cs : List Coin). length cs ≤ 512) _ (take 512 (candidates ex us)) ins
        (candidates-few us ex);
}

abbrev pub sample_signer : Signer
sample_signer = record {
  sign = λ digest priv. codes "0x" ++ take 8 digest;
  public_key = λ priv. copies 33 2;
  chain_id_hash = copies 32 1;
}

abbrev pub address : Text
address = codes "0x" ++ copies 40 b'7'

-- the id of every transaction under the sample digest
abbrev pub sample_id : Text
sample_id = codes "0x" ++ to_hex (copies 32 32)

-- pays 5 CSD and 6 CSD
abbrev pub source_tx : Tx
source_tx = record {
  version = num (nat 1);
  inputs =
      record {
        prev_txid = codes "0x" ++ copies 64 b'0';
        vout = num (nat 3);
        script_sig = codes "0x";
      }
      ∷ [];
  outputs =
      record { value = num (nat 500000000); script_pubkey = address }
      ∷ record { value = num (nat 600000000); script_pubkey = address }
      ∷ [];
  locktime = num (nat 0);
  app = Codec.App.no_app;
}

abbrev sample_utxo : ℕ → ℕ → Utxo
sample_utxo vout value = record {
  txid = sample_id;
  vout = vout;
  value = value;
  confirmations = 10;
  is_coinbase = false;
}

abbrev pub sample_utxos : List Utxo
sample_utxos = sample_utxo 0 500000000 ∷ sample_utxo 1 600000000 ∷ []

abbrev pub no_caches : Caches
no_caches = record { ghosts = []; horizons = []; unreps = [] }

abbrev pub accepting : Tx → HttpReply
accepting tx =
    responded 200 (
      fields (record { ok = true; err = none; error = none; txid = none; claims_inflight = false }))

abbrev pub sample_world : World
sample_world = record {
  now = 1000;
  utxos = some sample_utxos;
  ask = λ n c. answered (some source_tx);
  answer = accepting;
  caches = no_caches;
  tenth = λ v. v / 10;
}

abbrev pub priv : Text
priv = codes "0x" ++ copies 64 b'1'
