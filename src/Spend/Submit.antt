-- ===== src/Spend/Submit.antt =====
-- Signing and submitting (src/core/node.ts `signAndSubmit`, `isSubmitDuplicateErr`; src/core/csdtx.ts `signSighash`,
-- `buildScriptSig`, `addrFromPriv`). The curve is a package's: the fields of `Signer`.
pub mod Codes
use cairn_wallet.Base.{
  ℕ, Bool, true, false, ◌&&◌, ◌||◌, not, Option, none, some, List, [], ◌∷◌, ◌++◌, map, ◌==◌,
  if◌then◌else◌,
}
use cairn_wallet.Base.Text.{Text, codes, lower}
use cairn_wallet.Base.Maybe.{◌>>=◌}
use cairn_wallet.Codec.{Bytes, Crypto, TxInput, Tx, strip, txid, sighash}
use cairn_wallet.Net.{HttpReply, PostResult, post}
use cairn_wallet.Spend.Errors.{Code, submit_duplicate, submit_maybe_inflight, submit_rejected}
use cairn_wallet.Spend.Coins.{Outpoint}

pub record Signer : Type 0 where
  -- the compact low-S signature of a digest under a private key, as hex text
  pub sign : Text → Text → Text
  -- the compressed public key of a private key
  pub public_key : Text → Bytes
  -- `CHAIN_ID_HASH`
  pub chain_id_hash : Bytes

-- `SubmitResult`, without its text for people
pub record SubmitResult : Type 0 where
  pub ok : Bool
  pub txid : Option Text
  pub code : Option Code
  pub inputs : Option (List Outpoint)
  pub spent_txids : Option (List Text)

-- What a flow does: its answer, and the transaction that it posted, if it posted one.
pub record Outcome : Type 0 where
  pub result : SubmitResult
  pub posted : Option Tx

abbrev pub refuse : Code → Outcome
refuse code = record {
  result = record { ok = false; txid = none; code = some code; inputs = none; spent_txids = none };
  posted = none;
}

unfoldable pub starts_with : Text → Text → Bool
starts_with [] t = true
starts_with (c ∷ p) [] = false
starts_with (c ∷ p) (d ∷ t) = c == d && starts_with p t

-- whether `p` stands somewhere in the text
unfoldable pub contains : Text → Text → Bool
unfolding starts_with
contains p [] = starts_with p []
contains p (c ∷ t) = starts_with p (c ∷ t) || contains p t

-- `/already present/i.test(err)`
unfoldable pub is_submit_duplicate_err : Option Text → Bool
unfolding contains
is_submit_duplicate_err none = false
is_submit_duplicate_err (some err) = contains (codes "already present") (lower err)

-- "0x40" + sig + "21" + pub
unfoldable pub build_script_sig : Text → Text → Text
build_script_sig sig pub_key = codes "0x40" ++ (strip sig ++ (codes "21" ++ strip pub_key))

-- `dup`: the node says that it already has the transaction
unfoldable pub is_duplicate : PostResult → Bool
unfolding is_submit_duplicate_err
is_duplicate sub = not sub.ok && (not sub.maybe_inflight && is_submit_duplicate_err sub.err)

-- The result that `signAndSubmit` makes of the node's answer; `local` is the transaction id computed before.
unfoldable pub submit_result : Text → PostResult → SubmitResult
unfolding is_duplicate
submit_result local_txid sub = record {
  ok = sub.ok;
  txid = if sub.ok || (sub.maybe_inflight || is_duplicate sub) then some local_txid else none;
  code =
      if sub.ok
      then none
      else if is_duplicate sub
      then some submit_duplicate
      else if sub.maybe_inflight
      then some submit_maybe_inflight
      else some submit_rejected;
  inputs = none;
  spent_txids = none;
}

module _ (crypto : Crypto) (signer : Signer) where
  -- `hash160`
  unfoldable pub hash160 : Bytes → Text
  hash160 key = codes "0x" ++ crypto.bytes_to_hex (crypto.ripemd160 (crypto.sha256 key))

  unfoldable pub addr_from_priv : Text → Text
  unfolding hash160
  addr_from_priv priv = hash160 (signer.public_key priv)

  pub pub_from_priv : Text → Text
  pub_from_priv priv = codes "0x" ++ crypto.bytes_to_hex (signer.public_key priv)

  -- every input carries the one signature
  unfoldable pub with_script : Text → Tx → Tx
  with_script script tx = record tx {
    inputs = map (λ (i : TxInput). record i { script_sig = script }) tx.inputs;
  }

  -- `none` where the codec throws; `answer` is the node's answer to the transaction that is posted.
  unfoldable pub sign_and_submit : (Tx → HttpReply) → Tx → Text → Option Outcome
  unfolding build_script_sig submit_result pub_from_priv with_script
  sign_and_submit answer tx priv = sighash crypto signer.chain_id_hash tx >>= λ digest.
      let signed =
        with_script (build_script_sig (signer.sign digest priv) (pub_from_priv priv)) tx in
      txid crypto signed >>= λ local_txid.
      some
        (record { result = submit_result local_txid (post (answer signed)); posted = some signed })
