-- ===== src/Vault/Keystore.antt =====
-- The encrypted vault (src/core/keystore.ts). The ciphers of WebCrypto are parameters; a key is its 32 bytes in
-- hexadecimal, which is how the session store holds it.
use cairn_wallet.Base.{
  ℕ, ◌≡◌, refl, Bool, ◌&&◌, ◌||◌, Option, none, some, length, ltb, all, ◌==◌, if◌then◌else◌,
}
use cairn_wallet.Base.Text.{Text, lower}
use cairn_wallet.Spend.Outputs.{is_hex_code}
use cairn_wallet.Vault.{
  Result, ok, err, or_throw, password_required, weak_password, bad_password,
  iterations_out_of_range,
}

abbrev pub Key : Type 0
Key = Text

-- AES-GCM over the plaintexts of one kind: a sealed text opens under its own key, and, since the tag is checked, under
-- no key to another text.
pub record Cipher (P : Type 0) : Type 0 where
  pub encrypt : (key : Key) (iv : Text) → P → Text
  pub decrypt : (key : Key) (iv ct : Text) → Option P
  pub decrypt_encrypt : (key : Key) (iv : Text) (p : P) → decrypt key iv (encrypt key iv p) ≡ some p
  pub decrypt_authentic :
      (key other : Key) (iv : Text) (p q : P) → decrypt other iv (encrypt key iv p) ≡ some q → q ≡ p

-- PBKDF2, and whether `hexToBytes` reads a salt.
pub record Kdf : Type 0 where
  pub derive : (password salt : Text) (iter : ℕ) → Key
  pub is_salt : Text → Bool

-- `Vault`
pub record Sealed : Type 0 where
  pub iter : ℕ
  pub salt : Text
  pub iv : Text
  pub ct : Text

abbrev pub pbkdf2_iters : ℕ
pbkdf2_iters = 600000

abbrev pub min_password_len : ℕ
min_password_len = 8

abbrev pub min_iters : ℕ
min_iters = 100000

abbrev pub max_iters : ℕ
max_iters = 30000000

unfoldable pub derive_vault_key : Kdf → (password salt : Text) (iter : ℕ) → Result Key
derive_vault_key kdf password salt iter =
    if ltb iter min_iters || ltb max_iters iter
    then err iterations_out_of_range
    else if kdf.is_salt salt
    then ok (kdf.derive password salt iter)
    else err bad_password

-- `importKeyRaw`: exactly 64 hexadecimal digits
unfoldable pub import_key_raw : Text → Option Key
import_key_raw hex = if length hex == 64 && all is_hex_code hex then some (lower hex) else none

module _ {P : Type 0} (cipher : Cipher P) where
  -- `iv` is fresh.
  unfoldable pub seal_with : (iv : Text) → P → Key → (salt : Text) (iter : ℕ) → Sealed
  seal_with iv p key salt iter = record {
    iter = iter;
    salt = salt;
    iv = iv;
    ct = cipher.encrypt key iv p;
  }

  unfoldable pub open_with : Sealed → Key → Result P
  open_with v key = or_throw bad_password (cipher.decrypt key v.iv v.ct)

  -- `salt` and `iv` are fresh.
  unfoldable pub seal_new : Kdf → (salt iv : Text) → P → (password : Text) → Result (Sealed × Key)
  unfolding seal_with
  seal_new kdf salt iv p password =
      if length password == 0
      then err password_required
      else if ltb (length password) min_password_len
      then err weak_password
      else let key = kdf.derive password salt pbkdf2_iters in
        ok (seal_with iv p key salt pbkdf2_iters, key)

  pub open_with-seal_with :
      (iv : Text) (p : P) (key : Key) (salt : Text) (iter : ℕ)
      → open_with (seal_with iv p key salt iter) key ≡ ok p
  unfolding open_with seal_with
  open_with-seal_with iv p key salt iter = rw (cipher.decrypt_encrypt key iv p) refl
