-- ===== src/Vault/Account.antt =====
-- Accounts and recovery phrases (src/core/account.ts). BIP-39 and BIP-32 are packages: the fields of `Phrases`.
use cairn_wallet.Base.{
  ℕ, ◌≡◌, refl, ap, ◌∙◌, inl, inr, Bool, false, ◌&&◌, ◌||◌, not, Option, none, some, [], ◌∷◌, ◌++◌,
  length, all, leb, ◌==◌, arith, Bool-cases, Option-cases, if◌then◌else◌,
}
use cairn_wallet.Base.Text.{Text, codes, text_eq, lower, lower-lower}
use cairn_wallet.Codec.{Crypto, strip}
use cairn_wallet.Spend.Outputs.{is_hex_code}
use cairn_wallet.Spend.Submit.{Signer, addr_from_priv, pub_from_priv}
use cairn_wallet.Vault.{Result, ok, err, bad_private_key, bad_phrase}

pub record Account : Type 0 where
  pub privkey : Text
  pub pubkey : Text
  pub addr : Text

pub record Phrases : Type 0 where
  -- `secp256k1.utils.isValidPrivateKey` of 64 hexadecimal digits
  pub is_valid_private_key : Text → Bool
  -- `validateMnemonic` against the English word list
  pub validate_mnemonic : Text → Bool
  -- the private key at an index of the HD path, `none` where the node has none
  pub hd_private_key : Text → ℕ → Option Text

-- JavaScript's white space
is_space : ℕ → Bool
is_space c =
    (leb 9 c && leb c 13)
    || (c == 32
        || (c == 160
            || (c == 0x1680
                || ((leb 0x2000 c && leb c 0x200a)
                    || (c == 0x2028
                        || (c == 0x2029
                            || (c == 0x202f || (c == 0x205f || (c == 0x3000 || c == 0xfeff)))))))))

-- `.trimStart()`
unfoldable pub trim_start : Text → Text
unfolding is_space
trim_start [] = []
trim_start (c ∷ t) = let rest = trim_start t in if is_space c then rest else c ∷ t

-- `.trimEnd()`
unfoldable pub trim_end : Text → Text
unfolding is_space
trim_end [] = []
trim_end (c ∷ t) = let rest = trim_end t in if is_space c && length rest == 0 then [] else c ∷ rest

-- `.trim()`
unfoldable pub trim : Text → Text
unfolding trim_start trim_end
trim t = trim_end (trim_start t)

-- `.replace(/\s+/g, " ")`; the flag tells whether a space came before.
collapse : Bool → Text → Text
unfolding is_space
collapse after [] = []
collapse after (c ∷ t) =
    let rest = collapse (is_space c) t in
    if is_space c then (if after then rest else b' ' ∷ rest) else c ∷ rest

unfoldable pub normalize_mnemonic : Text → Text
unfolding trim collapse
normalize_mnemonic m = lower (collapse false (trim m))

module _ (crypto : Crypto) (signer : Signer) (phrases : Phrases) where
  account_of : Text → Account
  account_of h = record {
    privkey = codes "0x" ++ h;
    pubkey = pub_from_priv crypto signer (codes "0x" ++ h);
    addr = addr_from_priv crypto signer (codes "0x" ++ h);
  }

  from_digits : Text → Result Account
  unfolding account_of
  from_digits h =
      if not (length h == 64 && all is_hex_code h)
      then err bad_private_key
      else if not (phrases.is_valid_private_key h)
      then err bad_private_key
      else ok (account_of h)

  unfoldable pub from_priv : Text → Result Account
  unfolding from_digits
  from_priv input = from_digits (lower (strip input))

  unfoldable pub is_valid_mnemonic : Text → Bool
  unfolding normalize_mnemonic
  is_valid_mnemonic m = phrases.validate_mnemonic (normalize_mnemonic m)

  unfoldable pub derive_account : Text → ℕ → Result Account
  unfolding normalize_mnemonic
  derive_account mnemonic index =
      let norm = normalize_mnemonic mnemonic in
      if not (phrases.validate_mnemonic norm)
      then err bad_phrase
      else elim (phrases.hd_private_key norm index) [
        | none ↦ err bad_phrase
        | some h ↦ from_priv (codes "0x" ++ h)
      ]

  from_digits-eq : (h : Text) (a : Account) → from_digits h ≡ ok a → a ≡ account_of h
  unfolding from_digits
  from_digits-eq h a e = ground arith

  strip-privkey : (h : Text) → strip (codes "0x" ++ h) ≡ h
  unfolding strip text_eq
  strip-privkey h = refl

  -- A stored key gives its own account back.
  pub from_priv-privkey : (p : Text) (a : Account) → from_priv p ≡ ok a → from_priv a.privkey ≡ ok a
  unfolding from_priv
  from_priv-privkey p a e =
      let h : Text = lower (strip p) in
      let f : a ≡ account_of h = from_digits-eq h a e in
      let k : a.privkey ≡ codes "0x" ++ h = rw (f, account_of) refl in
      let same : lower (strip a.privkey) ≡ h =
        ap (λ (t : Text). lower (strip t)) k
        ∙ (ap lower (strip-privkey h) ∙ lower-lower (strip p)) in
      ap from_digits same ∙ e

  pub derive_account-privkey :
      (m : Text) (i : ℕ) (a : Account) → derive_account m i ≡ ok a → from_priv a.privkey ≡ ok a
  unfolding derive_account
  derive_account-privkey m i a e =
      elim (Bool-cases (phrases.validate_mnemonic (normalize_mnemonic m))) [
        | inr v ↦ absurd (ground (arith, v, e))
        | inl v ↦ elim (Option-cases (phrases.hd_private_key (normalize_mnemonic m) i)) [
          | inl o ↦ absurd (ground (arith, v, o, e))
          | inr (h, o) ↦
              let g : from_priv (codes "0x" ++ h) ≡ ok a = rw (v, o, derive_account) at e in
              from_priv-privkey (codes "0x" ++ h) a g
        ]
      ]
