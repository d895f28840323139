-- ===== src/Claims/Sealing.antt =====
-- The preimages of the sealed claims (src/core/claims.ts `openPreimage`, `reencryptLegacyPreimages`, `revealClaim`).
use cairn_wallet.Base.{
  subst, ◌≡◌, refl, ap, ◌∙◌, ◌⊎◌, inl, inr, Bool, true, false, none, some, List, [], ◌∷◌, map, all,
  arith, Option-cases,
}
use mathlib.Core.Option.{some-injective}
use cairn_wallet.Base.Text.{Text}
use cairn_wallet.Vault.{Result, ok, err}
use cairn_wallet.Vault.Keystore.{Key, Cipher, open_with-seal_with}
use cairn_wallet.History.{Disk}
use cairn_wallet.Claims.{
  Preimage, SealRec, Claims, SealKey, text_or_empty, is_defined, open_preimage, is_legacy,
  reencrypt_one, reencrypt, find_seal, content_of, Content, RevealError, reveal_content,
  reveal_claim,
}

-- no preimage in clear
abbrev pub is_encrypted : SealRec → Bool
is_encrypted r = elim r.claim [
  | some t ↦ false
  | none ↦ elim r.nonce [ some t ↦ false | none ↦ true ]
]

-- a record has its preimage in one form alone
abbrev pub is_one_form : SealRec → Bool
is_one_form r = elim r.enc [ none ↦ true | some v ↦ is_encrypted r ]

module _ (cipher : Cipher Preimage) (ivs : SealRec → Text) (w : SealKey) (key : Key) where
  open_preimage-reencrypt_one :
      (iv : Text) (r : SealRec)
      → w.key ≡ some key
      → open_preimage cipher w (reencrypt_one cipher iv key w r) ≡ open_preimage cipher w r
  unfolding open_preimage reencrypt_one is_legacy
  open_preimage-reencrypt_one iv r e = ground (
    arith,
    e,
    open_with-seal_with cipher iv
        (record { claim = text_or_empty r.claim; nonce = text_or_empty r.nonce }) key w.salt w.iter,
  )

  is_encrypted-reencrypt_one :
      (iv : Text) (r : SealRec)
      → is_one_form r ≡ true
      → is_encrypted (reencrypt_one cipher iv key w r) ≡ true
  unfolding reencrypt_one is_legacy is_defined
  is_encrypted-reencrypt_one iv r h = ground (arith, h)

  -- With the wallet unlocked, encrypting the records of an old version changes no preimage, and leaves none in clear.
  pub open_preimage-reencrypt :
      (list : List SealRec)
      → w.key ≡ some key
      → all is_one_form list ≡ true
      → (map (open_preimage cipher w) (reencrypt cipher ivs w list)
          ≡ map (open_preimage cipher w) list)
        × (all is_encrypted (reencrypt cipher ivs w list) ≡ true)
  unfolding reencrypt
  open_preimage-reencrypt [] e h = ground (arith, e)
  open_preimage-reencrypt (r ∷ rs) e h = ground (
    arith,
    e,
    h,
    open_preimage-reencrypt rs e,
    open_preimage-reencrypt_one (ivs r) r e,
    is_encrypted-reencrypt_one (ivs r) r,
  )

-- what was published is the account's own record of a commit that the node shows mined
pub record IsOwnMined (cipher : Cipher Preimage) (is_mined : Text → Bool) (w : SealKey)
    (k id : Text) (c : Claims) (m : Content) : Type 0 where
  pub same_commit : m.commit ≡ id
  pub mined : is_mined m.commit ≡ true
  pub own :
      (r : SealRec) × (find_seal k id c ≡ some r)
      × (r.domain ≡ m.domain)
      × (open_preimage cipher w r ≡ ok m.preimage)

content_of-eq :
    (is_mined : Bool) (id domain : Text) (o : Result Preimage) (m : Content)
    → content_of is_mined id domain o ≡ inr m
    → (is_mined ≡ true) × (m.commit ≡ id) × (domain ≡ m.domain) × (o ≡ ok m.preimage)
unfolding content_of
content_of-eq false id domain o m h = absurd (cc)
content_of-eq true id domain (err e) m h = absurd (cc)
content_of-eq true id domain (ok p) m h = (refl, ground arith, ground arith, ground arith)

module _ (cipher : Cipher Preimage) (is_mined : Text → Bool) (w : SealKey) (k id : Text)
    (c : Claims) where
  reveal_content-IsOwnMined :
      (m : Content)
      → reveal_content cipher is_mined w k id c ≡ inr m
      → IsOwnMined cipher is_mined w k id c m
  unfolding reveal_content
  reveal_content-IsOwnMined m h = elim (Option-cases (find_seal k id c)) [
    | inl e ↦ absurd (ground (arith, e, h))
    | inr (r, e) ↦
        let g : content_of (is_mined id) id r.domain (open_preimage cipher w r) ≡ inr m =
          rw (e, reveal_content) at h in
        let (a, b, d, o) = content_of-eq (is_mined id) id r.domain (open_preimage cipher w r) m g in
        record { same_commit = b; mined = ap is_mined b ∙ a; own = (r, e, d, o) }
  ]

  reveal_cases :
      (o : RevealError ⊎ Content)
      → ((e : RevealError) × (o ≡ inl e)) ⊎ ((m : Content) × (o ≡ inr m))
  reveal_cases (inl e) = inl (e, refl)
  reveal_cases (inr m) = inr (m, refl)

  -- `revealClaim` publishes a preimage only for a commit that the node shows mined at that moment, and it is the
  -- preimage of the account's own record of that commit, opened with the key of the unlocked wallet.
  pub reveal_claim-IsOwnMined :
      (register : Content → Bool) (unlocked : Bool) (ivs : SealRec → Text) (disk : Disk)
      (late : Claims) (m : Content)
      → (reveal_claim cipher is_mined register unlocked ivs w disk k id c late).0 ≡ some m
      → IsOwnMined cipher is_mined w k id c m
  unfolding reveal_claim
  reveal_claim-IsOwnMined register unlocked ivs disk late m h =
      elim (reveal_cases (reveal_content cipher is_mined w k id c)) [
        | inl (e, f) ↦ absurd (ground (arith, f, h))
        | inr (m', f) ↦
            let g : some m' ≡ some m = rw (f, reveal_claim) at h in
            subst (IsOwnMined cipher is_mined w k id c) (some-injective _ _ g)
              (reveal_content-IsOwnMined m' f)
      ]
