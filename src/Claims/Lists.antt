-- ===== src/Claims/Lists.antt =====
-- What the list operations keep of the sealed claims (src/core/claims.ts).
use cairn_wallet.Base.{
  ℕ, ◌-◌, ◌≡◌, refl, ap, ◌∙◌, inl, inr, Bool, true, false, ◌&&◌, ◌||◌, not, List, [], ◌∷◌, keep,
  any, length, leb, arith, Bool-cases, if◌then◌else◌,
}
use cairn_wallet.Base.Text.{Text, text_eq, text_eq_iff}
use cairn_wallet.Base.Eq.{text_key, put, lookup-put}
use cairn_wallet.Vault.Keystore.{Cipher}
use cairn_wallet.Claims.{
  Preimage, SealRec, SealLists, Claims, SealKey, seals_at, seal_cap, evict, cap_seals, is_parked_as,
  has_seal, merge_parked, reencrypt,
}

-- a record of the id is marked as revealed
abbrev pub is_open_in : Text → List SealRec → Bool
is_open_in id list = any (λ (r : SealRec). text_eq r.txid id && r.revealed) list

-- a parked or stored record of the account's claim is there
abbrev pub holds : Text → Text → Claims → Bool
holds k id c = any (is_parked_as k id) c.parked || has_seal id (seals_at k c.stored)

-- a parked or stored record of the account's claim is marked as revealed
abbrev pub is_open : Text → Text → Claims → Bool
is_open k id c =
    any (λ (p : Text × SealRec). is_parked_as k id p && p.1.revealed) c.parked
    || is_open_in id (seals_at k c.stored)

-- Eviction takes away revealed records alone.
has_seal-evict :
    (id : Text) (n : ℕ) (list : List SealRec)
    → is_open_in id list ≡ false
    → (has_seal id (evict n list).1 ≡ has_seal id list) × (is_open_in id (evict n list).1 ≡ false)
unfolding evict has_seal
has_seal-evict id n [] h = (refl, refl)
has_seal-evict id n (r ∷ rs) h =
    let (a, b) = has_seal-evict id n rs (ground (arith, h)) in
    (ground (arith, h, a), ground (arith, h, b))

pub has_seal-cap_seals :
    (id : Text) (list : List SealRec)
    → is_open_in id list ≡ false
    → (has_seal id (cap_seals list) ≡ has_seal id list) × (is_open_in id (cap_seals list) ≡ false)
unfolding cap_seals
has_seal-cap_seals id list h = elim (Bool-cases (leb (length list) seal_cap)) [
  | inl e ↦ rw e (refl, h)
  | inr e ↦ rw e (has_seal-evict id (length list - seal_cap) list h)
]

has_seal-same :
    (a b : Text) (list : List SealRec) → text_eq a b ≡ true → has_seal a list ≡ has_seal b list
has_seal-same a b list e = ap (λ (t : Text). has_seal t list) ((text_eq_iff a b).0 e)

pub has_seal-merge_parked :
    (sk id : Text) (ps : List (Text × SealRec)) (list : List SealRec)
    → has_seal id (merge_parked sk ps list) ≡ (any (is_parked_as sk id) ps || has_seal id list)
unfolding merge_parked has_seal
has_seal-merge_parked sk id [] list = refl
has_seal-merge_parked sk id (p ∷ ps) list =
    has_seal-merge_parked sk id ps
      (if text_eq p.0 sk && not (has_seal p.1.txid list) then p.1 ∷ list else list)
    ∙ ground (arith, has_seal-same p.1.txid id list)

pub is_open_in-merge_parked :
    (sk id : Text) (ps : List (Text × SealRec)) (list : List SealRec)
    → any (λ (p : Text × SealRec). is_parked_as sk id p && p.1.revealed) ps ≡ false
    → is_open_in id list ≡ false
    → is_open_in id (merge_parked sk ps list) ≡ false
unfolding merge_parked
is_open_in-merge_parked sk id [] list h k = k
is_open_in-merge_parked sk id (p ∷ ps) list h k =
    is_open_in-merge_parked sk id ps
      (if text_eq p.0 sk && not (has_seal p.1.txid list) then p.1 ∷ list else list)
      (ground (arith, h)) (ground (arith, h, k))

pub has_seal-reencrypt :
    (cipher : Cipher Preimage) (ivs : SealRec → Text) (w : SealKey) (id : Text)
    (list : List SealRec)
    → (has_seal id (reencrypt cipher ivs w list) ≡ has_seal id list)
      × (is_open_in id (reencrypt cipher ivs w list) ≡ is_open_in id list)
unfolding has_seal reencrypt
has_seal-reencrypt cipher ivs w id [] = ground arith
has_seal-reencrypt cipher ivs w id (r ∷ rs) = ground (arith, has_seal-reencrypt cipher ivs w id rs)

pub seals_at-put :
    (j k : Text) (r : List SealRec) (s : SealLists)
    → seals_at j (put k r s) ≡ (if text_eq j k then r else seals_at j s)
unfolding seals_at
seals_at-put j k r s = ground (arith, lookup-put j k r s)

pub any-keep :
    (sk : Text) (q : Text × SealRec → Bool) (ps : List (Text × SealRec))
    → any q ps ≡ false
    → any q (keep (λ (p : Text × SealRec). not (text_eq p.0 sk)) ps) ≡ false
any-keep sk q [] h = refl
any-keep sk q (p ∷ ps) h = ground (arith, h, any-keep sk q ps)

pub any-keep-other :
    (sk k id : Text) (ps : List (Text × SealRec))
    → text_eq k sk ≡ false
    → any (is_parked_as k id) (keep (λ (p : Text × SealRec). not (text_eq p.0 sk)) ps)
      ≡ any (is_parked_as k id) ps
any-keep-other sk k id [] h = refl
any-keep-other sk k id (p ∷ ps) h =
    ground (
      arith,
      h,
      any-keep-other sk k id ps h,
      text_eq_iff p.0 k,
      text_eq_iff p.0 sk,
      text_eq_iff k sk,
    )

-- The claim of the account is held, and no record of it is marked as revealed.
abbrev pub IsSealed : Text → Text → Claims → Type 0
IsSealed k id c = (holds k id c ≡ true) × (is_open k id c ≡ false)
