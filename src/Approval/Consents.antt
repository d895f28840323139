-- ===== src/Approval/Consents.antt =====
-- The connected sites (src/background.ts `recordConsent`, `revokeConsent`, `listConsents`): which origin may read which
-- address without a prompt. The stored object is the list of its entries.
use cairn_wallet.Base.{
  ℕ, ◌≡◌, Bool, true, false, ◌||◌, Option, none, some, List, [], ◌∷◌, leb, arith, refl, inl, inr,
  Bool-cases, Option-cases, if◌then◌else◌,
}
use cairn_wallet.Base.Text.{Text, codes, text_eq, text_eq_iff}
use cairn_wallet.Base.Eq.{text_key, ◌===◌, lookup, put, delete, lookup-put, lookup-delete}

abbrev pub is_some {ℓ} : {A : Type ℓ} → Option A → Bool
is_some none = false
is_some (some a) = true

pub record Grant : Type 0 where
  pub addr : Text
  pub ts : ℕ

abbrev pub ConsentMap : Type 0
ConsentMap = List (Text × Grant)

-- `!origin || origin === "unknown" || origin === "null"`
unfoldable pub is_opaque : Text → Bool
is_opaque origin =
    text_eq origin [] || (text_eq origin (codes "unknown") || text_eq origin (codes "null"))

unfoldable pub record_consent : Text → Text → ℕ → ConsentMap → ConsentMap
unfolding is_opaque
record_consent origin addr now c =
    if is_opaque origin then c else put origin (record { addr = addr; ts = now }) c

-- whether the origin was there, and the map after
unfoldable pub revoke_consent : Text → ConsentMap → Bool × ConsentMap
revoke_consent origin c = elim (lookup origin c) [
  | none ↦ (false, c)
  | some g ↦ (true, delete origin c)
]

-- `.sort((a, b) => b.ts - a.ts)`, which is stable
insert_latest : Text × Grant → ConsentMap → ConsentMap
insert_latest e [] = e ∷ []
insert_latest e (d ∷ ds) =
    let rest = insert_latest e ds in if leb d.1.ts e.1.ts then e ∷ d ∷ ds else d ∷ rest

unfoldable pub list_consents : ConsentMap → ConsentMap
unfolding insert_latest
list_consents [] = []
list_consents (e ∷ es) = insert_latest e (list_consents es)

-- A grant of one origin is no grant of another, and no origin without an identity gets one: after a write, an origin
-- holds the new grant where it is the one written and is a site, and what it held before otherwise.
pub lookup-record_consent :
    (o origin addr : Text) (now : ℕ) (c : ConsentMap)
    → lookup o (record_consent origin addr now c) ≡ (
        if is_opaque origin
        then lookup o c
        else if o === origin
        then some (record { addr = addr; ts = now })
        else lookup o c)
unfolding record_consent
lookup-record_consent o origin addr now c = elim (Bool-cases (is_opaque origin)) [
  | inl e ↦ rw e refl
  | inr e ↦ rw e (lookup-put o origin (record { addr = addr; ts = now }) c)
]

-- A revocation removes the grant of its origin and no other, and says whether there was one.
pub lookup-revoke_consent :
    (o origin : Text) (c : ConsentMap)
    → (lookup o (revoke_consent origin c).1 ≡ (if o === origin then none else lookup o c))
      × ((revoke_consent origin c).0 ≡ is_some (lookup origin c))
unfolding revoke_consent
lookup-revoke_consent o origin c =
    ground (arith, lookup-delete o origin c, text_eq_iff o origin, Option-cases (lookup origin c))
