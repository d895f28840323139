-- ===== src/Names/Gate.antt =====
-- The verdict on a name action from the name service's record (src/core/namegate.ts): what blocks, what only warns, and
-- what the wallet's own signing refuses.
use cairn_wallet.Base.{
  ℕ, ◌≡◌, ◌≤◌, ◌↔◌, ◌∙◌, refl, sym, ap, inl, inr, Bool, true, false, ◌&&◌, not, Option, none, some,
  leb, ◌==◌, arith, Bool-cases, if◌then◌else◌,
}
use mathlib.Core.Option.{some-injective}
use cairn_wallet.Base.Text.{Text, text_eq, text_eq_iff, lower}

pub data ActKind : Type 0 where
  nrenew nset : ActKind

-- `owner` is `none` where the record has no text there.
pub record NameRecord : Type 0 where
  pub owner : Option Text
  pub pending : Bool
  pub expired : Bool

pub data NameFetch : Type 0 where
  failed : NameFetch
  fetched : Option NameRecord → NameFetch

-- A reply of the name service: `unreachable` where the fetch throws.
pub data NameReply : Type 0 where
  unreachable : NameReply
  -- the body, `none` where it is no JSON object
  replied : (status : ℕ) → Option NameRecord → NameReply

unfoldable pub read_name_record : NameReply → NameFetch
read_name_record unreachable = failed
read_name_record (replied status body) =
    if status == 404
    then fetched none
    else if leb 200 status && leb status 299
    then elim body [ none ↦ failed | some r ↦ fetched (some r) ]
    else failed

pub data Note : Type 0 where
  unverified unregistered foreign_owner reserved lapsed : Note

pub record Gate : Type 0 where
  pub block : Bool
  pub note : Option Note

is_foreign : ActKind → Option Text → Text → Bool
is_foreign nrenew owner me = false
is_foreign nset none me = false
is_foreign nset (some o) me = not (text_eq (lower o) (lower me))

unfoldable pub name_act_approve_gate : ActKind → NameFetch → (me : Text) → Gate
unfolding is_foreign
name_act_approve_gate kind failed me = record { block = false; note = some unverified }
name_act_approve_gate kind (fetched none) me = record { block = true; note = some unregistered }
name_act_approve_gate kind (fetched (some r)) me =
    if is_foreign kind r.owner me
    then record { block = true; note = some foreign_owner }
    else if r.pending
    then record { block = false; note = some reserved }
    else if r.expired
    then record { block = false; note = some lapsed }
    else record { block = false; note = none }

unfoldable pub name_act_sign_refusal : ActKind → NameFetch → (me : Text) → Option Note
unfolding name_act_approve_gate
name_act_sign_refusal kind failed me = none
name_act_sign_refusal kind (fetched r) me = (name_act_approve_gate kind (fetched r) me).note

-- The resolver applies an action on a name that is registered, final and not lapsed, and a record only where it names
-- no other owner, in whatever letter case.
pub IsApplicable : ActKind → (me : Text) → NameRecord → Type 0
IsApplicable nrenew me r = (r.pending ≡ false) × (r.expired ≡ false)
IsApplicable nset me r =
    ((o : Text) → r.owner ≡ some o → lower o ≡ lower me) × (r.pending ≡ false) × (r.expired ≡ false)

-- What the signing asks of a reply: the name is not said to be missing, and a record that came with a success status is
-- one that the resolver would apply the action to.
pub IsSignable : ActKind → (me : Text) → NameReply → Type 0
IsSignable kind me unreachable = Unit
IsSignable kind me (replied status none) = ¬ (status ≡ 404)
IsSignable kind me (replied status (some r)) =
    (¬ (status ≡ 404)) × (200 ≤ status → status ≤ 299 → IsApplicable kind me r)

is_foreign-cases :
    (o : Option Text) (me : Text)
    → (is_foreign nset o me ≡ false) ↔ ((a : Text) → o ≡ some a → lower a ≡ lower me)
unfolding is_foreign
is_foreign-cases none me = (λ h a e. absurd (cc), λ h. refl)
is_foreign-cases (some o) me =
    let same = text_eq_iff (lower o) (lower me) in
    (
      λ h a e. ap lower (sym (some-injective _ _ e)) ∙ same.0 (ground (arith, h)),
      λ h. ap not (same.1 (h o refl)),
    )

sign_refusal_at :
    (kind : ActKind) (r : NameRecord) (me : Text)
    → (name_act_sign_refusal kind (fetched (some r)) me ≡ none) ↔ IsApplicable kind me r
unfolding name_act_sign_refusal IsApplicable is_foreign
sign_refusal_at nrenew r me = (λ h. ground arith, λ h. ground arith)
sign_refusal_at nset r me =
    let owner = is_foreign-cases r.owner me in
    (
      λ h. (owner.0 (ground (arith, h)), ground (arith, h), ground (arith, h)),
      λ h. (let (o, p, e) = h in ground (arith, owner.1 o, p, e)),
    )

-- For every reply of the name service: the wallet signs a name action exactly where the name is not said to be missing
-- and, where a record came with a success status, the record is final and not lapsed and, for a new record of the name,
-- names no owner but the wallet's address. An answer that is no record is no verdict, and is signed.
pub name_act_sign_refusal-IsSignable :
    (kind : ActKind) (reply : NameReply) (me : Text)
    → (name_act_sign_refusal kind (read_name_record reply) me ≡ none) ↔ IsSignable kind me reply
unfolding name_act_sign_refusal IsSignable read_name_record
name_act_sign_refusal-IsSignable kind unreachable me = (λ h. tt, λ h. refl)
name_act_sign_refusal-IsSignable kind (replied status none) me =
    (λ h. ground (arith, h), λ h. ground (arith, h))
name_act_sign_refusal-IsSignable kind (replied status (some r)) me =
    let at = sign_refusal_at kind r me in
    elim (Bool-cases (status == 404)) [
      | inl e ↦ (λ h. absurd (ground (arith, e, h)), λ h. absurd (ground (arith, e, h.0)))
      | inr e ↦ elim (Bool-cases (leb 200 status && leb status 299)) [
        | inl s ↦
            rw (e, s)
              (
                λ h. (ground (arith, e), λ l u. at.0 h),
                λ h. at.1 (h.1 (ground (arith, s)) (ground (arith, s))),
              )
        | inr s ↦
            rw (e, s) (λ h. (ground (arith, e), λ l u. absurd (ground (arith, s, l, u))), λ h. refl)
      ]
    ]

block_refused_at :
    (kind : ActKind) (r : NameFetch) (me : Text)
    → ((name_act_approve_gate kind r me).block ≡ true
        → (n : Note) × (name_act_sign_refusal kind r me ≡ some n))
      × (r ≡ failed
          → ((name_act_approve_gate kind r me).block ≡ false)
            × (name_act_sign_refusal kind r me ≡ none))
unfolding name_act_sign_refusal
block_refused_at kind failed me = (λ h. absurd (cc), λ e. (refl, refl))
block_refused_at kind (fetched none) me = (λ h. (unregistered, refl), λ e. absurd (cc))
block_refused_at kind (fetched (some r)) me = (λ h. (foreign_owner, ground arith), λ e. absurd (cc))

-- What the window blocks, the wallet's own signing refuses; and a reply that is not definitive never does either.
pub block_refused :
    (kind : ActKind) (reply : NameReply) (me : Text)
    → ((name_act_approve_gate kind (read_name_record reply) me).block ≡ true
        → (n : Note) × (name_act_sign_refusal kind (read_name_record reply) me ≡ some n))
      × (read_name_record reply ≡ failed
          → ((name_act_approve_gate kind (read_name_record reply) me).block ≡ false)
            × (name_act_sign_refusal kind (read_name_record reply) me ≡ none))
unfolding name_act_sign_refusal
block_refused kind reply me = block_refused_at kind (read_name_record reply) me
