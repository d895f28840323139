-- ===== src/Base/Eq.antt =====
-- Keys that the code compares by `===`, and a JavaScript `Map` as the list of its entries in insertion order.
use Prim.Native.Nat.{ℕ, ◌+◌, ◌≤◌}
use mathlib.Core.Path.{◌≡◌, refl}
use mathlib.Core.Logic.{◌↔◌}
use mathlib.Core.Bool.{Bool, true, false, ◌&&◌, ◌||◌}
use mathlib.Core.Option.{Option, none, some}
use mathlib.Core.List.{List, [], ◌∷◌, ◌++◌, map}
use native.Mathlib.Omega.{arith}
use cairn_wallet.Base.Tests.{◌==◌ as nat_beq, ==_iff, if◌then◌else◌}
use cairn_wallet.Base.Lists.{length}
use cairn_wallet.Base.Text.{Text, text_eq, text_eq_iff}

pub record Eq (A : Type 0) : Type 0 where
  pub beq : A → A → Bool
  pub beq_iff : (a b : A) → (beq a b ≡ true) ↔ (a ≡ b)

instance abbrev pub nat_eq : Eq ℕ
nat_eq = record { beq = nat_beq; beq_iff = ==_iff }

instance abbrev pub text_key : Eq Text
text_key = record { beq = text_eq; beq_iff = text_eq_iff }

pub pair_iff :
    {A B : Type 0} (e : Eq A) (f : Eq B) (p q : A × B)
    → ((e.beq p.0 q.0 && f.beq p.1 q.1) ≡ true) ↔ (p ≡ q)
pair_iff e f (a, b) (c, d) = (
  λ h. ground (arith, e.beq_iff a c, f.beq_iff b d),
  λ h. ground (arith, e.beq_iff a c, f.beq_iff b d),
)

instance abbrev pub pair_eq : {A B : Type 0} ⦃e : Eq A⦄ ⦃f : Eq B⦄ → Eq (A × B)
pair_eq ⦃e⦄ ⦃f⦄ = record { beq = λ p q. e.beq p.0 q.0 && f.beq p.1 q.1; beq_iff = pair_iff e f }

infix 50 ◌===◌
abbrev pub ◌===◌ : {A : Type 0} ⦃e : Eq A⦄ → A → A → Bool
◌===◌ ⦃e⦄ = e.beq

module _ {K : Type 0} ⦃e : Eq K⦄ where
  -- `Set.has`
  unfoldable pub has : K → List K → Bool
  has k [] = false
  has k (j ∷ s) = k === j || has k s

  -- `Set.add`
  unfoldable pub add : K → List K → List K
  unfolding has
  add k s = if has k s then s else s ++ k ∷ []

  pub beq_refl : (k : K) → (k === k) ≡ true
  beq_refl k = (e.beq_iff k k).1 refl

  pub has-append : (j : K) (s t : List K) → has j (s ++ t) ≡ (has j s || has j t)
  unfolding has
  has-append j [] t = refl
  has-append j (k ∷ s) t = ground (arith, has-append j s t)

  pub has-add : (j k : K) (s : List K) → has j (add k s) ≡ (has j s || j === k)
  unfolding add has
  has-add j k s = ground (arith, has-append j s (k ∷ []), e.beq_iff j k)

  module _ {V : Type 0} where
    -- `Map.get`
    unfoldable pub lookup : K → List (K × V) → Option V
    lookup k [] = none
    lookup k ((j, v) ∷ m) = let rest = lookup k m in if k === j then some v else rest

    -- `Map.set`: in place where the key is there, else at the end
    unfoldable pub put : K → V → List (K × V) → List (K × V)
    put k v [] = (k, v) ∷ []
    put k v ((j, w) ∷ m) = let rest = put k v m in if k === j then (k, v) ∷ m else (j, w) ∷ rest

    -- `Map.delete`
    unfoldable pub delete : K → List (K × V) → List (K × V)
    delete k [] = []
    delete k ((j, w) ∷ m) = let rest = delete k m in if k === j then rest else (j, w) ∷ rest

    unfoldable pub keys : List (K × V) → List K
    keys = map (λ p. p.0)

    pub lookup-put :
        (j k : K) (v : V) (m : List (K × V))
        → lookup j (put k v m) ≡ (if j === k then some v else lookup j m)
    unfolding lookup put
    lookup-put j k v [] = refl
    lookup-put j k v ((i, w) ∷ m) =
        ground (arith, lookup-put j k v m, e.beq_iff j k, e.beq_iff k i, e.beq_iff j i)

    pub lookup-delete :
        (j k : K) (m : List (K × V))
        → lookup j (delete k m) ≡ (if j === k then none else lookup j m)
    unfolding lookup delete
    lookup-delete j k [] = ground arith
    lookup-delete j k ((i, w) ∷ m) =
        ground (arith, lookup-delete j k m, e.beq_iff j k, e.beq_iff k i, e.beq_iff j i)

    pub length-delete-le : (k : K) (m : List (K × V)) → length (delete k m) ≤ length m
    unfolding delete
    length-delete-le k [] = omega arith
    length-delete-le k ((j, w) ∷ m) = ground (arith, length-delete-le k m)

    pub length-put-le : (k : K) (v : V) (m : List (K × V)) → length (put k v m) ≤ length m + 1
    unfolding put
    length-put-le k v [] = omega arith
    length-put-le k v ((j, w) ∷ m) = ground (arith, length-put-le k v m)
