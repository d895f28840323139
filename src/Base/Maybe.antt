-- ===== src/Base/Maybe.antt =====
-- Chains of steps that may throw, as `Option` values: `none` is the exception.
use mathlib.Core.Path.{◌≡◌, refl, subst}
use mathlib.Core.Option.{Option, none, some, some-injective}
use mathlib.Core.List.{List, [], ◌∷◌, map}
use native.Mathlib.Omega.{arith}
use cairn_wallet.Base.Lists.{length, All}

infixl 5 ◌>>=◌
abbrev pub ◌>>=◌ {ℓ κ} : {A : Type ℓ} {B : Type κ} → Option A → (A → Option B) → Option B
none >>= f = none
some a >>= f = f a

-- The calls of a loop whose body may throw: it throws where the first one does.
abbrev pub traverse {ℓ κ} : {A : Type ℓ} {B : Type κ} → (A → Option B) → List A → Option (List B)
traverse f [] = some []
traverse f (x ∷ xs) = f x >>= λ y. traverse f xs >>= λ ys. some (y ∷ ys)

pub >>=-eq-some {ℓ κ} :
    {A : Type ℓ} {B : Type κ} (m : Option A) (f : A → Option B) {b : B}
    → (m >>= f) ≡ some b
    → (a : A) × (m ≡ some a) × (f a ≡ some b)
>>=-eq-some none f h = absurd (cc)
>>=-eq-some (some a) f h = (a, refl, h)

pub length-traverse {ℓ κ} :
    {A : Type ℓ} {B : Type κ} (f : A → Option B) (xs : List A) (ys : List B)
    → traverse f xs ≡ some ys
    → length ys ≡ length xs
length-traverse f [] ys h = ground arith
length-traverse f (x ∷ xs) ys h =
    let (y, ey, h1) = >>=-eq-some (f x) (λ y. traverse f xs >>= λ zs. some (y ∷ zs)) h in
    let (zs, ez, h2) = >>=-eq-some (traverse f xs) (λ zs. some (y ∷ zs)) h1 in
    ground (arith, length-traverse f xs zs ez)

-- What one call's result satisfies, all results satisfy.
pub All-traverse {ℓ κ μ} :
    {A : Type ℓ} {B : Type κ} (P : B → Type μ) (f : A → Option B)
    → ((a : A) (b : B) → f a ≡ some b → P b)
    → (xs : List A) (ys : List B) → traverse f xs ≡ some ys
    → All P ys
All-traverse P f one [] ys h = let e : [] ≡ ys = some-injective _ _ h in subst (All P) e tt
All-traverse P f one (x ∷ xs) ys h =
    let (y, ey, h1) = >>=-eq-some (f x) (λ y. traverse f xs >>= λ zs. some (y ∷ zs)) h in
    let (zs, ez, h2) = >>=-eq-some (traverse f xs) (λ zs. some (y ∷ zs)) h1 in
    subst (All P) (some-injective _ _ h2) (one x y ey, All-traverse P f one xs zs ez)

-- A loop of calls, each followed by `e`, is the loop followed by `map e`.
pub traverse-map {ℓ κ μ} :
    {A : Type ℓ} {B : Type κ} {C : Type μ} (f : A → Option B) (g : A → Option C) (e : B → C)
    → ((a : A) → g a ≡ (f a >>= λ w. some (e w)))
    → (xs : List A) → traverse g xs ≡ (traverse f xs >>= λ ws. some (map e ws))
traverse-map f g e h [] = refl
traverse-map f g e h (x ∷ xs) = ground (arith, h x, traverse-map f g e h xs)
