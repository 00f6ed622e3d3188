-- ===== src/Common/Lists.antt =====
-- Lists: membership of texts, predicates by recursion, and native lengths.
use Prim.Native.Nat.{ℕ, suc}
use Prim.Native.String.{String}
use mathlib.Core.Bool.{Bool, true, false, ◌&&◌, ◌||◌}
use mathlib.Core.Path.{◌≡◌, refl, sym, subst}
use mathlib.Core.Logic.{◌⊎◌, ◌↔◌, inl, inr}
use mathlib.Core.List.{List, [], ◌∷◌, ◌++◌}
use native.Mathlib.Omega.{arith}
use text.Mathlib.Text.{◌==◌}
use text.Mathlib.TextEquality.{eq_iff}

module _ {ℓ} {A : Type ℓ} where
  abbrev pub length : List A → ℕ
  length [] = 0
  length (x ∷ xs) = suc (length xs)

  abbrev pub all : (A → Bool) → List A → Bool
  all p [] = true
  all p (x ∷ xs) = p x && all p xs

  abbrev pub filter : (A → Bool) → List A → List A
  filter p [] = []
  filter p (x ∷ xs) = let rest = filter p xs in elim (p x) [ true ↦ x ∷ rest | false ↦ rest ]

module _ {ℓ κ} {A : Type ℓ} (P : A → Type κ) where
  abbrev pub All : List A → Type κ
  All [] = Unit
  All (x ∷ xs) = P x × All xs

-- One of the list has the property.
abbrev pub AnySuch {ℓ} : {A : Type ℓ} → (A → Type 0) → List A → Type 0
AnySuch P [] = ⊥
AnySuch P (x ∷ xs) = P x ⊎ AnySuch P xs

-- One of the list is `a`.
abbrev pub AnyOf : {A : Type 0} → A → List A → Type 0
AnyOf a [] = ⊥
AnyOf a (x ∷ xs) = (x ≡ a) ⊎ AnyOf a xs

-- `xs.includes(s)`, `set.has(s)`
abbrev pub includes : List String → String → Bool
includes [] s = false
includes (x ∷ xs) s = x == s || includes xs s

pub all-All {ℓ} :
    {A : Type ℓ} (p : A → Bool) (xs : List A) → all p xs ≡ true → All (λ x. p x ≡ true) xs
all-All p [] h = tt
all-All p (x ∷ xs) h = (ground arith, all-All p xs (ground arith))

pub AnyOf-AnySuch :
    {A : Type 0} (P : A → Type 0) (a : A) (xs : List A) → AnyOf a xs → P a → AnySuch P xs
AnyOf-AnySuch P a [] m h = elim m [ ]
AnyOf-AnySuch P a (x ∷ xs) (inl e) h = inl (subst P (sym e) h)
AnyOf-AnySuch P a (x ∷ xs) (inr m) h = inr (AnyOf-AnySuch P a xs m h)

pub AnySuch-AnyOf :
    {A : Type 0} (P : A → Type 0) (xs : List A) → AnySuch P xs → (a : A) × AnyOf a xs × P a
AnySuch-AnyOf P [] m = elim m [ ]
AnySuch-AnyOf P (x ∷ xs) (inl h) = (x, inl refl, h)
AnySuch-AnyOf P (x ∷ xs) (inr m) = let (a, i, h) = AnySuch-AnyOf P xs m in (a, inr i, h)

-- `xs.includes(s)` is true exactly when one of the list is `s`.
pub includes_iff : (xs : List String) (s : String) → (includes xs s ≡ true) ↔ AnyOf s xs
includes_iff [] s = ground arith
includes_iff (x ∷ xs) s = ground (arith, eq_iff x s, includes_iff xs s)

pub AnyOf-append :
    {A : Type 0} (a : A) (xs ys : List A) → AnyOf a (xs ++ ys) ↔ (AnyOf a xs ⊎ AnyOf a ys)
AnyOf-append a [] ys = (inr, λ h. elim h [ inl e ↦ absurd e | inr m ↦ m ])
AnyOf-append a (x ∷ xs) ys = ground (arith, AnyOf-append a xs ys)
