-- ===== src/Base/Logic.antt =====
-- Case lemmas that keep the equation of a computed value, and predicates on lists by recursion.
use mathlib.Core.Path.{◌≡◌, refl, sym, subst}
use boofuzz.Base.Compare.{if◌then◌else◌}
use mathlib.Core.Logic.{◌⊎◌, inl, inr}
use mathlib.Core.Bool.{Bool, true, false}
use mathlib.Core.Option.{Option, none, some}
use mathlib.Core.List.{List, [], ◌∷◌, ◌++◌}

-- A chain of steps that may fail.
infixl 5 ◌>>=◌
abbrev pub ◌>>=◌ {ℓ κ} : {A : Type ℓ} {B : Type κ} → Option A → (A → Option B) → Option B
none >>= f = none
some a >>= f = f a

pub Bool-cases : (b : Bool) → (b ≡ true) ⊎ (b ≡ false)
Bool-cases true = inl refl
Bool-cases false = inr refl

pub Option-cases {ℓ} : {A : Type ℓ} (o : Option A) → (o ≡ none) ⊎ ((a : A) × (o ≡ some a))
Option-cases none = inl refl
Option-cases (some a) = inr (a, refl)

-- A chain that gives a result has gone through a result of its first step.
pub bind_cases {ℓ κ} :
    {A : Type ℓ} {B : Type κ} (o : Option A) (f : A → Option B) (b : B)
    → (o >>= f) ≡ some b
    → (a : A) × (o ≡ some a) × (f a ≡ some b)
bind_cases none f b e = absurd cc
bind_cases (some a) f b e = (a, refl, e)

module _ {A B C : Type 0} (f : A → Option B) (g : B → Option C) where
  pub bind_assoc : (o : Option A) → ((o >>= f) >>= g) ≡ (o >>= λ a. f a >>= g)
  bind_assoc none = refl
  bind_assoc (some a) = refl

module _ {A B : Type 0} where
  pub bind_ext : (o : Option A) (f g : A → Option B) → ((a : A) → f a ≡ g a) → (o >>= f) ≡ (o >>= g)
  bind_ext none f g h = refl
  bind_ext (some a) f g h = h a

  pub unless_bind :
      (b : Bool) (o : Option A) (f : A → Option B)
      → ((if b then none else o) >>= f) ≡ (if b then none else (o >>= f))
  unless_bind true o f = refl
  unless_bind false o f = refl

pub some_inj {ℓ} : {A : Type ℓ} {a b : A} → some a ≡ some b → a ≡ b
some_inj e = cc

-- Every element of the list satisfies the predicate.
abbrev pub All {ℓ κ} : {A : Type ℓ} → (A → Type κ) → List A → Type κ
All P [] = Unit
All P (x ∷ xs) = P x × All P xs

-- The element stands in the list.
abbrev pub Elem : {A : Type 0} → A → List A → Type 0
Elem a [] = ⊥
Elem a (x ∷ xs) = (a ≡ x) ⊎ Elem a xs

module _ {A : Type 0} (a : A) where
  pub Elem-append_left : (xs ys : List A) → Elem a xs → Elem a (xs ++ ys)
  Elem-append_left [] ys h = absurd h
  Elem-append_left (x ∷ xs) ys (inl e) = inl e
  Elem-append_left (x ∷ xs) ys (inr h) = inr (Elem-append_left xs ys h)

  pub Elem-append_right : (xs ys : List A) → Elem a ys → Elem a (xs ++ ys)
  Elem-append_right [] ys h = h
  Elem-append_right (x ∷ xs) ys h = inr (Elem-append_right xs ys h)

  pub Elem-append_cases : (xs ys : List A) → Elem a (xs ++ ys) → Elem a xs ⊎ Elem a ys
  Elem-append_cases [] ys h = inr h
  Elem-append_cases (x ∷ xs) ys (inl e) = inl (inl e)
  Elem-append_cases (x ∷ xs) ys (inr h) = elim (Elem-append_cases xs ys h) [
    | inl l ↦ inl (inr l)
    | inr r ↦ inr r
  ]

module _ {A : Type 0} (P : A → Type 0) where
  pub All-append : (xs ys : List A) → All P xs → All P ys → All P (xs ++ ys)
  All-append [] ys h k = k
  All-append (x ∷ xs) ys h k = (h.0, All-append xs ys h.1 k)

  pub All-Elem : (a : A) (xs : List A) → All P xs → Elem a xs → P a
  All-Elem a [] h m = absurd m
  All-Elem a (x ∷ xs) h (inl e) = subst P (sym e) h.0
  All-Elem a (x ∷ xs) h (inr m) = All-Elem a xs h.1 m
