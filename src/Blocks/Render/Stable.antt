-- ===== src/Blocks/Render/Stable.antt =====
-- The elements whose rendered length does not depend on how it is asked for, and where a reference
-- leads.
use boofuzz.Base.{
  ℕ, ◌≡◌, refl, subst, inl, inr, Bool, List, [], ◌∷◌, ◌++◌, Option, none, some, length, All,
  Bool-cases, some_inj,
}
use boofuzz.Base.Text.{Text, text_eq, starts_with}
use boofuzz.Primitives.BitField.{binary}
use boofuzz.Blocks.Names.{dot, lookup_name, select_names}
use boofuzz.Blocks.Resolve.{
  Resolution, found, name_error, out_of_fuel, lookup_resolved_name, lookup_components,
  resolve_relative, resolve_by_last, only, stored, absolute, resolve_name,
}
use boofuzz.Blocks.Element.{
  Info, Leaf, BlockKind, Element, Elements, leaf, node, nil, cons, size, checksum, block,
}
use boofuzz.Blocks.Render.{Message, resolved_of, target_of}

-- An encoder's output length depends on the length of its input alone.
abbrev pub IsLengthwise : (List ℕ → List ℕ) → Type 0
IsLengthwise f = (a b : List ℕ) → length a ≡ length b → length (f a) ≡ length (f b)

-- A size field is binary, and a checksum has the length that is declared.
abbrev pub IsStableLeaf : Leaf → Type 0
IsStableLeaf (size s) = s.format ≡ binary
IsStableLeaf (checksum c) =
    (contents src dst : Option (List ℕ)) (r : List ℕ)
    → c.checksum contents src dst ≡ some r
    → length r ≡ c.length
IsStableLeaf _ = Unit

abbrev pub IsStableEncoder : Option (List ℕ → List ℕ) → Type 0
IsStableEncoder none = Unit
IsStableEncoder (some f) = IsLengthwise f

abbrev pub IsStableKind : BlockKind → Type 0
IsStableKind (block spec) = IsStableEncoder spec.encoder
IsStableKind _ = Unit

abbrev mutual
  pub IsStable : Element → Type 0
  IsStable (leaf i k) = IsStableLeaf k
  IsStable (node i k es) = IsStableKind k × AreStable es

  pub AreStable : Elements → Type 0
  AreStable nil = Unit
  AreStable (cons e es) = IsStable e × AreStable es

-- Whatever a name resolves to is one of the named elements.
module _ {A : Type 0} (P : A → Type 0) where
  abbrev Named : List (Text × A) → Type 0
  Named names = All (λ (x : Text × A). P x.1) names

  pub lookup_name-All :
      (n : Text) (names : List (Text × A)) (a : A)
      → Named names
      → lookup_name n names ≡ some a
      → P a
  unfolding lookup_name
  lookup_name-All n [] a h e = absurd cc
  lookup_name-All n ((t, b) ∷ names) a h e = elim (Bool-cases (text_eq t n)) [
    | inl here ↦ subst P (some_inj (rw here at e)) h.0
    | inr other ↦ lookup_name-All n names a h.1 (rw other at e)
  ]

  select_names-All :
      (p : Text → Bool) (names : List (Text × A)) → Named names → Named (select_names p names)
  unfolding select_names
  select_names-All p [] h = tt
  select_names-All p ((t, b) ∷ names) h = elim (Bool-cases (p t)) [
    | inl passes ↦ rw passes (h.0, select_names-All p names h.1)
    | inr fails ↦ rw fails (select_names-All p names h.1)
  ]

  -- The element that a resolution found satisfies the predicate.
  abbrev Finds : Resolution A → Type 0
  Finds (found a) = P a
  Finds _ = Unit

  module _ (names : List (Text × A)) (h : Named names) where
    stored-Finds : (n : Text) (o : Option A) → lookup_name n names ≡ o → Finds (stored o)
    stored-Finds n none e = tt
    stored-Finds n (some a) e = lookup_name-All n names a h e

    lookup-Finds : (n : Text) → Finds (lookup_resolved_name names n)
    unfolding lookup_resolved_name
    lookup-Finds n = stored-Finds n (lookup_name n names) refl

    components-Finds : (r : Resolution (List Text)) → Finds (lookup_components names r)
    components-Finds (found ts) = lookup-Finds _
    components-Finds (name_error e) = tt
    components-Finds out_of_fuel = tt

    only-Finds : (selected : List (Text × A)) → Named selected → Finds (only selected)
    only-Finds [] k = tt
    only-Finds ((t, a) ∷ []) k = k.0
    only-Finds (x ∷ y ∷ selected) k = tt

    by_last-Finds : (n : Text) → Finds (resolve_by_last names n)
    unfolding resolve_by_last
    by_last-Finds n = only-Finds _ (select_names-All _ names h)

    absolute-Finds :
        (n full : Text) (o : Option A) → lookup_name full names ≡ o → Finds (absolute names n o)
    absolute-Finds n full none e = by_last-Finds n
    absolute-Finds n full (some a) e = lookup_name-All full names a h e

    pub resolve_name-Finds :
        (self_name context_path : Text) (name : Option Text)
        → Finds (resolve_name names self_name context_path name)
    unfolding resolve_name resolve_relative
    resolve_name-Finds self_name context_path none = tt
    resolve_name-Finds self_name context_path (some n) =
        elim (Bool-cases (starts_with (dot ∷ []) n)) [
          | inl relative ↦ rw relative (components-Finds _)
          | inr plain ↦ rw plain (absolute-Finds n (self_name ++ dot ∷ n) _ refl)
        ]

  resolved-Finds : (r : Resolution A) (a : A) → Finds r → resolved_of r ≡ some a → P a
  resolved-Finds (found b) a h e = subst P (some_inj e) h
  resolved-Finds (name_error k) a h e = absurd cc
  resolved-Finds out_of_fuel a h e = absurd cc

-- A reference leads to one of the named elements.
pub target_of-All :
    (P : Element → Type 0) (m : Message) (i : Info) (name : Text) (e : Element)
    → All (λ (x : Text × Element). P x.1) m.names
    → target_of m i name ≡ some e
    → P e
unfolding target_of
target_of-All P m i name e h =
    resolved-Finds P _ e (resolve_name-Finds P m.names h m.name i.context_path (some name))

-- In a message whose named elements are stable, a reference leads to a stable element.
pub target_of-IsStable :
    (m : Message) (i : Info) (name : Text) (e : Element)
    → All (λ (x : Text × Element). IsStable x.1) m.names
    → target_of m i name ≡ some e
    → IsStable e
target_of-IsStable m i name e h = target_of-All IsStable m i name e h
