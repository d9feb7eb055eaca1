-- ===== src/Blocks/Resolve/Dots.antt =====
-- `resolve_name` on relative names, as texts.
use Prim.Native.Nat.add
use boofuzz.Base.{
  ℕ, zero, suc, ◌+◌, ◌<◌, ◌≡◌, refl, ap, sym, ◌∙◌, ◌≢◌, List, [], ◌∷◌, ◌++◌, Option, none, some,
  arith, length, length-append, replicate, All, All-append, append_assoc, reverse, reverse-reverse,
  subst, length-replicate, length-reverse,
}
use boofuzz.Base.Text.{Text, Lacks, split, join, split_front, split-join, starts_with}
use boofuzz.Blocks.Names.{dot}
use boofuzz.Blocks.Resolve.{
  Resolution, found, name_error, out_of_fuel, no_resolve, collapse, lookup_resolved_name,
  lookup_components, resolve_relative, resolve_by_last, resolve_name, index_of_empty,
}
use boofuzz.Blocks.Resolve.Relative.{
  IsNamed, All-append_left, collapse-ne-out_of_fuel, collapse_climb, collapse_named,
}

-- A name with no dot in it that is not empty.
abbrev pub IsComponent : Text → Type 0
IsComponent t = IsNamed t × Lacks dot t

All-IsNamed : (ts : List Text) → All IsComponent ts → All IsNamed ts
All-IsNamed [] h = tt
All-IsNamed (t ∷ ts) h = (h.0.0, All-IsNamed ts h.1)

All-Lacks : (ts : List Text) → All IsComponent ts → All (Lacks dot) ts
All-Lacks [] h = tt
All-Lacks (t ∷ ts) h = (h.0.1, All-Lacks ts h.1)

split_path :
    (p : Text) (ps : List Text) (s : Text)
    → All (Lacks dot) (p ∷ ps)
    → split dot (join (dot ∷ []) (p ∷ ps) ++ dot ∷ s) ≡ (p ∷ ps) ++ split dot s
unfolding join
split_path p [] s h = split_front dot p s h.0
split_path p (q ∷ ps) s h =
    ap (split dot) (append_assoc p (dot ∷ join (dot ∷ []) (q ∷ ps)) (dot ∷ s))
    ∙ (split_front dot p (join (dot ∷ []) (q ∷ ps) ++ dot ∷ s) h.0
        ∙ ap (λ (l : List Text). p ∷ l) (split_path q ps s h.1))

split_dots : (k : ℕ) (s : Text) → split dot (replicate k dot ++ s) ≡ replicate k [] ++ split dot s
split_dots zero s = refl
split_dots (suc k) s =
    split_front dot [] (replicate k dot ++ s) tt ∙ ap (λ (l : List Text). [] ∷ l) (split_dots k s)

-- A relative name: one dot more than the levels to go up, then a path.
abbrev pub relative_name : ℕ → Text → Text
relative_name up path = dot ∷ (replicate up dot ++ path)

-- The components that the loop starts from.
components_of :
    (c : Text) (context : List Text) (up : ℕ) (path : Text)
    → All (Lacks dot) (c ∷ context)
    → split dot (join (dot ∷ []) (c ∷ context) ++ relative_name up path)
      ≡ (c ∷ context) ++ (replicate up [] ++ split dot path)
components_of c context up path h =
    split_path c context (replicate up dot ++ path) h
    ∙ ap (λ (l : List Text). (c ∷ context) ++ l) (split_dots up path)

collapse_path :
    (fuel : ℕ) (kept gone post : List Text)
    → All IsNamed (kept ++ gone)
    → 0 < length post
    → collapse (length gone + fuel) ((kept ++ gone) ++ (replicate (length gone) [] ++ post))
      ≡ collapse fuel (kept ++ post)
collapse_path fuel kept gone post named some_post =
    ap (collapse (length gone + fuel)) (append_assoc kept gone _)
    ∙ rw (reverse-reverse, length-reverse) at climbed
  where
    climbed :
        collapse
          (length (reverse gone) + fuel)
          (kept ++ (reverse (reverse gone) ++ (replicate (length (reverse gone)) [] ++ post)))
        ≡ collapse fuel (kept ++ post)
    climbed = collapse_climb fuel kept (reverse gone) post (rw reverse-reverse named) some_post

module _ (c : Text) (context kept gone : List Text) (parts : (c ∷ context) ≡ kept ++ gone)
    (components : All IsComponent (c ∷ context)) (post : List Text)
    (some_post : 0 < length post) where
  All-IsNamed_parts : All IsNamed (kept ++ gone)
  All-IsNamed_parts = subst (All IsNamed) parts (All-IsNamed (c ∷ context) components)

  -- The fuel that is left when the loop has gone up.
  abbrev fuel_left : ℕ
  fuel_left = length kept + length gone + length post

  climbed_path :
      let start = (c ∷ context) ++ (replicate (length gone) [] ++ post) in
      collapse (length start + 1) start ≡ collapse (suc fuel_left) (kept ++ post)
  climbed_path =
      ap (λ (n : ℕ). collapse n ((c ∷ context) ++ (replicate (length gone) [] ++ post))) fuel_split
      ∙ subst
          (λ (l : List Text).
            collapse (length gone + suc fuel_left) (l ++ (replicate (length gone) [] ++ post))
            ≡ collapse (suc fuel_left) (kept ++ post))
          (sym parts) (collapse_path (suc fuel_left) kept gone post All-IsNamed_parts some_post)
    where
      fuel_split :
          length ((c ∷ context) ++ (replicate (length gone) [] ++ post)) + 1
          ≡ length gone + suc fuel_left
      fuel_split = omega (
        arith,
        length-append (c ∷ context) (replicate (length gone) [] ++ post),
        length-append (replicate (length gone) []) post,
        length-replicate {A = Text} (length gone) [],
        length-append kept gone,
        ap (length {A = Text}) parts,
      )

replicate_add :
    (n m : ℕ) (t : Text) (l : List Text)
    → replicate (n + m) t ++ l ≡ replicate n t ++ (replicate m t ++ l)
replicate_add zero m t l = rw add.zero
replicate_add (suc n) m t l = rw add.suc (ap (λ (l : List Text). t ∷ l) (replicate_add n m t l))

module _ {A : Type 0} (names : List (Text × A)) where
  lookup-ne-out_of_fuel : (n : Text) → lookup_resolved_name names n ≢ out_of_fuel
  unfolding lookup_resolved_name
  lookup-ne-out_of_fuel n = ground arith

  by_last-ne-out_of_fuel : (n : Text) → resolve_by_last names n ≢ out_of_fuel
  unfolding resolve_by_last
  by_last-ne-out_of_fuel n = ground arith

  components-ne-out_of_fuel :
      (r : Resolution (List Text)) → r ≢ out_of_fuel → lookup_components names r ≢ out_of_fuel
  components-ne-out_of_fuel (found ts) h = lookup-ne-out_of_fuel (join (dot ∷ []) ts)
  components-ne-out_of_fuel (name_error e) h = λ eq. cc
  components-ne-out_of_fuel out_of_fuel h = absurd (h refl)

  relative-ne-out_of_fuel :
      (context_path n : Text) → resolve_relative names context_path n ≢ out_of_fuel
  unfolding resolve_relative
  relative-ne-out_of_fuel context_path n =
      components-ne-out_of_fuel _
        (collapse-ne-out_of_fuel (length components + 1) components (omega arith))
    where
      components : List Text
      components = split dot (context_path ++ n)

module _ {A : Type 0} (names : List (Text × A)) (self_name : Text) where
  -- A context of components and a relative name that goes up as many levels as `gone` has: the
  -- path that follows is looked up below what is kept of the context.
  pub resolve_name-relative :
      (c : Text) (context kept gone : List Text) (q : Text) (rest : List Text)
      → (c ∷ context) ≡ kept ++ gone
      → All IsComponent (c ∷ context)
      → All IsComponent (q ∷ rest)
      → resolve_name names self_name
          (join (dot ∷ []) (c ∷ context))
          (some (relative_name (length gone) (join (dot ∷ []) (q ∷ rest))))
        ≡ lookup_resolved_name names (join (dot ∷ []) (kept ++ q ∷ rest))
  unfolding resolve_name starts_with resolve_relative
  resolve_name-relative c context kept gone q rest parts above below = rw (
    components_of c context (length gone) (join (dot ∷ []) (q ∷ rest))
        (All-Lacks (c ∷ context) above),
    split-join dot q rest (All-Lacks (q ∷ rest) below),
    climbed_path c context kept gone parts above (q ∷ rest) (omega arith),
    collapse_named _ (kept ++ q ∷ rest) (
        All-append IsNamed kept (q ∷ rest)
          (All-append_left IsNamed kept gone
            (All-IsNamed_parts c context kept gone parts above (q ∷ rest) (omega arith)))
          (All-IsNamed (q ∷ rest) below)),
  )

  -- A relative name that goes up further than the context has components is an error.
  pub resolve_name-too_far :
      (c : Text) (context : List Text) (further : ℕ) (path : Text)
      → All IsComponent (c ∷ context)
      → resolve_name names self_name
          (join (dot ∷ []) (c ∷ context))
          (some (relative_name (length (c ∷ context) + suc further) path))
        ≡ name_error no_resolve
  unfolding resolve_name starts_with resolve_relative collapse index_of_empty
  resolve_name-too_far c context further path above = rw (
    components_of c context (length (c ∷ context) + suc further) path
        (All-Lacks (c ∷ context) above),
    replicate_add (length (c ∷ context)) (suc further) [] (split dot path),
    climbed_path c context [] (c ∷ context) refl above
        ([] ∷ (replicate further [] ++ split dot path)) (omega arith),
  )

  -- Whatever the names, the context and the name are, the loop ends.
  pub resolve_name-ne-out_of_fuel :
      (context_path : Text) (name : Option Text)
      → resolve_name names self_name context_path name ≢ out_of_fuel
  unfolding resolve_name
  resolve_name-ne-out_of_fuel context_path none = cc
  resolve_name-ne-out_of_fuel context_path (some name) =
      ground
        (arith, relative-ne-out_of_fuel names context_path name, by_last-ne-out_of_fuel names name)
