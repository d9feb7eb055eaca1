-- ===== src/Blocks/Resolve/Relative.antt =====
-- Relative names: the loop of `resolve_name` ends, and goes up one block for each dot after the
-- first.
use Prim.Native.Nat.add
use boofuzz.Base.{
  ℕ, zero, suc, ◌+◌, ◌-◌, ◌<◌, ◌≡◌, refl, ap, ◌∙◌, ◌≢◌, List, [], ◌∷◌, ◌++◌, none, some, arith,
  length, length-append, replicate, All, ◌==◌, Bool-cases, Option-cases, inl, inr, append_assoc,
  subst, reverse, reverse-cons, true, false,
}
use boofuzz.Base.Text.{Text}
use boofuzz.Blocks.Resolve.{found, out_of_fuel, index_of_empty, delete_at, collapse}

abbrev pub IsNamed : Text → Type 0
IsNamed t = t ≢ []

index_of_empty-lt : (ts : List Text) (i : ℕ) → index_of_empty ts ≡ some i → i < length ts
unfolding index_of_empty
index_of_empty-lt [] i h = cc
index_of_empty-lt ([] ∷ ts) i h = ground arith
index_of_empty-lt ((c ∷ cs) ∷ ts) i h = elim (Option-cases (index_of_empty ts)) [
  | inl e ↦ absurd (cc)
  | inr (j, e) ↦ omega (arith, index_of_empty-lt ts j e, shifted j e)
]
  where
    shifted : (j : ℕ) → index_of_empty ts ≡ some j → i ≡ j + 1
    shifted j e = ground arith

length-delete_at :
    {A : Type 0} (i : ℕ) (ts : List A) → i < length ts → length (delete_at i ts) + 1 ≡ length ts
unfolding delete_at
length-delete_at i [] h = absurd (omega arith)
length-delete_at zero (t ∷ ts) h = omega arith
length-delete_at (suc i) (t ∷ ts) h = omega (arith, length-delete_at i ts (omega arith))

twice_shorter :
    (fuel : ℕ) (ts : List Text) (i : ℕ)
    → length ts < suc fuel
    → suc i < length ts
    → length (delete_at i (delete_at (suc i) ts)) < fuel
twice_shorter fuel ts i h k =
    let first : length (delete_at (suc i) ts) + 1 ≡ length ts = length-delete_at (suc i) ts k in
    omega (arith, first, length-delete_at i (delete_at (suc i) ts) (omega (arith, first)))

-- A round deletes one or two components, so one more round than there are components suffices.
pub collapse-ne-out_of_fuel :
    (fuel : ℕ) (components : List Text)
    → length components < fuel
    → collapse fuel components ≢ out_of_fuel
unfolding collapse
collapse-ne-out_of_fuel zero components h = absurd (omega arith)
collapse-ne-out_of_fuel (suc fuel) components h = elim (Option-cases (index_of_empty components)) [
  | inl e ↦ rw (e, collapse) (λ eq. cc)
  | inr (zero, e) ↦ rw (e, collapse) (λ eq. cc)
  | inr (suc i, e) ↦ elim (Bool-cases (suc i == length components - 1)) [
    | inl last ↦
        rw (e, last, collapse)
          (collapse-ne-out_of_fuel fuel (delete_at (suc i) components) (
            omega (
              arith,
              length-delete_at (suc i) components (index_of_empty-lt components (suc i) e),
            )))
    | inr inner ↦
        rw (e, inner, collapse)
          (collapse-ne-out_of_fuel fuel (delete_at i (delete_at (suc i) components))
            (twice_shorter fuel components i h (index_of_empty-lt components (suc i) e)))
  ]
]

module _ (t : Text) (t_named : IsNamed t) (post : List Text) where
  index_behind :
      (pre : List Text)
      → All IsNamed pre
      → index_of_empty (pre ++ t ∷ [] ∷ post) ≡ some (suc (length pre))
  unfolding index_of_empty
  index_behind [] h = first t t_named
    where
      first : (t : Text) → IsNamed t → index_of_empty (t ∷ [] ∷ post) ≡ some 1
      first [] n = absurd (n refl)
      first (c ∷ cs) n = refl
  index_behind ([] ∷ pre) h = absurd (h.0 refl)
  index_behind ((c ∷ cs) ∷ pre) h = rw (index_behind pre h.1) (ap some (omega arith))

no_index : (pre : List Text) → All IsNamed pre → index_of_empty pre ≡ none
unfolding index_of_empty
no_index [] h = refl
no_index ([] ∷ pre) h = absurd (h.0 refl)
no_index ((c ∷ cs) ∷ pre) h = rw (no_index pre h.1)

delete_behind :
    (pre post : List Text) (t e : Text)
    → delete_at (suc (length pre)) (pre ++ t ∷ e ∷ post) ≡ pre ++ t ∷ post
unfolding delete_at
delete_behind [] post t e = refl
delete_behind (x ∷ pre) post t e = ap (λ l. x ∷ l) (delete_behind pre post t e)

delete_here :
    (pre post : List Text) (t : Text) → delete_at (length pre) (pre ++ t ∷ post) ≡ pre ++ post
unfolding delete_at
delete_here [] post t = refl
delete_here (x ∷ pre) post t = ap (λ l. x ∷ l) (delete_here pre post t)

module _ (fuel : ℕ) (pre : List Text) (named : All IsNamed pre) (t : Text)
    (t_named : IsNamed t) where
  -- Going up: the component before the empty one goes with it.
  collapse_up :
      (post : List Text)
      → 0 < length post
      → collapse (suc fuel) (pre ++ t ∷ [] ∷ post) ≡ collapse fuel (pre ++ post)
  unfolding collapse
  collapse_up post some_post = rw (
    index_behind t t_named post pre named,
    inner,
    delete_behind pre post t [],
    delete_here pre post t,
    collapse,
  )
    where
      inner : (suc (length pre) == length (pre ++ t ∷ [] ∷ post) - 1) ≡ false
      inner = ground (arith, length-append pre (t ∷ [] ∷ post))

  -- A trailing dot: the last component goes.
  pub collapse_trailing : collapse (suc fuel) (pre ++ t ∷ [] ∷ []) ≡ collapse fuel (pre ++ t ∷ [])
  unfolding collapse
  collapse_trailing =
      rw (index_behind t t_named [] pre named, last, delete_behind pre [] t [], collapse)
    where
      last : (suc (length pre) == length (pre ++ t ∷ [] ∷ []) - 1) ≡ true
      last = ground (arith, length-append pre (t ∷ [] ∷ []))

pub All-append_left : (P : Text → Type 0) (xs ys : List Text) → All P (xs ++ ys) → All P xs
All-append_left P [] ys h = tt
All-append_left P (x ∷ xs) ys h = (h.0, All-append_left P xs ys h.1)

All-append_right : (P : Text → Type 0) (xs ys : List Text) → All P (xs ++ ys) → All P ys
All-append_right P [] ys h = h
All-append_right P (x ∷ xs) ys h = All-append_right P xs ys h.1

-- As many empty components as there are components above are collapsed with them. The components
-- that go stand in reverse order.
pub collapse_climb :
    (fuel : ℕ) (kept gone post : List Text)
    → All IsNamed (kept ++ reverse gone)
    → 0 < length post
    → collapse (length gone + fuel) (kept ++ (reverse gone ++ (replicate (length gone) [] ++ post)))
      ≡ collapse fuel (kept ++ post)
collapse_climb fuel kept [] post h some_post = rw add.zero
collapse_climb fuel kept (t ∷ gone) post h some_post =
    ap (λ l. collapse (suc (length gone) + fuel) (kept ++ (l ++ [] ∷ blanks))) (reverse-cons t gone)
    ∙ (rw add.suc (ap (collapse (suc (length gone + fuel))) regroup)
        ∙ (collapse_up (length gone + fuel) (kept ++ reverse gone) below.0 t below.1 blanks
              (omega (arith, length-append (replicate (length gone) []) post))
            ∙ (ap (collapse (length gone + fuel)) (append_assoc kept (reverse gone) blanks)
                ∙ collapse_climb fuel kept gone post below.0 some_post)))
  where
    blanks : List Text
    blanks = replicate (length gone) [] ++ post

    regroup :
        kept ++ ((reverse gone ++ t ∷ []) ++ [] ∷ blanks)
        ≡ (kept ++ reverse gone) ++ t ∷ [] ∷ blanks
    regroup = simp append_assoc

    below : All IsNamed (kept ++ reverse gone) × IsNamed t
    below =
        let all : All IsNamed ((kept ++ reverse gone) ++ t ∷ []) =
          rw append_assoc (subst (λ l. All IsNamed (kept ++ l)) (reverse-cons t gone) h) in
        (
          All-append_left IsNamed (kept ++ reverse gone) (t ∷ []) all,
          (All-append_right IsNamed (kept ++ reverse gone) (t ∷ []) all).0,
        )

pub collapse_named :
    (fuel : ℕ) (ts : List Text) → All IsNamed ts → collapse (suc fuel) ts ≡ found ts
unfolding collapse
collapse_named fuel ts h = rw (no_index ts h, collapse)
