-- ===== src/Primitives/Strings/Repeats.antt =====
-- What String's loop yields where the values before and after a part are known: no size limit.
use boofuzz.Base.{
  ℕ, ◌≡◌, ◌≢◌, refl, ap, Bool, true, false, List, [], ◌∷◌, ◌++◌, Option, none, some, if◌then◌else◌,
}
use boofuzz.Base.Text.{Text, text_eq, eq_of_text_eq}
use boofuzz.Primitives.Strings.{adjust_mutation_for_size, equals_last, adjust_all}

-- The last value that the loop has seen.
abbrev pub last_of : Option Text → List Text → Option Text
last_of last_val [] = last_val
last_of last_val (v ∷ vs) = last_of (some v) vs

-- No value is the one before it.
abbrev pub IsStepping : Option Text → List Text → Type 0
IsStepping last_val [] = Unit
IsStepping last_val (v ∷ vs) = (last_val ≢ some v) × IsStepping (some v) vs

pub equals_last-ne :
    (indices : ℕ → List ℕ) (last_val : Option Text) (v : Text)
    → last_val ≢ some v
    → equals_last indices none last_val v ≡ false
equals_last-ne indices none v h = refl
equals_last-ne indices (some l) v h = decide (text_eq l v) refl
  where
    decide : (b : Bool) → text_eq l v ≡ b → b ≡ false
    decide true e = absurd (h (ap some (eq_of_text_eq l v e)))
    decide false e = refl

module _ (indices : ℕ → List ℕ) where
  abbrev pub unlimited : Option Text → List Text → List Text
  unlimited = adjust_all indices none

  pub adjust_all-append :
      (last_val : Option Text) (xs ys : List Text)
      → unlimited last_val (xs ++ ys) ≡ unlimited last_val xs ++ unlimited (last_of last_val xs) ys
  unfolding adjust_all adjust_mutation_for_size
  adjust_all-append last_val [] ys = refl
  adjust_all-append last_val (x ∷ xs) ys =
      cut (equals_last indices none last_val x) (adjust_all-append (some x) xs ys)
    where
      cut :
          (b : Bool)
          → unlimited (some x) (xs ++ ys)
            ≡ unlimited (some x) xs ++ unlimited (last_of (some x) xs) ys
          → (if b then unlimited (some x) (xs ++ ys) else x ∷ unlimited (some x) (xs ++ ys))
            ≡ (if b then unlimited (some x) xs else x ∷ unlimited (some x) xs)
              ++ unlimited (last_of (some x) xs) ys
      cut true e = e
      cut false e = ap (λ (l : List Text). x ∷ l) e

  pub adjust_all-IsStepping :
      (last_val : Option Text) (xs : List Text)
      → IsStepping last_val xs
      → unlimited last_val xs ≡ xs
  unfolding adjust_all adjust_mutation_for_size
  adjust_all-IsStepping last_val [] h = refl
  adjust_all-IsStepping last_val (x ∷ xs) h =
      rw (equals_last-ne indices last_val x h.0)
        (ap (λ (l : List Text). x ∷ l) (adjust_all-IsStepping (some x) xs h.1))

  -- What comes after a value that differs from the one before does not depend on the latter.
  pub adjust_all-restart :
      (last_val other : Option Text) (x : Text) (xs : List Text)
      → last_val ≢ some x
      → other ≢ some x
      → unlimited last_val (x ∷ xs) ≡ unlimited other (x ∷ xs)
  unfolding adjust_all adjust_mutation_for_size
  adjust_all-restart last_val other x xs h k =
      rw (equals_last-ne indices last_val x h, equals_last-ne indices other x k) refl
