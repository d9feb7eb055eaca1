-- ===== src/Base/Text.antt =====
-- Python texts as lists of code points: equality, `in`, `split` on one character, and `join`.
use Prim.Native.Nat.{ℕ}
use Prim.Native.Char.{code}
use Prim.Native.String.{String}
use mathlib.Core.Path.{◌≡◌, refl, ap, ◌∙◌}
use mathlib.Core.Logic.{◌≢◌, ◌↔◌}
use mathlib.Core.Bool.{Bool, true, false, ◌&&◌, ◌||◌}
use mathlib.Core.List.{List, [], ◌∷◌, ◌++◌}
use native.Mathlib.Omega.{arith}
use boofuzz.Base.Compare.{◌==◌, if◌then◌else◌}
use boofuzz.Base.Logic.{All}

abbrev pub Text : Type 0
Text = List ℕ

-- A literal as a list of code points.
abbrev pub codes : String → Text
codes String.[] = []
codes (String.◌∷◌ c s) = code c ∷ codes s

unfoldable pub text_eq : Text → Text → Bool
text_eq [] [] = true
text_eq [] (y ∷ ys) = false
text_eq (x ∷ xs) [] = false
text_eq (x ∷ xs) (y ∷ ys) = x == y && text_eq xs ys

pub text_eq_self : (s : Text) → text_eq s s ≡ true
unfolding text_eq
text_eq_self [] = refl
text_eq_self (x ∷ xs) = ground (arith, text_eq_self xs)

pub eq_of_text_eq : (s t : Text) → text_eq s t ≡ true → s ≡ t
unfolding text_eq
eq_of_text_eq [] [] h = refl
eq_of_text_eq [] (y ∷ ys) h = cc
eq_of_text_eq (x ∷ xs) [] h = cc
eq_of_text_eq (x ∷ xs) (y ∷ ys) h = ground (arith, eq_of_text_eq xs ys)

pub text_eq_iff : (s t : Text) → (text_eq s t ≡ true) ↔ (s ≡ t)
text_eq_iff s t = (eq_of_text_eq s t, λ e. rw e (text_eq_self t))

unfoldable pub starts_with : Text → Text → Bool
starts_with [] s = true
starts_with (p ∷ ps) [] = false
starts_with (p ∷ ps) (c ∷ cs) = p == c && starts_with ps cs

-- `part in s`.
unfoldable pub contains : Text → Text → Bool
unfolding starts_with
contains part [] = starts_with part []
contains part (c ∷ cs) = starts_with part (c ∷ cs) || contains part cs

unfoldable pub text_mem : Text → List Text → Bool
unfolding text_eq
text_mem s [] = false
text_mem s (t ∷ ts) = text_eq t s || text_mem s ts

-- The character goes in front of the first part.
abbrev pub onto_first : ℕ → List Text → List Text
onto_first c [] = (c ∷ []) ∷ []
onto_first c (p ∷ ps) = (c ∷ p) ∷ ps

-- `s.split(separator)` for a separator of one character.
unfoldable pub split : ℕ → Text → List Text
split separator [] = [] ∷ []
split separator (c ∷ cs) =
    let rest = split separator cs in if c == separator then [] ∷ rest else onto_first c rest

-- `separator.join(parts)`.
unfoldable pub join : Text → List Text → Text
join separator [] = []
join separator (p ∷ []) = p
join separator (p ∷ q ∷ ps) = p ++ (separator ++ join separator (q ∷ ps))

-- A text in which the character does not occur.
abbrev pub Lacks : ℕ → Text → Type 0
Lacks separator s = All (λ c. c ≢ separator) s

pub ne→false : (a b : ℕ) → a ≢ b → (a == b) ≡ false
ne→false a b h = ground arith

pub split_part : (separator : ℕ) (p : Text) → Lacks separator p → split separator p ≡ p ∷ []
unfolding split
split_part separator [] h = refl
split_part separator (c ∷ cs) (h, k) = rw (ne→false c separator h, split_part separator cs k)

pub split_front :
    (separator : ℕ) (p s : Text)
    → Lacks separator p
    → split separator (p ++ (separator ∷ s)) ≡ p ∷ split separator s
unfolding split
split_front separator [] s h = rw (self separator)
  where
    self : (c : ℕ) → (c == c) ≡ true
    self c = ground arith
split_front separator (c ∷ cs) s (h, k) = rw (ne→false c separator h, split_front separator cs s k)

pub split-join :
    (separator : ℕ) (p : Text) (ps : List Text)
    → All (Lacks separator) (p ∷ ps)
    → split separator (join (separator ∷ []) (p ∷ ps)) ≡ p ∷ ps
unfolding join
split-join separator p [] h = split_part separator p h.0
split-join separator p (q ∷ ps) h =
    split_front separator p (join (separator ∷ []) (q ∷ ps)) h.0
    ∙ ap (λ (l : List Text). p ∷ l) (split-join separator q ps h.1)
