-- ===== src/Blocks/Mutations/Numbers.antt =====
-- The numbering of an element's mutations.
use boofuzz.Base.{ℕ, zero, suc, ◌+◌, ◌≡◌, refl, ap, Bool, true, false, List, [], ◌∷◌, length, take}
use boofuzz.Base.Text.{Text}
use boofuzz.Blocks.Mutations.{Mutation, Yielded, value, mutation, combination, number_mutations}

-- With no stop each value that is yielded gives one mutation.
pub length-number_mutations :
    (name : Text) (position index : ℕ) (ys : List Yielded)
    → length (number_mutations (λ _. false) name position index ys) ≡ length ys
unfolding number_mutations
length-number_mutations name p i [] = refl
length-number_mutations name p i (value v ∷ ys) =
    ap suc (length-number_mutations name (p + 1) (i + 1) ys)
length-number_mutations name p i (mutation u ∷ ys) =
    ap suc (length-number_mutations name (p + 1) i ys)
length-number_mutations name p i (combination us ∷ ys) =
    ap suc (length-number_mutations name (p + 1) i ys)

-- The first stop at or after a position.
abbrev pub StopsAt : (ℕ → Bool) → ℕ → ℕ → Type 0
StopsAt halted position zero = halted position ≡ true
StopsAt halted position (suc n) = (halted position ≡ false) × StopsAt halted (position + 1) n

-- When `stop_mutations` is called so that the loop first sees it `n` positions on, it yields the
-- first `n` mutations that it would have yielded without, with the same indices, and no others.
pub number_mutations-take :
    (halted : ℕ → Bool) (name : Text) (n position index : ℕ) (ys : List Yielded)
    → StopsAt halted position n
    → number_mutations halted name position index ys
      ≡ take n (number_mutations (λ _. false) name position index ys)
unfolding number_mutations
number_mutations-take halted name zero p i [] s = refl
number_mutations-take halted name (suc n) p i [] s = refl
number_mutations-take halted name zero p i (value v ∷ ys) s = rw s
number_mutations-take halted name zero p i (mutation u ∷ ys) s = rw s
number_mutations-take halted name zero p i (combination us ∷ ys) s = rw s
number_mutations-take halted name (suc n) p i (value v ∷ ys) s = rw s.0 (
    ap
      (λ (l : List (List Mutation)).
        (record { value = v; qualified_name = name; index = i } ∷ []) ∷ l)
      (number_mutations-take halted name n (p + 1) (i + 1) ys s.1))
number_mutations-take halted name (suc n) p i (mutation u ∷ ys) s = rw s.0 (
    ap (λ (l : List (List Mutation)). (u ∷ []) ∷ l)
      (number_mutations-take halted name n (p + 1) i ys s.1))
number_mutations-take halted name (suc n) p i (combination us ∷ ys) s = rw s.0 (
    ap (λ (l : List (List Mutation)). us ∷ l)
      (number_mutations-take halted name n (p + 1) i ys s.1))
