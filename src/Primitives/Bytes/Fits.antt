-- ===== src/Primitives/Bytes/Fits.antt =====
-- The lengths of the values that Bytes is mutated to.
use boofuzz.Base.{
  ℕ, ◌+◌, ◌-◌, ◌≤◌, ◌≡◌, refl, ap, ◌∙◌, List, [], ◌∷◌, Option, none, some, All, Bool, true, false,
  if◌then◌else◌, sym, subst, length, map, take, times, ltb, length-append, length-take,
  length-times, arith, inl, inr, Bool-cases, ltb→lt,
}
use boofuzz.Primitives.Bytes.{
  Bytes, FuzzCase, fixed, computed, init, adjust_mutation_for_size, adjusted, iterate_fuzz_cases,
  mutations,
}

-- The case gives a value whose length satisfies the predicate, on every original value.
abbrev pub GivesLength : (ℕ → Type 0) → FuzzCase → Type 0
GivesLength P (fixed v) = P (length v)
GivesLength P (computed f) = (v : List ℕ) → P (length (f v))

module _ (P : ℕ → Type 0) (p : Bytes)
    (fits : (v : List ℕ) → P (length (adjust_mutation_for_size p v))) where
  adjusted-GivesLength : (c : FuzzCase) → GivesLength P (adjusted p c)
  adjusted-GivesLength (fixed v) = fits v
  adjusted-GivesLength (computed f) = λ v. fits (f v)

  All-GivesLength : (cs : List FuzzCase) → All (GivesLength P) (map (adjusted p) cs)
  All-GivesLength [] = tt
  All-GivesLength (c ∷ cs) = (adjusted-GivesLength c, All-GivesLength cs)

sized_lem :
    (n : ℕ) (padding : List ℕ) (max_len : Option ℕ)
    → length padding ≡ 1
    → (v : List ℕ) → length (adjust_mutation_for_size (init (some n) padding max_len) v) ≡ n
unfolding adjust_mutation_for_size init
sized_lem n padding max_len one v = elim (Bool-cases (ltb n (length v))) [
  | inl long ↦ rw long (length-take n v ∙ omega (arith, ltb→lt n (length v) long))
  | inr short ↦ rw short (
      length-append v (times (n - length v) padding)
      ∙ (ap (λ (k : ℕ). length v + k) (length-times (n - length v) padding)
          ∙ ground (arith, one, short)))
]

limited_lem :
    (n : ℕ) (padding v : List ℕ)
    → length (adjust_mutation_for_size (init none padding (some n)) v) ≤ n
unfolding adjust_mutation_for_size init
limited_lem n padding v = cut (ltb n (length v)) refl
  where
    cut : (b : Bool) → ltb n (length v) ≡ b → length (if b then take n v else v) ≤ n
    cut true long = subst (λ (k : ℕ). k ≤ n) (sym (length-take n v)) (omega arith)
    cut false short = ground arith

-- With a static size and a padding of one byte, every mutated value of Bytes, whatever the original
-- one is, has exactly that size; with a maximal length alone, none is longer.
pub mutations-GivesLength :
    (n : ℕ) (padding : List ℕ) (max_len : Option ℕ) (default_value : List ℕ)
    → length padding ≡ 1
    → All (GivesLength (λ k. k ≡ n)) (mutations (init (some n) padding max_len) default_value)
      × All (GivesLength (λ k. k ≤ n)) (mutations (init none padding (some n)) default_value)
unfolding mutations
mutations-GivesLength n padding max_len d one = (
  All-GivesLength (λ k. k ≡ n) (init (some n) padding max_len) (sized_lem n padding max_len one)
      (iterate_fuzz_cases d),
  All-GivesLength (λ k. k ≤ n) (init none padding (some n)) (limited_lem n padding)
      (iterate_fuzz_cases d),
)
