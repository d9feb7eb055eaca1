-- ===== src/Primitives/Strings/Count.antt =====
-- The number of mutations that String announces, where no size or maximal length limits them.
use boofuzz.Base.{
  ℕ, suc, ◌+◌, ◌*◌, ◌≡◌, ◌≢◌, ◌<◌, refl, ap, ap₂, sym, ◌∙◌, Bool, true, false, List, [], ◌∷◌, ◌++◌,
  Option, none, some, length, if◌then◌else◌, take, times, length-append, length-times, arith,
  some_inj, inl, inr, Bool-cases, subst, zero,
}
use boofuzz.Base.Text.{Text, text_eq, text_mem, codes}
use boofuzz.Primitives.Strings.Library.{
  fuzz_library, long_string_seeds, long_string_lengths, long_string_deltas,
}
use boofuzz.Primitives.Strings.{
  repeat_to, long_sizes, while_allowed, long_strings_of, for_sequences, yield_long_strings,
  variable_mutations, yield_variable_mutations, mutations, num_mutations,
}
use boofuzz.Primitives.Strings.Repeats.{
  last_of, IsStepping, unlimited, adjust_all-append, adjust_all-IsStepping, adjust_all-restart,
}

abbrev first_long : Text
first_long = codes "CCCCCC"

abbrev last_entry : Text
last_entry = codes "||reboot|"

last_of_library : last_of none fuzz_library ≡ some (codes "||reboot|")
unfolding fuzz_library
last_of_library = refl

module _ (indices : ℕ → List ℕ) where
  long_strings_first :
      (rest : List Text) × (yield_long_strings indices none long_string_seeds ≡ first_long ∷ rest)
  unfolding yield_long_strings for_sequences long_strings_of while_allowed long_sizes
      long_string_seeds long_string_lengths long_string_deltas repeat_to boofuzz.Base.Int.◌+ℤ◌
  long_strings_first = (_, refl)

fresh : (v : Text) → text_mem v fuzz_library ≡ false → some last_entry ≢ some v
unfolding fuzz_library text_mem text_eq
fresh v absent e =
    absurd (absurd_of (subst (λ w. text_mem w fuzz_library ≡ false) (sym (some_inj e)) absent))
  where
    absurd_of : true ≡ false → ⊥
    absurd_of h = cc

times_nothing : (k : ℕ) → times {A = ℕ} k [] ≡ []
times_nothing zero = refl
times_nothing (suc k) = times_nothing k

positive : (k : ℕ) (d : Text) → text_mem (times k d) fuzz_library ≡ false → 0 < length d
unfolding fuzz_library text_mem text_eq
positive k [] absent =
    absurd (no (subst (λ w. text_mem w fuzz_library ≡ false) (times_nothing k) absent))
  where
    no : true ≡ false → ⊥
    no h = cc
positive k (x ∷ d) absent = omega arith

length_ne : (u v : Text) → length u ≢ length v → some u ≢ some v
length_ne u v h e = h (ap length (some_inj e))

entry_apart : some last_entry ≢ some first_long
entry_apart = length_ne last_entry first_long (λ e. omega arith)

three_letters : (d : Text) → times 2 d ≡ first_long → d ≡ codes "CCC"
three_letters [] e = absurd cc
three_letters (x ∷ []) e = absurd cc
three_letters (x ∷ y ∷ []) e = absurd cc
three_letters (x ∷ y ∷ z ∷ []) e = cc
three_letters (x ∷ y ∷ z ∷ w ∷ d) e =
    absurd (omega (arith, length-times 2 (x ∷ y ∷ z ∷ w ∷ d), ap length e))

doubled :
    (d : Text) → text_mem (times 10 d) fuzz_library ≡ true → some (times 2 d) ≢ some first_long
unfolding fuzz_library text_mem text_eq
doubled d found e = absurd (
    no
      (subst (λ w. text_mem (times 10 w) fuzz_library ≡ true) (three_letters d (some_inj e)) found))
  where
    no : false ≡ true → ⊥
    no h = cc

-- What the variable mutations are, by which of the three values the library has.
abbrev chosen : Bool → Text → List Text → List Text
chosen found v rest = if found then rest else v ∷ rest

abbrev variants : (b₂ b₁₀ b₁₀₀ : Bool) → Text → List Text
variants b₂ b₁₀ b₁₀₀ d =
    chosen b₂ (times 2 d) (chosen b₁₀ (times 10 d) (chosen b₁₀₀ (times 100 d) []))

longer :
    (j k : ℕ) (d : Text)
    → 0 < length d
    → j * length d ≢ k * length d
    → some (times j d) ≢ some (times k d)
longer j k d n h =
    length_ne (times j d) (times k d) (λ e. h (sym (length-times j d) ∙ (e ∙ length-times k d)))

not_long : (k : ℕ) (d : Text) → k * length d ≢ 6 → some (times k d) ≢ some first_long
not_long k d h = length_ne (times k d) first_long (λ e. h (sym (length-times k d) ∙ e))

abbrev Known : ℕ → Text → Bool → Type 0
Known k d b = text_mem (times k d) fuzz_library ≡ b

steps :
    (d : Text) (b₂ b₁₀ b₁₀₀ : Bool)
    → Known 2 d b₂
    → Known 10 d b₁₀
    → Known 100 d b₁₀₀
    → IsStepping (some last_entry) (variants b₂ b₁₀ b₁₀₀ d)
      × (last_of (some last_entry) (variants b₂ b₁₀ b₁₀₀ d) ≢ some first_long)
steps d true true true h i j = (tt, entry_apart)
steps d true true false h i j = ((fresh _ j, tt), not_long 100 d (λ e. omega arith))
steps d true false true h i j = ((fresh _ i, tt), not_long 10 d (λ e. omega arith))
steps d true false false h i j =
    let n = positive 10 d i in
    ((fresh _ i, (longer 10 100 d n (λ e. omega arith), tt)), not_long 100 d (λ e. omega arith))
steps d false true true h i j = ((fresh _ h, tt), doubled d i)
steps d false true false h i j =
    let n = positive 2 d h in
    ((fresh _ h, (longer 2 100 d n (λ e. omega arith), tt)), not_long 100 d (λ e. omega arith))
steps d false false true h i j =
    let n = positive 2 d h in
    ((fresh _ h, (longer 2 10 d n (λ e. omega arith), tt)), not_long 10 d (λ e. omega arith))
steps d false false false h i j =
    let n = positive 2 d h in
    (
      (fresh _ h, (longer 2 10 d n (λ e. omega arith), (longer 10 100 d n (λ e. omega arith), tt))),
      not_long 100 d (λ e. omega arith),
    )

module _ (indices : ℕ → List ℕ) where
  -- After the library, variable mutations that step and do not end like the long strings begin
  -- are counted one by one.
  count :
      (variable long : List Text)
      → IsStepping (some last_entry) variable
      → last_of (some last_entry) variable ≢ some first_long
      → length (unlimited indices none (fuzz_library ++ (variable ++ (first_long ∷ long))))
        ≡ length (unlimited indices none (fuzz_library ++ (first_long ∷ long))) + length variable
  count variable long h k =
      ap length (
        adjust_all-append indices none fuzz_library (variable ++ (first_long ∷ long))
        ∙ ap (λ (l : Option Text). before ++ unlimited indices l (variable ++ (first_long ∷ long)))
            last_of_library)
      ∙ (length-append before _
          ∙ (ap (λ (l : List Text). length before + length l)
                (adjust_all-append indices (some last_entry) variable (first_long ∷ long)
                  ∙ ap₂ (λ (u v : List Text). u ++ v)
                      (adjust_all-IsStepping indices (some last_entry) variable h)
                      (adjust_all-restart indices (last_of (some last_entry) variable)
                        (some last_entry) first_long long k entry_apart))
              ∙ (ap (λ (n : ℕ). length before + n) (length-append variable after)
                  ∙ (omega arith ∙ ap (λ (n : ℕ). n + length variable) (sym whole)))))
    where
      before : List Text
      before = unlimited indices none fuzz_library

      after : List Text
      after = unlimited indices (some last_entry) (first_long ∷ long)

      whole :
          length (unlimited indices none (fuzz_library ++ (first_long ∷ long)))
          ≡ length before + length after
      whole =
          ap length (
            adjust_all-append indices none fuzz_library (first_long ∷ long)
            ∙ ap (λ (l : Option Text). before ++ unlimited indices l (first_long ∷ long))
                last_of_library)
          ∙ length-append before after

  nothing_variable : yield_variable_mutations indices none [] ≡ []
  unfolding variable_mutations fuzz_library text_mem text_eq
  nothing_variable = refl

  static_lem :
      (long : List Text)
      → yield_long_strings indices none long_string_seeds ≡ first_long ∷ long
      → mutations indices none [] ≡ unlimited indices none (fuzz_library ++ (first_long ∷ long))
  unfolding mutations
  static_lem long e =
      ap₂ (λ (u v : List Text). unlimited indices none (fuzz_library ++ (u ++ v))) nothing_variable
        e

  -- Where nothing limits its length, String announces as many mutations as it yields, for every
  -- default value, though it counts the static ones for the empty default value only.
  pub length-mutations :
      (default_value : Text)
      → length (mutations indices none default_value) ≡ num_mutations indices none default_value
  unfolding mutations num_mutations variable_mutations
  length-mutations d =
      ap
        (λ (l : List Text).
          length (
            unlimited indices none
              (fuzz_library ++ (yield_variable_mutations indices none d ++ l))))
        first.1
      ∙ (count (yield_variable_mutations indices none d) first.0 (facts.0) (facts.1)
          ∙ ap (λ (n : ℕ). n + length (yield_variable_mutations indices none d))
              (ap length (sym (static_lem first.0 first.1))))
    where
      first :
          (rest : List Text) × (yield_long_strings indices none long_string_seeds
            ≡ first_long ∷ rest)
      first = long_strings_first indices

      facts :
          IsStepping (some last_entry) (yield_variable_mutations indices none d)
          × (last_of (some last_entry) (yield_variable_mutations indices none d) ≢ some first_long)
      facts =
          steps d (text_mem (times 2 d) fuzz_library) (text_mem (times 10 d) fuzz_library)
            (text_mem (times 100 d) fuzz_library) refl refl refl
