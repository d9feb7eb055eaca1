-- ===== src/Primitives/Bytes/Count.antt =====
-- The number of mutations that Bytes announces.
use boofuzz.Base.{
  ℕ, ◌+◌, ◌*◌, ◌-◌, ◌≡◌, ap, ap₂, ◌∙◌, List, [], ◌∷◌, length, map, range_from, length-append,
  length-map, length-range_from, arith,
}
use native.Mathlib.Nat.{mul-suc}
use boofuzz.Primitives.Bytes.Library.{fuzz_strings_1byte, fuzz_strings_2byte, fuzz_strings_4byte}
use boofuzz.Primitives.Bytes.{
  Bytes, computed, replaced, replacements, iterate_fuzz_cases, adjusted, mutations, num_mutations,
}

length-replacements :
    (less : ℕ) (strings : List (List ℕ)) (is : List ℕ)
    → length (replacements less strings is) ≡ length strings * length is
unfolding replacements
length-replacements less strings [] = omega arith
length-replacements less strings (i ∷ is) =
    length-append (map (λ fuzz_bytes. computed (replaced less i fuzz_bytes)) strings)
      (replacements less strings is)
    ∙ (ap₂ (λ (a b : ℕ). a + b)
          (length-map strings (λ fuzz_bytes. computed (replaced less i fuzz_bytes)))
          (length-replacements less strings is)
        ∙ omega (arith, mul-suc (length strings) (length is)))

loop_lem :
    (less : ℕ) (strings : List (List ℕ)) (n : ℕ)
    → length (replacements less strings (range_from 0 n)) ≡ length strings * n
loop_lem less strings n =
    length-replacements less strings (range_from 0 n)
    ∙ ap (λ (k : ℕ). length strings * k) (length-range_from 0 n)

-- Bytes announces as many mutations as it yields, for every default value and size.
pub length-mutations :
    (p : Bytes) (default_value : List ℕ)
    → length (mutations p default_value) ≡ num_mutations default_value
unfolding mutations iterate_fuzz_cases num_mutations
length-mutations p d =
    length-map (iterate_fuzz_cases d) (adjusted p)
    ∙ simp
        (
          length-append,
          length-map,
          loop_lem 0 fuzz_strings_1byte (length d),
          loop_lem 1 fuzz_strings_2byte (length d - 1),
          loop_lem 3 fuzz_strings_4byte (length d - 3),
        )
        (omega arith)
