-- ===== src/Session/Control/Cases.antt =====
-- Which test cases the main loop fuzzes.
use boofuzz.Base.{
  ℕ, ◌+◌, ◌≡◌, refl, ap, ◌∙◌, inl, inr, Bool, true, false, List, [], ◌∷◌, ◌++◌, Option, none, some,
  ltb, leb, not, ◌&&◌, ◌||◌, ◌⊎◌, arith, if◌then◌else◌, Bool-cases,
}
use boofuzz.Session.Control.{
  Case, Action, restart_target, fuzz_case, reached, restart_if, interval_complete, main_fuzz_loop,
}

-- The cases that were fuzzed, in order.
abbrev pub fuzzed_cases : List Action → List Case
fuzzed_cases [] = []
fuzzed_cases (restart_target ∷ actions) = fuzzed_cases actions
fuzzed_cases (fuzz_case c ∷ actions) = c ∷ fuzzed_cases actions

abbrev pub from_start : ℕ → List Case → List Case
from_start index_start [] = []
from_start index_start (c ∷ cs) =
    if ltb c.index index_start then from_start index_start cs else c ∷ from_start index_start cs

-- The cases up to the first one after which the test holds, and that one.
abbrev pub through : (Case → Bool) → List Case → List Case
through last [] = []
through last (c ∷ cs) = if last c then c ∷ [] else c ∷ through last cs

-- No case comes after one that an exception leaves, or after which the index is not below the end.
abbrev pub is_last : Option ℕ → Case → Bool
is_last none c = c.raises
is_last (some end) c = c.raises || not (ltb c.index_after end)

module _ (index_start : ℕ) (index_end : Option ℕ) (restart_interval : ℕ)
    (restart_raises : ℕ → Bool) where
  is_last_lem :
      (o : Option ℕ) (c : Case)
      → (c.raises || reached index_start index_end restart_interval restart_raises c.index_after o)
        ≡ is_last o c
  is_last_lem none c = or_false c.raises
    where
      or_false : (b : Bool) → (b || false) ≡ b
      or_false true = refl
      or_false false = refl
  is_last_lem (some end) c =
      ap (λ (b : Bool). c.raises || b) (at_end (Bool-cases (leb end c.index_after)))
    where
      at_end :
          ((leb end c.index_after ≡ true) ⊎ (leb end c.index_after ≡ false))
          → leb end c.index_after ≡ not (ltb c.index_after end)
      at_end (inl past) = ground (arith, past)
      at_end (inr before) = ground (arith, before)

  no_restart : (b b' : Bool) → b' ≡ false → (b && b') ≡ false
  no_restart true b' h = h
  no_restart false b' h = refl

  fuzzed_after_restart :
      (b : Bool) (actions : List Action)
      → fuzzed_cases (restart_if index_start index_end restart_interval restart_raises b ++ actions)
        ≡ fuzzed_cases actions
  fuzzed_after_restart true actions = refl
  fuzzed_after_restart false actions = refl

  -- The main loop fuzzes, in order and each once, the cases whose index is not below the start
  -- index, up to the first one that an exception leaves or after which the index is not below the
  -- end index, if there is one; as long as no exception leaves a restart of the target.
  pub main_fuzz_loop-fuzzed_cases :
      ((n : ℕ) → restart_raises n ≡ false)
      → (fuzzed : ℕ) (cs : List Case)
      → fuzzed_cases
          (main_fuzz_loop index_start index_end restart_interval restart_raises fuzzed cs)
        ≡ through (is_last index_end) (from_start index_start cs)
  unfolding main_fuzz_loop
  main_fuzz_loop-fuzzed_cases fine fuzzed [] = refl
  main_fuzz_loop-fuzzed_cases fine fuzzed (c ∷ cs) = elim (Bool-cases (ltb c.index index_start)) [
    | inl early ↦ rw early (main_fuzz_loop-fuzzed_cases fine fuzzed cs)
    | inr due ↦
        rw
          (
            due,
            no_restart
                (interval_complete index_start index_end restart_interval restart_raises fuzzed) _
                (fine fuzzed),
            is_last_lem index_end c,
          )
          (fuzzed_after_restart
              (interval_complete index_start index_end restart_interval restart_raises fuzzed) _
            ∙ by_end (is_last index_end c) _ _ (main_fuzz_loop-fuzzed_cases fine (fuzzed + 1) cs))
  ]
    where
      by_end :
          (b : Bool) (later : List Action) (rest : List Case)
          → fuzzed_cases later ≡ rest
          → fuzzed_cases (fuzz_case c ∷ (if b then [] else later))
            ≡ (if b then c ∷ [] else c ∷ rest)
      by_end true later rest h = refl
      by_end false later rest h = ap (λ (l : List Case). c ∷ l) h
