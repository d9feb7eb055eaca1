-- ===== src/Tests/Sessions.antt =====
-- The session's decisions at concrete inputs.
use boofuzz.Base.{ℕ, zero, suc, ◌+◌, ◌≡◌, refl, List, [], ◌∷◌, some, false, leb, arith}
use boofuzz.Session.Control.{
  Mutant, FuzzNode, Thresholds, Progress, crashes, process_failures, Attempt, fails, no_socket,
  Case, main_fuzz_loop,
}
use boofuzz.Session.Control.Cases.{
  fuzzed_cases, is_last, from_start, through, main_fuzz_loop-fuzzed_cases,
}
use boofuzz.Session.Control.Failures.{process_failures-skip_current_node}

abbrev flaky : ℕ → Attempt
flaky zero = no_socket
flaky (suc zero) = fails
flaky (suc (suc n)) = fails

abbrev a_case : ℕ → Case
a_case n = record { index = n; index_after = n; raises = false }

abbrev four_cases : List Case
four_cases = a_case 1 ∷ a_case 2 ∷ a_case 3 ∷ a_case 4 ∷ []

main_fuzz_loop_example :
    fuzzed_cases (main_fuzz_loop 2 (some 3) 1 (λ n. false) 0 four_cases)
    ≡ through (is_last (some 3)) (from_start 2 four_cases)
main_fuzz_loop_example =
    main_fuzz_loop-fuzzed_cases 2 (some 3) 1 (λ n. false) (λ n. refl) 0 four_cases

abbrev mutant : Mutant
mutant = record { key = 1; num_mutations = 5; is_counted = false }

abbrev thresholds : Thresholds
thresholds = record { crash_threshold_node = 12; crash_threshold_element = 1 }

abbrev before : Progress
before = record {
  crashing_primitives = [];
  total_mutant_index = 3;
  mutant_index = 3;
  skip_current_node = false;
  skip_current_element = false;
}

abbrev fuzz_node : FuzzNode
fuzz_node = record { key = 2; num_mutations = 9; mutant = some mutant }

skip_current_node_example :
    (process_failures thresholds fuzz_node 1 before).1.skip_current_node
    ≡ leb 12 (crashes 2 before + 1)
skip_current_node_example =
    process_failures-skip_current_node thresholds 2 9 0 mutant before (ground arith) refl
