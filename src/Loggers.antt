-- ===== src/Loggers.antt =====
-- The loggers: the calls of boofuzz/ifuzz_logger.py, and boofuzz/fuzz_logger.py, which passes each
-- call on to every backend and keeps what the summary tells.
pub mod Summary
pub mod Database
use boofuzz.Base.{
  ℕ, zero, suc, ◌+◌, Bool, true, false, not, List, [], ◌∷◌, ◌++◌, Option, none, some, map, ltb,
  if◌then◌else◌, length,
}
use boofuzz.Base.Int.{pos}
use boofuzz.Base.Text.{Text, text_eq, codes, join}
use boofuzz.Primitives.BitField.{format_d}

pub data Call : Type 0 where
  open_test_case : (test_case_id name : Text) (index : ℕ) → Call
  open_test_step log_check log_error log_info log_fail log_pass : (description : Text) → Call
  log_recv log_send : List ℕ → Call
  close_test_case close_test : Call

-- A dictionary from test cases to what was logged in them.
abbrev pub Notes : Type 0
Notes = List (Text × List Text)

unfoldable pub notes_of : Text → Notes → List Text
notes_of id [] = []
notes_of id ((other, texts) ∷ notes) = if text_eq other id then texts else notes_of id notes

-- `if id not in d: d[id] = []`, and `d[id].append(text)`.
unfoldable pub note : Text → Text → Notes → Notes
note id t [] = (id, t ∷ []) ∷ []
note id t ((other, texts) ∷ notes) =
    if text_eq other id then (other, texts ++ t ∷ []) ∷ notes else (other, texts) ∷ note id t notes

abbrev pub ids_of : Notes → List Text
ids_of notes = map (λ n. n.0) notes

-- The attributes of a FuzzLogger, whose backends are given.
pub record FuzzLogger (B : Type 0) : Type 0 where
  pub fuzz_loggers : List B
  pub cur_test_case_id : Text
  pub failed_test_cases : Notes
  pub error_test_cases : Notes
  pub passed_test_case_count : ℕ
  pub last_passed_id : Text
  pub test_case_count : ℕ

unfoldable pub fuzz_logger : {B : Type 0} → List B → FuzzLogger B
fuzz_logger backends = record {
  fuzz_loggers = backends;
  cur_test_case_id = [];
  failed_test_cases = [];
  error_test_cases = [];
  passed_test_case_count = 0;
  last_passed_id = [];
  test_case_count = 0;
}

module _ {B : Type 0} where
  -- What a call changes in the FuzzLogger itself.
  unfoldable pub keep_count : Call → FuzzLogger B → FuzzLogger B
  keep_count (open_test_case id name index) l = record l {
    cur_test_case_id = id;
    test_case_count = l.test_case_count + 1;
  }
  keep_count (log_error t) l = record l {
    error_test_cases = note l.cur_test_case_id t l.error_test_cases;
  }
  keep_count (log_fail t) l = record l {
    failed_test_cases = note l.cur_test_case_id t l.failed_test_cases;
  }
  keep_count (log_pass t) l = if text_eq l.cur_test_case_id l.last_passed_id then l else record l {
    passed_test_case_count = l.passed_test_case_count + 1;
    last_passed_id = l.cur_test_case_id;
  }
  keep_count _ l = l

  module _ (receive : Call → B → B) where
    unfoldable pub log : Call → FuzzLogger B → FuzzLogger B
    log c l = record (keep_count c l) { fuzz_loggers = map (receive c) l.fuzz_loggers }

    unfoldable pub log_all : List Call → FuzzLogger B → FuzzLogger B
    log_all [] l = l
    log_all (c ∷ cs) l = log_all cs (log c l)

  -- `failure_summary`.
  unfoldable pub failure_summary : FuzzLogger B → Text
  failure_summary l =
      codes "Test Summary: "
      ++ (format_d (pos l.test_case_count)
          ++ (codes " tests ran.\n"
              ++ (codes "PASSED: "
                  ++ (format_d (pos l.passed_test_case_count)
                      ++ (codes " test cases.\n" ++ (failed ++ errors))))))
    where
      failed : Text
      failed =
          if ltb 0 (length l.failed_test_cases)
          then codes "FAILED: "
            ++ (format_d (pos (length l.failed_test_cases))
                ++ (codes " test cases:\n"
                    ++ (join (codes "\n") (ids_of l.failed_test_cases) ++ codes "\n")))
          else []

      errors : Text
      errors =
          if ltb 0 (length l.error_test_cases)
          then codes "Errors on "
            ++ (format_d (pos (length l.error_test_cases))
                ++ (codes " test cases:\n" ++ join (codes "\n") (ids_of l.error_test_cases)))
          else []
