-- ===== src/Tests/Logs.antt =====
-- The loggers at concrete inputs: a test case that fails and one that passes.
use boofuzz.Base.{ℕ, ◌+◌, ◌≤◌, ◌≡◌, refl, inl, inr, List, [], ◌∷◌, map, some, true, false}
use boofuzz.Base.Text.{Text, codes}
use boofuzz.Loggers.{
  Call, open_test_case, log_fail, log_pass, log_send, close_test_case, close_test, notes_of,
  fuzz_logger, log_all,
}
use boofuzz.Loggers.Summary.{noted, fail_texts, error_texts, log_all-noted, passed-le-opened}
use boofuzz.Loggers.Database.{
  FuzzLoggerDb, fuzz_logger_db, step_row, fail, send, receive_call, receive_calls,
}
use boofuzz.Loggers.Database.Queued.{IsReady, receive_calls-IsReady}
use boofuzz.Loggers.Database.Written.{RecordsFailure, close_test_case-RecordsFailure}
use boofuzz.Loggers.Database.Complete.{logged, AreStored, receive_calls-AreStored}
use boofuzz.Loggers.Database.Reader.{texts_at, failure_map, failures, texts_at-failure_map}

abbrev calls : List Call
calls =
    open_test_case (codes "1") (codes "login:[user:0]") 1
    ∷ log_send (1 ∷ 2 ∷ [])
    ∷ log_fail (codes "crashed")
    ∷ close_test_case
    ∷ open_test_case (codes "2") (codes "login:[user:1]") 2
    ∷ log_pass (codes "alive")
    ∷ close_test_case
    ∷ []

-- Backends that count the calls.
abbrev counting : Call → ℕ → ℕ
counting c n = n + 1

log_all-noted_example :
    (notes_of (codes "1") (log_all counting calls (fuzz_logger (0 ∷ []))).failed_test_cases
      ≡ noted fail_texts (codes "1") [] calls)
    × (notes_of (codes "1") (log_all counting calls (fuzz_logger (0 ∷ []))).error_test_cases
        ≡ noted error_texts (codes "1") [] calls)
log_all-noted_example = log_all-noted counting (0 ∷ []) calls (codes "1")

passed_example :
    (log_all counting calls (fuzz_logger (0 ∷ []))).passed_test_case_count
    ≤ (log_all counting calls (fuzz_logger (0 ∷ []))).test_case_count
passed_example = passed-le-opened counting (0 ∷ []) calls

abbrev timed : List (Text × Call)
timed = map (λ c. (codes "12:00", c)) calls

no_index_error_example :
    (d : FuzzLoggerDb) × (receive_calls timed (fuzz_logger_db 1) ≡ some d) × IsReady d
no_index_error_example = receive_calls-IsReady 1 timed

-- The second test case has failed; one row of the first is still in the queue.
abbrev failing : FuzzLoggerDb
failing = record {
  rows = [];
  current = 2;
  queue = step_row 1 send [] (1 ∷ []) [] false ∷ step_row 2 fail (codes "crashed") [] [] false ∷ [];
  max_len = 1;
  fail_detected = true;
  first_case = false;
}

close_test_case-RecordsFailure_example :
    (d : FuzzLoggerDb) × (receive_call ([], close_test_case) failing ≡ some d)
    × RecordsFailure failing d
close_test_case-RecordsFailure_example =
    close_test_case-RecordsFailure [] failing (inr (inr (inl refl))) refl

AreStored-example :
    (d d' : FuzzLoggerDb) × (receive_calls timed (fuzz_logger_db 0) ≡ some d)
    × (receive_call ([], close_test) d ≡ some d')
    × AreStored (logged 0 timed) d'.rows
    × (d'.queue ≡ [])
AreStored-example = receive_calls-AreStored timed []

failure_map_example :
    (d d' : FuzzLoggerDb) × (receive_calls timed (fuzz_logger_db 0) ≡ some d)
    × (receive_call ([], close_test) d ≡ some d')
    × ((index : ℕ) → texts_at index (failure_map d'.rows) ≡ failures index 0 timed)
failure_map_example = texts_at-failure_map timed []
