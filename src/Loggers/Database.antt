-- ===== src/Loggers/Database.antt =====
-- boofuzz/fuzz_logger_db.py: the rows of the last test cases wait in a queue, and go to the database
-- after a failure. The tables are lists of rows in the order of their insertion.
pub mod Queued
pub mod Written
pub mod Complete
pub mod Reader
use boofuzz.Base.{
  ℕ, zero, suc, ◌+◌, ◌-◌, Bool, true, false, ◌||◌, List, [], ◌∷◌, ◌++◌, Option, none, some, map,
  ltb, leb, ◌==◌, if◌then◌else◌, length, take, ◌>>=◌,
}
use boofuzz.Base.Text.{Text}
use boofuzz.Loggers.{
  Call, open_test_case, open_test_step, log_check, log_error, log_info, log_fail, log_pass,
  log_recv, log_send, close_test_case, close_test,
}

-- The `type` of a step.
pub data Kind : Type 0 where
  step check error receive send info fail pass : Kind

-- A query of the queue: an insertion into `cases` (name, number, timestamp) or into `steps`.
pub data Row : Type 0 where
  case_row : (name : Text) (number : ℕ) (timestamp : Text) → Row
  step_row :
      (test_case_index : ℕ) (kind : Kind) (description : Text) (contents : List ℕ)
      (timestamp : Text) (is_truncated : Bool)
      → Row

-- `next(x for x in query if isinstance(x, int))`.
abbrev pub index_of : Row → ℕ
index_of (case_row name number time) = number
index_of (step_row index kind t contents time cut) = index

pub record FuzzLoggerDb : Type 0 where
  pub rows : List Row
  pub current : ℕ
  pub queue : List Row
  pub max_len : ℕ
  pub fail_detected : Bool
  pub first_case : Bool

-- On a new database file, for `num_log_cases`.
unfoldable pub fuzz_logger_db : ℕ → FuzzLoggerDb
fuzz_logger_db num_log_cases = record {
  rows = [];
  current = 0;
  queue = [];
  max_len = num_log_cases;
  fail_detected = false;
  first_case = true;
}

abbrev pub data_truncate_length : ℕ
data_truncate_length = 512

-- `_truncate_send_recv`, which compares the type of a step with "send" and "recv".
unfoldable pub truncate_send_recv : Row → Row
truncate_send_recv (step_row index send t contents time cut) =
    if ltb data_truncate_length (length contents)
    then step_row index send t (take data_truncate_length contents) time true
    else step_row index send t contents time cut
truncate_send_recv r = r

-- `while current - index >= max_len: queue.popleft()`; no result is an IndexError.
unfoldable pub drop_old : (current max_len : ℕ) → List Row → Option (List Row)
drop_old current max_len [] = none
drop_old current max_len (r ∷ queue) =
    let rest = drop_old current max_len queue in
    if leb (index_of r + max_len) current then rest else some (r ∷ queue)

-- `if 0 < max_len: ... else: force = True`.
unfoldable pub kept_queue : FuzzLoggerDb → Option (List Row)
kept_queue d = if ltb 0 d.max_len then drop_old d.current d.max_len d.queue else some d.queue

-- The insertions, which are abridged unless a failure was detected.
unfoldable pub written : Bool → List Row → List Row
written true queue = queue
written false queue = map truncate_send_recv queue

unfoldable pub flush : Bool → List Row → FuzzLoggerDb → FuzzLoggerDb
flush force queue d =
    if force || (d.fail_detected || d.first_case)
    then record d {
      rows = d.rows ++ written d.fail_detected queue;
      queue = [];
      first_case = false;
      fail_detected = false;
    }
    else record d { queue = queue }

-- `_write_log`.
unfoldable pub write_queue : Bool → List Row → FuzzLoggerDb → Option FuzzLoggerDb
write_queue force [] d = some d
write_queue force (r ∷ rest) d =
    kept_queue d >>= λ queue. some (flush (force || leb d.max_len 0) queue d)

abbrev pub write_log : Bool → FuzzLoggerDb → Option FuzzLoggerDb
write_log force d = write_queue force d.queue d

abbrev pub append : Row → FuzzLoggerDb → FuzzLoggerDb
append r d = record d { queue = d.queue ++ r ∷ [] }

abbrev pub append_step : Kind → Text → List ℕ → Text → FuzzLoggerDb → FuzzLoggerDb
append_step kind t contents time d = append (step_row d.current kind t contents time false) d

-- The methods, at a time that `get_time_stamp` gives.
unfoldable pub receive_call : Text × Call → FuzzLoggerDb → Option FuzzLoggerDb
receive_call (time, open_test_case id name index) d =
    some (record (append (case_row name index time) d) { current = index })
receive_call (time, open_test_step t) d = some (append_step step t [] time d)
receive_call (time, log_check t) d = some (append_step check t [] time d)
receive_call (time, log_error t) d =
    write_log false (record (append_step error t [] time d) { fail_detected = true })
receive_call (time, log_recv contents) d = some (append_step receive [] contents time d)
receive_call (time, log_send contents) d = some (append_step send [] contents time d)
receive_call (time, log_info t) d = some (append_step info t [] time d)
receive_call (time, log_fail t) d =
    some (record (append_step fail t [] time d) { fail_detected = true })
receive_call (time, log_pass t) d = some (append_step pass t [] time d)
receive_call (time, close_test_case) d = write_log false d
receive_call (time, close_test) d = write_log true d

unfoldable pub receive_calls : List (Text × Call) → FuzzLoggerDb → Option FuzzLoggerDb
receive_calls [] d = some d
receive_calls (c ∷ cs) d = receive_call c d >>= receive_calls cs
