-- ===== src/Loggers/Database/Queued.antt =====
-- The queue of boofuzz/fuzz_logger_db.py never runs empty while old rows are dropped.
use boofuzz.Base.{
  ℕ, ◌+◌, ◌≤◌, ◌<◌, ◌≡◌, refl, ap, ◌⊎◌, inl, inr, Bool, true, false, ◌||◌, List, [], ◌∷◌, ◌++◌,
  some, ltb, leb, if◌then◌else◌, arith, Bool-cases, ltb→lt, All,
}
use boofuzz.Base.Text.{Text}
use boofuzz.Loggers.{
  Call, open_test_case, open_test_step, log_check, log_error, log_info, log_fail, log_pass,
  log_recv, log_send, close_test_case, close_test,
}
use boofuzz.Loggers.Database.{
  step, check, error, receive, send, info, fail, pass, Row, case_row, step_row, index_of,
  FuzzLoggerDb, fuzz_logger_db, drop_old, kept_queue, written, flush, write_queue, write_log,
  append_step, receive_call, receive_calls,
}

-- Some row of the queue is of the test case.
abbrev pub HasCase : ℕ → List Row → Type 0
HasCase index [] = ⊥
HasCase index (r ∷ rs) = (index_of r ≡ index) ⊎ HasCase index rs

HasCase-append :
    (index : ℕ) (rs : List Row) (r : Row) → index_of r ≡ index → HasCase index (rs ++ r ∷ [])
HasCase-append index [] r e = inl e
HasCase-append index (q ∷ rs) r e = inr (HasCase-append index rs r e)

-- The queue is empty or holds a row of the current test case.
abbrev pub IsReady : FuzzLoggerDb → Type 0
IsReady d = (d.queue ≡ []) ⊎ HasCase d.current d.queue

-- The rows that are dropped are older than the last `max_len` test cases, and the first that is kept
-- is not.
abbrev pub DropsOld : ℕ → ℕ → List Row → List Row → Type 0
DropsOld current max_len queue kept =
    (old : List Row) × (queue ≡ old ++ kept)
    × All (λ r. index_of r + max_len ≤ current) old
    × HasCase current kept

pub drop_old-DropsOld :
    (current max_len : ℕ) (queue : List Row)
    → 0 < max_len
    → HasCase current queue
    → (kept : List Row) × (drop_old current max_len queue ≡ some kept)
      × DropsOld current max_len queue kept
unfolding drop_old
drop_old-DropsOld current max_len [] positive h = absurd h
drop_old-DropsOld current max_len (r ∷ queue) positive h =
    elim (Bool-cases (leb (index_of r + max_len) current)) [
      | inr recent ↦ (r ∷ queue, rw recent refl, ([], refl, tt, h))
      | inl old ↦
          let age : index_of r + max_len ≤ current = ground arith in
          let (kept, ran, (olds, e, all_old, has)) =
            drop_old-DropsOld current max_len queue positive (later age h) in
          (kept, rw old ran, (r ∷ olds, ap (λ (l : List Row). r ∷ l) e, (age, all_old), has))
    ]
  where
    later : index_of r + max_len ≤ current → HasCase current (r ∷ queue) → HasCase current queue
    later age (inl same) = absurd (omega arith)
    later age (inr h) = h

flush-IsReady :
    (force : Bool) (kept : List Row) (d : FuzzLoggerDb)
    → HasCase d.current kept
    → IsReady (flush force kept d)
unfolding flush
flush-IsReady force kept d h = decide (force || (d.fail_detected || d.first_case))
  where
    decide :
        (b : Bool)
        → IsReady (
            if b
            then record d {
              rows = d.rows ++ written d.fail_detected kept;
              queue = [];
              first_case = false;
              fail_detected = false;
            }
            else record d { queue = kept })
    decide true = inl refl
    decide false = inr h

-- Writing the log succeeds whenever the queue is ready, and leaves it so.
pub write_log-IsReady :
    (force : Bool) (d : FuzzLoggerDb)
    → IsReady d
    → (d' : FuzzLoggerDb) × (write_log force d ≡ some d') × IsReady d'
unfolding write_queue kept_queue
write_log-IsReady force d h = split d.queue refl h
  where
    split :
        (q : List Row)
        → d.queue ≡ q
        → (d.queue ≡ []) ⊎ HasCase d.current d.queue
        → (d' : FuzzLoggerDb) × (write_queue force q d ≡ some d') × IsReady d'
    split [] e k = (d, refl, inl e)
    split (r ∷ q) e (inl none_left) = absurd (cc)
    split (r ∷ q) e (inr has) = elim (Bool-cases (ltb 0 d.max_len)) [
      | inl limited ↦
          let (kept, ran, (old, all, olds, still)) =
            drop_old-DropsOld d.current d.max_len d.queue (ltb→lt 0 d.max_len limited) has in
          (
            flush (force || leb d.max_len 0) kept d,
            rw (limited, ran) refl,
            flush-IsReady (force || leb d.max_len 0) kept d still,
          )
      | inr unlimited ↦ (
        flush (force || leb d.max_len 0) d.queue d,
        rw unlimited refl,
        flush-IsReady (force || leb d.max_len 0) d.queue d has,
      )
    ]

appended :
    (r : Row) (d : FuzzLoggerDb) → index_of r ≡ d.current → HasCase d.current (d.queue ++ r ∷ [])
appended r d e = HasCase-append d.current d.queue r e

pub receive_call-IsReady :
    (c : Text × Call) (d : FuzzLoggerDb)
    → IsReady d
    → (d' : FuzzLoggerDb) × (receive_call c d ≡ some d') × IsReady d'
unfolding receive_call
receive_call-IsReady (time, open_test_case id name index) d h =
    (_, refl, inr (HasCase-append index d.queue (case_row name index time) refl))
receive_call-IsReady (time, log_error t) d h =
    write_log-IsReady false (record (append_step error t [] time d) { fail_detected = true })
      (inr (appended (step_row d.current error t [] time false) d refl))
receive_call-IsReady (time, close_test_case) d h = write_log-IsReady false d h
receive_call-IsReady (time, close_test) d h = write_log-IsReady true d h
receive_call-IsReady (time, open_test_step t) d h =
    (_, refl, inr (appended (step_row d.current step t [] time false) d refl))
receive_call-IsReady (time, log_check t) d h =
    (_, refl, inr (appended (step_row d.current check t [] time false) d refl))
receive_call-IsReady (time, log_info t) d h =
    (_, refl, inr (appended (step_row d.current info t [] time false) d refl))
receive_call-IsReady (time, log_fail t) d h =
    (_, refl, inr (appended (step_row d.current fail t [] time false) d refl))
receive_call-IsReady (time, log_pass t) d h =
    (_, refl, inr (appended (step_row d.current pass t [] time false) d refl))
receive_call-IsReady (time, log_recv contents) d h =
    (_, refl, inr (appended (step_row d.current receive [] contents time false) d refl))
receive_call-IsReady (time, log_send contents) d h =
    (_, refl, inr (appended (step_row d.current send [] contents time false) d refl))

receive_calls_lem :
    (cs : List (Text × Call)) (d : FuzzLoggerDb)
    → IsReady d
    → (d' : FuzzLoggerDb) × (receive_calls cs d ≡ some d') × IsReady d'
unfolding receive_calls
receive_calls_lem [] d h = (d, refl, h)
receive_calls_lem (c ∷ cs) d h =
    let (d₁, ran, ready) = receive_call-IsReady c d h in
    let (d', ran', ready') = receive_calls_lem cs d₁ ready in (d', rw ran ran', ready')

-- From a new logger on, every call succeeds, in any order and for any number of kept test cases.
pub receive_calls-IsReady :
    (num_log_cases : ℕ) (cs : List (Text × Call))
    → (d : FuzzLoggerDb) × (receive_calls cs (fuzz_logger_db num_log_cases) ≡ some d) × IsReady d
unfolding fuzz_logger_db
receive_calls-IsReady num_log_cases cs =
    receive_calls_lem cs (fuzz_logger_db num_log_cases) (inl refl)
