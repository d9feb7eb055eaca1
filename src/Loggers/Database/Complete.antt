-- ===== src/Loggers/Database/Complete.antt =====
-- Without a limit of kept test cases, boofuzz/fuzz_logger_db.py loses no row.
use boofuzz.Base.{
  ℕ, ◌≡◌, refl, ap, sym, ◌∙◌, subst, ◌⊎◌, inl, inr, Bool, true, false, ◌||◌, List, [], ◌∷◌, ◌++◌,
  some, ltb, leb, if◌then◌else◌, ◌>>=◌, append-nil, append_assoc,
}
use boofuzz.Base.Text.{Text}
use boofuzz.Loggers.{
  Call, open_test_case, open_test_step, log_check, log_error, log_info, log_fail, log_pass,
  log_recv, log_send, close_test_case, close_test,
}
use boofuzz.Loggers.Database.{
  step, check, error, receive, send, info, fail, pass, Row, case_row, step_row, FuzzLoggerDb,
  fuzz_logger_db, truncate_send_recv, drop_old, kept_queue, written, flush, write_queue, write_log,
  append, append_step, receive_call, receive_calls,
}

-- The rows that a call is to leave, while a test case is the current one.
abbrev pub rows_of : ℕ → Text × Call → List Row
rows_of current (time, open_test_case id name index) = case_row name index time ∷ []
rows_of current (time, open_test_step t) = step_row current step t [] time false ∷ []
rows_of current (time, log_check t) = step_row current check t [] time false ∷ []
rows_of current (time, log_error t) = step_row current error t [] time false ∷ []
rows_of current (time, log_info t) = step_row current info t [] time false ∷ []
rows_of current (time, log_fail t) = step_row current fail t [] time false ∷ []
rows_of current (time, log_pass t) = step_row current pass t [] time false ∷ []
rows_of current (time, log_recv contents) = step_row current receive [] contents time false ∷ []
rows_of current (time, log_send contents) = step_row current send [] contents time false ∷ []
rows_of current (time, close_test_case) = []
rows_of current (time, close_test) = []

abbrev pub index_after : ℕ → Text × Call → ℕ
index_after current (time, open_test_case id name index) = index
index_after current (time, _) = current

abbrev pub logged : ℕ → List (Text × Call) → List Row
logged current [] = []
logged current (c ∷ cs) = rows_of current c ++ logged (index_after current c) cs

-- Row by row, what was logged, whole or abridged.
abbrev pub AreStored : List Row → List Row → Type 0
AreStored [] [] = Unit
AreStored (r ∷ rs) (s ∷ ss) = ((s ≡ r) ⊎ (s ≡ truncate_send_recv r)) × AreStored rs ss
AreStored _ _ = ⊥

AreStored-append :
    (rs ss qs ts : List Row) → AreStored rs ss → AreStored qs ts → AreStored (rs ++ qs) (ss ++ ts)
AreStored-append [] [] qs ts h k = k
AreStored-append (r ∷ rs) (s ∷ ss) qs ts h k = (h.0, AreStored-append rs ss qs ts h.1 k)
AreStored-append [] (s ∷ ss) qs ts h k = absurd h
AreStored-append (r ∷ rs) [] qs ts h k = absurd h

written-AreStored : (failed : Bool) (queue : List Row) → AreStored queue (written failed queue)
unfolding written
written-AreStored true [] = tt
written-AreStored true (r ∷ queue) = (inl refl, written-AreStored true queue)
written-AreStored false [] = tt
written-AreStored false (r ∷ queue) = (inr refl, written-AreStored false queue)

-- What was logged is stored in the database or waits in the queue.
abbrev Holds : List Row → FuzzLoggerDb → Type 0
Holds all d =
    (d.max_len ≡ 0) × ((front : List Row) × (all ≡ front ++ d.queue) × AreStored front d.rows)

append-Holds :
    (all : List Row) (r : Row) (d : FuzzLoggerDb) → Holds all d → Holds (all ++ r ∷ []) (append r d)
append-Holds all r d (limit, (front, e, stored)) = (
  limit,
  (front, ap (λ (l : List Row). l ++ r ∷ []) e ∙ append_assoc front d.queue (r ∷ []), stored),
)

flushed : Bool → List Row → FuzzLoggerDb → FuzzLoggerDb
flushed failed queue d = record d {
  rows = d.rows ++ written failed queue;
  queue = [];
  first_case = false;
  fail_detected = false;
}

flush_lem :
    (force : Bool) (d : FuzzLoggerDb)
    → flush (force || true) d.queue d ≡ flushed d.fail_detected d.queue d
unfolding flush flushed
flush_lem true d = refl
flush_lem false d = refl

-- Without a limit, writing the log leaves nothing in the queue.
write_log-Holds :
    (force : Bool) (all : List Row) (d : FuzzLoggerDb)
    → Holds all d
    → (d' : FuzzLoggerDb) × (write_log force d ≡ some d')
      × Holds all d'
      × (d'.queue ≡ [])
      × (d'.current ≡ d.current)
unfolding write_queue kept_queue flushed
write_log-Holds force all d (limit, (front, e, stored)) = split d.queue refl
  where
    split :
        (q : List Row)
        → d.queue ≡ q
        → (d' : FuzzLoggerDb) × (write_queue force q d ≡ some d')
          × Holds all d'
          × (d'.queue ≡ [])
          × (d'.current ≡ d.current)
    split [] same = (d, refl, (limit, (front, e, stored)), same, refl)
    split (r ∷ q) same = (
      flushed d.fail_detected d.queue d,
      ap
            (λ (n : ℕ). (if ltb 0 n then drop_old d.current n d.queue else some d.queue) >>= λ kept.
              some (flush (force || leb n 0) kept d))
            limit
          ∙ ap (λ (x : FuzzLoggerDb). some x) (flush_lem force d),
      (
        limit,
        (
          all,
          sym (append-nil all),
          subst (λ l. AreStored l (d.rows ++ written d.fail_detected d.queue)) (sym e)
              (AreStored-append front d.rows d.queue (written d.fail_detected d.queue) stored
                (written-AreStored d.fail_detected d.queue)),
        ),
      ),
      refl,
      refl,
    )

abbrev Keeps : List Row → Text × Call → FuzzLoggerDb → Type 0
Keeps all c d =
    (d' : FuzzLoggerDb) × (receive_call c d ≡ some d')
    × Holds (all ++ rows_of d.current c) d'
    × (d'.current ≡ index_after d.current c)

write_log-Keeps :
    (force : Bool) (all : List Row) (d : FuzzLoggerDb)
    → Holds all d
    → (d' : FuzzLoggerDb) × (write_log force d ≡ some d')
      × Holds (all ++ []) d'
      × (d'.current ≡ d.current)
write_log-Keeps force all d h =
    let (d', ran, held, empty, same) = write_log-Holds force all d h in
    (d', ran, subst (λ l. Holds l d') (sym (append-nil all)) held, same)

receive_call-Keeps :
    (c : Text × Call) (all : List Row) (d : FuzzLoggerDb) → Holds all d → Keeps all c d
unfolding receive_call
receive_call-Keeps (time, open_test_case id name index) all d h =
    (_, refl, append-Holds all (case_row name index time) d h, refl)
receive_call-Keeps (time, log_error t) all d h =
    let (d', ran, held, empty, same) =
      write_log-Holds false (all ++ step_row d.current error t [] time false ∷ [])
        (record (append_step error t [] time d) { fail_detected = true })
        (append-Holds all (step_row d.current error t [] time false) d h) in
    (d', ran, held, same)
receive_call-Keeps (time, close_test_case) all d h = write_log-Keeps false all d h
receive_call-Keeps (time, close_test) all d h = write_log-Keeps true all d h
receive_call-Keeps (time, open_test_step t) all d h =
    (_, refl, append-Holds all (step_row d.current step t [] time false) d h, refl)
receive_call-Keeps (time, log_check t) all d h =
    (_, refl, append-Holds all (step_row d.current check t [] time false) d h, refl)
receive_call-Keeps (time, log_info t) all d h =
    (_, refl, append-Holds all (step_row d.current info t [] time false) d h, refl)
receive_call-Keeps (time, log_fail t) all d h =
    (_, refl, append-Holds all (step_row d.current fail t [] time false) d h, refl)
receive_call-Keeps (time, log_pass t) all d h =
    (_, refl, append-Holds all (step_row d.current pass t [] time false) d h, refl)
receive_call-Keeps (time, log_recv contents) all d h =
    (_, refl, append-Holds all (step_row d.current receive [] contents time false) d h, refl)
receive_call-Keeps (time, log_send contents) all d h =
    (_, refl, append-Holds all (step_row d.current send [] contents time false) d h, refl)

receive_calls-Holds :
    (cs : List (Text × Call)) (all : List Row) (d : FuzzLoggerDb)
    → Holds all d
    → (d' : FuzzLoggerDb) × (receive_calls cs d ≡ some d') × Holds (all ++ logged d.current cs) d'
unfolding receive_calls
receive_calls-Holds [] all d h = (d, refl, subst (λ l. Holds l d) (sym (append-nil all)) h)
receive_calls-Holds (c ∷ cs) all d h =
    let (d₁, ran, held, next) = receive_call-Keeps c all d h in
    let (d', ran', held') = receive_calls-Holds cs (all ++ rows_of d.current c) d₁ held in
    (
      d',
      rw ran ran',
      subst (λ l. Holds l d')
          (append_assoc all (rows_of d.current c) (logged d₁.current cs)
            ∙ ap (λ (n : ℕ). all ++ (rows_of d.current c ++ logged n cs)) next)
          held',
    )

-- Without a limit of kept test cases, any calls and a `close_test` leave in the database exactly one
-- row for each logged case and step, in order and under the test case in which it was logged; the row
-- is as logged, or its sent data is cut as `_truncate_send_recv` does.
pub receive_calls-AreStored :
    (cs : List (Text × Call)) (time : Text)
    → (d d' : FuzzLoggerDb) × (receive_calls cs (fuzz_logger_db 0) ≡ some d)
      × (receive_call (time, close_test) d ≡ some d')
      × AreStored (logged 0 cs) d'.rows
      × (d'.queue ≡ [])
unfolding fuzz_logger_db receive_call
receive_calls-AreStored cs time =
    let (d, ran, held) = receive_calls-Holds cs [] (fuzz_logger_db 0) (refl, ([], refl, tt)) in
    let (d', wrote, (limit, (front, e, stored)), empty, same) =
      write_log-Holds true (logged 0 cs) d held in
    (
      d,
      d',
      ran,
      wrote,
      subst (λ l. AreStored l d'.rows)
          (sym (e ∙ (ap (λ (l : List Row). front ++ l) empty ∙ append-nil front))) stored,
      empty,
    )
