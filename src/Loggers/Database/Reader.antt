-- ===== src/Loggers/Database/Reader.antt =====
-- Reading a database back: FuzzLoggerDbReader of boofuzz/fuzz_logger_db.py.
use boofuzz.Base.{
  ℕ, ◌≡◌, refl, ap, sym, ◌∙◌, inl, inr, Bool, true, false, List, [], ◌∷◌, ◌++◌, Option, none, some,
  ltb, ◌==◌, if◌then◌else◌, ◌>>=◌, arith, append-nil, append_assoc, take, length, Bool-cases,
}
use boofuzz.Base.Dict.{lookup, insert, lookup-insert}
use boofuzz.Base.Text.{Text}
use boofuzz.Loggers.{
  Call, open_test_case, open_test_step, log_check, log_error, log_info, log_fail, log_pass,
  log_recv, log_send, close_test_case, close_test,
}
use boofuzz.Loggers.Database.{
  Kind, step, check, error, receive, send, info, fail, pass, Row, case_row, step_row, FuzzLoggerDb,
  fuzz_logger_db, truncate_send_recv, receive_call, receive_calls, data_truncate_length,
}
use boofuzz.Loggers.Database.Complete.{index_after, logged, AreStored, receive_calls-AreStored}

-- DataTestStep and DataTestCase.
pub record DataTestStep : Type 0 where
  pub kind : Kind
  pub description : Text
  pub contents : List ℕ
  pub timestamp : Text
  pub truncated : Bool

pub record DataTestCase : Type 0 where
  pub name : Text
  pub index : ℕ
  pub timestamp : Text
  pub steps : List DataTestStep

-- `SELECT * FROM steps WHERE test_case_index=?`.
unfoldable pub select_steps : ℕ → List Row → List DataTestStep
select_steps index [] = []
select_steps index (case_row name number time ∷ rows) = select_steps index rows
select_steps index (step_row number kind t contents time cut ∷ rows) =
    (if number == index
      then record {
        kind = kind;
        description = t;
        contents = contents;
        timestamp = time;
        truncated = cut;
      }
        ∷ []
      else [])
    ++ select_steps index rows

-- The first row of `SELECT * FROM cases WHERE number=?`.
unfoldable pub select_case : ℕ → List Row → Option (Text × Text)
select_case index [] = none
select_case index (case_row name number time ∷ rows) =
    if number == index then some (name, time) else select_case index rows
select_case index (step_row number kind t contents time cut ∷ rows) = select_case index rows

-- `get_test_case_data`; no result is BoofuzzNoSuchTestCase.
unfoldable pub get_test_case_data : ℕ → List Row → Option DataTestCase
get_test_case_data index rows = select_case index rows >>= λ c.
    some (record { name = c.0; index = index; timestamp = c.1; steps = select_steps index rows })

abbrev pub or_nothing : Option (List Text) → List Text
or_nothing none = []
or_nothing (some texts) = texts

abbrev pub texts_at : ℕ → List (ℕ × List Text) → List Text
texts_at index m = or_nothing (lookup index m)

-- `failure_map[step[0]].append(step[2])`, on a `defaultdict(list)`.
unfoldable pub add_failures : List Row → List (ℕ × List Text) → List (ℕ × List Text)
add_failures [] m = m
add_failures (step_row index fail t contents time cut ∷ rows) m =
    add_failures rows (insert index (texts_at index m ++ t ∷ []) m)
add_failures (r ∷ rows) m = add_failures rows m

unfoldable pub failure_map : List Row → List (ℕ × List Text)
failure_map rows = add_failures rows []

-- The texts of the failures that some calls log while the case of an index is the current one.
abbrev pub failures : ℕ → ℕ → List (Text × Call) → List Text
failures index current [] = []
failures index current ((time, log_fail t) ∷ cs) =
    (if current == index then t ∷ [] else []) ++ failures index current cs
failures index current (c ∷ cs) = failures index (index_after current c) cs

abbrev row_failures : ℕ → Row → List Text
row_failures index (step_row number fail t contents time cut) =
    if number == index then t ∷ [] else []
row_failures index r = []

abbrev all_failures : ℕ → List Row → List Text
all_failures index [] = []
all_failures index (r ∷ rows) = row_failures index r ++ all_failures index rows

same_failures :
    (index : ℕ) (r : Row) → row_failures index (truncate_send_recv r) ≡ row_failures index r
unfolding truncate_send_recv
same_failures index (step_row number send t contents time cut) =
    decide (ltb data_truncate_length (length contents))
  where
    decide :
        (b : Bool)
        → row_failures index (
            if b
            then step_row number send t (take data_truncate_length contents) time true
            else step_row number send t contents time cut)
          ≡ []
    decide true = refl
    decide false = refl
same_failures index (case_row name number time) = refl
same_failures index (step_row number step t contents time cut) = refl
same_failures index (step_row number check t contents time cut) = refl
same_failures index (step_row number error t contents time cut) = refl
same_failures index (step_row number receive t contents time cut) = refl
same_failures index (step_row number info t contents time cut) = refl
same_failures index (step_row number fail t contents time cut) = refl
same_failures index (step_row number pass t contents time cut) = refl

stored_failures :
    (index : ℕ) (rs ss : List Row) → AreStored rs ss → all_failures index ss ≡ all_failures index rs
stored_failures index [] [] h = refl
stored_failures index (r ∷ rs) (s ∷ ss) (inl e, h) =
    ap (λ (x : Row). row_failures index x ++ all_failures index ss) e
    ∙ ap (λ (l : List Text). row_failures index r ++ l) (stored_failures index rs ss h)
stored_failures index (r ∷ rs) (s ∷ ss) (inr e, h) =
    ap (λ (x : Row). row_failures index x ++ all_failures index ss) e
    ∙ (ap (λ (x : List Text). x ++ all_failures index ss) (same_failures index r)
        ∙ ap (λ (l : List Text). row_failures index r ++ l) (stored_failures index rs ss h))
stored_failures index [] (s ∷ ss) h = absurd h
stored_failures index (r ∷ rs) [] h = absurd h

texts_at-insert :
    (index other : ℕ) (t : Text) (m : List (ℕ × List Text))
    → texts_at index (insert other (texts_at other m ++ t ∷ []) m)
      ≡ texts_at index m ++ (if other == index then t ∷ [] else [])
texts_at-insert index other t m =
    ap or_nothing (lookup-insert other index (texts_at other m ++ t ∷ []) m)
    ∙ elim (Bool-cases (other == index)) [
      | inl same ↦
          let e : other ≡ index = ground arith in rw same (ap (λ (k : ℕ). texts_at k m ++ t ∷ []) e)
      | inr different ↦ rw different (sym (append-nil (texts_at index m)))
    ]

add_failures_lem :
    (index : ℕ) (rows : List Row) (m : List (ℕ × List Text))
    → texts_at index (add_failures rows m) ≡ texts_at index m ++ all_failures index rows
unfolding add_failures
add_failures_lem index [] m = sym (append-nil (texts_at index m))
add_failures_lem index (step_row number fail t contents time cut ∷ rows) m =
    add_failures_lem index rows (insert number (texts_at number m ++ t ∷ []) m)
    ∙ (ap (λ (l : List Text). l ++ all_failures index rows) (texts_at-insert index number t m)
        ∙ append_assoc (texts_at index m) (if number == index then t ∷ [] else [])
            (all_failures index rows))
add_failures_lem index (case_row name number time ∷ rows) m = add_failures_lem index rows m
add_failures_lem index (step_row number send t contents time cut ∷ rows) m =
    add_failures_lem index rows m
add_failures_lem index (step_row number step t contents time cut ∷ rows) m =
    add_failures_lem index rows m
add_failures_lem index (step_row number check t contents time cut ∷ rows) m =
    add_failures_lem index rows m
add_failures_lem index (step_row number error t contents time cut ∷ rows) m =
    add_failures_lem index rows m
add_failures_lem index (step_row number receive t contents time cut ∷ rows) m =
    add_failures_lem index rows m
add_failures_lem index (step_row number info t contents time cut ∷ rows) m =
    add_failures_lem index rows m
add_failures_lem index (step_row number pass t contents time cut ∷ rows) m =
    add_failures_lem index rows m

all_failures-logged :
    (index current : ℕ) (cs : List (Text × Call))
    → all_failures index (logged current cs) ≡ failures index current cs
all_failures-logged index current [] = refl
all_failures-logged index current ((time, log_fail t) ∷ cs) =
    ap (λ (l : List Text). (if current == index then t ∷ [] else []) ++ l)
      (all_failures-logged index current cs)
all_failures-logged index current ((time, open_test_case id name number) ∷ cs) =
    all_failures-logged index number cs
all_failures-logged index current ((time, open_test_step t) ∷ cs) =
    all_failures-logged index current cs
all_failures-logged index current ((time, log_check t) ∷ cs) = all_failures-logged index current cs
all_failures-logged index current ((time, log_error t) ∷ cs) = all_failures-logged index current cs
all_failures-logged index current ((time, log_info t) ∷ cs) = all_failures-logged index current cs
all_failures-logged index current ((time, log_pass t) ∷ cs) = all_failures-logged index current cs
all_failures-logged index current ((time, log_recv d) ∷ cs) = all_failures-logged index current cs
all_failures-logged index current ((time, log_send d) ∷ cs) = all_failures-logged index current cs
all_failures-logged index current ((time, close_test_case) ∷ cs) =
    all_failures-logged index current cs
all_failures-logged index current ((time, close_test) ∷ cs) = all_failures-logged index current cs

-- Without a limit of kept test cases, after any calls and a `close_test`, the failure map that is read
-- from the database has for each test case exactly the failures that were logged in it, in order.
pub texts_at-failure_map :
    (cs : List (Text × Call)) (time : Text)
    → (d d' : FuzzLoggerDb) × (receive_calls cs (fuzz_logger_db 0) ≡ some d)
      × (receive_call (time, close_test) d ≡ some d')
      × ((index : ℕ) → texts_at index (failure_map d'.rows) ≡ failures index 0 cs)
unfolding failure_map lookup
texts_at-failure_map cs time =
    let (d, d', ran, wrote, stored, empty) = receive_calls-AreStored cs time in
    (
      d,
      d',
      ran,
      wrote,
      λ index.
          add_failures_lem index d'.rows []
          ∙ (stored_failures index (logged 0 cs) d'.rows stored ∙ all_failures-logged index 0 cs),
    )
