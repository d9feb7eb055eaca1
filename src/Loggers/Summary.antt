-- ===== src/Loggers/Summary.antt =====
-- What the summary of boofuzz/fuzz_logger.py tells of the calls that were logged.
use boofuzz.Base.{
  ◌+◌, ◌≤◌, ◌≡◌, refl, ap, sym, ◌∙◌, Bool, true, false, List, [], ◌∷◌, ◌++◌, map, if◌then◌else◌,
  arith, Bool-cases, inl, inr, append-nil, append_assoc,
}
use boofuzz.Base.Text.{Text, text_eq, text_eq_self, eq_of_text_eq}
use boofuzz.Loggers.{
  Call, open_test_case, log_error, log_fail, log_pass, Notes, notes_of, note, FuzzLogger,
  fuzz_logger, keep_count, log, log_all,
}

-- One backend on its own.
abbrev pub receive_all : {B : Type 0} → (Call → B → B) → List Call → B → B
receive_all receive [] b = b
receive_all receive (c ∷ cs) b = receive_all receive cs (receive c b)

abbrev pub current_after : Call → Text → Text
current_after (open_test_case id name index) current = id
current_after _ current = current

-- What some calls note while a test case is the current one.
abbrev pub noted : (Call → List Text) → Text → Text → List Call → List Text
noted texts id current [] = []
noted texts id current (c ∷ cs) =
    (if text_eq current id then texts c else []) ++ noted texts id (current_after c current) cs

abbrev pub fail_texts : Call → List Text
fail_texts (log_fail t) = t ∷ []
fail_texts _ = []

abbrev pub error_texts : Call → List Text
error_texts (log_error t) = t ∷ []
error_texts _ = []

notes_of-note :
    (id other t : Text) (notes : Notes)
    → notes_of id (note other t notes)
      ≡ notes_of id notes ++ (if text_eq other id then t ∷ [] else [])
unfolding notes_of note
notes_of-note id other t [] = refl
notes_of-note id other t ((third, texts) ∷ notes) = elim (Bool-cases (text_eq third other)) [
  | inl same ↦
      let e : third ≡ other = eq_of_text_eq third other same in
      rw (same, ← e)
        (elim (Bool-cases (text_eq third id)) [
          | inl here ↦ rw here refl
          | inr away ↦ rw away (sym (append-nil (notes_of id notes)))
        ])
  | inr different ↦ rw different (elim (Bool-cases (text_eq third id)) [
    | inl here ↦
        rw (here, elsewhere (eq_of_text_eq third id here) different) (sym (append-nil texts))
    | inr away ↦ rw away (notes_of-note id other t notes)
  ])
]
  where
    elsewhere : third ≡ id → text_eq third other ≡ false → text_eq other id ≡ false
    elsewhere e ne = elim (Bool-cases (text_eq other id)) [
      | inl same ↦ absurd (
          cc (
            sym (text_eq_self other)
            ∙ (ap (λ (x : Text). text_eq x other) (eq_of_text_eq other id same ∙ sym e) ∙ ne)))
      | inr away ↦ away
    ]

nothing : (b : Bool) (n : List Text) → n ≡ n ++ (if b then [] else [])
nothing true n = sym (append-nil n)
nothing false n = sym (append-nil n)

module _ {B : Type 0} (receive : Call → B → B) where
  keep_count-backends :
      (c : Call) (l : FuzzLogger B) → (keep_count c l).fuzz_loggers ≡ l.fuzz_loggers
  unfolding keep_count
  keep_count-backends c l = ground arith

  -- Every backend gets every call, in the order of the calls and whatever the other backends do.
  pub log_all-backends :
      (cs : List Call) (l : FuzzLogger B)
      → (log_all receive cs l).fuzz_loggers ≡ map (receive_all receive cs) l.fuzz_loggers
  unfolding log_all log
  log_all-backends [] l = sym (map_self l.fuzz_loggers)
    where
      map_self : (bs : List B) → map (λ (b : B). b) bs ≡ bs
      map_self [] = refl
      map_self (b ∷ bs) = ap (λ (x : List B). b ∷ x) (map_self bs)
  log_all-backends (c ∷ cs) l = log_all-backends cs (log receive c l) ∙ map_map l.fuzz_loggers
    where
      map_map :
          (bs : List B)
          → map (receive_all receive cs) (map (receive c) bs)
            ≡ map (receive_all receive (c ∷ cs)) bs
      map_map [] = refl
      map_map (b ∷ bs) = ap (λ (x : List B). receive_all receive (c ∷ cs) b ∷ x) (map_map bs)

  -- Test cases that passed, with the current one where it is still to be counted.
  abbrev pub CountsPassed : FuzzLogger B → Type 0
  CountsPassed l =
      l.passed_test_case_count + (if text_eq l.cur_test_case_id l.last_passed_id then 0 else 1)
      ≤ l.test_case_count

  log-CountsPassed : (c : Call) (l : FuzzLogger B) → CountsPassed l → CountsPassed (log receive c l)
  unfolding log keep_count
  log-CountsPassed (open_test_case id name index) l h = ground arith
  log-CountsPassed (log_pass t) l h =
      elim (Bool-cases (text_eq l.cur_test_case_id l.last_passed_id)) [
        | inl old ↦ rw old h
        | inr new ↦
            let fits : l.passed_test_case_count + 1 ≤ l.test_case_count = rw new at h in
            rw (new, text_eq_self l.cur_test_case_id) (omega arith)
      ]
  log-CountsPassed c l h = h

  log_all-CountsPassed :
      (cs : List Call) (l : FuzzLogger B) → CountsPassed l → CountsPassed (log_all receive cs l)
  unfolding log_all
  log_all-CountsPassed [] l h = h
  log_all-CountsPassed (c ∷ cs) l h =
      log_all-CountsPassed cs (log receive c l) (log-CountsPassed c l h)

  -- After any calls, no more test cases have passed than were opened.
  pub passed-le-opened :
      (bs : List B) (cs : List Call)
      → (log_all receive cs (fuzz_logger bs)).passed_test_case_count
        ≤ (log_all receive cs (fuzz_logger bs)).test_case_count
  unfolding fuzz_logger
  passed-le-opened bs cs =
      omega (arith, log_all-CountsPassed cs (fuzz_logger bs) (rw (text_eq_self []) (omega arith)))

  log-current :
      (c : Call) (l : FuzzLogger B)
      → (log receive c l).cur_test_case_id ≡ current_after c l.cur_test_case_id
  unfolding log keep_count
  log-current (log_pass t) l = ground arith
  log-current (open_test_case id name index) l = refl
  log-current c l = refl

  -- A dictionary to which each call adds its texts under the current test case.
  noted_lem :
      (field : FuzzLogger B → Notes) (texts : Call → List Text) (id : Text)
      → ((c : Call) (l : FuzzLogger B)
          → notes_of id (field (log receive c l))
            ≡ notes_of id (field l) ++ (if text_eq l.cur_test_case_id id then texts c else []))
      → (cs : List Call) (l : FuzzLogger B)
      → notes_of id (field (log_all receive cs l))
        ≡ notes_of id (field l) ++ noted texts id l.cur_test_case_id cs
  unfolding log_all
  noted_lem field texts id step [] l = sym (append-nil (notes_of id (field l)))
  noted_lem field texts id step (c ∷ cs) l =
      noted_lem field texts id step cs (log receive c l)
      ∙ (ap (λ (n : List Text). n ++ noted texts id (log receive c l).cur_test_case_id cs)
            (step c l)
          ∙ (append_assoc (notes_of id (field l)) added
                (noted texts id (log receive c l).cur_test_case_id cs)
              ∙ ap (λ (t : Text). notes_of id (field l) ++ (added ++ noted texts id t cs))
                  (log-current c l)))
    where
      added : List Text
      added = if text_eq l.cur_test_case_id id then texts c else []

  pass_keeps :
      (b : Bool) (l : FuzzLogger B)
      → ((if b then l else record l {
        passed_test_case_count = l.passed_test_case_count + 1;
        last_passed_id = l.cur_test_case_id;
      }).failed_test_cases
          ≡ l.failed_test_cases)
        × ((if b then l else record l {
          passed_test_case_count = l.passed_test_case_count + 1;
          last_passed_id = l.cur_test_case_id;
        }).error_test_cases
            ≡ l.error_test_cases)
  pass_keeps true l = (refl, refl)
  pass_keeps false l = (refl, refl)

  failed_step :
      (id : Text) (c : Call) (l : FuzzLogger B)
      → notes_of id (log receive c l).failed_test_cases
        ≡ notes_of id l.failed_test_cases
          ++ (if text_eq l.cur_test_case_id id then fail_texts c else [])
  unfolding log keep_count
  failed_step id (log_fail t) l = notes_of-note id l.cur_test_case_id t l.failed_test_cases
  failed_step id (log_pass t) l =
      ap (notes_of id) (pass_keeps (text_eq l.cur_test_case_id l.last_passed_id) l).0
      ∙ nothing (text_eq l.cur_test_case_id id) (notes_of id l.failed_test_cases)
  failed_step id c l = nothing (text_eq l.cur_test_case_id id) (notes_of id l.failed_test_cases)

  error_step :
      (id : Text) (c : Call) (l : FuzzLogger B)
      → notes_of id (log receive c l).error_test_cases
        ≡ notes_of id l.error_test_cases
          ++ (if text_eq l.cur_test_case_id id then error_texts c else [])
  unfolding log keep_count
  error_step id (log_error t) l = notes_of-note id l.cur_test_case_id t l.error_test_cases
  error_step id (log_pass t) l =
      ap (notes_of id) (pass_keeps (text_eq l.cur_test_case_id l.last_passed_id) l).1
      ∙ nothing (text_eq l.cur_test_case_id id) (notes_of id l.error_test_cases)
  error_step id c l = nothing (text_eq l.cur_test_case_id id) (notes_of id l.error_test_cases)

  -- After any calls, the failures of a test case are exactly the texts of the failures that were logged
  -- while it was the current one, in order, and likewise its errors.
  pub log_all-noted :
      (bs : List B) (cs : List Call) (id : Text)
      → (notes_of id (log_all receive cs (fuzz_logger bs)).failed_test_cases
          ≡ noted fail_texts id [] cs)
        × (notes_of id (log_all receive cs (fuzz_logger bs)).error_test_cases
            ≡ noted error_texts id [] cs)
  unfolding fuzz_logger notes_of
  log_all-noted bs cs id = (
    noted_lem (λ l. l.failed_test_cases) fail_texts id (failed_step id) cs (fuzz_logger bs),
    noted_lem (λ l. l.error_test_cases) error_texts id (error_step id) cs (fuzz_logger bs),
  )
