-- ===== src/Session/Case/Steps.antt =====
-- The steps of a test case (boofuzz/sessions/session.py): `_callback_current_node`,
-- `transmit_normal`, `transmit_fuzz` and `_fuzz_current_case`.
use boofuzz.Base.{ℕ, Bool, true, false, List, [], ◌∷◌, ◌++◌, Option, none, some, if◌then◌else◌}
use boofuzz.Session.Case.{
  Fault, boofuzz_failure, Answer, got, fault, Options, Outcome, completed, failure, escaped,
  outcome_of, sending_fault, receiving_fault, check_received, Event, opened, prepared, received,
  checked, target_closed, failed, processed, case_closed, exported, called_back, sent, State,
  Result, ends, after_events, next, Environment,
}

module _ {E W : Type 0} (o : Options) (env : Environment E W) where
  abbrev pub at_world : State W → W → State W
  at_world s w = record s { world = w }

  -- A call that gives no value, and the event that it is.
  abbrev pub answered : Event E → State W → Answer Unit × W → Result E W
  answered event s a = ends (outcome_of a.0) (event ∷ []) (at_world s a.1)

  -- `if callback_data: data = callback_data else: data = node.render(...)`.
  abbrev pub data_for : (fuzzed : Bool) → E → Option (List ℕ) → W → Option (List ℕ)
  data_for fuzzed e none w = env.render fuzzed e w
  data_for fuzzed e (some []) w = env.render fuzzed e w
  data_for fuzzed e (some (b ∷ bs)) w = some (b ∷ bs)

  abbrev pub send_fault : (fuzzed : Bool) → Fault → Outcome
  send_fault false =
      sending_fault o.ignore_connection_reset o.ignore_connection_aborted
        o.ignore_connection_ssl_errors
  send_fault true =
      sending_fault o.ignore_connection_issues_when_sending_fuzz_data
        o.ignore_connection_issues_when_sending_fuzz_data o.ignore_connection_ssl_errors

  abbrev pub after_send : (fuzzed : Bool) → E → List ℕ → State W → Answer Unit × W → Result E W
  after_send fuzzed e bytes s (got u, w) =
      ends completed (sent fuzzed e bytes ∷ []) (record s { world = w; last_send = some bytes })
  after_send fuzzed e bytes s (fault f, w) =
      ends (send_fault fuzzed f) (sent fuzzed e bytes ∷ []) (at_world s w)

  abbrev pub after_recv : State W → Answer (List ℕ) × W → Result E W
  after_recv s (got r, w) =
      ends (check_received o r) (received ∷ []) (record s { world = w; last_recv = r })
  after_recv s (fault f, w) = ends (receiving_fault o f) (received ∷ []) (at_world s w)

  -- `self.last_recv = received` stands behind the exceptions that are ignored.
  abbrev pub ignored_recv : Outcome → State W → W → Result E W
  ignored_recv completed s w =
      ends completed (received ∷ []) (record s { world = w; last_recv = [] })
  ignored_recv outcome s w = ends outcome (received ∷ []) (at_world s w)

  abbrev pub after_fuzz_recv : State W → Answer (List ℕ) × W → Result E W
  after_fuzz_recv s (got r, w) =
      ends completed (received ∷ []) (record s { world = w; last_recv = r })
  after_fuzz_recv s (fault f, w) = ignored_recv (receiving_fault o f) s w

  -- The second half of `transmit_normal` and of `transmit_fuzz`.
  unfoldable pub receive : (fuzzed : Bool) → State W → Result E W
  receive false s =
      if o.receive_data_after_each_request
      then after_recv s (env.recv s.world)
      else ends completed [] s
  receive true s =
      if o.receive_data_after_fuzz
      then after_fuzz_recv s (env.recv s.world)
      else ends completed [] (record s { last_recv = [] })

  abbrev pub transmit_data : (fuzzed : Bool) → E → State W → Option (List ℕ) → Result E W
  transmit_data fuzzed e s none = ends escaped [] s
  transmit_data fuzzed e s (some bytes) =
      next (after_send fuzzed e bytes s (env.send bytes s.world)) (receive fuzzed)

  -- `transmit_normal`, and `transmit_fuzz`.
  unfoldable pub transmit : (fuzzed : Bool) → E → Option (List ℕ) → State W → Result E W
  transmit fuzzed e callback_data s =
      transmit_data fuzzed e s (data_for fuzzed e callback_data s.world)

  abbrev pub after_callback :
      (fuzzed : Bool) → E → State W → Answer (Option (List ℕ)) × W → Result E W
  after_callback fuzzed e s (got d, w) =
      after_events (called_back e ∷ []) (transmit fuzzed e d (at_world s w))
  after_callback fuzzed e s (fault boofuzz_failure, w) =
      ends failure (called_back e ∷ []) (at_world s w)
  after_callback fuzzed e s (fault f, w) = ends escaped (called_back e ∷ []) (at_world s w)

  -- `_callback_current_node` and the transmission of the edge's node.
  unfoldable pub visit : (fuzzed : Bool) → E → State W → Result E W
  visit fuzzed e s = after_callback fuzzed e s (env.callback e s.world)

  -- The loop over `message_path[:-1]`.
  unfoldable pub visit_all : List E → State W → Result E W
  visit_all [] s = ends completed [] s
  visit_all (e ∷ es) s = next (visit false e s) (visit_all es)

  abbrev pub check_step : State W → Result E W
  check_step s = answered checked s (env.check_monitors s.world)

  abbrev pub closed_unless : Bool → State W → Result E W
  closed_unless true s = ends completed [] s
  closed_unless false s = answered target_closed s (env.close_connection s.world)

  abbrev pub close_step : State W → Result E W
  close_step s = closed_unless o.reuse_target_connection s

  abbrev pub open_step : State W → Result E W
  open_step s = answered opened s (env.open_connection s.world)

  abbrev pub prepare_step : State W → Result E W
  prepare_step s = answered prepared s (env.pre_send s.world)

  -- The steps of the `try` block, from the last to the first: behind the fuzzed message, from it on,
  -- from the first message on, and behind the opening.
  abbrev pub from_check : State W → Result E W
  from_check s = next (check_step s) close_step

  abbrev pub from_last : E → State W → Result E W
  from_last last s = next (visit true last s) from_check

  abbrev pub from_first : List E → E → State W → Result E W
  from_first prep last s = next (visit_all prep s) (from_last last)

  abbrev pub from_prepare : List E → E → State W → Result E W
  from_prepare prep last s = next (prepare_step s) (from_first prep last)

  -- The `try` block, for the path `message_path[:-1]` and `message_path[-1]`.
  unfoldable pub case_body : List E → E → State W → Result E W
  case_body prep last s = next (open_step s) (from_prepare prep last)

  -- `except BoofuzzFailure`.
  abbrev pub handled : Outcome → Result E W → Result E W
  handled completed r = r
  handled escaped r = r
  handled failure r = after_events (r.events ++ failed ∷ []) (check_step r.state)

  -- The rest of the `finally` block, unless processing the failures raises an exception itself.
  abbrev pub closing : Outcome → Outcome → List (Event E) → State W → Result E W
  closing before completed events s =
      ends before (events ++ (processed ∷ case_closed ∷ exported ∷ [])) s
  closing before outcome events s = ends outcome (events ++ processed ∷ []) s

  abbrev pub finished : Result E W → Result E W
  finished r =
      let p = env.process_failures r.state.world in
      closing r.outcome (outcome_of p.0) r.events (at_world r.state p.1)

  -- `_fuzz_current_case`.
  unfoldable pub fuzz_current_case : List E → E → State W → Result E W
  fuzz_current_case prep last s =
      let body = case_body prep last s in finished (handled body.outcome body)
