-- ===== src/Session/Case.antt =====
-- One test case (boofuzz/sessions/session.py): what its steps give and what happens in them, with
-- the exceptions that `transmit_normal` and `transmit_fuzz` tell apart. The target's connection, the callbacks of
-- edges, the monitors and the rendering of messages are given; each of them may raise an exception.
pub mod Steps
pub mod Sends
pub mod Order
pub mod Closing
use boofuzz.Base.{ℕ, Bool, true, false, List, [], ◌∷◌, ◌++◌, Option, none, some, if◌then◌else◌}

-- The exceptions that the session tells apart, and any other one.
pub data Fault : Type 0 where
  connection_reset connection_aborted ssl_error boofuzz_failure other : Fault

-- What a call gives: a value or an exception.
pub data Answer (A : Type 0) : Type 0 where
  got : A → Answer A
  fault : Fault → Answer A

pub record Options : Type 0 where
  pub ignore_connection_reset : Bool
  pub ignore_connection_aborted : Bool
  pub ignore_connection_ssl_errors : Bool
  pub ignore_connection_issues_when_sending_fuzz_data : Bool
  pub receive_data_after_each_request : Bool
  pub check_data_received_each_request : Bool
  pub receive_data_after_fuzz : Bool
  pub reuse_target_connection : Bool

-- How steps end: normally, by a BoofuzzFailure, or by any other exception.
pub data Outcome : Type 0 where
  completed failure escaped : Outcome

-- `if ignored: log_info(...) else: raise BoofuzzFailure(...)`.
abbrev pub unless_ignored : Bool → Outcome
unless_ignored ignored = if ignored then completed else failure

abbrev pub outcome_of : {A : Type 0} → Answer A → Outcome
outcome_of (got a) = completed
outcome_of (fault boofuzz_failure) = failure
outcome_of (fault f) = escaped

-- The exceptions of sending, for the flags that ignore a reset and an abort.
unfoldable pub sending_fault : (reset aborted ssl : Bool) → Fault → Outcome
sending_fault reset aborted ssl connection_reset = unless_ignored reset
sending_fault reset aborted ssl connection_aborted = unless_ignored aborted
sending_fault reset aborted ssl ssl_error = unless_ignored ssl
sending_fault reset aborted ssl boofuzz_failure = failure
sending_fault reset aborted ssl other = escaped

-- The exceptions of receiving.
unfoldable pub receiving_fault : Options → Fault → Outcome
receiving_fault o connection_reset =
    if o.check_data_received_each_request then failure else completed
receiving_fault o connection_aborted =
    if o.check_data_received_each_request then failure else completed
receiving_fault o ssl_error = unless_ignored o.ignore_connection_ssl_errors
receiving_fault o boofuzz_failure = failure
receiving_fault o other = escaped

-- `log_check`, and a failure if nothing was received.
abbrev pub check_received : Options → List ℕ → Outcome
check_received o [] = if o.check_data_received_each_request then failure else completed
check_received o (b ∷ bs) = completed

-- What happens, in order; `E` stands for an edge of the path with the node it leads to.
pub data Event (E : Type 0) : Type 0 where
  opened prepared received checked target_closed failed processed case_closed exported : Event E
  called_back : E → Event E
  sent : (fuzzed : Bool) → E → List ℕ → Event E

-- The state that the steps share: the world outside, `last_send` and `last_recv`.
pub record State (W : Type 0) : Type 0 where
  pub world : W
  pub last_send : Option (List ℕ)
  pub last_recv : List ℕ

-- What steps give: how they end, what has happened, and the state after them.
pub record Result (E W : Type 0) : Type 0 where
  pub outcome : Outcome
  pub events : List (Event E)
  pub state : State W

module _ {E W : Type 0} where
  abbrev pub ends : Outcome → List (Event E) → State W → Result E W
  ends outcome events state = record { outcome = outcome; events = events; state = state }

  abbrev pub after_events : List (Event E) → Result E W → Result E W
  after_events events r = ends r.outcome (events ++ r.events) r.state

  abbrev pub continued : Outcome → Result E W → (State W → Result E W) → Result E W
  continued completed r q = after_events r.events (q r.state)
  continued failure r q = r
  continued escaped r q = r

  -- Steps after a normal end.
  abbrev pub next : Result E W → (State W → Result E W) → Result E W
  next r q = continued r.outcome r q

-- What the session talks to: the connection, the callback of an edge, the rendering of a message
-- (`none` is an exception), opening the connection with its attempts, `_pre_send`, the monitors'
-- check, closing the connection, and `_process_failures`.
pub record Environment (E W : Type 0) : Type 0 where
  pub send : List ℕ → W → Answer Unit × W
  pub recv : W → Answer (List ℕ) × W
  pub callback : E → W → Answer (Option (List ℕ)) × W
  pub render : (fuzzed : Bool) → E → W → Option (List ℕ)
  pub open_connection : W → Answer Unit × W
  pub pre_send : W → Answer Unit × W
  pub check_monitors : W → Answer Unit × W
  pub close_connection : W → Answer Unit × W
  pub process_failures : W → Answer Unit × W
