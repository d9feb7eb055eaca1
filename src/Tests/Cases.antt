-- ===== src/Tests/Cases.antt =====
-- Test cases at concrete inputs: a path of two messages, and a connection that is reset at the second.
use boofuzz.Base.{
  ℕ, ◌+◌, ◌≡◌, refl, List, [], ◌∷◌, ◌++◌, none, some, true, false, ◌==◌, if◌then◌else◌,
}
use boofuzz.Session.Case.{
  Answer, got, fault, connection_reset, Options, completed, State, Environment, sending_fault,
}
use boofuzz.Session.Case.Steps.{case_body, fuzz_current_case, visit_all, visit, transmit, receive}
use boofuzz.Session.Case.Sends.{IsPrefix, sends, unfuzzed}
use boofuzz.Session.Case.Order.{fuzz_current_case-IsPrefix}
use boofuzz.Session.Case.Closing.{IsClosed, fuzz_current_case-IsClosed}
use boofuzz.Session.Target.{CountRepeater}
use boofuzz.Base.{Bool, map, subst, sym, All, not, ◌&&◌, ◌∙◌, ap, ==_self}
use boofuzz.Base.Text.{Text, codes, Lacks}
use boofuzz.Primitives.BitField.{decimal_digits, format_d}
use boofuzz.Helpers.CaseName.{parse_test_case_name}
use boofuzz.Session.CaseName.{
  mutation_name, test_case_name, IsMutationName, IsNodeName, parse_test_case_name-test_case_name,
}

abbrev options : Options
options = record {
  ignore_connection_reset = false;
  ignore_connection_aborted = false;
  ignore_connection_ssl_errors = false;
  ignore_connection_issues_when_sending_fuzz_data = false;
  receive_data_after_each_request = true;
  check_data_received_each_request = false;
  receive_data_after_fuzz = true;
  reuse_target_connection = false;
}

-- The world counts the messages; the second one meets a reset.
abbrev counted_send : List ℕ → ℕ → Answer Unit × ℕ
counted_send bytes n = (if n == 1 then fault connection_reset else got tt, n + 1)

abbrev world : Environment ℕ ℕ
world = record {
  send = counted_send;
  recv = λ n. (got [], n);
  callback = λ e n. (got none, n);
  render = λ fuzzed e n. some (e ∷ []);
  open_connection = λ n. (got tt, n);
  pre_send = λ n. (got tt, n);
  check_monitors = λ n. (got tt, n);
  close_connection = λ n. (got tt, n);
  process_failures = λ n. (got tt, n);
}

abbrev begin : State ℕ
begin = record { world = 0; last_send = none; last_recv = [] }

in_order_example :
    IsPrefix
      (sends (fuzz_current_case options world (7 ∷ []) 8 begin).events)
      (unfuzzed (7 ∷ []) ++ (true, 8) ∷ [])
    × ((case_body options world (7 ∷ []) 8 begin).outcome ≡ completed
        → sends (fuzz_current_case options world (7 ∷ []) 8 begin).events
          ≡ unfuzzed (7 ∷ []) ++ (true, 8) ∷ [])
in_order_example = fuzz_current_case-IsPrefix options world (7 ∷ []) 8 begin

handled_reset : (fuzz_current_case options world (7 ∷ []) 8 begin).outcome ≡ completed
unfolding fuzz_current_case case_body visit_all visit transmit receive sending_fault
handled_reset = refl

IsClosed-example : IsClosed options world (fuzz_current_case options world (7 ∷ []) 8 begin).events
IsClosed-example = fuzz_current_case-IsClosed options world (7 ∷ []) 8 begin handled_reset

abbrev three : CountRepeater
three = record { count = 3; reps = 0 }

abbrev steady : ℕ → Answer ℕ × ℕ
steady n = (got 5, n + 1)

abbrev user_mutation : Text × ℕ
user_mutation = (codes "login.user", 2)

named_by_index : mutation_name user_mutation ≡ codes "login.user:2"
unfolding format_d decimal_digits
named_by_index = refl

abbrev lacks : ℕ → Text → Bool
lacks separator [] = true
lacks separator (c ∷ cs) = not (c == separator) && lacks separator cs

lacks-Lacks : (separator : ℕ) (t : Text) → lacks separator t ≡ true → Lacks separator t
lacks-Lacks separator [] h = tt
lacks-Lacks separator (c ∷ cs) h = decide (c == separator) refl h (lacks-Lacks separator cs)
  where
    decide :
        (b : Bool)
        → (c == separator) ≡ b
        → (not b && lacks separator cs) ≡ true
        → (lacks separator cs ≡ true → Lacks separator cs)
        → Lacks separator (c ∷ cs)
    decide true e k ih = absurd cc
    decide false e k ih = (
      λ same. absurd (cc (sym (==_self separator) ∙ (ap (λ d. d == separator) (sym same) ∙ e))),
      ih k,
    )

user-IsMutationName : IsMutationName (codes "login.user:2")
user-IsMutationName =
    (refl, lacks-Lacks b',' (codes "login.user:2") refl, lacks-Lacks 10 (codes "login.user:2") refl)

nodes-IsNodeName : All IsNodeName (codes "hello" ∷ codes "login" ∷ [])
nodes-IsNodeName = (
  (lacks-Lacks b':' (codes "hello") refl, lacks-Lacks b'>' (codes "hello") refl),
  ((lacks-Lacks b':' (codes "login") refl, lacks-Lacks b'>' (codes "login") refl), tt),
)

case_name_example :
    parse_test_case_name (test_case_name (codes "hello" ∷ codes "login" ∷ []) (user_mutation ∷ []))
    ≡ some (codes "hello" ∷ codes "login" ∷ [], map mutation_name (user_mutation ∷ []))
case_name_example =
    parse_test_case_name-test_case_name (codes "hello") (codes "login" ∷ []) user_mutation []
      nodes-IsNodeName (subst (λ t. IsMutationName t) (sym named_by_index) user-IsMutationName, tt)
