-- ===== src/Session/Monitors.antt =====
-- The session's calls of its monitors (boofuzz/sessions/session.py): `_pre_send`,
-- `_check_for_passively_detected_failures`, `_get_monitor_data` and `_restart_target`. The monitors of
-- a target are given; each method may log, change the world and raise an exception.
pub mod Callbacks
pub mod Detected
pub mod Restarts
use boofuzz.Base.{
  ℕ, zero, suc, ◌+◌, Bool, true, false, not, ◌&&◌, ◌||◌, List, [], ◌∷◌, ◌++◌, Option, none, some,
  map, if◌then◌else◌, ltb, length,
}
use boofuzz.Base.Int.{pos}
use boofuzz.Base.Dict.{lookup, insert}
use boofuzz.Base.Text.{Text, codes}
use boofuzz.Primitives.BitField.{format_d}
use boofuzz.Loggers.{Call, open_test_step, log_error, log_info, log_fail, log_pass}

-- The exceptions that the callers tell apart; `exiting` is one that is not an Exception of Python,
-- as SystemExit and KeyboardInterrupt are not.
pub data Failure : Type 0 where
  connection_reset connection_aborted connection_failed ssl_error : Failure
  restart_failed other exiting : Failure

pub data Ended (A : Type 0) : Type 0 where
  done : A → Ended A
  raised : Failure → Ended A

-- The world with what was logged, and the session's `monitor_data`.
pub record Scene (W : Type 0) : Type 0 where
  pub world : W
  pub entries : List Call
  pub monitor_data : List (ℕ × List (List ℕ))

abbrev pub M : Type 0 → Type 0 → Type 0
M W A = Scene W → Ended A × Scene W

module _ {W A B : Type 0} where
  -- What follows a step, unless it raised an exception.
  abbrev pub after : (A → M W B) → Ended A × Scene W → Ended B × Scene W
  after f (done a, s) = f a s
  after f (raised e, s) = (raised e, s)

  infixl 5 ◌>>=◌
  abbrev pub ◌>>=◌ : M W A → (A → M W B) → M W B
  ◌>>=◌ m f s = after f (m s)

  -- `m >> k` is `m >>= λ _. k`.
  infixl 5 ◌>>◌
  abbrev pub ◌>>◌ : M W A → M W B → M W B
  m >> k = m >>= λ _. k

module _ {W A : Type 0} where
  abbrev pub return : A → M W A
  return a s = (done a, s)

  abbrev pub raise : Failure → M W A
  raise e s = (raised e, s)

  abbrev pub recovered : (Failure → M W A) → Ended A × Scene W → Ended A × Scene W
  recovered handler (done a, s) = (done a, s)
  recovered handler (raised e, s) = handler e s

  -- `except Exception: handler`, which lets an exit through.
  abbrev pub unless_exiting : (Failure → M W A) → Failure → M W A
  unless_exiting handler exiting = raise exiting
  unless_exiting handler e = handler e

  -- `try: m except ...: handler`.
  abbrev pub catch : M W A → (Failure → M W A) → M W A
  catch m handler s = recovered handler (m s)

  abbrev pub finally_of : Ended A → Ended (Unit {0}) × Scene W → Ended A × Scene W
  finally_of a (done _, s) = (a, s)
  finally_of a (raised e, s) = (raised e, s)

  -- `try: m finally: cleanup`; an exception of the clean-up takes the place of the result.
  abbrev pub finally : M W A → M W (Unit {0}) → M W A
  finally m cleanup s = let (a, s') = m s in finally_of a (cleanup s')

module _ {W : Type 0} where
  abbrev pub log_call : Call → M W (Unit {0})
  log_call c s = (done tt, record s { entries = s.entries ++ c ∷ [] })

-- The methods of a monitor that the session calls.
pub record Monitor (W : Type 0) : Type 0 where
  pub name : Text
  pub pre_send : M W (Unit {0})
  pub post_send : M W Bool
  pub get_crash_synopsis : M W Text
  pub retrieve_data : M W (Option (List ℕ))
  pub restart_target : M W Bool
  pub post_start_target : M W (Unit {0})

-- ERR_CALLBACK_FUNC, and the traceback that `format_exc` gives.
abbrev pub callback_error : (Failure → Text) → Text → Failure → Text
callback_error traceback func_name e =
    codes "A custom "
    ++ (func_name ++ (codes " callback function raised an uncought error.\n" ++ traceback e))

module _ {W : Type 0} (traceback : Failure → Text) where
  -- `_pre_send`.
  unfoldable pub pre_send_all : List (Monitor W) → M W (Unit {0})
  pre_send_all [] = return tt
  pre_send_all (m ∷ ms) =
      log_call (open_test_step (codes "Monitor " ++ (m.name ++ codes ".pre_send()")))
      >> (catch m.pre_send (
            unless_exiting (λ e.
              log_call (log_error (callback_error traceback (m.name ++ codes ".pre_send()") e))))
          >> pre_send_all ms)

abbrev pub data_at : Option (List (List ℕ)) → List (List ℕ)
data_at none = []
data_at (some l) = l

module _ (total_mutant_index : ℕ) where
  abbrev pub crash_text : Text → Text → Text
  crash_text name synopsis =
      name
      ++ (codes " detected crash on test case #"
          ++ (format_d (pos total_mutant_index) ++ (codes ": " ++ synopsis)))

  abbrev pub more_text : Text → Text → Text
  more_text name synopsis =
      name
      ++ (codes " provided additional information for crash on #"
          ++ (format_d (pos total_mutant_index) ++ (codes ": " ++ synopsis)))

module _ {W : Type 0} (total_mutant_index : ℕ) where
  -- The first loop: the monitors that report a failure, and those that do not.
  unfoldable pub ask_monitors : List (Monitor W) → M W (Bool × List (Monitor W))
  ask_monitors [] = return (false, [])
  ask_monitors (m ∷ ms) = m.post_send >>= λ fine.
      if fine
      then (ask_monitors ms >>= λ r. return (r.0, m ∷ r.1))
      else (m.get_crash_synopsis >>= λ synopsis.
          (log_call (log_fail (crash_text total_mutant_index m.name synopsis))
            >> (ask_monitors ms >>= λ r. return (true, r.1))))

  -- The second loop, over the other monitors.
  unfoldable pub ask_others : List (Monitor W) → M W (Unit {0})
  ask_others [] = return tt
  ask_others (m ∷ ms) = m.get_crash_synopsis >>= λ synopsis.
      ((if ltb 0 (length synopsis)
          then (m.get_crash_synopsis >>= λ again.
              log_call (log_fail (more_text total_mutant_index m.name again)))
          else return tt)
        >> ask_others ms)

  -- `_check_for_passively_detected_failures`, where a set of monitors is visited in the order given.
  unfoldable pub check_for_passively_detected_failures :
      (List (Monitor W) → List (Monitor W)) → List (Monitor W) → Bool → M W Bool
  check_for_passively_detected_failures order [] failure_already_detected = return false
  check_for_passively_detected_failures order (m ∷ ms) failure_already_detected =
      log_call (open_test_step (codes "Contact target monitors"))
      >> (ask_monitors (m ∷ ms) >>= λ r.
          ((if not r.0 && not failure_already_detected
              then log_call (log_pass (codes "No crash detected."))
              else ask_others (order r.1))
            >> return r.0))

  -- `monitor_data[total_mutant_index] += [data]`, which starts with an empty list.
  abbrev pub keep_data : List ℕ → M W (Unit {0})
  keep_data bytes s = (
    done tt,
    record s {
      monitor_data =
          insert total_mutant_index
            (data_at (lookup total_mutant_index s.monitor_data) ++ bytes ∷ []) s.monitor_data;
    },
  )

  abbrev pub keep_retrieved : Text → Option (List ℕ) → M W (Unit {0})
  keep_retrieved name none = return tt
  keep_retrieved name (some []) = return tt
  keep_retrieved name (some (b ∷ bs)) =
      log_call (
        log_info (
          name
          ++ (codes " captured "
              ++ (format_d (pos (length (b ∷ bs)))
                  ++ (codes " bytes of additional data for test case #"
                      ++ format_d (pos total_mutant_index))))))
      >> keep_data (b ∷ bs)

  -- `_get_monitor_data`.
  unfoldable pub get_monitor_data : List (Monitor W) → M W (Unit {0})
  get_monitor_data [] = return tt
  get_monitor_data (m ∷ ms) =
      m.retrieve_data >>= λ r. (keep_retrieved m.name r >> get_monitor_data ms)
