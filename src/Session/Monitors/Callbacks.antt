-- ===== src/Session/Monitors/Callbacks.antt =====
-- boofuzz/monitors/callback_monitor.py: the callbacks of a session as a monitor.
use boofuzz.Base.{
  ◌⊎◌, inl, inr, Bool, true, false, ◌≡◌, refl, List, [], ◌∷◌, ◌++◌, none, if◌then◌else◌,
}
use boofuzz.Base.Text.{Text, codes}
use boofuzz.Loggers.{open_test_step, log_error, log_info, log_fail}
use boofuzz.Session.Monitors.{
  Failure, connection_reset, connection_aborted, connection_failed, ssl_error, restart_failed,
  other, exiting, Ended, done, raised, Scene, M, after, ◌>>◌, return, raise, unless_exiting,
  recovered, catch, finally_of, finally, log_call, Monitor, callback_error,
}

-- A callback, with its `__name__`.
abbrev pub Callback : Type 0 → Type 0
Callback W = Text × M W (Unit {0})

-- The attributes, and what the methods use of the session and the target.
pub record CallbackMonitor (W : Type 0) : Type 0 where
  pub name : Text
  pub on_pre_send : List (Callback W)
  pub on_post_send : List (Callback W)
  pub on_restart_target : List (Callback W)
  pub on_post_start_target : List (Callback W)
  pub ignore_connection_ssl_errors : Bool
  pub reuse_target_connection : Bool
  pub close_target : M W (Unit {0})
  pub open_target : M W (Unit {0})

-- An exception that is no Exception of Python.
abbrev pub IsExit : Failure → Type 0
IsExit e = e ≡ exiting

-- What a step may raise.
abbrev pub RaisesOnly : {A : Type 0} → (Failure → Type 0) → Ended A → Type 0
RaisesOnly allowed (done a) = Unit
RaisesOnly allowed (raised e) = allowed e

abbrev pub Never : Failure → Type 0
Never e = ⊥

abbrev pub IsRestartOrExit : Failure → Type 0
IsRestartOrExit e = (e ≡ restart_failed) ⊎ (e ≡ exiting)

-- A result that is true, or an exit.
abbrev pub IsTrueOrExit : Ended Bool → Type 0
IsTrueOrExit (done b) = b ≡ true
IsTrueOrExit (raised e) = IsExit e

module _ {W : Type 0} (traceback message : Failure → Text) where
  -- The loop that each method begins with.
  unfoldable pub call_each : (title : Text) → List (Callback W) → M W (Unit {0})
  call_each title [] = return tt
  call_each title (f ∷ fs) =
      log_call (open_test_step (title ++ (codes " callback: \"" ++ (f.0 ++ codes "\""))))
      >> (f.1 >> call_each title fs)

  -- `except Exception: log_error(...)`.
  abbrev pub log_uncaught : Text → Failure → M W (Unit {0})
  log_uncaught func_name =
      unless_exiting (λ e. log_call (log_error (callback_error traceback func_name e)))

  unfoldable pub callback_pre_send : CallbackMonitor W → M W (Unit {0})
  callback_pre_send c =
      catch (call_each (codes "Pre_Send") c.on_pre_send) (log_uncaught (codes "pre_send"))

  -- The `except` clauses of `post_send`.
  abbrev pub log_post_send : Bool → Failure → M W (Unit {0})
  log_post_send ignored connection_reset = log_call (log_fail (message connection_reset))
  log_post_send ignored connection_aborted = log_call (log_info (message connection_aborted))
  log_post_send ignored connection_failed = log_call (log_fail (message connection_failed))
  log_post_send ignored ssl_error =
      if ignored
      then log_call (log_info (message ssl_error))
      else log_call (log_fail (message ssl_error))
  log_post_send ignored e = log_uncaught (codes "post_send") e

  abbrev pub cleaning_up : M W (Unit {0})
  cleaning_up = log_call (open_test_step (codes "Cleaning up connections from callbacks"))

  unfoldable pub callback_post_send : CallbackMonitor W → M W Bool
  callback_post_send c =
      finally
        (catch (call_each (codes "Post-test case") c.on_post_send)
          (log_post_send c.ignore_connection_ssl_errors))
        cleaning_up
      >> return true

  -- The `finally` clause of `restart_target`.
  abbrev pub reconnect : CallbackMonitor W → M W (Unit {0})
  reconnect c =
      cleaning_up
      >> (c.close_target
          >> (if c.reuse_target_connection
              then log_call (open_test_step (codes "Reopening target connection")) >> c.open_target
              else return tt))

  abbrev pub log_restart : Failure → M W (Unit {0})
  log_restart restart_failed = raise restart_failed
  log_restart e = log_uncaught (codes "restart_target") e

  abbrev pub has_callbacks : List (Callback W) → Bool
  has_callbacks [] = false
  has_callbacks (f ∷ fs) = true

  unfoldable pub callback_restart_target : CallbackMonitor W → M W Bool
  callback_restart_target c =
      finally (catch (call_each (codes "Target restart") c.on_restart_target) log_restart)
        (reconnect c)
      >> return (has_callbacks c.on_restart_target)

  unfoldable pub callback_post_start_target : CallbackMonitor W → M W (Unit {0})
  callback_post_start_target c =
      catch (call_each (codes "Post-start-target") c.on_post_start_target)
        (log_uncaught (codes "post_start_target"))

  -- The monitor; get_crash_synopsis and retrieve_data are those of BaseMonitor.
  unfoldable pub callback_monitor : CallbackMonitor W → Monitor W
  callback_monitor c = record {
    name = c.name;
    pre_send = callback_pre_send c;
    post_send = callback_post_send c;
    get_crash_synopsis = return [];
    retrieve_data = return none;
    restart_target = callback_restart_target c;
    post_start_target = callback_post_start_target c;
  }

  caught :
      (m : M W (Unit {0})) (func_name : Text) (s : Scene W)
      → RaisesOnly IsExit (catch m (log_uncaught func_name) s).0
  caught m func_name s = go (m s)
    where
      go :
          (x : Ended (Unit {0}) × Scene W)
          → RaisesOnly IsExit (recovered (log_uncaught func_name) x).0
      go (done a, s') = tt
      go (raised exiting, s') = refl
      go (raised connection_reset, s') = tt
      go (raised connection_aborted, s') = tt
      go (raised connection_failed, s') = tt
      go (raised ssl_error, s') = tt
      go (raised restart_failed, s') = tt
      go (raised other, s') = tt

  post_send_lem :
      (ignored : Bool) (x : Ended (Unit {0}) × Scene W)
      → IsTrueOrExit
          (after
            (λ _. return true)
            (let (a, s) = recovered (log_post_send ignored) x in finally_of a (cleaning_up s))).0
  post_send_lem ignored (done a, s) = refl
  post_send_lem true (raised ssl_error, s) = refl
  post_send_lem false (raised ssl_error, s) = refl
  post_send_lem ignored (raised connection_reset, s) = refl
  post_send_lem ignored (raised connection_aborted, s) = refl
  post_send_lem ignored (raised connection_failed, s) = refl
  post_send_lem ignored (raised restart_failed, s) = refl
  post_send_lem ignored (raised other, s) = refl
  post_send_lem ignored (raised exiting, s) = refl

  reconnect_lem :
      (c : CallbackMonitor W)
      → ((s : Scene W) → RaisesOnly Never (c.close_target s).0)
      → ((s : Scene W) → RaisesOnly Never (c.open_target s).0)
      → (s : Scene W) → RaisesOnly Never (reconnect c s).0
  reconnect_lem c closes opens s = closed (c.close_target swept) (closes swept)
    where
      swept : Scene W
      swept = (cleaning_up s).1

      reopened :
          (b : Bool) (s' : Scene W)
          → RaisesOnly Never
              ((if b
                  then log_call (open_test_step (codes "Reopening target connection"))
                    >> c.open_target
                  else return tt)
                s').0
      reopened true s' =
          opens ((log_call (open_test_step (codes "Reopening target connection")) s').1)
      reopened false s' = tt

      closed :
          (x : Ended (Unit {0}) × Scene W)
          → RaisesOnly Never x.0
          → RaisesOnly Never
              (after
                (λ _.
                  if c.reuse_target_connection
                  then log_call (open_test_step (codes "Reopening target connection"))
                    >> c.open_target
                  else return tt)
                x).0
      closed (done a, s') h = reopened c.reuse_target_connection s'
      closed (raised e, s') h = absurd h

  after_cleanup :
      (b : Bool) (a : Ended (Unit {0})) (y : Ended (Unit {0}) × Scene W)
      → RaisesOnly IsRestartOrExit a
      → RaisesOnly Never y.0
      → RaisesOnly IsRestartOrExit (after (λ _. return b) (finally_of a y)).0
  after_cleanup b (done u) (done v, s) h quiet = tt
  after_cleanup b (raised e) (done v, s) h quiet = h
  after_cleanup b a (raised e, s) h quiet = absurd quiet

  recovered_restart :
      (x : Ended (Unit {0}) × Scene W) → RaisesOnly IsRestartOrExit (recovered log_restart x).0
  recovered_restart (done u, s) = tt
  recovered_restart (raised restart_failed, s) = inl refl
  recovered_restart (raised exiting, s) = inr refl
  recovered_restart (raised connection_reset, s) = tt
  recovered_restart (raised connection_aborted, s) = tt
  recovered_restart (raised connection_failed, s) = tt
  recovered_restart (raised ssl_error, s) = tt
  recovered_restart (raised other, s) = tt

  restart_lem :
      (c : CallbackMonitor W) (b : Bool) (x : Ended (Unit {0}) × Scene W)
      → ((s : Scene W) → RaisesOnly Never (reconnect c s).0)
      → RaisesOnly IsRestartOrExit
          (after
            (λ _. return b)
            (let (a, s) = recovered log_restart x in finally_of a (reconnect c s))).0
  restart_lem c b x quiet =
      let (a, s) = recovered log_restart x in
      after_cleanup b a (reconnect c s) (recovered_restart x) (quiet s)

  -- Whatever the callbacks do, no exception leaves the methods of the callback monitor but an exit
  -- (an exception that is no Exception of Python) and, from `restart_target`,
  -- BoofuzzRestartFailedError, given that closing and opening the target raise none; and where
  -- `post_send` returns, it reports no crash.
  pub callback_monitor-RaisesOnly :
      (c : CallbackMonitor W) (s : Scene W)
      → ((s' : Scene W) → RaisesOnly Never (c.close_target s').0)
      → ((s' : Scene W) → RaisesOnly Never (c.open_target s').0)
      → RaisesOnly IsExit ((callback_monitor c).pre_send s).0
        × RaisesOnly IsExit ((callback_monitor c).post_start_target s).0
        × IsTrueOrExit ((callback_monitor c).post_send s).0
        × RaisesOnly IsRestartOrExit ((callback_monitor c).restart_target s).0
  unfolding callback_monitor callback_pre_send callback_post_send callback_restart_target
      callback_post_start_target
  callback_monitor-RaisesOnly c s closes opens = (
    caught (call_each (codes "Pre_Send") c.on_pre_send) (codes "pre_send") s,
    caught (call_each (codes "Post-start-target") c.on_post_start_target)
        (codes "post_start_target") s,
    post_send_lem c.ignore_connection_ssl_errors
        (call_each (codes "Post-test case") c.on_post_send s),
    restart_lem c (has_callbacks c.on_restart_target)
        (call_each (codes "Target restart") c.on_restart_target s) (reconnect_lem c closes opens),
  )
