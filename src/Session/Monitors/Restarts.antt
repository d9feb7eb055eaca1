-- ===== src/Session/Monitors/Restarts.antt =====
-- `_restart_target` (boofuzz/sessions/session.py).
use boofuzz.Base.{
  Bool, true, false, ◌≡◌, ◌≢◌, refl, List, [], ◌∷◌, ◌++◌, Option, none, some, if◌then◌else◌,
}
use boofuzz.Base.Text.{Text, codes}
use boofuzz.Loggers.{open_test_step, log_info}
use boofuzz.Session.Monitors.{
  Ended, done, raised, Scene, M, after, ◌>>=◌, ◌>>◌, return, log_call, Monitor,
}

-- What a restart works with beside the monitors: the hooks of `on_failure`, the control of a virtual
-- machine, the pauses, and `target.monitors_alive`.
pub record Restarting (W : Type 0) : Type 0 where
  pub on_failure : List (M W (Unit {0}))
  pub vmcontrol : Option (M W (Unit {0}))
  pub settle : M W (Unit {0})
  pub sleep : M W (Unit {0})
  pub restart_sleep_time : Text
  pub monitors_alive : M W (Unit {0})

module _ {W : Type 0} (r : Restarting W) where
  -- The monitors are asked until one restarts the target.
  unfoldable pub try_monitors : List (Monitor W) → M W Bool
  try_monitors [] = return false
  try_monitors (m ∷ ms) =
      log_call (log_info (codes "Restarting target process using " ++ m.name))
      >> (m.restart_target >>= λ restarted.
          if restarted
          then log_call (log_info (codes "Giving the process 3 seconds to settle in"))
            >> (r.settle >> return true)
          else try_monitors ms)

  unfoldable pub call_hooks : List (M W (Unit {0})) → M W (Unit {0})
  call_hooks [] = return tt
  call_hooks (f ∷ fs) =
      log_call (open_test_step (codes "Calling registered on_failure method"))
      >> (f >> call_hooks fs)

  unfoldable pub started_all : List (Monitor W) → M W (Unit {0})
  started_all [] = return tt
  started_all (m ∷ ms) = m.post_start_target >> started_all ms

  -- Hooks come first, then the virtual machine, then the monitors.
  unfoldable pub restart_by :
      List (M W (Unit {0})) → Option (M W (Unit {0})) → List (Monitor W) → M W Bool
  restart_by (f ∷ fs) vm ms = call_hooks (f ∷ fs) >> return true
  restart_by [] (some vm) ms =
      log_call (log_info (codes "Restarting target virtual machine")) >> (vm >> return true)
  restart_by [] none ms = try_monitors ms

  -- `_restart_target`.
  unfoldable pub restart_target : List (Monitor W) → M W (Unit {0})
  restart_target ms =
      log_call (open_test_step (codes "Restarting target"))
      >> (restart_by r.on_failure r.vmcontrol ms >>= λ restarted.
          ((if restarted
              then started_all ms
              else log_call (
                  log_info (
                    codes "No reset handler available... sleeping for "
                    ++ (r.restart_sleep_time ++ codes " seconds")))
                >> r.sleep)
            >> r.monitors_alive))

  -- A monitor that restarts the target, or fails to, is the last one that is asked: those after it
  -- change nothing, as long as not all of those before decline.
  pub try_monitors-append :
      (ms others : List (Monitor W)) (s : Scene W)
      → (try_monitors ms s).0 ≢ done false
      → try_monitors (ms ++ others) s ≡ try_monitors ms s
  unfolding try_monitors
  try_monitors-append [] others s h = absurd (h refl)
  try_monitors-append (m ∷ ms) others s h =
      go (m.restart_target asked) h (try_monitors-append ms others)
    where
      asked : Scene W
      asked = record s {
        entries = s.entries ++ log_info (codes "Restarting target process using " ++ m.name) ∷ [];
      }

      answered : List (Monitor W) → Bool → M W Bool
      answered rest restarted =
          if restarted
          then log_call (log_info (codes "Giving the process 3 seconds to settle in"))
            >> (r.settle >> return true)
          else try_monitors rest

      go :
          (x : Ended Bool × Scene W)
          → (after (answered ms) x).0 ≢ done false
          → ((s' : Scene W)
              → (try_monitors ms s').0 ≢ done false
              → try_monitors (ms ++ others) s' ≡ try_monitors ms s')
          → after (answered (ms ++ others)) x ≡ after (answered ms) x
      go (done true, s') h ih = refl
      go (done false, s') h ih = ih s' h
      go (raised e, s') h ih = refl
