-- ===== src/Tests/Monitors.antt =====
-- Monitors at concrete inputs: the world counts the calls of callbacks and of restarts.
use boofuzz.Base.{ℕ, ◌+◌, true, false, [], ◌∷◌, none, sym, append-nil}
use boofuzz.Base.Text.{Text, codes}
use boofuzz.Session.Monitors.{
  Failure, other, connection_reset, done, Scene, M, ◌>>◌, return, raise, Monitor,
  check_for_passively_detected_failures,
}
use boofuzz.Session.Monitors.Callbacks.{
  CallbackMonitor, callback_monitor, RaisesOnly, IsExit, IsRestartOrExit, IsTrueOrExit,
  callback_monitor-RaisesOnly,
}
use boofuzz.Session.Monitors.Detected.{
  Ensures, IsReported, check_for_passively_detected_failures-IsReported,
}

abbrev calm : Scene ℕ
calm = record { world = 0; entries = []; monitor_data = [] }

abbrev tick : M ℕ (Unit {0})
tick s = (done tt, record s { world = s.world + 1 })

-- Its callback after a test case meets a reset, the one before a test case another exception.
abbrev failing_callbacks : CallbackMonitor ℕ
failing_callbacks = record {
  name = codes "callbacks";
  on_pre_send = (codes "warm_up", raise other) ∷ [];
  on_post_send = (codes "log_out", raise connection_reset) ∷ [];
  on_restart_target = (codes "reboot", tick) ∷ [];
  on_post_start_target = [];
  ignore_connection_ssl_errors = false;
  reuse_target_connection = true;
  close_target = tick;
  open_target = tick;
}

abbrev no_text : Failure → Text
no_text e = []

callback_monitor-RaisesOnly_example :
    RaisesOnly IsExit ((callback_monitor no_text no_text failing_callbacks).pre_send calm).0
    × RaisesOnly IsExit
        ((callback_monitor no_text no_text failing_callbacks).post_start_target calm).0
    × IsTrueOrExit ((callback_monitor no_text no_text failing_callbacks).post_send calm).0
    × RaisesOnly IsRestartOrExit
        ((callback_monitor no_text no_text failing_callbacks).restart_target calm).0
callback_monitor-RaisesOnly_example =
    callback_monitor-RaisesOnly no_text no_text failing_callbacks calm (λ s'. tt) (λ s'. tt)

-- A monitor that sees a crash, and that restarts the target.
abbrev watcher : Monitor ℕ
watcher = record {
  name = codes "watcher";
  pre_send = return tt;
  post_send = return false;
  get_crash_synopsis = return (codes "SIGSEGV");
  retrieve_data = return none;
  restart_target = tick >> return true;
  post_start_target = tick;
}

IsReported-example :
    Ensures
      (IsReported 7 false calm)
      (check_for_passively_detected_failures 7 (λ l. l) (watcher ∷ []) false calm)
IsReported-example =
    check_for_passively_detected_failures-IsReported 7 (λ l. l) watcher []
      (((λ s. ([], sym (append-nil s.entries))), (λ s. ([], sym (append-nil s.entries)))), tt)
      (λ l h. h) false calm
