-- ===== src/Session/Control/Attempts.antt =====
-- The attempts to open a connection end.
use boofuzz.Base.{ℕ, ◌<◌, ◌≤◌, Bool}
use boofuzz.Session.Control.{
  Attempt, Ending, opened, connection_failed, out_of_sockets, restart_failed, no_fuel, keep_trying,
}

-- The attempts ended, after at most `bound` restarts of the target.
abbrev pub EndsWithin : ℕ → Ending → Type 0
EndsWithin bound (opened restarts) = restarts ≤ bound
EndsWithin bound (connection_failed restarts) = restarts ≤ bound
EndsWithin bound (out_of_sockets restarts) = restarts ≤ bound
EndsWithin bound (restart_failed restarts) = restarts ≤ bound
EndsWithin bound no_fuel = ⊥

module _ (restart_threshold restart_timeout : ℕ) (attempt : ℕ → Attempt)
    (timed_out restarts_well : ℕ → Bool) (bounded : 0 < restart_threshold) where
  abbrev Tries : ℕ → ℕ → ℕ → ℕ → Type 0
  Tries fuel now no_sockets unable = EndsWithin restart_threshold (
      keep_trying restart_threshold restart_timeout attempt timed_out restarts_well fuel now
        no_sockets unable)
