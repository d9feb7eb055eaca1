-- ===== src/Session/Control.antt =====
-- The decisions of a session (boofuzz/sessions/session.py): `_process_failures`,
-- `_open_connection_keep_trying` and `_main_fuzz_loop`. What the target, the monitors and the clock
-- do is given by arguments.
pub mod Failures
pub mod Attempts
pub mod Cases
use boofuzz.Base.{
  ℕ, zero, suc, ◌+◌, ◌-◌, ◌%◌, Bool, true, false, not, ◌&&◌, ◌||◌, List, [], ◌∷◌, ◌++◌, Option,
  none, some, ltb, leb, ◌==◌, if◌then◌else◌,
}
use boofuzz.Base.Dict.{lookup, insert}

-- An element that is mutated: a key that identifies it, and whether it is a Group or a Repeat.
pub record Mutant : Type 0 where
  pub key : ℕ
  pub num_mutations : ℕ
  pub is_counted : Bool

-- The request that is fuzzed: its key, its number of mutations and its current mutant.
pub record FuzzNode : Type 0 where
  pub key : ℕ
  pub num_mutations : ℕ
  pub mutant : Option Mutant

pub record Thresholds : Type 0 where
  pub crash_threshold_node : ℕ
  pub crash_threshold_element : ℕ

-- What `_process_failures` changes; `crashing_primitives` has the key 0 for None.
pub record Progress : Type 0 where
  pub crashing_primitives : List (ℕ × ℕ)
  pub total_mutant_index : ℕ
  pub mutant_index : ℕ
  pub skip_current_node : Bool
  pub skip_current_element : Bool

abbrev pub or_zero : Option ℕ → ℕ
or_zero none = 0
or_zero (some n) = n

abbrev pub crashes : ℕ → Progress → ℕ
crashes key p = or_zero (lookup key p.crashing_primitives)

-- `crashing_primitives[key] = crashing_primitives.get(key, 0) + 1`.
unfoldable pub count_crash : ℕ → Progress → Progress
count_crash key p = record p {
  crashing_primitives = insert key (crashes key p + 1) p.crashing_primitives;
}

-- Both indices go past the mutants that are skipped.
abbrev pub skip : ℕ → Progress → Progress
skip num_mutations p =
    let skipped = num_mutations - p.mutant_index in
    record p {
      total_mutant_index = p.total_mutant_index + skipped;
      mutant_index = p.mutant_index + skipped;
    }

abbrev pub skip_node : FuzzNode → Progress → Progress
skip_node node p = record (skip node.num_mutations p) { skip_current_node = true }

abbrev pub skip_element : Mutant → Progress → Progress
skip_element m p =
    if m.is_counted then p else record (skip m.num_mutations p) { skip_current_element = true }

-- The crash thresholds, when a mutant is set.
abbrev pub exhaust : Thresholds → FuzzNode → Progress → Option Mutant → Progress
exhaust t node p none = p
exhaust t node p (some m) =
    if leb t.crash_threshold_node (crashes node.key p)
    then skip_node node p
    else if leb t.crash_threshold_element (crashes m.key p)
    then skip_element m p
    else p

abbrev pub mutant_key : Option Mutant → ℕ
mutant_key none = 0
mutant_key (some m) = m.key

-- `_process_failures` with the number of crash synopses: whether a failure was found, after which
-- the target is restarted.
unfoldable pub process_failures : Thresholds → FuzzNode → ℕ → Progress → Bool × Progress
unfolding count_crash
process_failures t node zero p = (false, p)
process_failures t node (suc synopses) p = (
  true,
  exhaust t node (count_crash node.key (count_crash (mutant_key node.mutant) p)) node.mutant,
)

-- What an attempt to open the connection does.
pub data Attempt : Type 0 where
  opens fails no_socket : Attempt

-- How the attempts end, with the number of restarts of the target.
pub data Ending : Type 0 where
  opened connection_failed out_of_sockets restart_failed : (restarts : ℕ) → Ending
  no_fuel : Ending

module _ (restart_threshold restart_timeout : ℕ) (attempt : ℕ → Attempt)
    (timed_out restarts_well : ℕ → Bool) where
  -- Has the restart threshold or the timeout been reached? A 0 or a None is no bound.
  abbrev pub gives_up : ℕ → ℕ → Bool
  gives_up now unable =
      if not (restart_threshold == 0) && leb restart_threshold unable
      then true
      else not (restart_timeout == 0) && timed_out now

  -- What follows an attempt, for the attempts that come `again` with the two counters.
  abbrev pub after_attempt : Attempt → ℕ → ℕ → ℕ → (ℕ → ℕ → Ending) → Ending
  after_attempt opens now no_sockets unable again = opened unable
  after_attempt fails now no_sockets unable again =
      if gives_up now unable
      then connection_failed unable
      else if restarts_well now
      then again no_sockets (unable + 1)
      else restart_failed unable
  after_attempt no_socket now no_sockets unable again =
      if no_sockets + 1 == 50 then out_of_sockets unable else again (no_sockets + 1) unable

  -- The loop of `_open_connection_keep_trying`, at an attempt's number, with its two counters.
  unfoldable pub keep_trying : ℕ → ℕ → ℕ → ℕ → Ending
  keep_trying zero now no_sockets unable = no_fuel
  keep_trying (suc fuel) now no_sockets unable =
      after_attempt (attempt now) now no_sockets unable (keep_trying fuel (now + 1))

-- A test case of the iterator: the total index when it is yielded, and after it was fuzzed, when
-- skipped mutants may have been added; and does an exception leave `_fuzz_current_case`?
pub record Case : Type 0 where
  pub index : ℕ
  pub index_after : ℕ
  pub raises : Bool

pub data Action : Type 0 where
  restart_target : Action
  fuzz_case : Case → Action

module _ (index_start : ℕ) (index_end : Option ℕ) (restart_interval : ℕ)
    (restart_raises : ℕ → Bool) where
  abbrev pub reached : ℕ → Option ℕ → Bool
  reached index none = false
  reached index (some end) = leb end index

  abbrev pub restart_if : Bool → List Action
  restart_if true = restart_target ∷ []
  restart_if false = []

  -- Is the restart interval complete before the next case? A 0 is no interval.
  abbrev pub interval_complete : ℕ → Bool
  interval_complete fuzzed =
      not (fuzzed == 0) && (not (restart_interval == 0) && (fuzzed % restart_interval == 0))

  -- The loop of `_main_fuzz_loop`, from the number of cases actually fuzzed. An exception that leaves
  -- a restart or a test case ends it.
  unfoldable pub main_fuzz_loop : ℕ → List Case → List Action
  main_fuzz_loop fuzzed [] = []
  main_fuzz_loop fuzzed (c ∷ cs) =
      let later = main_fuzz_loop (fuzzed + 1) cs in
      let skipped = main_fuzz_loop fuzzed cs in
      if ltb c.index index_start
      then skipped
      else if interval_complete fuzzed && restart_raises fuzzed
      then restart_target ∷ []
      else restart_if (interval_complete fuzzed)
        ++ fuzz_case c ∷ (if c.raises || reached c.index_after index_end then [] else later)
