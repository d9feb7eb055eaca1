-- ===== src/Session/Case/Closing.antt =====
-- How a test case that raises no exception comes to its end (`_fuzz_current_case`).
use boofuzz.Base.{
  ◌≡◌, refl, inl, List, [], ◌∷◌, ◌++◌, Elem, Elem-append_left, Elem-append_right, true,
}
use boofuzz.Session.Case.{
  Options, Outcome, completed, failure, escaped, outcome_of, Event, checked, failed, processed,
  case_closed, exported, State, Result, continued, next, Environment,
}
use boofuzz.Session.Case.Steps.{
  at_world, check_step, close_step, open_step, prepare_step, visit, visit_all, from_check,
  from_last, from_first, from_prepare, case_body, handled, closing, finished, fuzz_current_case,
}

module _ {E W : Type 0} where
  -- Steps that end normally have checked the monitors.
  abbrev HasChecked : Result E W → Type 0
  HasChecked r = r.outcome ≡ completed → Elem checked r.events

  then_checked :
      (r : Result E W) (q : State W → Result E W)
      → ((s : State W) → HasChecked (q s))
      → HasChecked (next r q)
  then_checked r q h = go r.outcome refl
    where
      go : (oc : Outcome) → r.outcome ≡ oc → HasChecked (continued oc r q)
      go completed e ended = Elem-append_right checked r.events _ (h r.state ended)
      go failure e ended = absurd (cc (e, ended))
      go escaped e ended = absurd (cc (e, ended))

  checked_then :
      (r : Result E W) (q : State W → Result E W) → Elem checked r.events → HasChecked (next r q)
  checked_then r q h = go r.outcome
    where
      go : (oc : Outcome) → HasChecked (continued oc r q)
      go completed ended = Elem-append_left checked r.events _ h
      go failure ended = h
      go escaped ended = h

  module _ (o : Options) (env : Environment E W) where
    case_body-HasChecked :
        (prep : List E) (last : E) (s : State W) → HasChecked (case_body o env prep last s)
    unfolding case_body
    case_body-HasChecked prep last s =
        then_checked (open_step o env s) (from_prepare o env prep last) (λ s1.
          then_checked (prepare_step o env s1) (from_first o env prep last) (λ s2.
            then_checked (visit_all o env prep s2) (from_last o env last) (λ s3.
              then_checked (visit o env true last s3) (from_check o env)
                (λ s4. checked_then (check_step o env s4) (close_step o env) (inl refl)))))

    handled-HasChecked :
        (oc : Outcome) (r : Result E W)
        → r.outcome ≡ oc
        → HasChecked r
        → HasChecked (handled o env oc r)
    handled-HasChecked completed r e h ended = h ended
    handled-HasChecked escaped r e h ended = h ended
    handled-HasChecked failure r e h ended =
        Elem-append_right checked (r.events ++ failed ∷ []) (checked ∷ []) (inl refl)

    -- The events end with the case's closing, behind a check of the monitors.
    abbrev pub IsClosed : List (Event E) → Type 0
    IsClosed events =
        (before : List (Event E)) × (events ≡ before ++ (processed ∷ case_closed ∷ exported ∷ []))
        × Elem checked before

    finished-IsClosed :
        (r : Result E W)
        → HasChecked r
        → (finished o env r).outcome ≡ completed
        → IsClosed (finished o env r).events
    finished-IsClosed r h = go (outcome_of (env.process_failures r.state.world).0)
      where
        s' : State W
        s' = at_world o env r.state (env.process_failures r.state.world).1

        go :
            (oc : Outcome)
            → (closing o env r.outcome oc r.events s').outcome ≡ completed
            → IsClosed (closing o env r.outcome oc r.events s').events
        go completed ended = (r.events, refl, h ended)
        go failure ended = absurd (cc ended)
        go escaped ended = absurd (cc ended)

    -- A test case that no exception leaves, whatever BoofuzzFailure is handled in it, has had the
    -- target's monitors checked, and then ends with its failures processed, the case closed in the
    -- logs and the session exported, in this order.
    pub fuzz_current_case-IsClosed :
        (prep : List E) (last : E) (s : State W)
        → (fuzz_current_case o env prep last s).outcome ≡ completed
        → IsClosed (fuzz_current_case o env prep last s).events
    unfolding fuzz_current_case
    fuzz_current_case-IsClosed prep last s =
        let body = case_body o env prep last s in
        finished-IsClosed (handled o env body.outcome body)
          (handled-HasChecked body.outcome body refl (case_body-HasChecked prep last s))
