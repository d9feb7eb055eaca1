-- ===== src/Session/Case/Order.antt =====
-- The messages of a test case are sent in the order of its path.
use boofuzz.Base.{
  ◌≡◌, refl, sym, ◌∙◌, Bool, true, false, List, [], ◌∷◌, ◌++◌, Option, none, some, if◌then◌else◌,
  append-nil, ℕ, subst,
}
use boofuzz.Session.Case.{
  connection_reset, connection_aborted, ssl_error, boofuzz_failure, other, Answer, got, fault,
  Options, Outcome, completed, failure, escaped, outcome_of, receiving_fault, checked, failed,
  processed, case_closed, exported, State, Result, ends, Environment,
}
use boofuzz.Session.Case.Steps.{
  after_send, after_recv, after_fuzz_recv, ignored_recv, receive, transmit_data, transmit,
  after_callback, visit, visit_all, check_step, closed_unless, close_step, open_step, prepare_step,
  case_body, from_check, from_last, from_first, from_prepare, handled, closing, finished,
  fuzz_current_case, data_for, at_world,
}
use boofuzz.Session.Case.Sends.{IsPrefix, sends, unfuzzed, sends-append, Sends, next-Sends, silent}

module _ {E W : Type 0} where
  module _ (o : Options) (env : Environment E W) where
    receive-silent : (fuzzed : Bool) (s : State W) → sends (receive o env fuzzed s).events ≡ []
    unfolding receive
    receive-silent false s = decide o.receive_data_after_each_request (env.recv s.world)
      where
        decide :
            (b : Bool) (a : Answer (List ℕ) × W)
            → sends (if b then after_recv o env s a else ends completed [] s).events ≡ []
        decide true (got r, w) = refl
        decide true (fault f, w) = refl
        decide false a = refl
    receive-silent true s = decide o.receive_data_after_fuzz (env.recv s.world)
      where
        ignored : (oc : Outcome) (w : W) → sends (ignored_recv o env oc s w).events ≡ []
        ignored completed w = refl
        ignored failure w = refl
        ignored escaped w = refl

        decide :
            (b : Bool) (a : Answer (List ℕ) × W)
            → sends
                (if b
                  then after_fuzz_recv o env s a
                  else ends completed [] (record s { last_recv = [] })).events
              ≡ []
        decide true (got r, w) = refl
        decide true (fault f, w) = ignored (receiving_fault o f) w
        decide false a = refl

    after_send-Sends :
        (fuzzed : Bool) (e : E) (bytes : List ℕ) (s : State W) (a : Answer Unit × W)
        → Sends ((fuzzed, e) ∷ []) (after_send o env fuzzed e bytes s a)
    after_send-Sends fuzzed e bytes s (got u, w) = (([], refl), λ done. refl)
    after_send-Sends fuzzed e bytes s (fault f, w) = (([], refl), λ done. refl)

    transmit-Sends :
        (fuzzed : Bool) (e : E) (d : Option (List ℕ)) (s : State W)
        → Sends ((fuzzed, e) ∷ []) (transmit o env fuzzed e d s)
    unfolding transmit
    transmit-Sends fuzzed e d s = go (data_for o env fuzzed e d s.world)
      where
        go : (m : Option (List ℕ)) → Sends ((fuzzed, e) ∷ []) (transmit_data o env fuzzed e s m)
        go none = (((fuzzed, e) ∷ [], refl), λ done. absurd cc)
        go (some bytes) =
            next-Sends ((fuzzed, e) ∷ []) [] _ _
              (after_send-Sends fuzzed e bytes s (env.send bytes s.world))
              (λ t. silent (receive o env fuzzed t) (receive-silent fuzzed t))

    visit-Sends :
        (fuzzed : Bool) (e : E) (s : State W) → Sends ((fuzzed, e) ∷ []) (visit o env fuzzed e s)
    unfolding visit
    visit-Sends fuzzed e s = go (env.callback e s.world)
      where
        go :
            (a : Answer (Option (List ℕ)) × W)
            → Sends ((fuzzed, e) ∷ []) (after_callback o env fuzzed e s a)
        go (got d, w) = transmit-Sends fuzzed e d (at_world o env s w)
        go (fault boofuzz_failure, w) = (((fuzzed, e) ∷ [], refl), λ done. absurd cc)
        go (fault connection_reset, w) = (((fuzzed, e) ∷ [], refl), λ done. absurd cc)
        go (fault connection_aborted, w) = (((fuzzed, e) ∷ [], refl), λ done. absurd cc)
        go (fault ssl_error, w) = (((fuzzed, e) ∷ [], refl), λ done. absurd cc)
        go (fault other, w) = (((fuzzed, e) ∷ [], refl), λ done. absurd cc)

    visit_all-Sends : (es : List E) (s : State W) → Sends (unfuzzed es) (visit_all o env es s)
    unfolding visit_all
    visit_all-Sends [] s = (([], refl), λ done. refl)
    visit_all-Sends (e ∷ es) s =
        next-Sends ((false, e) ∷ []) (unfuzzed es) (visit o env false e s) _ (visit-Sends false e s)
          (visit_all-Sends es)

    closed_unless-silent :
        (reused : Bool) (s : State W) → sends (closed_unless o env reused s).events ≡ []
    closed_unless-silent true s = refl
    closed_unless-silent false s = refl

    case_body-Sends :
        (prep : List E) (last : E) (s : State W)
        → Sends (unfuzzed prep ++ (true, last) ∷ []) (case_body o env prep last s)
    unfolding case_body
    case_body-Sends prep last s =
        next-Sends [] messages (open_step o env s) (from_prepare o env prep last)
          (silent (open_step o env s) refl) behind_opening
      where
        messages : List (Bool × E)
        messages = unfuzzed prep ++ (true, last) ∷ []

        behind_last : (t : State W) → Sends [] (from_check o env t)
        behind_last t =
            next-Sends [] [] (check_step o env t) (close_step o env)
              (silent (check_step o env t) refl)
              (λ u. silent (close_step o env u) (closed_unless-silent o.reuse_target_connection u))

        from_the_last : (t : State W) → Sends ((true, last) ∷ []) (from_last o env last t)
        from_the_last t =
            next-Sends ((true, last) ∷ []) [] (visit o env true last t) (from_check o env)
              (visit-Sends true last t) behind_last

        from_the_first : (t : State W) → Sends messages (from_first o env prep last t)
        from_the_first t =
            next-Sends (unfuzzed prep) ((true, last) ∷ []) (visit_all o env prep t)
              (from_last o env last) (visit_all-Sends prep t) from_the_last

        behind_opening : (t : State W) → Sends messages (from_prepare o env prep last t)
        behind_opening t =
            next-Sends [] messages (prepare_step o env t) (from_first o env prep last)
              (silent (prepare_step o env t) refl) from_the_first

    handled-sends :
        (oc : Outcome) (r : Result E W) → sends (handled o env oc r).events ≡ sends r.events
    handled-sends completed r = refl
    handled-sends escaped r = refl
    handled-sends failure r =
        sends-append (r.events ++ failed ∷ []) (checked ∷ [])
        ∙ (append-nil (sends (r.events ++ failed ∷ []))
            ∙ (sends-append r.events (failed ∷ []) ∙ append-nil (sends r.events)))

    finished-sends : (r : Result E W) → sends (finished o env r).events ≡ sends r.events
    finished-sends r = go (outcome_of (env.process_failures r.state.world).0)
      where
        go :
            (oc : Outcome)
            → sends
                (closing o env r.outcome oc r.events
                  (at_world o env r.state (env.process_failures r.state.world).1)).events
              ≡ sends r.events
        go completed =
            sends-append r.events (processed ∷ case_closed ∷ exported ∷ [])
            ∙ append-nil (sends r.events)
        go failure = sends-append r.events (processed ∷ []) ∙ append-nil (sends r.events)
        go escaped = sends-append r.events (processed ∷ []) ∙ append-nil (sends r.events)

    -- A test case hands messages to the target in the order of its path, none twice and none left
    -- out between others, of which only the last one is fuzzed; where the steps of the `try` block
    -- end normally, it has handed over all of them.
    pub fuzz_current_case-IsPrefix :
        (prep : List E) (last : E) (s : State W)
        → IsPrefix
            (sends (fuzz_current_case o env prep last s).events)
            (unfuzzed prep ++ (true, last) ∷ [])
          × ((case_body o env prep last s).outcome ≡ completed
              → sends (fuzz_current_case o env prep last s).events
                ≡ unfuzzed prep ++ (true, last) ∷ [])
    unfolding fuzz_current_case
    fuzz_current_case-IsPrefix prep last s =
        subst
          (λ (l : List (Bool × E)).
            IsPrefix l (unfuzzed prep ++ (true, last) ∷ [])
            × ((case_body o env prep last s).outcome ≡ completed
                → l ≡ unfuzzed prep ++ (true, last) ∷ []))
          (sym (finished-sends (handled o env body.outcome body) ∙ handled-sends body.outcome body))
          (case_body-Sends prep last s)
      where
        body : Result E W
        body = case_body o env prep last s
