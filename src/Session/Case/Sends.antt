-- ===== src/Session/Case/Sends.antt =====
-- What the events of a test case send, and steps after steps.
use boofuzz.Base.{
  ◌≡◌, refl, ap, sym, ◌∙◌, Bool, false, List, [], ◌∷◌, ◌++◌, map, append_assoc, append-nil,
}
use boofuzz.Session.Case.{
  Outcome, completed, failure, escaped, Event, opened, prepared, received, checked, target_closed,
  failed, processed, case_closed, exported, called_back, sent, State, Result, next, continued,
}

module _ {A : Type 0} where
  abbrev pub IsPrefix : List A → List A → Type 0
  IsPrefix xs ys = (zs : List A) × (xs ++ zs ≡ ys)

module _ {E : Type 0} where
  -- Which messages are sent, fuzzed or not.
  abbrev pub sends : List (Event E) → List (Bool × E)
  sends [] = []
  sends (sent fuzzed e bytes ∷ es) = (fuzzed, e) ∷ sends es
  sends (opened ∷ es) = sends es
  sends (prepared ∷ es) = sends es
  sends (received ∷ es) = sends es
  sends (checked ∷ es) = sends es
  sends (target_closed ∷ es) = sends es
  sends (failed ∷ es) = sends es
  sends (processed ∷ es) = sends es
  sends (case_closed ∷ es) = sends es
  sends (exported ∷ es) = sends es
  sends (called_back e ∷ es) = sends es

  pub sends-append : (xs ys : List (Event E)) → sends (xs ++ ys) ≡ sends xs ++ sends ys
  sends-append [] ys = refl
  sends-append (sent fuzzed e bytes ∷ xs) ys =
      ap (λ (l : List (Bool × E)). (fuzzed, e) ∷ l) (sends-append xs ys)
  sends-append (opened ∷ xs) ys = sends-append xs ys
  sends-append (prepared ∷ xs) ys = sends-append xs ys
  sends-append (received ∷ xs) ys = sends-append xs ys
  sends-append (checked ∷ xs) ys = sends-append xs ys
  sends-append (target_closed ∷ xs) ys = sends-append xs ys
  sends-append (failed ∷ xs) ys = sends-append xs ys
  sends-append (processed ∷ xs) ys = sends-append xs ys
  sends-append (case_closed ∷ xs) ys = sends-append xs ys
  sends-append (exported ∷ xs) ys = sends-append xs ys
  sends-append (called_back e ∷ xs) ys = sends-append xs ys

  longer : (xs ys zs : List (Bool × E)) → IsPrefix xs ys → IsPrefix xs (ys ++ zs)
  longer xs ys zs h =
      (h.0 ++ zs, sym (append_assoc xs h.0 zs) ∙ ap (λ (l : List (Bool × E)). l ++ zs) h.1)

  -- The messages before the last one are sent as they are.
  abbrev pub unfuzzed : List E → List (Bool × E)
  unfuzzed es = map (λ e. (false, e)) es

module _ {E W : Type 0} where
  -- The steps send some of the messages from the front, and all of them if they end normally.
  abbrev pub Sends : List (Bool × E) → Result E W → Type 0
  Sends xs r = IsPrefix (sends r.events) xs × (r.outcome ≡ completed → sends r.events ≡ xs)

  stopped :
      (xs ys : List (Bool × E)) (r : Result E W)
      → Sends xs r
      → (r.outcome ≡ completed → ⊥)
      → Sends (xs ++ ys) r
  stopped xs ys r h never = (longer (sends r.events) xs ys h.0, λ e. absurd (never e))

  pub next-Sends :
      (xs ys : List (Bool × E)) (r : Result E W) (q : State W → Result E W)
      → Sends xs r
      → ((s : State W) → Sends ys (q s))
      → Sends (xs ++ ys) (next r q)
  next-Sends xs ys r q h k = go r.outcome refl
    where
      front :
          r.outcome ≡ completed
          → sends (r.events ++ (q r.state).events) ≡ xs ++ sends (q r.state).events
      front e =
          sends-append r.events (q r.state).events
          ∙ ap (λ (l : List (Bool × E)). l ++ sends (q r.state).events) (h.1 e)

      go : (oc : Outcome) → r.outcome ≡ oc → Sends (xs ++ ys) (continued oc r q)
      go completed e = (
        (
          (k r.state).0.0,
          ap (λ (l : List (Bool × E)). l ++ (k r.state).0.0) (front e)
              ∙ (append_assoc xs (sends (q r.state).events) (k r.state).0.0
                  ∙ ap (λ (l : List (Bool × E)). xs ++ l) (k r.state).0.1),
        ),
        λ done. front e ∙ ap (λ (l : List (Bool × E)). xs ++ l) ((k r.state).1 done),
      )
      go failure e = stopped xs ys r h (λ done. absurd (cc (e, done)))
      go escaped e = stopped xs ys r h (λ done. absurd (cc (e, done)))

  pub silent : (r : Result E W) → sends r.events ≡ [] → Sends [] r
  silent r h = (([], append-nil (sends r.events) ∙ h), λ done. h)
