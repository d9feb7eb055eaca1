-- ===== src/Session/Monitors/Detected.antt =====
-- What `_check_for_passively_detected_failures` (boofuzz/sessions/session.py) logs.
use boofuzz.Base.{
  ℕ, Bool, true, false, not, ◌&&◌, ◌≡◌, refl, ap, sym, ◌∙◌, List, [], ◌∷◌, ◌++◌, if◌then◌else◌, ltb,
  length, All, append_assoc, append-nil,
}
use boofuzz.Base.Text.{codes}
use boofuzz.Loggers.{
  Call, open_test_case, open_test_step, log_check, log_error, log_info, log_fail, log_pass,
  log_recv, log_send, close_test_case, close_test,
}
use boofuzz.Session.Monitors.{
  Ended, done, raised, Scene, M, after, ◌>>=◌, ◌>>◌, return, log_call, Monitor, crash_text,
  more_text, ask_monitors, ask_others, check_for_passively_detected_failures,
}

abbrev pub HasFail : List Call → Type 0
HasFail [] = ⊥
HasFail (log_fail t ∷ cs) = Unit
HasFail (c ∷ cs) = HasFail cs

HasFail-right : (cs ds : List Call) → HasFail ds → HasFail (cs ++ ds)
HasFail-right [] ds h = h
HasFail-right (log_fail t ∷ cs) ds h = tt
HasFail-right (open_test_case i n k ∷ cs) ds h = HasFail-right cs ds h
HasFail-right (open_test_step t ∷ cs) ds h = HasFail-right cs ds h
HasFail-right (log_check t ∷ cs) ds h = HasFail-right cs ds h
HasFail-right (log_error t ∷ cs) ds h = HasFail-right cs ds h
HasFail-right (log_info t ∷ cs) ds h = HasFail-right cs ds h
HasFail-right (log_pass t ∷ cs) ds h = HasFail-right cs ds h
HasFail-right (log_recv d ∷ cs) ds h = HasFail-right cs ds h
HasFail-right (log_send d ∷ cs) ds h = HasFail-right cs ds h
HasFail-right (close_test_case ∷ cs) ds h = HasFail-right cs ds h
HasFail-right (close_test ∷ cs) ds h = HasFail-right cs ds h

HasFail-left : (cs ds : List Call) → HasFail cs → HasFail (cs ++ ds)
HasFail-left [] ds h = absurd h
HasFail-left (log_fail t ∷ cs) ds h = tt
HasFail-left (open_test_case i n k ∷ cs) ds h = HasFail-left cs ds h
HasFail-left (open_test_step t ∷ cs) ds h = HasFail-left cs ds h
HasFail-left (log_check t ∷ cs) ds h = HasFail-left cs ds h
HasFail-left (log_error t ∷ cs) ds h = HasFail-left cs ds h
HasFail-left (log_info t ∷ cs) ds h = HasFail-left cs ds h
HasFail-left (log_pass t ∷ cs) ds h = HasFail-left cs ds h
HasFail-left (log_recv d ∷ cs) ds h = HasFail-left cs ds h
HasFail-left (log_send d ∷ cs) ds h = HasFail-left cs ds h
HasFail-left (close_test_case ∷ cs) ds h = HasFail-left cs ds h
HasFail-left (close_test ∷ cs) ds h = HasFail-left cs ds h

module _ {W : Type 0} where
  -- What holds after a step that raised no exception.
  abbrev pub Ensures : {A : Type 0} → (A → Scene W → Type 0) → Ended A × Scene W → Type 0
  Ensures Q (done a, s) = Q a s
  Ensures Q (raised e, s) = Unit

  after-Ensures :
      {A B : Type 0} (Q : A → Scene W → Type 0) (R : B → Scene W → Type 0) (f : A → M W B)
      (x : Ended A × Scene W)
      → Ensures Q x
      → ((a : A) (s : Scene W) → Q a s → Ensures R (f a s))
      → Ensures R (after f x)
  after-Ensures Q R f (done a, s) h k = k a s h
  after-Ensures Q R f (raised e, s) h k = tt

  -- The log was only added to, and a failure was among what was added.
  abbrev pub Grown : Scene W → Scene W → Type 0
  Grown s s' = (new : List Call) × (s'.entries ≡ s.entries ++ new)

  abbrev pub Failed : Scene W → Scene W → Type 0
  Failed s s' = (new : List Call) × (s'.entries ≡ s.entries ++ new) × HasFail new

  joined :
      (s s' s'' : Scene W) (new new' : List Call)
      → s'.entries ≡ s.entries ++ new
      → s''.entries ≡ s'.entries ++ new'
      → s''.entries ≡ s.entries ++ (new ++ new')
  joined s s' s'' new new' e e' =
      e' ∙ (ap (λ (l : List Call). l ++ new') e ∙ append_assoc s.entries new new')

  Grown-Grown : (s s' s'' : Scene W) → Grown s s' → Grown s' s'' → Grown s s''
  Grown-Grown s s' s'' (new, e) (new', e') = (new ++ new', joined s s' s'' new new' e e')

  Failed-Grown : (s s' s'' : Scene W) → Failed s s' → Grown s' s'' → Failed s s''
  Failed-Grown s s' s'' (new, e, h) (new', e') =
      (new ++ new', joined s s' s'' new new' e e', HasFail-left new new' h)

  Grown-Failed : (s s' s'' : Scene W) → Grown s s' → Failed s' s'' → Failed s s''
  Grown-Failed s s' s'' (new, e) (new', e', h) =
      (new ++ new', joined s s' s'' new new' e e', HasFail-right new new' h)

  -- The methods of a monitor only add to the log.
  abbrev pub Appends : Monitor W → Type 0
  Appends m =
      ((s : Scene W) → Ensures (λ _ s'. Grown s s') (m.post_send s))
      × ((s : Scene W) → Ensures (λ _ s'. Grown s s') (m.get_crash_synopsis s))

module _ {W : Type 0} (index : ℕ) where
  abbrev Asked : Scene W → Bool × List (Monitor W) → Scene W → Type 0
  Asked s r s' = Grown s s' × (r.0 ≡ true → Failed s s') × All Appends r.1

  ask_monitors-Asked :
      (ms : List (Monitor W))
      → All Appends ms
      → (s : Scene W) → Ensures (Asked s) (ask_monitors index ms s)
  unfolding ask_monitors
  ask_monitors-Asked [] h s = (([], sym (append-nil s.entries)), (λ e. absurd cc), tt)
  ask_monitors-Asked (m ∷ ms) h s =
      after-Ensures (λ _ s₁. Grown s s₁) (Asked s) _ (m.post_send s) (h.0.0 s)
        (answered (ask_monitors-Asked ms h.1))
    where
      answered :
          ((s₁ : Scene W) → Ensures (Asked s₁) (ask_monitors index ms s₁))
          → (fine : Bool) (s₁ : Scene W) → Grown s s₁
          → Ensures (Asked s) (
              (if fine
                  then (ask_monitors index ms >>= λ r. return (r.0, m ∷ r.1))
                  else (m.get_crash_synopsis >>= λ synopsis.
                      (log_call (log_fail (crash_text index m.name synopsis))
                        >> (ask_monitors index ms >>= λ r. return (true, r.1)))))
                s₁)
      answered later true s₁ g₁ =
          after-Ensures (Asked s₁) (Asked s) _ (ask_monitors index ms s₁) (later s₁) (λ r s₂ a.
            (Grown-Grown s s₁ s₂ g₁ a.0, (λ e. Grown-Failed s s₁ s₂ g₁ (a.1 e)), (h.0, a.2)))
      answered later false s₁ g₁ =
          after-Ensures (λ _ s₂. Grown s₁ s₂) (Asked s) _ (m.get_crash_synopsis s₁) (h.0.1 s₁)
            (λ synopsis s₂ g₂.
              let c = log_fail (crash_text index m.name synopsis) in
              let s₃ = record s₂ { entries = s₂.entries ++ c ∷ [] } in
              let failed : Failed s s₃ =
                Grown-Failed s s₁ s₃ g₁ (Grown-Failed s₁ s₂ s₃ g₂ (c ∷ [], refl, tt)) in
              after-Ensures (Asked s₃) (Asked s) _ (ask_monitors index ms s₃) (later s₃) (λ r s₄ a.
                let all_failed : Failed s s₄ = Failed-Grown s s₃ s₄ failed a.0 in
                ((all_failed.0, all_failed.1), (λ e. all_failed), a.2)))

  ask_others-Grown :
      (ms : List (Monitor W))
      → All Appends ms
      → (s : Scene W) → Ensures (λ _ s'. Grown s s') (ask_others index ms s)
  unfolding ask_others
  ask_others-Grown [] h s = ([], sym (append-nil s.entries))
  ask_others-Grown (m ∷ ms) h s =
      after-Ensures (λ _ s₁. Grown s s₁) (λ _ s'. Grown s s') _ (m.get_crash_synopsis s) (h.0.1 s)
        (λ synopsis s₁ g₁.
          after-Ensures (λ _ s₂. Grown s₁ s₂) (λ _ s'. Grown s s') _ _
            (told (ltb 0 (length synopsis)) s₁)
            (λ _ s₂ g₂. next (ask_others-Grown ms h.1) s₂ (Grown-Grown s s₁ s₂ g₁ g₂)))
    where
      told :
          (b : Bool) (s₁ : Scene W)
          → Ensures
              (λ _ s₂. Grown s₁ s₂)
              ((if b
                  then (m.get_crash_synopsis >>= λ again.
                      log_call (log_fail (more_text index m.name again)))
                  else return tt)
                s₁)
      told false s₁ = ([], sym (append-nil s₁.entries))
      told true s₁ =
          after-Ensures (λ _ s₂. Grown s₁ s₂) (λ _ s'. Grown s₁ s') _ (m.get_crash_synopsis s₁)
            (h.0.1 s₁)
            (λ again s₂ g₂.
              let c = log_fail (more_text index m.name again) in
              Grown-Grown s₁ s₂ (record s₂ { entries = s₂.entries ++ c ∷ [] }) g₂ (c ∷ [], refl))

      next :
          ((s₂ : Scene W) → Ensures (λ _ s'. Grown s₂ s') (ask_others index ms s₂))
          → (s₂ : Scene W) → Grown s s₂
          → Ensures (λ _ s'. Grown s s') (ask_others index ms s₂)
      next later s₂ g = weaken (ask_others index ms s₂) (later s₂)
        where
          weaken :
              (x : Ended (Unit {0}) × Scene W)
              → Ensures (λ _ s'. Grown s₂ s') x
              → Ensures (λ _ s'. Grown s s') x
          weaken (done a, s₃) k = Grown-Grown s s₂ s₃ g k
          weaken (raised e, s₃) k = tt

  -- The last entry says that no crash was detected.
  abbrev pub EndsPassed : Scene W → Type 0
  EndsPassed s =
      (before : List Call) × (s.entries ≡ before ++ log_pass (codes "No crash detected.") ∷ [])

  abbrev pub IsReported : Bool → Scene W → Bool → Scene W → Type 0
  IsReported already s found s' =
      (found ≡ true → Failed s s') × (found ≡ false → already ≡ false → EndsPassed s')

  -- With monitors that only add to the log: when the check of them ends, a crash is reported to the
  -- caller only if a failure was added to the log, and with no crash, now or before, the log ends with
  -- the check that passed.
  pub check_for_passively_detected_failures-IsReported :
      (order : List (Monitor W) → List (Monitor W)) (m : Monitor W) (ms : List (Monitor W))
      → All Appends (m ∷ ms)
      → ((l : List (Monitor W)) → All Appends l → All Appends (order l))
      → (already : Bool) (s : Scene W)
      → Ensures
          (IsReported already s)
          (check_for_passively_detected_failures index order (m ∷ ms) already s)
  unfolding check_for_passively_detected_failures
  check_for_passively_detected_failures-IsReported order m ms h ordered already s =
      after-Ensures (Asked opened) (IsReported already s) _ (ask_monitors index (m ∷ ms) opened)
        (ask_monitors-Asked (m ∷ ms) h opened) (λ r s₁ a. decide r.0 already r.1 s₁ a)
    where
      opened : Scene W
      opened = record s {
        entries = s.entries ++ open_test_step (codes "Contact target monitors") ∷ [];
      }

      since : (s' : Scene W) → Failed opened s' → Failed s s'
      since s' f =
          Grown-Failed s opened s' (open_test_step (codes "Contact target monitors") ∷ [], refl) f

      decide :
          (found already' : Bool) (rest : List (Monitor W)) (s₁ : Scene W)
          → Asked opened (found, rest) s₁
          → Ensures (IsReported already' s) (
              ((if not found && not already'
                    then log_call (log_pass (codes "No crash detected."))
                    else ask_others index (order rest))
                  >> return found)
                s₁)
      decide false false rest s₁ a = ((λ e. absurd cc), (λ e f. (s₁.entries, refl)))
      decide false true rest s₁ a =
          after-Ensures (λ _ s₂. Grown s₁ s₂) (IsReported true s) _
            (ask_others index (order rest) s₁) (ask_others-Grown (order rest) (ordered rest a.2) s₁)
            (λ _ s₂ g. ((λ e. absurd cc), (λ e f. absurd cc)))
      decide true already' rest s₁ a =
          after-Ensures (λ _ s₂. Grown s₁ s₂) (IsReported already' s) _
            (ask_others index (order rest) s₁) (ask_others-Grown (order rest) (ordered rest a.2) s₁)
            (λ _ s₂ g.
              ((λ e. since s₂ (Failed-Grown opened s₁ s₂ (a.1 refl) g)), (λ e f. absurd cc)))
