-- ===== src/Session/Target.antt =====
-- `Target.send` (boofuzz/sessions/target.py) with the count repeater of boofuzz/repeater.py. The
-- connection's `send` is given: the number of bytes that were sent, or an exception.
use boofuzz.Base.{ℕ, zero, suc, ◌+◌, ◌≡◌, Bool, Option, none, some, leb, if◌then◌else◌}
use boofuzz.Session.Case.{Answer, got, fault}

-- CountRepeater.
pub record CountRepeater : Type 0 where
  pub count : ℕ
  pub reps : ℕ

-- The constructor; a count below 1 is a ValueError.
unfoldable pub count_repeater : ℕ → Option CountRepeater
count_repeater zero = none
count_repeater (suc n) = some (record { count = suc n; reps = 0 })

unfoldable pub repeat : CountRepeater → Bool × CountRepeater
repeat r = (leb (r.reps + 1) r.count, record r { reps = r.reps + 1 })

abbrev pub reset : CountRepeater → CountRepeater
reset r = record r { reps = 0 }

-- What sending comes to: the number of bytes of the last call or its exception, the repeater and the
-- world afterwards, and how often the connection's `send` was called.
pub record Sending (W : Type 0) : Type 0 where
  pub answer : Answer ℕ
  pub repeater : Option CountRepeater
  pub world : W
  pub calls : ℕ

module _ {W : Type 0} (send : W → Answer ℕ × W) where
  -- `while self.repeater.repeat()`, then `reset`, which an exception leaves out; `none` where the fuel
  -- is used up.
  abbrev pub after_call :
      (ℕ → W → Option (Sending W)) → CountRepeater → ℕ → Answer ℕ × W → Option (Sending W)
  after_call again r calls (fault f, w) =
      some (record { answer = fault f; repeater = some r; world = w; calls = calls })
  after_call again r calls (got n, w) = again n w

  unfoldable pub send_loop :
      (fuel : ℕ) → CountRepeater → (num_sent calls : ℕ) → W → Option (Sending W)
  send_loop zero r num_sent calls w = none
  send_loop (suc fuel) r num_sent calls w =
      let next = repeat r in
      let called =
        after_call (λ n v. send_loop fuel next.1 n (calls + 1) v) next.1 (calls + 1) (send w) in
      if next.0
      then called
      else some (record {
        answer = got num_sent;
        repeater = some (reset next.1);
        world = w;
        calls = calls;
      })

  abbrev pub once : Answer ℕ × W → Sending W
  once a = record { answer = a.0; repeater = none; world = a.1; calls = 1 }

  -- `Target.send`.
  unfoldable pub target_send : (fuel : ℕ) → Option CountRepeater → W → Option (Sending W)
  target_send fuel none w = some (once (send w))
  target_send fuel (some r) w = send_loop fuel r 0 0 w

  -- The connection's `send` raises no exception.
  abbrev pub NeverFaults : Type 0
  NeverFaults = (w : W) → (n : ℕ) × (v : W) × (send w ≡ (got n, v))

  -- The message has been sent so often, and the repeater is as it was made.
  abbrev pub SentTimes : ℕ → CountRepeater → Option (Sending W) → Type 0
  SentTimes n r o = (s : Sending W) × (o ≡ some s) × (s.calls ≡ n) × (s.repeater ≡ some (reset r))

  -- What the loop does when it goes on, for what it does afterwards.
  abbrev going_on : (fuel count reps calls : ℕ) → Answer ℕ × W → Option (Sending W)
  going_on fuel count reps calls a =
      after_call (λ n v. send_loop fuel (record { count = count; reps = reps + 1 }) n (calls + 1) v)
        (record { count = count; reps = reps + 1 }) (calls + 1) a
