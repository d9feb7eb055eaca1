-- ===== src/Tests/Remotes.antt =====
-- Messages of remote calls at concrete inputs: a connection that hands out one byte at a time after each length.
use boofuzz.Base.{
  ℕ, zero, suc, ◌+◌, ◌≤◌, ◌<◌, ◌≡◌, ◌≢◌, refl, sym, Bool, true, List, [], ◌∷◌, Option, none, some,
  ◌==◌, leb, if◌then◌else◌, length, take, drop, arith, take-append-drop,
}
use boofuzz.Base.Text.{codes, text_eq, starts_with}
use boofuzz.Base.Words.{little_endian, from_little_endian}
use boofuzz.Rpc.{Socket, Pickle, value, no_end, pickle_recv}
use boofuzz.Rpc.Frames.{IsFaithful, IsStream, pickle_recv-frame}
use boofuzz.Rpc.Closed.{IsClosing, pickle_recv-no_end}
use boofuzz.Rpc.Calls.{route, remote}
use boofuzz.Rpc.Attempts.{connect, EndsConnecting, connect-EndsConnecting}

abbrev some_of : ℕ → ℕ
some_of n = if n == 4 then 4 else 1

abbrev trickle : Socket (List ℕ)
trickle = record {
  recv = λ n w. (some (take (some_of n) w), drop (some_of n) w);
  send = λ bytes w. (some (length bytes), w);
}

some_of_bounds : (n : ℕ) → 0 < n → (0 < some_of n) × (some_of n ≤ n)
some_of_bounds n h = ground arith

take_bounds :
    (k : ℕ) (w : List ℕ) → 0 < k → w ≢ [] → (0 < length (take k w)) × (length (take k w) ≤ k)
take_bounds zero w h ne = absurd (omega arith)
take_bounds (suc k) [] h ne = absurd (ne refl)
take_bounds (suc k) (x ∷ w) h ne = (omega arith, omega (arith, within k w))
  where
    within : (k : ℕ) (w : List ℕ) → length (take k w) ≤ k
    within zero w = omega arith
    within (suc k) [] = omega arith
    within (suc k) (x ∷ w) = omega (arith, within k w)

trickle-IsStream : IsStream trickle (λ w. w) (λ w. true)
trickle-IsStream = record {
  some_bytes = λ n w positive ne.
      let bounds = some_of_bounds n positive in
      let counts = take_bounds (some_of n) w bounds.0 ne in
      (
        take (some_of n) w,
        drop (some_of n) w,
        refl,
        counts.0,
        omega (arith, counts.1, bounds.1),
        sym (take-append-drop (some_of n) w),
        refl,
      );
}

abbrev head_of : List ℕ → Option ℕ
head_of [] = none
head_of (n ∷ l) = some n

-- The bytes come one at a time behind the length.
abbrev two_bytes : Pickle ℕ
two_bytes = record { dumps = λ n. n ∷ 1 ∷ []; loads = head_of }

two_bytes-IsFaithful : IsFaithful two_bytes
two_bytes-IsFaithful v = (refl, omega arith)

pickle_recv-frame_example :
    (w' : List ℕ) × (pickle_recv trickle two_bytes 2 (2 ∷ 0 ∷ 0 ∷ 0 ∷ 77 ∷ 1 ∷ 5 ∷ [])
      ≡ (value 77, w'))
    × (w' ≡ 5 ∷ [])
    × (true ≡ true)
unfolding little_endian
pickle_recv-frame_example =
    pickle_recv-frame trickle (λ w. w) (λ w. true) trickle-IsStream two_bytes two_bytes-IsFaithful 2
      77 (5 ∷ []) (2 ∷ 0 ∷ 0 ∷ 0 ∷ 77 ∷ 1 ∷ 5 ∷ []) (77 ∷ 1 ∷ 5 ∷ []) (omega arith) refl refl

take_nil : (k : ℕ) → take {A = ℕ} k [] ≡ []
take_nil zero = refl
take_nil (suc k) = refl

drop_nil : (k : ℕ) → drop {A = ℕ} k [] ≡ []
drop_nil zero = refl
drop_nil (suc k) = refl

trickle-IsClosing : IsClosing trickle (λ w. w)
trickle-IsClosing n [] e = rw (take_nil (some_of n), drop_nil (some_of n)) refl
trickle-IsClosing n (x ∷ w) e = absurd cc

-- Two of three bytes came.
no_end_example : (pickle_recv trickle two_bytes 1000 (3 ∷ 0 ∷ 0 ∷ 0 ∷ 8 ∷ 9 ∷ [])).0 ≡ no_end
unfolding from_little_endian
no_end_example =
    pickle_recv-no_end trickle (λ w. w) (λ w. true) trickle-IsStream trickle-IsClosing two_bytes
      (3 ∷ 0 ∷ 0 ∷ 0 ∷ []) (3 ∷ 0 ∷ 0 ∷ 0 ∷ 8 ∷ 9 ∷ []) (8 ∷ 9 ∷ []) refl refl (omega arith) 1000

-- The third attempt from the start of the world succeeds.
abbrev attempt : ℕ → Bool × ℕ
attempt n = (leb 2 n, n + 1)

connect_example : EndsConnecting attempt (λ n. n) 1 0 (connect attempt 6 1 0)
connect_example =
    connect-EndsConnecting attempt (λ n. n) (λ w. refl) 6 1 0 (omega arith) (omega arith)

routed : route (codes "alive") ≡ remote
unfolding route text_eq starts_with
routed = refl
