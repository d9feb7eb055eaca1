-- ===== src/Primitives/Leaves/Ranges.antt =====
-- The numbers of repetitions of Repeat and the lengths of RandomData.
use native.Mathlib.Nat.{suc-mul, mul-le-mul, div-add-mod', mod-lt}
use boofuzz.Base.{
  ℕ, zero, suc, ◌+◌, ◌-◌, ◌*◌, ◌/◌, ◌%◌, Elem, inl, inr, Bool-cases, ltb, ltb→lt, ◌≤◌, ◌<◌, ◌≡◌,
  refl, ap, ◌∙◌, false, List, ◌∷◌, some, All, length, ◌==◌, arith, some_inj, subst,
}
use boofuzz.Primitives.Leaves.{
  steps_from, repeat_library, RandomData, random_bytes, length_at, random_mutations,
  random_data_init,
}

abbrev pub Between : ℕ → ℕ → ℕ → Type 0
Between low high n = (low ≤ n) × (n ≤ high)

pub length-steps_from : (start step n : ℕ) → length (steps_from start step n) ≡ n
unfolding steps_from
length-steps_from start step zero = refl
length-steps_from start step (suc n) = ap suc (length-steps_from (start + step) step n)

-- The rounds of a range before the given number of them.
abbrev IsStep : (start step n : ℕ) → ℕ → Type 0
IsStep start step n v = (i : ℕ) × (v ≡ start + i * step) × (i < n)

next-IsStep : (start step n v : ℕ) → IsStep (start + step) step n v → IsStep start step (suc n) v
next-IsStep start step n v h = (suc h.0, h.1 ∙ omega (arith, suc-mul h.0 step), omega (arith, h.2))

steps_from-Elem :
    (start step n v : ℕ)
    → (Elem v (steps_from start step n) → IsStep start step n v)
      × (IsStep start step n v → Elem v (steps_from start step n))
unfolding steps_from
steps_from-Elem start step zero v = (λ h. absurd h, λ h. omega (arith, h.2))
steps_from-Elem start step (suc n) v =
    let ih = steps_from-Elem (start + step) step n v in (to ih.0, from ih.1)
  where
    to :
        (Elem v (steps_from (start + step) step n) → IsStep (start + step) step n v)
        → Elem v (start ∷ steps_from (start + step) step n)
        → IsStep start step (suc n) v
    to ih (inl here) = (0, here ∙ omega arith, omega arith)
    to ih (inr later) = next-IsStep start step n v (ih later)

    from :
        (IsStep (start + step) step n v → Elem v (steps_from (start + step) step n))
        → IsStep start step (suc n) v
        → Elem v (start ∷ steps_from (start + step) step n)
    from ih (zero, e, h) = inl (e ∙ omega arith)
    from ih (suc i, e, h) = inr (ih (i, e ∙ omega (arith, suc-mul i step), omega arith))

-- The rounds of `range(low, stop, step)` are those that stay below the stop.
rounds_lem :
    (a k i : ℕ) → (i < (a + k) / suc k → i * suc k < a) × (i * suc k < a → i < (a + k) / suc k)
rounds_lem a k i = (
  λ h. omega (
    arith,
    divided,
    small,
    mul-le-mul {n₁ = suc i} {m₁ = suc k} {n₂ = q} {m₂ = suc k} (omega arith) (omega arith),
    suc-mul i (suc k),
  ),
  λ h. elim (Bool-cases (ltb i q)) [
    | inl below ↦ ltb→lt i q below
    | inr above ↦ omega (
      arith,
      h,
      divided,
      small,
      mul-le-mul {n₁ = q} {m₁ = suc k} {n₂ = i} {m₂ = suc k} (ground (arith, above)) (omega arith),
    )
  ],
)
  where
    q : ℕ
    q = (a + k) / suc k

    divided : q * suc k + (a + k) % suc k ≡ a + k
    divided = div-add-mod' (a + k) (suc k)

    small : (a + k) % suc k < suc k
    small = mod-lt (a + k) (omega arith)

-- With a step that is not 0, Repeat is mutated to exactly the numbers that are reached from min_reps
-- by steps and are at most max_reps.
pub repeat_library-Elem :
    (min_reps max_reps k : ℕ) (reps : List ℕ)
    → repeat_library min_reps max_reps (suc k) ≡ some reps
    → (n : ℕ)
    → (Elem n reps → (i : ℕ) × (n ≡ min_reps + i * suc k) × (n ≤ max_reps))
      × ((i : ℕ) × (n ≡ min_reps + i * suc k) × (n ≤ max_reps) → Elem n reps)
unfolding repeat_library
repeat_library-Elem low high k reps e n =
    subst (λ l. (Elem n l → Reached) × (Reached → Elem n l)) (some_inj e) (to, from)
  where
    count : ℕ
    count = (high + 1 - low + k) / suc k

    Reached : Type 0
    Reached = (i : ℕ) × (n ≡ low + i * suc k) × (n ≤ high)

    to : Elem n (steps_from low (suc k) count) → Reached
    to m =
        let s = (steps_from-Elem low (suc k) count n).0 m in
        (s.0, s.1, omega (arith, s.1, (rounds_lem (high + 1 - low) k s.0).0 s.2))

    from : Reached → Elem n (steps_from low (suc k) count)
    from r =
        (steps_from-Elem low (suc k) count n).1
          (r.0, r.1, (rounds_lem (high + 1 - low) k r.0).1 (omega (arith, r.1, r.2)))

span_lem : (span step i : ℕ) → i < span / suc step + 1 → i * suc step ≤ span
span_lem span step i h = omega (
  arith,
  div-add-mod' span (suc step),
  mul-le-mul {n₁ = i} {m₁ = suc step} {n₂ = span / suc step} {m₂ = suc step} (omega arith)
      (omega arith),
)

suc_eq_zero : (n : ℕ) → (suc n == 0) ≡ false
suc_eq_zero n = ground arith

-- `randint` gives a number within its bounds.
abbrev pub Draws : {State : Type 0} → (State → ℕ → ℕ → ℕ × State) → Type 0
Draws {State} randint =
    (s : State) (low high : ℕ) → low ≤ high → Between low high (randint s low high).0

-- Bytes whose number lies within the bounds.
abbrev pub Fits : ℕ → ℕ → List ℕ → Type 0
Fits low high bs = (low ≤ length bs) × (length bs ≤ high) × All (λ b. b < 256) bs

module _ {State : Type 0} (randint : State → ℕ → ℕ → ℕ × State) (draws : Draws randint) where
  IsDrawn : ℕ → List ℕ → Type 0
  IsDrawn n bs = (length bs ≡ n) × All (λ b. b < 256) bs

  random_bytes-IsDrawn : (n : ℕ) (s : State) → IsDrawn n (random_bytes randint n s).0
  unfolding random_bytes IsDrawn
  random_bytes-IsDrawn zero s = (refl, tt)
  random_bytes-IsDrawn (suc n) s =
      let drawn = draws s 0 255 (omega arith) in
      let rest = random_bytes-IsDrawn n (randint s 0 255).1 in
      (ap suc rest.0, (omega (arith, drawn.1), rest.1))

  module _ (r : RandomData) (low high : ℕ)
      (sized : (i : ℕ) (s : State)
        → i < r.max_mutations
        → Between low high (length_at randint r i s).0) where
    rounds-Fits :
        (i n : ℕ) (s : State)
        → i + n ≤ r.max_mutations
        → All (Fits low high) (random_mutations randint r i n s)
    unfolding random_mutations IsDrawn
    rounds-Fits i zero s h = tt
    rounds-Fits i (suc n) s h =
        let size = length_at randint r i s in
        let bounds = sized i s (omega arith) in
        let drawn = random_bytes-IsDrawn size.0 size.1 in
        (
          (omega (arith, bounds.0, drawn.0), omega (arith, bounds.1, drawn.0), drawn.1),
          rounds-Fits (i + 1) n (random_bytes randint size.0 size.1).1 (omega arith),
        )

  -- The length of a round of RandomData, by its step.
  length_at_lem :
      (low high limit step i : ℕ) (s : State)
      → low ≤ high
      → i < (random_data_init low high limit step).max_mutations
      → Between low high (length_at randint (random_data_init low high limit step) i s).0
  unfolding random_data_init
  length_at_lem low high limit zero i s h k = draws s low high h
  length_at_lem low high limit (suc step) i s h k =
      rw (suc_eq_zero step) (omega arith, omega (arith, span_lem (high - low) step i k))

  -- Where `randint` keeps to its bounds, every mutation of RandomData, with a step or none, has a
  -- length from min_length to max_length, and its numbers are bytes.
  pub random_mutations-Fits :
      (low high limit step : ℕ) (s : State)
      → low ≤ high
      → All (Fits low high) (
          random_mutations randint
            (random_data_init low high limit step)
            0
            (random_data_init low high limit step).max_mutations
            s)
  random_mutations-Fits low high limit step s h =
      rounds-Fits (random_data_init low high limit step) low high
        (λ i t k. length_at_lem low high limit step i t h k) 0 _ s (omega arith)
