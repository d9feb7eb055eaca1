-- ===== src/Primitives/BitField/FuzzLib.antt =====
-- `_iterate_fuzz_lib`: the values that a field is mutated through, in ascending order.
pub mod Window
use boofuzz.Base.{
  ℕ, zero, suc, ◌+◌, ◌/◌, ◌^◌, ◌≤◌, ◌≡◌, refl, ◌↔◌, ◌⊎◌, inl, inr, Bool, true, false, ◌&&◌, List,
  [], ◌∷◌, ◌++◌, Option, none, some, map, All, Elem, Elem-append_left, Elem-append_right, arith,
  Bool-cases, if◌then◌else◌, range_from, leb, All-append, All-Elem,
}
use boofuzz.Base.Int.{ℤ, pos, negsuc, ◌+ℤ◌, ◌-ℤ◌, ◌≤ℤ◌, ◌<ℤ◌, ltb_ℤ, int_laws, eq_of_parts}
use boofuzz.Primitives.BitField.{
  Endian, OutputFormat, BitField, bit_field, sort_insert, sort, default_max_num, yield_cases,
  yield_integer_boundaries, last_yielded, iterate_boundaries, iterate_fuzz_lib,
}
use boofuzz.Primitives.BitField.FuzzLib.Window.{
  IsAscending, ltb_ℤ→lt, lt→ltb_ℤ, ltb_ℤ→ge, InWindow, IsAscending-if, All-if, Elem-if_head,
  Elem-if_tail, All-weaken, is_yielded, is_yielded_iff, is_yielded_of_lt, first_case, last-lt,
  IsAscending-append, cases-IsAscending, cases_from_border, cases_sound, cases_complete,
}

-- The windows are ten values to each side of a boundary, the upper end left out.
abbrev pub IsNear : ℤ → ℕ → Type 0
IsNear v b = (pos b -ℤ pos 10 ≤ℤ v) × (v <ℤ pos b +ℤ pos 10)

-- Some boundary of the list has the value in its window.
abbrev pub NearSome : ℤ → List ℕ → Type 0
NearSome v [] = ⊥
NearSome v (b ∷ bs) = IsNear v b ⊎ NearSome v bs

abbrev pub IsSorted : ℕ → List ℕ → Type 0
IsSorted lo [] = Unit
IsSorted lo (b ∷ bs) = (lo ≤ b) × IsSorted b bs

near_later : (lo : ℕ) (bs : List ℕ) (v : ℤ) → IsSorted lo bs → NearSome v bs → pos lo -ℤ pos 10 ≤ℤ v
near_later lo [] v s n = absurd n
near_later lo (b ∷ bs) v s (inl n) = omega int_laws
near_later lo (b ∷ bs) v s (inr n) = omega (int_laws, near_later b bs v s.1 n)

module _ (max_num : ℕ) where
  window-IsAscending :
      (b : ℕ) (lower : ℤ) → IsAscending lower (yield_integer_boundaries max_num b lower)
  unfolding yield_integer_boundaries
  window-IsAscending b lower = cases_from_border max_num 20 (pos b -ℤ pos 10) lower

  boundaries-IsAscending :
      (bs : List ℕ) (lower : ℤ) → IsAscending lower (iterate_boundaries max_num lower bs)
  unfolding iterate_boundaries
  boundaries-IsAscending [] lower = tt
  boundaries-IsAscending (b ∷ bs) lower =
      IsAscending-append max_num lower (yield_integer_boundaries max_num b lower) _
        (window-IsAscending b lower) (boundaries-IsAscending bs _)

  window_sound :
      (b : ℕ) (lower : ℤ)
      → All
          (λ v. (lower <ℤ v) × (v <ℤ pos max_num) × IsNear v b)
          (yield_integer_boundaries max_num b lower)
  unfolding yield_integer_boundaries
  window_sound b lower =
      All-weaken _ _ (λ v (h, k, w). (h, k, (w.0, omega (int_laws, w)))) _
        (cases_sound max_num 20 lower (pos b -ℤ pos 10))

  boundaries_sound :
      (bs : List ℕ) (lower : ℤ)
      → All (λ v. (v <ℤ pos max_num) × NearSome v bs) (iterate_boundaries max_num lower bs)
  unfolding iterate_boundaries
  boundaries_sound [] lower = tt
  boundaries_sound (b ∷ bs) lower =
      All-append _ _ _ (All-weaken _ _ (λ v (h, k, w). (k, inl w)) _ (window_sound b lower))
        (All-weaken _ _ (λ v (k, w). (k, inr w)) _ (boundaries_sound bs _))

  border_below :
      (b : ℕ) (lower v : ℤ)
      → lower <ℤ v
      → pos b +ℤ pos 10 ≤ℤ v
      → last_yielded max_num lower (yield_integer_boundaries max_num b lower) <ℤ v
  border_below b lower v h k =
      last-lt max_num lower v _ h
        (All-weaken _ _ (λ w (_, _, near). omega (int_laws, near)) _ (window_sound b lower))

  window_complete :
      (b : ℕ) (lower v : ℤ)
      → lower <ℤ v
      → v <ℤ pos max_num
      → IsNear v b
      → Elem v (yield_integer_boundaries max_num b lower)
  unfolding yield_integer_boundaries
  window_complete b lower v h k w =
      cases_complete max_num 20 lower (pos b -ℤ pos 10) v h k (w.0, omega int_laws)

  boundaries_complete :
      (lo : ℕ) (bs : List ℕ) (lower v : ℤ)
      → IsSorted lo bs
      → lower <ℤ v
      → v <ℤ pos max_num
      → NearSome v bs
      → Elem v (iterate_boundaries max_num lower bs)
  unfolding iterate_boundaries
  boundaries_complete lo [] lower v s h k n = absurd n
  boundaries_complete lo (b ∷ bs) lower v s h k (inl near) =
      Elem-append_left v _ _ (window_complete b lower v h k near)
  boundaries_complete lo (b ∷ bs) lower v s h k (inr later) =
      elim (Bool-cases (ltb_ℤ v (pos b +ℤ pos 10))) [
        | inl inside ↦ Elem-append_left v _ _ (
            window_complete b lower v h k
              (near_later b bs v s.1 later, ltb_ℤ→lt v (pos b +ℤ pos 10) inside))
        | inr outside ↦ Elem-append_right v _ _ (
            boundaries_complete b bs _ v s.1
              (border_below b lower v h (ltb_ℤ→ge v (pos b +ℤ pos 10) outside)) k later)
      ]

map_right : {A B C : Type 0} → (B → C) → A ⊎ B → A ⊎ C
map_right f (inl a) = inl a
map_right f (inr b) = inr (f b)

swap_or : {A B C : Type 0} → A ⊎ (B ⊎ C) → B ⊎ (A ⊎ C)
swap_or (inl a) = inr (inl a)
swap_or (inr (inl b)) = inl b
swap_or (inr (inr c)) = inr (inr c)

swap_near : {A B C D : Type 0} → D ↔ (A ⊎ C) → (B ⊎ D) ↔ (A ⊎ (B ⊎ C))
swap_near (to, from) = (λ n. swap_or (map_right to n), λ n. map_right from (swap_or n))

above : (lower : ℤ) (vs : List ℤ) → IsAscending lower vs → All (λ v. lower <ℤ v) vs
above lower [] h = tt
above lower (v ∷ vs) h = (h.0, All-weaken _ _ (λ w k. omega (int_laws, h.0)) vs (above v vs h.1))

near_sort_insert :
    (v : ℤ) (x : ℕ) (bs : List ℕ) → NearSome v (sort_insert x bs) ↔ NearSome v (x ∷ bs)
unfolding sort_insert
near_sort_insert v x [] = (λ n. n, λ n. n)
near_sort_insert v x (b ∷ bs) = elim (Bool-cases (leb x b)) [
  | inl below ↦ rw below (λ n. n, λ n. n)
  | inr larger ↦ rw larger (swap_near (near_sort_insert v x bs))
]

near_sort : (v : ℤ) (bs : List ℕ) → NearSome v (sort bs) ↔ NearSome v bs
unfolding sort
near_sort v [] = (λ n. n, λ n. n)
near_sort v (b ∷ bs) =
    let (to, from) = near_sort_insert v b (sort bs) in
    let (to', from') = near_sort v bs in (λ n. map_right to' (to n), λ n. from (map_right from' n))

sort_insert-IsSorted :
    (lo x : ℕ) (bs : List ℕ) → lo ≤ x → IsSorted lo bs → IsSorted lo (sort_insert x bs)
unfolding sort_insert
sort_insert-IsSorted lo x [] h k = (h, tt)
sort_insert-IsSorted lo x (b ∷ bs) h k = elim (Bool-cases (leb x b)) [
  | inl below ↦ rw below (h, (ground arith, k.1))
  | inr larger ↦ rw larger (k.0, sort_insert-IsSorted b x bs (ground arith) k.1)
]

pub sort-IsSorted : (bs : List ℕ) → IsSorted 0 (sort bs)
unfolding sort
sort-IsSorted [] = tt
sort-IsSorted (b ∷ bs) = sort_insert-IsSorted 0 b (sort bs) (omega arith) (sort-IsSorted bs)

range-IsAscending :
    (start n : ℕ) (lower : ℤ)
    → lower <ℤ pos start
    → IsAscending lower (map pos (range_from start n))
range-IsAscending start zero lower h = tt
range-IsAscending start (suc n) lower h =
    (h, range-IsAscending (start + 1) n (pos start) (omega arith))

range_below :
    (start n end : ℕ) → start + n ≤ end → All (λ v. v <ℤ pos end) (map pos (range_from start n))
range_below start zero end h = tt
range_below start (suc n) end h = (omega arith, range_below (start + 1) n end (omega arith))

-- For every bit field: no value is mutated to twice, since the values ascend strictly, and each is
-- at least 0 and below `max_num`.
pub iterate_fuzz_lib-IsAscending :
    (f : BitField)
    → IsAscending (negsuc 0) (iterate_fuzz_lib f)
      × All (λ v. v <ℤ pos f.max_num) (iterate_fuzz_lib f)
unfolding iterate_fuzz_lib
iterate_fuzz_lib-IsAscending f = elim (Bool-cases f.full_range) [
  | inl full ↦ rw full (
    range-IsAscending 0 f.max_num (negsuc 0) (omega arith),
    range_below 0 f.max_num f.max_num (omega arith),
  )
  | inr smart ↦ rw smart (
    boundaries-IsAscending f.max_num f.interesting_boundaries (negsuc 0),
    All-weaken _ _ (λ v (k, _). k) _
        (boundaries_sound f.max_num f.interesting_boundaries (negsuc 0)),
  )
]

-- 0, the bound and its fractions.
abbrev pub landmarks : ℕ → List ℕ
landmarks m = 0 ∷ m / 2 ∷ m / 3 ∷ m / 4 ∷ m / 8 ∷ m / 16 ∷ m / 32 ∷ m ∷ []

-- The bound that a field is given, if it is not 0, or else that of its width.
abbrev pub bound_of : Option ℕ → ℕ → ℕ
bound_of none width = 2 ^ width
bound_of (some zero) width = 2 ^ width
bound_of (some (suc m)) width = suc m

default_max_num-bound_of :
    (max_num : Option ℕ) (width : ℕ) → default_max_num max_num width ≡ bound_of max_num width
default_max_num-bound_of none width = refl
default_max_num-bound_of (some zero) width = refl
default_max_num-bound_of (some (suc m)) width = ground arith

-- A field with no full range is mutated to exactly the values from 0 up to `max_num`, which is left
-- out, that lie from ten below to nine above 0, `max_num`, or its half, third, quarter, eighth,
-- sixteenth or thirty-second part; a missing `max_num`, or one of 0, stands for that of the width.
pub iterate_fuzz_lib-Elem :
    (width : ℕ) (max_num : Option ℕ) (endian : Endian) (format : OutputFormat) (signed : Bool)
    (v : ℤ)
    → Elem v (iterate_fuzz_lib (bit_field width max_num endian format signed false))
      ↔ (negsuc 0 <ℤ v)
        × (v <ℤ pos (bound_of max_num width))
        × NearSome v (landmarks (bound_of max_num width))
unfolding iterate_fuzz_lib bit_field
iterate_fuzz_lib-Elem width max_num endian format signed v =
    rw (← default_max_num-bound_of max_num width) (sound, complete)
  where
    m : ℕ
    m = default_max_num max_num width

    bs : List ℕ
    bs = landmarks m

    sound :
        Elem v (iterate_boundaries m (negsuc 0) (sort bs))
        → (negsuc 0 <ℤ v) × (v <ℤ pos m) × NearSome v bs
    sound e =
        let (k, n) = All-Elem _ v _ (boundaries_sound m (sort bs) (negsuc 0)) e in
        (
          All-Elem _ v _ (above (negsuc 0) _ (boundaries-IsAscending m (sort bs) (negsuc 0))) e,
          k,
          (near_sort v bs).0 n,
        )

    complete :
        (negsuc 0 <ℤ v) × (v <ℤ pos m) × NearSome v bs
        → Elem v (iterate_boundaries m (negsuc 0) (sort bs))
    complete (h, k, n) =
        boundaries_complete m 0 (sort bs) (negsuc 0) v (sort-IsSorted bs) h k ((near_sort v bs).1 n)
