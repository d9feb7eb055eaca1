-- ===== src/Primitives/BitField/FuzzLib/Window.antt =====
-- One boundary's window of values, and what the loop over it yields.
use boofuzz.Base.{
  ℕ, zero, suc, ◌≡◌, refl, inl, inr, Bool, true, false, ◌&&◌, List, [], ◌∷◌, ◌++◌, All, Elem, arith,
  Bool-cases, if◌then◌else◌,
}
use boofuzz.Base.Int.{ℤ, pos, ◌+ℤ◌, ◌≤ℤ◌, ◌<ℤ◌, ltb_ℤ, int_laws, eq_of_parts}
use boofuzz.Primitives.BitField.{yield_cases, last_yielded}

-- Each value is above the one before it, and the first above `lower`.
abbrev pub IsAscending : ℤ → List ℤ → Type 0
IsAscending lower [] = Unit
IsAscending lower (v ∷ vs) = (lower <ℤ v) × IsAscending v vs

pub ltb_ℤ→lt : (a b : ℤ) → ltb_ℤ a b ≡ true → a <ℤ b
ltb_ℤ→lt a b h = ground arith

pub lt→ltb_ℤ : (a b : ℤ) → a <ℤ b → ltb_ℤ a b ≡ true
lt→ltb_ℤ a b h = ground arith

pub ltb_ℤ→ge : (a b : ℤ) → ltb_ℤ a b ≡ false → b ≤ℤ a
ltb_ℤ→ge a b h = ground arith

abbrev pub InWindow : ℤ → ℕ → ℤ → Type 0
InWindow case n v = (case ≤ℤ v) × (v <ℤ case +ℤ pos n)

pub IsAscending-if :
    (b : Bool) (lower v : ℤ) (vs : List ℤ)
    → (b ≡ true → lower <ℤ v)
    → IsAscending lower vs
    → IsAscending v vs
    → IsAscending lower (if b then v ∷ vs else vs)
IsAscending-if true lower v vs h k l = (h refl, l)
IsAscending-if false lower v vs h k l = k

pub All-if :
    (P : ℤ → Type 0) (b : Bool) (v : ℤ) (vs : List ℤ)
    → (b ≡ true → P v)
    → All P vs
    → All P (if b then v ∷ vs else vs)
All-if P true v vs h k = (h refl, k)
All-if P false v vs h k = k

pub Elem-if_head : (b : Bool) (v : ℤ) (vs : List ℤ) → b ≡ true → Elem v (if b then v ∷ vs else vs)
Elem-if_head true v vs h = inl refl
Elem-if_head false v vs h = cc

pub Elem-if_tail :
    (b : Bool) (v w : ℤ) (vs : List ℤ) → Elem v vs → Elem v (if b then w ∷ vs else vs)
Elem-if_tail true v w vs h = inr h
Elem-if_tail false v w vs h = h

pub All-weaken : (P Q : ℤ → Type 0) → ((v : ℤ) → P v → Q v) → (vs : List ℤ) → All P vs → All Q vs
All-weaken P Q f [] h = tt
All-weaken P Q f (v ∷ vs) h = (f v h.0, All-weaken P Q f vs h.1)

module _ (max_num : ℕ) (lower case : ℤ) where
  abbrev pub is_yielded : Bool
  is_yielded = ltb_ℤ lower case && ltb_ℤ case (pos max_num)

  pub is_yielded_iff : is_yielded ≡ true → (lower <ℤ case) × (case <ℤ pos max_num)
  is_yielded_iff e = ground arith

  pub is_yielded_of_lt : lower <ℤ case → case <ℤ pos max_num → is_yielded ≡ true
  is_yielded_of_lt h k = ground arith

pub first_case : (n : ℕ) (case v : ℤ) → InWindow case (suc n) v → ltb_ℤ case v ≡ false → case ≡ v
first_case n case v w now = eq_of_parts case v (ground arith)

module _ (max_num : ℕ) where
  pub last-lt :
      (lower bound : ℤ) (vs : List ℤ)
      → lower <ℤ bound
      → All (λ v. v <ℤ bound) vs
      → last_yielded max_num lower vs <ℤ bound
  unfolding last_yielded
  last-lt lower bound [] h k = h
  last-lt lower bound (v ∷ vs) h k = last-lt v bound vs k.0 k.1

  pub IsAscending-append :
      (lower : ℤ) (vs ws : List ℤ)
      → IsAscending lower vs
      → IsAscending (last_yielded max_num lower vs) ws
      → IsAscending lower (vs ++ ws)
  unfolding last_yielded
  IsAscending-append lower [] ws h k = k
  IsAscending-append lower (v ∷ vs) ws h k = (h.0, IsAscending-append v vs ws h.1 k)

  pub cases-IsAscending :
      (n : ℕ) (lower case border : ℤ)
      → lower <ℤ case
      → IsAscending lower (yield_cases max_num n border case)
  unfolding yield_cases
  cases-IsAscending zero lower case border k = tt
  cases-IsAscending (suc n) lower case border k =
      IsAscending-if (is_yielded max_num border case) lower case _ (λ _. k)
        (cases-IsAscending n lower (case +ℤ pos 1) border (omega int_laws))
        (cases-IsAscending n case (case +ℤ pos 1) border (omega int_laws))

  pub cases_from_border :
      (n : ℕ) (case border : ℤ) → IsAscending border (yield_cases max_num n border case)
  unfolding yield_cases
  cases_from_border zero case border = tt
  cases_from_border (suc n) case border =
      IsAscending-if (is_yielded max_num border case) border case _
        (λ e. (is_yielded_iff max_num border case e).0) (cases_from_border n (case +ℤ pos 1) border)
        (cases-IsAscending n case (case +ℤ pos 1) border (omega int_laws))

  pub cases_sound :
      (n : ℕ) (lower case : ℤ)
      → All
          (λ v. (lower <ℤ v) × (v <ℤ pos max_num) × InWindow case n v)
          (yield_cases max_num n lower case)
  unfolding yield_cases
  cases_sound zero lower case = tt
  cases_sound (suc n) lower case =
      All-if _ (is_yielded max_num lower case) case _
        (λ e.
          let (h, k) = is_yielded_iff max_num lower case e in
          (h, k, (omega int_laws, omega int_laws)))
        (All-weaken _ _ (λ v (h, k, w). (h, k, (omega (int_laws, w), omega (int_laws, w)))) _
          (cases_sound n lower (case +ℤ pos 1)))

  pub cases_complete :
      (n : ℕ) (lower case v : ℤ)
      → lower <ℤ v
      → v <ℤ pos max_num
      → InWindow case n v
      → Elem v (yield_cases max_num n lower case)
  unfolding yield_cases
  cases_complete zero lower case v h k w = absurd (omega int_laws)
  cases_complete (suc n) lower case v h k w = elim (Bool-cases (ltb_ℤ case v)) [
    | inl later ↦ Elem-if_tail (is_yielded max_num lower case) v case _ (
        cases_complete n lower (case +ℤ pos 1) v h k
          (omega (int_laws, ltb_ℤ→lt case v later), omega int_laws))
    | inr now ↦
        let e : case ≡ v = first_case n case v w now in
        rw e (Elem-if_head (is_yielded max_num lower v) v _ (is_yielded_of_lt max_num lower v h k))
  ]
