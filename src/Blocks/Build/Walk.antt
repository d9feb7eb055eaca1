-- ===== src/Blocks/Build/Walk.antt =====
-- `Request.walk` (boofuzz/blocks/request.py), run to its end: the elements it yields. It calls itself
-- for each block, so it takes fuel for the depth of the calls; `none` is a RecursionError.
use boofuzz.Base.{
  ℕ, zero, suc, ◌≤◌, ◌<◌, ◌≡◌, ◌⊎◌, inl, inr, refl, ap, ◌∙◌, max, List, [], ◌∷◌, ◌++◌, Option, none,
  some, ◌>>=◌, arith,
}
use boofuzz.Blocks.Element.{Info, BlockKind, Element, leaf, node, Elements, nil, cons}

-- The loop over a stack, for what the call on a block's stack yields.
unfoldable pub walk_items : (Elements → Option (List Element)) → Elements → Option (List Element)
walk_items step_into nil = some []
walk_items step_into (cons (leaf i k) es) = do
  rest ← walk_items step_into es
  some (leaf i k ∷ rest)
walk_items step_into (cons (node i k stack) es) = do
  first ← step_into stack
  rest ← walk_items step_into es
  some (first ++ rest)

-- `if not stack: stack = self.stack`.
abbrev pub chosen_stack : Elements → Elements → Elements
chosen_stack request_stack nil = request_stack
chosen_stack request_stack (cons e es) = cons e es

unfoldable pub walk : ℕ → (request_stack stack : Elements) → Option (List Element)
walk zero request_stack stack = none
walk (suc fuel) request_stack stack =
    walk_items (walk fuel request_stack) (chosen_stack request_stack stack)

-- The elements that are no blocks, in order.
abbrev mutual
  pub leaves_of : Element → List Element
  leaves_of (leaf i k) = leaf i k ∷ []
  leaves_of (node i k es) = leaves es

  pub leaves : Elements → List Element
  leaves nil = []
  leaves (cons e es) = leaves_of e ++ leaves es

-- The number of blocks around the innermost element.
abbrev mutual
  pub depth_of : Element → ℕ
  depth_of (leaf i k) = 0
  depth_of (node i k es) = suc (depth es)

  pub depth : Elements → ℕ
  depth nil = 0
  depth (cons e es) = max (depth_of e) (depth es)

abbrev IsSome : Elements → Type 0
IsSome nil = ⊥
IsSome (cons e es) = Unit

-- Some block, at any depth, is empty.
abbrev mutual
  pub HasEmptyOf : Element → Type 0
  HasEmptyOf (leaf i k) = ⊥
  HasEmptyOf (node i k nil) = Unit
  HasEmptyOf (node i k (cons e es)) = HasEmptyOf e ⊎ HasEmpty es

  pub HasEmpty : Elements → Type 0
  HasEmpty nil = ⊥
  HasEmpty (cons e es) = HasEmptyOf e ⊎ HasEmpty es

-- No block is empty.
abbrev mutual
  pub IsFilledOf : Element → Type 0
  IsFilledOf (leaf i k) = Unit
  IsFilledOf (node i k es) = IsSome es × IsFilled es

  pub IsFilled : Elements → Type 0
  IsFilled nil = Unit
  IsFilled (cons e es) = IsFilledOf e × IsFilled es

module _ (fuel : ℕ) (step_into : Elements → Option (List Element))
    (steps : (es : Elements)
      → IsSome es
      → IsFilled es
      → depth es < fuel
      → step_into es ≡ some (leaves es)) where
  items_lem :
      (es : Elements) → IsFilled es → depth es ≤ fuel → walk_items step_into es ≡ some (leaves es)
  unfolding walk_items
  items_lem nil h d = refl
  items_lem (cons (leaf i k) es) h d =
      ap (λ (o : Option (List Element)). o >>= λ rest. some (leaf i k ∷ rest))
        (items_lem es h.1 (omega (arith, d)))
  items_lem (cons (node i k stack) es) h d =
      ap
        (λ (o : Option (List Element)).
          o >>= λ first. walk_items step_into es >>= λ rest. some (first ++ rest))
        (steps stack h.0.0 h.0.1 (omega (arith, d)))
      ∙ ap (λ (o : Option (List Element)). o >>= λ rest. some (leaves stack ++ rest))
          (items_lem es h.1 (omega (arith, d)))

no_items : (fuel : ℕ) → walk (suc fuel) nil nil ≡ some []
unfolding walk walk_items
no_items fuel = refl

walk_stack :
    (fuel : ℕ) (request_stack es : Elements)
    → IsSome es
    → IsFilled es
    → depth es < fuel
    → walk fuel request_stack es ≡ some (leaves es)
unfolding walk
walk_stack zero r es s h d = absurd (omega (arith, d))
walk_stack (suc fuel) r nil s h d = absurd s
walk_stack (suc fuel) r (cons e es) s h d =
    items_lem fuel (walk fuel r) (walk_stack fuel r) (cons e es) h (omega arith)

nothing :
    {A B : Type 0} (o : Option A) (f : A → Option B) → ((a : A) → f a ≡ none) → (o >>= f) ≡ none
nothing none f h = refl
nothing (some a) f h = h a

module _ (step_into : Elements → Option (List Element)) (on_nil : step_into nil ≡ none)
    (on_HasEmpty : (es : Elements) → HasEmpty es → step_into es ≡ none) where
  within_block :
      (es : Elements) (i : Info) (k : BlockKind) → HasEmptyOf (node i k es) → step_into es ≡ none
  within_block nil i k h = on_nil
  within_block (cons e es) i k h = on_HasEmpty (cons e es) h

  items_none : (es : Elements) → HasEmpty es → walk_items step_into es ≡ none
  unfolding walk_items
  items_none nil h = absurd h
  items_none (cons (leaf i k) es) (inl h) = absurd h
  items_none (cons (leaf i k) es) (inr h) =
      ap (λ (o : Option (List Element)). o >>= λ rest. some (leaf i k ∷ rest)) (items_none es h)
  items_none (cons (node i k stack) es) (inl h) =
      ap
        (λ (o : Option (List Element)).
          o >>= λ first. walk_items step_into es >>= λ rest. some (first ++ rest))
        (within_block stack i k h)
  items_none (cons (node i k stack) es) (inr h) = nothing (step_into stack) _ (λ first.
      ap (λ (o : Option (List Element)). o >>= λ rest. some (first ++ rest)) (items_none es h))

module _ (r : Elements) (has : HasEmpty r) where
  stopped : (es : Elements) → walk zero r es ≡ none
  unfolding walk
  stopped es = refl

  resume :
      (fuel : ℕ) (es : Elements)
      → walk (suc fuel) r es ≡ walk_items (walk fuel r) (chosen_stack r es)
  unfolding walk
  resume fuel es = refl

  mutual
    restart : (fuel : ℕ) → walk fuel r nil ≡ none
    restart zero = stopped nil
    restart (suc fuel) =
        resume fuel nil ∙ items_none (walk fuel r) (restart fuel) (stuck fuel) r has

    stuck : (fuel : ℕ) (es : Elements) → HasEmpty es → walk fuel r es ≡ none
    stuck zero es h = stopped es
    stuck (suc fuel) nil h = absurd h
    stuck (suc fuel) (cons e es) h =
        resume fuel (cons e es) ∙ items_none (walk fuel r) (restart fuel) (stuck fuel) (cons e es) h

-- Where no block is empty, fuel that exceeds the depth is enough, and the walk yields the elements
-- that are no blocks in order. Where a block, at any depth, is empty, the walk does not come to an
-- end: no fuel is enough, since the walk of the empty block starts over with the whole request.
pub walk-leaves :
    (es : Elements)
    → (IsFilled es → (fuel : ℕ) → depth es < fuel → walk fuel es es ≡ some (leaves es))
      × (HasEmpty es → (fuel : ℕ) → walk fuel es es ≡ none)
walk-leaves es = (filled es, λ h fuel. stuck es h fuel es h)
  where
    filled :
        (fs : Elements)
        → IsFilled fs
        → (fuel : ℕ) → depth fs < fuel
        → walk fuel fs fs ≡ some (leaves fs)
    filled nil h zero d = absurd (omega (arith, d))
    filled nil h (suc fuel) d = no_items fuel
    filled (cons e fs) h fuel d = walk_stack fuel (cons e fs) (cons e fs) tt h d
