-- ===== src/Blocks/Mutations/Count.antt =====
-- The number of mutations that an element announces against those that it yields.
use native.Mathlib.Nat.{mul-suc}
use boofuzz.Base.{
  ℕ, zero, suc, ◌+◌, ◌*◌, ◌≡◌, refl, ap, ap₂, sym, ◌∙◌, inl, inr, Bool, true, false, List, [], ◌∷◌,
  ◌++◌, Option, none, some, ◌>>=◌, length, map, if◌then◌else◌, All, length-append, length-map,
  arith, Bool-cases,
}
use boofuzz.Base.Text.{Text, text_mem}
use boofuzz.Blocks.Element.{
  Info, Leaf, BlockKind, block, aligned, request, Element, leaf, node, Elements, nil, cons, info,
  qualified_name_of,
}
use boofuzz.Blocks.Values.{plain}
use boofuzz.Blocks.Render.{Message, target_of}
use boofuzz.Blocks.Render.Stable.{target_of-All}
use boofuzz.Blocks.Mutations.{
  Mutation, Yielded, value, combination, is_fuzzable, stack_mutations, combine, stack_num_mutations,
  numbered, block_mutations, block_num_mutations, when_fuzzable, get_mutations, get_num_mutations,
}
use boofuzz.Blocks.Mutations.Numbers.{length-number_mutations}

abbrev pub size_of : {A : Type 0} → Option (List A) → Option ℕ
size_of none = none
size_of (some xs) = some (length xs)

size_of-bind :
    {A B : Type 0} (o : Option (List A)) (f : List A → Option (List B)) (h : ℕ → Option ℕ)
    → ((xs : List A) → size_of (f xs) ≡ h (length xs))
    → size_of (o >>= f) ≡ (size_of o >>= h)
size_of-bind none f h e = refl
size_of-bind (some xs) f h e = e xs

size_of-bind_same :
    {A B : Type 0} (o : Option A) (f : A → Option (List B)) (h : A → Option ℕ)
    → ((a : A) → o ≡ some a → size_of (f a) ≡ h a)
    → size_of (o >>= f) ≡ (o >>= h)
size_of-bind_same none f h e = refl
size_of-bind_same (some a) f h e = e a refl

length-combine : (gs own : List (List Mutation)) → length (combine gs own) ≡ length own * length gs
unfolding combine
length-combine [] own = omega arith
length-combine (g ∷ gs) own =
    length-append (map (λ us. g ++ us) own) (combine gs own)
    ∙ (ap₂ (λ (a b : ℕ). a + b) (length-map own (λ us. g ++ us)) (length-combine gs own)
        ∙ omega (arith, mul-suc (length own) (length gs)))

length-numbered :
    (e : Element) (ys : List Yielded)
    → length (numbered e ys) ≡ length ys + length (info e).fuzz_values
length-numbered e ys =
    length-number_mutations (qualified_name_of e) 0 0 _
    ∙ (length-append ys _
        ∙ ap (λ (n : ℕ). length ys + n) (length-map (info e).fuzz_values (λ v. value (plain v))))

module _ (m : Message) where
  -- What a group refers to is fuzzable.
  abbrev pub IsFuzzableGroup : Info → Option Text → Type 0
  IsFuzzableGroup i none = Unit
  IsFuzzableGroup i (some group) =
      (t : Element) → target_of m i group ≡ some t → is_fuzzable t ≡ true

  abbrev pub IsGroupedKind : Info → BlockKind → Type 0
  IsGroupedKind i (block spec) = IsFuzzableGroup i spec.group
  IsGroupedKind i _ = Unit

  abbrev mutual
    pub IsGrouped : Element → Type 0
    IsGrouped (leaf i k) = Unit
    IsGrouped (node i k es) = IsGroupedKind i k × AreGrouped es

    pub AreGrouped : Elements → Type 0
    AreGrouped nil = Unit
    AreGrouped (cons e es) = IsGrouped e × AreGrouped es

  module _ (library : Info → Leaf → List Yielded) (library_size : Info → Leaf → ℕ)
      (sized : (i : Info) (k : Leaf) → library_size i k ≡ length (library i k))
      (named : All (λ (x : Text × Element). IsGrouped x.1) m.names) where
    abbrev Announced : ℕ → Element → Type 0
    Announced fuel e =
        is_fuzzable e ≡ true
        → size_of (get_mutations m library library_size fuel e)
          ≡ get_num_mutations m library library_size fuel e

    quiet :
        (fuel : ℕ) (e : Element)
        → is_fuzzable e ≡ false
        → get_mutations m library library_size fuel e ≡ some []
    unfolding get_mutations
    quiet zero e h = rw h refl
    quiet (suc fuel) (leaf i k) h = rw h refl
    quiet (suc fuel) (node i (request open_block) es) h = absurd cc
    quiet (suc fuel) (node i (block spec) es) h = rw h refl
    quiet (suc fuel) (node i (aligned modulus pattern) es) h = rw h refl

    module _ (fuel : ℕ) (announced : (e : Element) → IsGrouped e → Announced fuel e) where
      item_lem :
          (e : Element)
          → IsGrouped e
          → size_of (get_mutations m library library_size fuel e)
            ≡ (if is_fuzzable e then get_num_mutations m library library_size fuel e else some 0)
      item_lem e h = elim (Bool-cases (is_fuzzable e)) [
        | inl on ↦ announced e h on ∙ rw on refl
        | inr off ↦ ap size_of (quiet fuel e off) ∙ rw off refl
      ]

      stack_lem :
          (es : Elements)
          → AreGrouped es
          → size_of (stack_mutations (get_mutations m library library_size fuel) [] es)
            ≡ stack_num_mutations (get_num_mutations m library library_size fuel) es
      unfolding stack_mutations stack_num_mutations text_mem
      stack_lem nil h = refl
      stack_lem (cons e es) h =
          size_of-bind (get_mutations m library library_size fuel e) _
            (λ first.
              stack_num_mutations (get_num_mutations m library library_size fuel) es >>= λ rest.
              some (first + rest))
            (λ xs.
              size_of-bind (stack_mutations (get_mutations m library library_size fuel) [] es) _
                (λ rest. some (length xs + rest)) (λ ys. ap some (length-append xs ys))
              ∙ ap (λ (o : Option ℕ). o >>= λ rest. some (length xs + rest)) (stack_lem es h.1))
          ∙ ap
              (λ (o : Option ℕ). o >>= λ first.
                stack_num_mutations (get_num_mutations m library library_size fuel) es >>= λ rest.
                some (first + rest))
              (item_lem e h.0)

      block_lem :
          (i : Info) (group : Option Text) (es : Elements)
          → IsFuzzableGroup i group
          → AreGrouped es
          → size_of (
              block_mutations m library library_size
                (get_mutations m library library_size fuel)
                i
                group
                es)
            ≡ block_num_mutations m library library_size
                (get_num_mutations m library library_size fuel)
                i
                group
                es
      unfolding block_mutations block_num_mutations
      block_lem i none es f h = stack_lem es h
      block_lem i (some group) es f h =
          size_of-bind (stack_mutations (get_mutations m library library_size fuel) [] es) _
            (λ n. target_of m i group >>= λ t.
              get_num_mutations m library library_size fuel t >>= λ k. some (n + n * k))
            (λ own. size_of-bind_same (target_of m i group) _ _ (λ t leads.
              size_of-bind (get_mutations m library library_size fuel t) _
                (λ k. some (length own + length own * k))
                (λ gs. ap some (
                  length-append own (combine gs own)
                  ∙ ap (λ (k : ℕ). length own + k) (length-combine gs own)))
              ∙ ap (λ (o : Option ℕ). o >>= λ k. some (length own + length own * k))
                  (announced t (target_of-All IsGrouped m i group t named leads) (f t leads))))
          ∙ ap
              (λ (o : Option ℕ). o >>= λ n. target_of m i group >>= λ t.
                get_num_mutations m library library_size fuel t >>= λ k. some (n + n * k))
              (stack_lem es h)

    whole :
        (e : Element) (o : Option (List (List Mutation))) (n : Option ℕ)
        → size_of o ≡ n
        → size_of (o >>= λ us. some (numbered e (map combination us)))
          ≡ (n >>= λ k. some (k + length (info e).fuzz_values))
    whole e o n h =
        size_of-bind o _ (λ k. some (k + length (info e).fuzz_values))
          (λ us. ap some (
            length-numbered e (map combination us)
            ∙ ap (λ (k : ℕ). k + length (info e).fuzz_values) (length-map us combination)))
        ∙ ap (λ (c : Option ℕ). c >>= λ k. some (k + length (info e).fuzz_values)) h

    when_on :
        (e : Element) (o : Option (List (List Mutation)))
        → is_fuzzable e ≡ true
        → when_fuzzable m library library_size e o ≡ o
    when_on e o on = ap (λ (b : Bool). if b then o else some []) on

    -- Leaves that announce as many mutations as they yield, and groups that refer to fuzzable
    -- elements whose own groups do: a fuzzable element announces exactly as many mutations as it
    -- yields, nested blocks, their groups and fuzz_values included, and fails where these fail.
    pub get_num_mutations-get_mutations :
        (fuel : ℕ) (e : Element)
        → IsGrouped e
        → is_fuzzable e ≡ true
        → size_of (get_mutations m library library_size fuel e)
          ≡ get_num_mutations m library library_size fuel e
    unfolding get_mutations get_num_mutations
    get_num_mutations-get_mutations zero e h on = rw on refl
    get_num_mutations-get_mutations (suc fuel) (leaf i k) h on =
        ap size_of (when_on (leaf i k) _ on)
        ∙ ap some (
            length-numbered (leaf i k) (library i k)
            ∙ ap (λ (n : ℕ). n + length i.fuzz_values) (sym (sized i k)))
    get_num_mutations-get_mutations (suc fuel) (node i (request open_block) es) h on =
        stack_lem fuel (get_num_mutations-get_mutations fuel) es h.1
    get_num_mutations-get_mutations (suc fuel) (node i (block spec) es) h on =
        ap size_of (when_on (node i (block spec) es) _ on)
        ∙ whole (node i (block spec) es) _ _
            (block_lem fuel (get_num_mutations-get_mutations fuel) i spec.group es h.0 h.1)
    get_num_mutations-get_mutations (suc fuel) (node i (aligned modulus pattern) es) h on =
        ap size_of (when_on (node i (aligned modulus pattern) es) _ on)
        ∙ whole (node i (aligned modulus pattern) es) _ _
            (stack_lem fuel (get_num_mutations-get_mutations fuel) es h.1)
