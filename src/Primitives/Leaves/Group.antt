-- ===== src/Primitives/Leaves/Group.antt =====
-- The values of a group.
use boofuzz.Base.{
  ℕ, ◌≡◌, ◌⊎◌, subst, refl, sym, ◌∙◌, inl, inr, Bool, true, false, List, [], ◌∷◌, Option, some,
  Elem, if◌then◌else◌, bind_cases,
}
use boofuzz.Base.Text.{Text, text_eq, eq_of_text_eq}
use boofuzz.Blocks.Element.{Value}
use boofuzz.Primitives.Leaves.{encode_values, remove, group_default, without_default, group_init}

remove-Elem :
    (value v : List ℕ) (bs : List (List ℕ)) → Elem v bs → (v ≡ value) ⊎ Elem v (remove value bs)
unfolding remove
remove-Elem value v [] h = absurd h
remove-Elem value v (b ∷ bs) h = decide (text_eq b value) refl h (remove-Elem value v bs)
  where
    decide :
        (c : Bool)
        → text_eq b value ≡ c
        → Elem v (b ∷ bs)
        → (Elem v bs → (v ≡ value) ⊎ Elem v (remove value bs))
        → (v ≡ value) ⊎ Elem v (if c then bs else b ∷ remove value bs)
    decide true e (inl here) ih = inl (here ∙ eq_of_text_eq b value e)
    decide true e (inr later) ih = inr later
    decide false e (inl here) ih = inr (inl here)
    decide false e (inr later) ih = elim (ih later) [ inl eq ↦ inl eq | inr m ↦ inr (inr m) ]

Elem-remove : (value v : List ℕ) (bs : List (List ℕ)) → Elem v (remove value bs) → Elem v bs
unfolding remove
Elem-remove value v [] h = absurd h
Elem-remove value v (b ∷ bs) h = decide (text_eq b value) h (Elem-remove value v bs)
  where
    decide :
        (c : Bool)
        → Elem v (if c then bs else b ∷ remove value bs)
        → (Elem v (remove value bs) → Elem v bs)
        → Elem v (b ∷ bs)
    decide true m ih = inr m
    decide false (inl here) ih = inl here
    decide false (inr m) ih = inr (ih m)

-- A group is set up with a default value and mutations: every value that was given, encoded, is the
-- default value or one of the mutations, and every mutation is one that was given.
pub group_init-Elem :
    (encode : Text → Option (List ℕ)) (values : List Value) (default_value : Option Value)
    (chosen : List ℕ) (mutations encoded : List (List ℕ))
    → group_init encode values default_value ≡ some (chosen, mutations)
    → encode_values encode values ≡ some encoded
    → (v : List ℕ)
    → (Elem v encoded → (v ≡ chosen) ⊎ Elem v mutations) × (Elem v mutations → Elem v encoded)
unfolding group_init
group_init-Elem encode values d chosen mutations encoded e f v = (
  λ h. subst (λ l. (v ≡ chosen) ⊎ Elem v l) left (remove-Elem chosen v encoded h),
  λ h. Elem-remove chosen v encoded (subst (λ l. Elem v l) (sym left) h),
)
  where
    values_of :
        (bs : List (List ℕ)) × (encode_values encode values ≡ some bs)
        × (without_default encode d bs ≡ some (chosen, mutations))
    values_of = bind_cases (encode_values encode values) _ (chosen, mutations) e

    choice_of :
        (c : List ℕ) × (group_default encode d values_of.0 ≡ some c)
        × (◌≡◌ {A = Option (List ℕ × List (List ℕ))}
            (some (c, remove c values_of.0))
            (some (chosen, mutations)))
    choice_of =
        bind_cases (group_default encode d values_of.0) (λ c. some (c, remove c values_of.0))
          (chosen, mutations) values_of.2

    left : remove chosen encoded ≡ mutations
    left = cc (choice_of.2, values_of.1, f)
