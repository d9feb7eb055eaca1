-- ===== src/Blocks/Build/Unique.antt =====
-- No two elements of a request have the same qualified name.
use boofuzz.Base.{
  ◌≡◌, refl, ap, sym, ◌∙◌, subst, inl, inr, true, false, List, [], ◌∷◌, ◌++◌, none, some,
  Bool-cases, some_inj,
}
use boofuzz.Base.Text.{Text, text_eq, text_mem, text_eq_iff}
use boofuzz.Blocks.Build.{Builder, Item, empty_request, name_of, push, pop, pop_from}

-- No text of the list comes twice.
abbrev pub AreDistinct : List Text → Type 0
AreDistinct [] = Unit
AreDistinct (t ∷ ts) = (text_mem t ts ≡ false) × AreDistinct ts

text_eq-sym : (s t : Text) → text_eq s t ≡ false → text_eq t s ≡ false
text_eq-sym s t h = elim (Bool-cases (text_eq t s)) [
  | inl same ↦ absurd (clash (sym ((text_eq_iff s t).1 (sym ((text_eq_iff t s).0 same))) ∙ h))
  | inr differ ↦ differ
]
  where
    clash : true ≡ false → ⊥
    clash e = cc

text_mem-append :
    (s t : Text) (ts : List Text)
    → text_mem s ts ≡ false
    → text_eq t s ≡ false
    → text_mem s (ts ++ t ∷ []) ≡ false
unfolding text_mem
text_mem-append s t [] h k = rw k refl
text_mem-append s t (u ∷ ts) h k = elim (Bool-cases (text_eq u s)) [
  | inl same ↦ absurd (clash (rw same at h))
  | inr differ ↦ rw differ (text_mem-append s t ts (rw differ at h) k)
]
  where
    clash : true ≡ false → ⊥
    clash e = cc

pub AreDistinct-append :
    (t : Text) (ts : List Text)
    → AreDistinct ts
    → text_mem t ts ≡ false
    → AreDistinct (ts ++ t ∷ [])
unfolding text_mem
AreDistinct-append t [] h k = (refl, tt)
AreDistinct-append t (u ∷ ts) h k = elim (Bool-cases (text_eq u t)) [
  | inl same ↦ absurd (clash (rw same at k))
  | inr differ ↦ (
    text_mem-append u t ts h.0 (text_eq-sym u t differ),
    AreDistinct-append t ts h.1 (rw differ at k),
  )
]
  where
    clash : true ≡ false → ⊥
    clash e = cc

-- The requests that pushes and pops build.
pub data Built : Builder → Type 0 where
  new : (name : Text) → Built (empty_request name)
  pushed : {b b' : Builder} → (item : Item) → push item b ≡ some b' → Built b → Built b'
  popped : {b b' : Builder} → pop b ≡ some b' → Built b → Built b'

push-AreDistinct :
    (item : Item) (b b' : Builder)
    → push item b ≡ some b'
    → AreDistinct b.names
    → AreDistinct b'.names
unfolding push
push-AreDistinct item b b' e h = elim (Bool-cases (text_mem (name_of item b) b.names)) [
  | inl present ↦ absurd (none_some b' (rw present at e))
  | inr absent ↦
      subst (λ (c : Builder). AreDistinct c.names) (some_inj (rw absent at e))
        (AreDistinct-append (name_of item b) b.names h absent)
]
  where
    none_some : (c : Builder) → none ≡ some c → ⊥
    none_some c e = cc

pop-names : (b b' : Builder) (blocks : List Text) → pop_from b blocks ≡ some b' → b.names ≡ b'.names
pop-names b b' [] e = absurd cc
pop-names b b' (t ∷ ts) e = ap (λ (c : Builder). c.names) (some_inj e)

-- In every request that pushes and pops build, no two elements have the same qualified name.
pub Built-AreDistinct : {b : Builder} → Built b → AreDistinct b.names
unfolding pop text_mem
Built-AreDistinct (new name) = (refl, tt)
Built-AreDistinct (pushed {b} {b'} item e r) = push-AreDistinct item b b' e (Built-AreDistinct r)
Built-AreDistinct (popped {b} {b'} e r) =
    subst AreDistinct (pop-names b b' b.block_stack e) (Built-AreDistinct r)
