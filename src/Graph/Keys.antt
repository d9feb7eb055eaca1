-- ===== src/Graph/Keys.antt =====
-- The keys of a graph's dictionaries: every operation keeps each node and edge under its own
-- identifier, and an edge's identifier that of its ends.
use boofuzz.Base.{
  ℕ, ◌≡◌, refl, sym, ap, ◌∙◌, inl, inr, Bool, false, List, [], ◌∷◌, Option, none, some, ◌==◌,
  if◌then◌else◌, arith, Bool-cases, All, ==_iff,
}
use boofuzz.Base.Dict.{lookup, insert, delete, lookup-insert}
use boofuzz.Graph.{Node, Edge, edge_id, Graph, values, first_where, all_where}

module _ {V : Type 0} (key : V → ℕ) where
  -- Each value stands under its key, and no key twice.
  abbrev pub IsKeyed : List (ℕ × V) → Type 0
  IsKeyed [] = Unit
  IsKeyed ((k, v) ∷ m) = (key v ≡ k) × (lookup k m ≡ none) × IsKeyed m

  pub lookup-delete-none :
      (k j : ℕ) (m : List (ℕ × V)) → lookup j m ≡ none → lookup j (delete k m) ≡ none
  unfolding lookup delete
  lookup-delete-none k j [] h = refl
  lookup-delete-none k j ((i, v) ∷ m) h = ground (arith, lookup-delete-none k j m)

  pub insert-IsKeyed :
      (k : ℕ) (v : V) (m : List (ℕ × V)) → key v ≡ k → IsKeyed m → IsKeyed (insert k v m)
  unfolding insert lookup
  insert-IsKeyed k v [] e h = (e, refl, tt)
  insert-IsKeyed k v ((j, w) ∷ m) e h = elim (Bool-cases (j == k)) [
    | inl here ↦ rw here (e, ap (λ (i : ℕ). lookup i m) (sym ((==_iff j k).0 here)) ∙ h.1, h.2)
    | inr other ↦
        rw other (h.0, lookup-insert k j v m ∙ rw (differs other) h.1, insert-IsKeyed k v m e h.2)
  ]
    where
      differs : (j == k) ≡ false → (k == j) ≡ false
      differs other = ground arith

  pub delete-IsKeyed : (k : ℕ) (m : List (ℕ × V)) → IsKeyed m → IsKeyed (delete k m)
  unfolding delete
  delete-IsKeyed k [] h = tt
  delete-IsKeyed k ((j, w) ∷ m) h = elim (Bool-cases (j == k)) [
    | inl here ↦ rw here h.2
    | inr other ↦ rw other (h.0, lookup-delete-none k j m h.1, delete-IsKeyed k m h.2)
  ]

  -- Under its own keys, a search of the values for an identifier finds what the key finds.
  pub first_where-IsKeyed :
      (k : ℕ) (m : List (ℕ × V)) → IsKeyed m → first_where (λ v. key v == k) (values m) ≡ lookup k m
  unfolding first_where lookup
  first_where-IsKeyed k [] h = refl
  first_where-IsKeyed k ((j, v) ∷ m) h =
      rw h.0 (ap (λ (o : Option V). if j == k then some v else o) (first_where-IsKeyed k m h.2))

  pub lookup-delete_self : (k : ℕ) (m : List (ℕ × V)) → IsKeyed m → lookup k (delete k m) ≡ none
  unfolding lookup delete
  lookup-delete_self k [] h = refl
  lookup-delete_self k ((i, v) ∷ m) h = elim (Bool-cases (i == k)) [
    | inl here ↦ rw here (ap (λ (n : ℕ). lookup n m) (sym ((==_iff i k).0 here)) ∙ h.1)
    | inr other ↦ rw (other, other) (lookup-delete_self k m h.2)
  ]

  pub lookup-delete_other :
      (k j : ℕ) (m : List (ℕ × V)) → (k == j) ≡ false → lookup j (delete k m) ≡ lookup j m
  unfolding lookup delete
  lookup-delete_other k j [] h = refl
  lookup-delete_other k j ((i, v) ∷ m) h = ground (arith, lookup-delete_other k j m)

module _ {V : Type 0} (P : V → Type 0) where
  All-insert :
      (k : ℕ) (v : V) (m : List (ℕ × V)) → P v → All P (values m) → All P (values (insert k v m))
  unfolding insert
  All-insert k v [] h hs = (h, tt)
  All-insert k v ((j, w) ∷ m) h hs = elim (Bool-cases (j == k)) [
    | inl here ↦ rw here (h, hs.1)
    | inr other ↦ rw other (hs.0, All-insert k v m h hs.1)
  ]

  All-delete : (k : ℕ) (m : List (ℕ × V)) → All P (values m) → All P (values (delete k m))
  unfolding delete
  All-delete k [] hs = tt
  All-delete k ((j, w) ∷ m) hs = elim (Bool-cases (j == k)) [
    | inl here ↦ rw here hs.1
    | inr other ↦ rw other (hs.0, All-delete k m hs.1)
  ]

  pub All-all_where : (p : V → Bool) (vs : List V) → All P vs → All P (all_where p vs)
  unfolding all_where
  All-all_where p [] h = tt
  All-all_where p (v ∷ vs) h = elim (Bool-cases (p v)) [
    | inl passes ↦ rw passes (h.0, All-all_where p vs h.1)
    | inr fails ↦ rw fails (All-all_where p vs h.1)
  ]

-- An edge has the identifier of its ends.
abbrev pub IsIdentified : Edge → Type 0
IsIdentified e = e.id ≡ edge_id e.src e.dst

abbrev pub IsNodes : List (ℕ × Node) → Type 0
IsNodes = IsKeyed (λ n. n.id)

abbrev pub IsEdges : List (ℕ × Edge) → Type 0
IsEdges m = IsKeyed (λ e. e.id) m × All IsIdentified (values m)

pub insert-IsEdges :
    (e : Edge) (m : List (ℕ × Edge)) → IsIdentified e → IsEdges m → IsEdges (insert e.id e m)
insert-IsEdges e m i h =
    (insert-IsKeyed (λ e. e.id) e.id e m refl h.0, All-insert IsIdentified e.id e m i h.1)

pub delete-IsEdges : (k : ℕ) (m : List (ℕ × Edge)) → IsEdges m → IsEdges (delete k m)
delete-IsEdges k m h = (delete-IsKeyed (λ e. e.id) k m h.0, All-delete IsIdentified k m h.1)

-- Every node and edge stands under its identifier, none twice, and an edge has the identifier of
-- its ends.
abbrev pub IsWellFormed : Graph → Type 0
IsWellFormed g = IsNodes g.nodes × IsEdges g.edges
