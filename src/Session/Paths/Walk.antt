-- ===== src/Session/Paths/Walk.antt =====
-- The iteration over the paths against the walks of the graph.
use boofuzz.Base.{
  ℕ, ◌≡◌, refl, ap, sym, subst, ◌∙◌, inl, inr, List, [], ◌∷◌, ◌++◌, some, ◌==◌, some_inj,
  append_assoc, Elem, Elem-append_left, Elem-append_right, Elem-append_cases, Bool-cases, ==_iff,
}
use boofuzz.Base.Dict.{lookup}
use boofuzz.Graph.{Node, Edge, Graph, edges_from}
use boofuzz.Graph.Keys.{IsNodes}
use boofuzz.Session.Paths.{pop}

pub pop_append : (path : List Edge) (e : Edge) → pop (path ++ e ∷ []) ≡ path
unfolding pop
pop_append [] e = refl
pop_append (d ∷ []) e = refl
pop_append (d ∷ f ∷ path) e = ap (λ (l : List Edge). d ∷ l) (pop_append (f ∷ path) e)

-- A node is stored under its identifier.
pub id_of_lookup :
    (k : ℕ) (m : List (ℕ × Node)) (n : Node) → IsNodes m → lookup k m ≡ some n → n.id ≡ k
unfolding lookup
id_of_lookup k [] n h e = absurd cc
id_of_lookup k ((j, v) ∷ m) n h e = elim (Bool-cases (j == k)) [
  | inl here ↦ subst (λ (w : Node). w.id ≡ k) (some_inj (rw here at e)) (h.0 ∙ (==_iff j k).0 here)
  | inr other ↦ id_of_lookup k m n h.2 (rw other at e)
]

module _ (g : Graph) where
  -- A walk from a node: each edge leaves the node that the one before it leads to.
  abbrev pub IsWalk : ℕ → List Edge → Type 0
  IsWalk id [] = Unit
  IsWalk id (e ∷ es) = Elem e (edges_from id g) × IsWalk e.dst es

  -- A walk of at least one edge, the first of which is one of `es`.
  abbrev pub StartsIn : List Edge → List Edge → Type 0
  StartsIn es [] = ⊥
  StartsIn es (e ∷ walk) = Elem e es × IsWalk e.dst walk

  -- The paths that a node's iteration yields: the walks from it that have an edge.
  abbrev pub Extends : List Edge → List Edge → List Edge → Type 0
  Extends path es y = (walk : List Edge) × (y ≡ path ++ walk) × StartsIn es walk

  -- An iteration gives back the path that it was given, without its last edge, and yields the walks.
  pub record IsIteration (path es : List Edge) (ys : List (List Edge)) : Type 0 where
    pub sound : (y : List Edge) → Elem y ys → Extends path es y
    pub complete : (walk : List Edge) → StartsIn es walk → Elem (path ++ walk) ys

  StartsIn-later : (e : Edge) (es walk : List Edge) → StartsIn es walk → StartsIn (e ∷ es) walk
  StartsIn-later e es [] h = absurd h
  StartsIn-later e es (d ∷ walk) h = (inr h.0, h.1)

  StartsIn-walk :
      (id : ℕ) (e : Edge) (walk : List Edge)
      → IsWalk id (e ∷ walk)
      → StartsIn (edges_from id g) (e ∷ walk)
  StartsIn-walk id e walk h = h

  module _ (e : Edge) (es path : List Edge) (inner rest : List (List Edge))
      (first : IsIteration (path ++ e ∷ []) (edges_from e.dst g) inner)
      (others : IsIteration path es rest) where
    abbrev extended : List Edge
    extended = path ++ e ∷ []

    sound_first :
        (y : List Edge) → Extends extended (edges_from e.dst g) y → Extends path (e ∷ es) y
    sound_first y ([], same, starts) = absurd starts
    sound_first y (d ∷ walk, same, starts) =
        (e ∷ d ∷ walk, same ∙ append_assoc path (e ∷ []) (d ∷ walk), (inl refl, starts))

    sound_case : (y : List Edge) → Elem y (extended ∷ (inner ++ rest)) → Extends path (e ∷ es) y
    sound_case y (inl here) = (e ∷ [], here, (inl refl, tt))
    sound_case y (inr later) = elim (Elem-append_cases y inner rest later) [
      | inl h ↦ sound_first y (first.sound y h)
      | inr h ↦
          let (walk, same, starts) = others.sound y h in
          (walk, same, StartsIn-later e es walk starts)
    ]

    complete_here :
        (walk : List Edge)
        → IsWalk e.dst walk
        → Elem (path ++ e ∷ walk) (extended ∷ (inner ++ rest))
    complete_here [] h = inl refl
    complete_here (d ∷ walk) h = inr (
        Elem-append_left (path ++ e ∷ d ∷ walk) inner rest (
          subst (λ (y : List Edge). Elem y inner) (append_assoc path (e ∷ []) (d ∷ walk))
            (first.complete (d ∷ walk) h)))

    complete_case :
        (walk : List Edge)
        → StartsIn (e ∷ es) walk
        → Elem (path ++ walk) (extended ∷ (inner ++ rest))
    complete_case [] h = absurd h
    complete_case (d ∷ walk) (inl here, h) =
        subst (λ (c : Edge). Elem (path ++ c ∷ walk) (extended ∷ (inner ++ rest))) (sym here)
          (complete_here walk (subst (λ (c : Edge). IsWalk c.dst walk) here h))
    complete_case (d ∷ walk) (inr later, h) =
        inr
          (Elem-append_right (path ++ d ∷ walk) inner rest (others.complete (d ∷ walk) (later, h)))

    pub IsIteration-cons : IsIteration path (e ∷ es) (extended ∷ (inner ++ rest))
    IsIteration-cons = record { sound = sound_case; complete = complete_case }

  pub IsIteration-nil : (path : List Edge) → IsIteration path [] []
  IsIteration-nil path = record { sound = λ y h. absurd h; complete = nothing }
    where
      nothing : (walk : List Edge) → StartsIn [] walk → Elem (path ++ walk) []
      nothing [] h = absurd h
      nothing (d ∷ walk) h = absurd h.0
