-- ===== src/Static/Sound.antt =====
-- Requests that pushes and pops build, kept so by each function.
use boofuzz.Base.{
  ◌≡◌, refl, sym, ◌∙◌, Bool, true, false, List, [], ◌∷◌, ◌++◌, Option, none, some, ◌>>=◌,
  if◌then◌else◌, All, All-append, bind_cases, some_inj, subst,
}
use boofuzz.Base.Text.{Text, text_eq, text_eq_self}
use boofuzz.Primitives.Leaves.Sources.{Source}
use boofuzz.Blocks.Names.{lookup_name}
use boofuzz.Blocks.Element.{Element}
use boofuzz.Blocks.Build.{push, pop}
use boofuzz.Blocks.Build.Unique.{Built}
use boofuzz.Blocks.Build.Tree.{item_of, push_element, pop_block}
use boofuzz.Static.{
  Definition, Globals, empty_definition, s_initialize, s_switch, put_request, on_current,
  fresh_name, push_from, pushed, popped,
}
use boofuzz.Static.Current.{on_current-HasChanged}

-- The request is one that pushes and pops build.
abbrev pub IsBuilt : Definition → Type 0
IsBuilt d = Built d.tree.builder

abbrev pub AllBuilt : List (Text × Definition) → Type 0
AllBuilt rs = All (λ (r : Text × Definition). IsBuilt r.1) rs

-- The current request is among the requests.
abbrev pub IsChosen : Globals → Type 0
IsChosen g =
    (name : Text)
    → g.current ≡ some name
    → (d : Definition) × (lookup_name name g.requests ≡ some d)

abbrev pub IsSound : Globals → Type 0
IsSound g = AllBuilt g.requests × IsChosen g

lookup-IsBuilt :
    (name : Text) (d : Definition) (rs : List (Text × Definition))
    → AllBuilt rs
    → lookup_name name rs ≡ some d
    → IsBuilt d
unfolding lookup_name
lookup-IsBuilt name d [] h e = absurd cc
lookup-IsBuilt name d ((n, o) ∷ rs) h e = decide (text_eq n name) e (lookup-IsBuilt name d rs h.1)
  where
    decide :
        (b : Bool)
        → (if b then some o else lookup_name name rs) ≡ some d
        → (lookup_name name rs ≡ some d → IsBuilt d)
        → IsBuilt d
    decide true k ih = subst (λ x. IsBuilt x) (some_inj k) h.0
    decide false k ih = ih k

put_request-AllBuilt :
    (name : Text) (d : Definition) (rs : List (Text × Definition))
    → AllBuilt rs
    → IsBuilt d
    → AllBuilt (put_request name d rs)
unfolding put_request
put_request-AllBuilt name d [] h k = tt
put_request-AllBuilt name d ((n, o) ∷ rs) h k =
    decide (text_eq n name) (put_request-AllBuilt name d rs h.1 k)
  where
    decide :
        (b : Bool)
        → AllBuilt (put_request name d rs)
        → AllBuilt (if b then (n, d) ∷ rs else (n, o) ∷ put_request name d rs)
    decide true ih = (k, h.1)
    decide false ih = (h.0, ih)

-- A method under which a request stays built keeps all of them so, and the current one among them.
on_current-IsSound :
    (method : Definition → Option Definition) (g g' : Globals)
    → ((d d' : Definition) → method d ≡ some d' → IsBuilt d → IsBuilt d')
    → on_current method g ≡ some g'
    → IsSound g
    → IsSound g'
unfolding on_current
on_current-IsSound method g g' keeps e h =
    let (n, en, rest) = bind_cases g.current _ g' e in
    let (before, eb, rest2) = bind_cases (lookup_name n g.requests) _ g' rest in
    let (after, ea, rest3) = bind_cases (method before) _ g' rest2 in
    let changed = on_current-HasChanged method g g' n en e in
    (
      subst (λ (x : Globals). AllBuilt x.requests) (some_inj rest3)
          (put_request-AllBuilt n after g.requests h.0
            (keeps before after ea (lookup-IsBuilt n before g.requests h.0 eb))),
      λ name c. (
        changed.1,
        subst (λ m. lookup_name m g'.requests ≡ some changed.1)
            (some_inj (sym en ∙ (sym changed.6 ∙ c))) changed.4,
      ),
    )

push_from-IsBuilt :
    (e : Element) (source : Source) (d d' : Definition)
    → push_from e source d ≡ some d'
    → IsBuilt d
    → IsBuilt d'
unfolding push_from push_element
push_from-IsBuilt e source d d' h k =
    let (t, et, rest) = bind_cases (push_element e d.tree) _ d' h in
    let (b, eb, rest2) = bind_cases (push (item_of e) d.tree.builder) _ t et in
    subst (λ x. IsBuilt x) (some_inj rest)
      (subst (λ x. Built x.builder) (some_inj rest2) (Built.pushed (item_of e) eb k))

pop-IsBuilt :
    (d d' : Definition)
    → (pop_block d.tree >>= λ t. some (record d { tree = t })) ≡ some d'
    → IsBuilt d
    → IsBuilt d'
unfolding pop_block
pop-IsBuilt d d' h k =
    let (t, et, rest) = bind_cases (pop_block d.tree) _ d' h in
    let (b, eb, rest2) = bind_cases (pop d.tree.builder) _ t et in
    subst (λ x. IsBuilt x) (some_inj rest)
      (subst (λ x. Built x.builder) (some_inj rest2) (Built.popped eb k))

lookup_name-append :
    (name : Text) (d : Definition) (rs : List (Text × Definition))
    → lookup_name name rs ≡ none
    → lookup_name name (rs ++ (name, d) ∷ []) ≡ some d
unfolding lookup_name
lookup_name-append name d [] h = rw (text_eq_self name) refl
lookup_name-append name d ((n, o) ∷ rs) h = decide (text_eq n name) h (lookup_name-append name d rs)
  where
    decide :
        (b : Bool)
        → (if b then some o else lookup_name name rs) ≡ none
        → (lookup_name name rs ≡ none → lookup_name name (rs ++ (name, d) ∷ []) ≡ some d)
        → (if b then some o else lookup_name name (rs ++ (name, d) ∷ [])) ≡ some d
    decide true k ih = absurd cc
    decide false k ih = ih k

pub initialize-IsSound :
    (name : Text) (g g' : Globals) → s_initialize name g ≡ some g' → IsSound g → IsSound g'
unfolding s_initialize
initialize-IsSound name g g' e h = decide (lookup_name name g.requests) refl e
  where
    whole : Globals
    whole = record g {
      requests = g.requests ++ (name, empty_definition name) ∷ [];
      current = some name;
    }

    sound : lookup_name name g.requests ≡ none → IsSound whole
    sound absent = (
      All-append (λ (r : Text × Definition). IsBuilt r.1) g.requests _ h.0 (Built.new name, tt),
      λ n c. (
        empty_definition name,
        subst (λ m. lookup_name m whole.requests ≡ some (empty_definition name)) (some_inj c)
            (lookup_name-append name (empty_definition name) g.requests absent),
      ),
    )

    decide :
        (o : Option Definition)
        → lookup_name name g.requests ≡ o
        → elim o as (λ x. Option Globals) [ some d ↦ none | none ↦ some whole ] ≡ some g'
        → IsSound g'
    decide none absent k = subst IsSound (some_inj k) (sound absent)
    decide (some d) found k = absurd cc

pub switch-IsSound :
    (name : Text) (g g' : Globals) → s_switch name g ≡ some g' → IsSound g → IsSound g'
unfolding s_switch
switch-IsSound name g g' e h = decide (lookup_name name g.requests) refl e
  where
    decide :
        (o : Option Definition)
        → lookup_name name g.requests ≡ o
        → elim o as (λ x. Option Globals) [
          | some d ↦ some (record g { current = some name })
          | none ↦ none
        ]
          ≡ some g'
        → IsSound g'
    decide none absent k = absurd cc
    decide (some d) found k =
        subst IsSound (some_inj k)
          (h.0, λ n c. (d, subst (λ m. lookup_name m g.requests ≡ some d) (some_inj c) found))

pub pushed-IsSound :
    (class_name : Text) (name : Option Text) (constructed : Text → Element) (source : Source)
    → (g g' : Globals) → pushed class_name name constructed source g ≡ some g'
    → IsSound g
    → IsSound g'
unfolding pushed fresh_name
pushed-IsSound class_name none constructed source g g' e h =
    on_current-IsSound _ (fresh_name class_name none g).1 g' (push_from-IsBuilt _ source) e h
pushed-IsSound class_name (some name) constructed source g g' e h =
    on_current-IsSound _ g g' (push_from-IsBuilt _ source) e h

pub popped-IsSound : (g g' : Globals) → popped g ≡ some g' → IsSound g → IsSound g'
unfolding popped
popped-IsSound g g' e h = on_current-IsSound _ g g' pop-IsBuilt e h
