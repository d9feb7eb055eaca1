-- ===== src/Static/Reached.antt =====
-- The states that calls of the functions lead to.
use boofuzz.Base.{◌≡◌, List, [], ◌∷◌, Option, some, All}
use boofuzz.Base.Text.{Text}
use boofuzz.Primitives.Leaves.Sources.{Source}
use boofuzz.Blocks.Element.{Element}
use boofuzz.Blocks.Build.Unique.{AreDistinct, Built-AreDistinct}
use boofuzz.Static.{Definition, Globals, initial, s_initialize, s_switch, pushed, popped}
use boofuzz.Static.Sound.{
  AllBuilt, IsChosen, IsSound, initialize-IsSound, switch-IsSound, pushed-IsSound, popped-IsSound,
}

-- Any calls of functions that start a request, choose one, push an element or close a block.
pub data Reached : Globals → Type 0 where
  start : Reached initial
  initialized :
      {g g' : Globals} → (name : Text) → s_initialize name g ≡ some g' → Reached g → Reached g'
  switched : {g g' : Globals} → (name : Text) → s_switch name g ≡ some g' → Reached g → Reached g'
  pushes :
      {g g' : Globals}
      → (class_name : Text) (name : Option Text) (constructed : Text → Element) (source : Source)
      → pushed class_name name constructed source g ≡ some g'
      → Reached g
      → Reached g'
  pops : {g g' : Globals} → popped g ≡ some g' → Reached g → Reached g'

sound_lem : {g : Globals} → Reached g → IsSound g
sound_lem start = (tt, λ name c. absurd cc)
sound_lem (initialized {g} {g'} name e r) = initialize-IsSound name g g' e (sound_lem r)
sound_lem (switched {g} {g'} name e r) = switch-IsSound name g g' e (sound_lem r)
sound_lem (pushes {g} {g'} class_name name constructed source e r) =
    pushed-IsSound class_name name constructed source g g' e (sound_lem r)
sound_lem (pops {g} {g'} e r) = popped-IsSound g g' e (sound_lem r)

abbrev pub HasDistinctNames : Text × Definition → Type 0
HasDistinctNames r = AreDistinct r.1.tree.builder.names

distinct_lem : (rs : List (Text × Definition)) → AllBuilt rs → All HasDistinctNames rs
distinct_lem [] h = tt
distinct_lem (r ∷ rs) h = (Built-AreDistinct h.0, distinct_lem rs h.1)

-- After any calls that start and choose requests, push elements and close blocks, no two of the
-- elements that were pushed onto any one request have the same qualified name (children that an
-- element brings along are not registered), and the current request is among the requests.
pub Reached-AreDistinct : {g : Globals} → Reached g → All HasDistinctNames g.requests × IsChosen g
Reached-AreDistinct {g} r = let sound = sound_lem r in (distinct_lem g.requests sound.0, sound.1)
