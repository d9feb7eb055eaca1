-- ===== src/Tests/Leaves.antt =====
-- The leaf classes at concrete inputs.
use boofuzz.Base.{ℕ, ◌≤◌, ◌≡◌, refl, List, [], ◌∷◌, Option, none, some, All, arith}
use boofuzz.Base.Text.{Text, text_eq, codes}
use boofuzz.Primitives.Bytes.{init, mutations}
use boofuzz.Primitives.Bytes.Fits.{GivesLength, mutations-GivesLength}
use boofuzz.Primitives.Leaves.{encode_values, remove, group_init, steps_from, repeat_library}
use boofuzz.Primitives.Leaves.Ranges.{Draws}
use boofuzz.Primitives.Leaves.Sources.{
  Source, listed, IsCounted, library, library_size, get_num_mutations-sources,
}
use boofuzz.Blocks.Element.{Value, bytes, text, Info, Leaf}
use boofuzz.Blocks.Mutations.{get_mutations, get_num_mutations}
use boofuzz.Blocks.Mutations.Count.{size_of}
use boofuzz.Tests.Mutations.{message, the_block, group_is_fuzzable}

mutations-GivesLength_example :
    All (GivesLength (λ k. k ≡ 2)) (mutations (init (some 2) (0 ∷ []) none) (codes "abc"))
    × All (GivesLength (λ k. k ≤ 2)) (mutations (init none (0 ∷ []) (some 2)) (codes "abc"))
mutations-GivesLength_example = mutations-GivesLength 2 (0 ∷ []) none (codes "abc") refl

odd_reps : repeat_library 1 8 2 ≡ some (1 ∷ 3 ∷ 5 ∷ 7 ∷ [])
unfolding repeat_library steps_from
odd_reps = refl

abbrev lowest : ℕ → ℕ → ℕ → ℕ × ℕ
lowest s low high = (low, s)

lowest-Draws : Draws lowest
lowest-Draws s low high h = (omega arith, h)

abbrev ascii : Text → Option (List ℕ)
ascii t = some t

abbrev opcodes : List Value
opcodes = text (codes "GET") ∷ bytes (codes "PUT") ∷ []

opcodes_encoded : encode_values ascii opcodes ≡ some (codes "GET" ∷ codes "PUT" ∷ [])
unfolding encode_values
opcodes_encoded = refl

opcodes_set_up : group_init ascii opcodes none ≡ some (codes "GET", codes "PUT" ∷ [])
unfolding group_init encode_values remove text_eq
opcodes_set_up = refl

abbrev sources : Info → Leaf → Source
sources i k = listed opcodes

counted : (i : Info) (k : Leaf) → IsCounted lowest 0 i (sources i k)
counted i k = tt

sources_example :
    size_of (
      get_mutations message
        (λ i k. library lowest 0 i (sources i k))
        (λ i k. library_size lowest 0 i (sources i k))
        3
        the_block)
    ≡ get_num_mutations message
        (λ i k. library lowest 0 i (sources i k))
        (λ i k. library_size lowest 0 i (sources i k))
        3
        the_block
sources_example =
    get_num_mutations-sources lowest 0 message sources counted (tt, tt) 3 the_block
      (group_is_fuzzable, (tt, tt)) refl
