-- ===== src/Session/Generate.antt =====
-- The test cases of a message path (boofuzz/sessions/session.py):
-- `_generate_n_mutations_for_path_recursive`, `_mutations_contain_duplicate` and
-- `_generate_n_mutations_for_path`. The request's mutations, which leave out the elements to skip,
-- are an argument; the crash thresholds stop none of them here.
use boofuzz.Base.{
  ℕ, zero, suc, ◌≡◌, refl, ap, ap₂, ◌∙◌, Bool, false, ◌||◌, List, [], ◌∷◌, ◌++◌, map, All,
  if◌then◌else◌, append-nil,
}
use boofuzz.Base.Text.{Text, contains}
use boofuzz.Blocks.Mutations.{Mutation}

abbrev pub names_of : List Mutation → List Text
names_of [] = []
names_of (u ∷ us) = u.qualified_name ∷ names_of us

-- Is one of the two names a part of the other?
abbrev pub overlaps : Text → Text → Bool
overlaps name1 name2 = contains name1 name2 || contains name2 name1

abbrev pub overlaps_any : Text → List Text → Bool
overlaps_any name [] = false
overlaps_any name (other ∷ names) = overlaps name other || overlaps_any name names

-- The pairs of `itertools.combinations(names, r=2)`.
abbrev pub pairs_overlap : List Text → Bool
pairs_overlap [] = false
pairs_overlap (name ∷ names) = overlaps_any name names || pairs_overlap names

-- `_mutations_contain_duplicate`.
unfoldable pub mutations_contain_duplicate : List Mutation → Bool
mutations_contain_duplicate us = pairs_overlap (names_of us)

module _ (request_mutations : (skip_elements : List Text) → List (List Mutation)) where
  -- The loop over a request's mutations, for the mutations that come after; it adds the names to the
  -- elements to skip as it goes.
  unfoldable pub extend_each :
      (List Text → List (List Mutation)) → List Text → List (List Mutation) → List (List Mutation)
  extend_each deeper new_skip [] = []
  extend_each deeper new_skip (us ∷ rest) =
      let skip = new_skip ++ names_of us in
      map (λ ms. us ++ ms) (deeper skip) ++ extend_each deeper skip rest

  -- `_generate_n_mutations_for_path_recursive`.
  unfoldable pub generate_recursive : ℕ → List Text → List (List Mutation)
  unfolding extend_each
  generate_recursive zero skip_elements = [] ∷ []
  generate_recursive (suc depth) skip_elements =
      extend_each (generate_recursive depth) skip_elements (request_mutations skip_elements)

  unfoldable pub drop_duplicates : List (List Mutation) → List (List Mutation)
  unfolding mutations_contain_duplicate
  drop_duplicates [] = []
  drop_duplicates (us ∷ rest) =
      let kept = drop_duplicates rest in if mutations_contain_duplicate us then kept else us ∷ kept

  -- `_generate_n_mutations_for_path`: the mutations of each test case.
  unfoldable pub generate_n_mutations_for_path : ℕ → List (List Mutation)
  unfolding generate_recursive drop_duplicates
  generate_n_mutations_for_path depth = drop_duplicates (generate_recursive depth [])

  extend-nothing :
      (skip : List Text) (us : List (List Mutation)) → extend_each (λ _. [] ∷ []) skip us ≡ us
  unfolding extend_each
  extend-nothing skip [] = refl
  extend-nothing skip (ms ∷ us) =
      ap₂ (λ (a : List Mutation) (l : List (List Mutation)). a ∷ l) (append-nil ms)
        (extend-nothing (skip ++ names_of ms) us)

  -- At depth 1 the test cases are the request's mutations, in order, but for those that mutate two
  -- elements of which one's qualified name is a part of the other's.
  pub generate-depth_one : generate_n_mutations_for_path 1 ≡ drop_duplicates (request_mutations [])
  unfolding generate_n_mutations_for_path generate_recursive
  generate-depth_one = ap drop_duplicates (extend-nothing [] (request_mutations []))

  -- The mutations in the list are single.
  abbrev pub IsSingle : List Mutation → Type 0
  IsSingle [] = ⊥
  IsSingle (u ∷ []) = Unit
  IsSingle (u ∷ v ∷ us) = ⊥

  keep-single : (us : List (List Mutation)) → All IsSingle us → drop_duplicates us ≡ us
  unfolding drop_duplicates mutations_contain_duplicate
  keep-single [] h = refl
  keep-single ([] ∷ us) h = absurd h.0
  keep-single ((u ∷ []) ∷ us) h =
      ap (λ (l : List (List Mutation)). (u ∷ []) ∷ l) (keep-single us h.1)
  keep-single ((u ∷ v ∷ ms) ∷ us) h = absurd h.0

  -- A request each of whose mutations changes a single element: at depth 1 every mutation of it is
  -- one test case, in order, and there are no others.
  pub generate_n_mutations_for_path-single :
      All IsSingle (request_mutations []) → generate_n_mutations_for_path 1 ≡ request_mutations []
  generate_n_mutations_for_path-single h = generate-depth_one ∙ keep-single (request_mutations []) h
