-- ===== src/Blocks/Resolve.antt =====
-- `Request.resolve_name` (boofuzz/blocks/request.py). A loop that deletes components runs on fuel;
-- `out_of_fuel` is not an outcome of the program.
pub mod Relative
pub mod Dots
use boofuzz.Base.{
  ℕ, zero, suc, ◌+◌, ◌-◌, Bool, true, false, List, [], ◌∷◌, ◌++◌, Option, none, some, ◌==◌,
  if◌then◌else◌, length,
}
use boofuzz.Base.Text.{Text, text_eq, starts_with, split, join}
use boofuzz.Blocks.Names.{dot, lookup_name, select_names}

-- The errors ERR_NAME_NOT_FOUND, ERR_NAME_NO_RESOLVE and ERR_NAME_TOO_MANY.
pub data NameError : Type 0 where
  not_found no_resolve too_many : NameError

pub data Resolution (A : Type 0) : Type 0 where
  found : A → Resolution A
  name_error : NameError → Resolution A
  out_of_fuel : Resolution A

-- `components.index("")`, for components that hold the empty text.
unfoldable pub index_of_empty : List Text → Option ℕ
index_of_empty [] = none
index_of_empty ([] ∷ ts) = some 0
index_of_empty ((c ∷ cs) ∷ ts) = elim (index_of_empty ts) [ none ↦ none | some i ↦ some (i + 1) ]

-- `del components[i]`.
unfoldable pub delete_at : {A : Type 0} → ℕ → List A → List A
delete_at i [] = []
delete_at zero (t ∷ ts) = ts
delete_at (suc i) (t ∷ ts) = t ∷ delete_at i ts

-- The `while "" in components` loop.
unfoldable pub collapse : ℕ → List Text → Resolution (List Text)
collapse zero components = out_of_fuel
collapse (suc fuel) components = elim (index_of_empty components) [
  | none ↦ found components
  | some zero ↦ name_error no_resolve
  | some (suc i) ↦ elim (suc i == length components - 1) [
    | true ↦ collapse fuel (delete_at (suc i) components)
    | false ↦ collapse fuel (delete_at i (delete_at (suc i) components))
  ]
]

-- `n.rsplit(".")[-1]`: the last component.
unfoldable pub last_component : List Text → Text
last_component [] = []
last_component (t ∷ []) = t
last_component (t ∷ u ∷ ts) = last_component (u ∷ ts)

module _ {A : Type 0} where
  -- A name that is not stored is an error.
  abbrev pub stored : Option A → Resolution A
  stored none = name_error not_found
  stored (some a) = found a

  -- Exactly one of the names that were found.
  abbrev pub only : List (Text × A) → Resolution A
  only [] = name_error not_found
  only ((_, a) ∷ []) = found a
  only (_ ∷ _ ∷ _) = name_error too_many

module _ {A : Type 0} (names : List (Text × A)) where
  unfoldable pub lookup_resolved_name : Text → Resolution A
  lookup_resolved_name resolved_name = stored (lookup_name resolved_name names)

  abbrev pub lookup_components : Resolution (List Text) → Resolution A
  lookup_components (found components) = lookup_resolved_name (join (dot ∷ []) components)
  lookup_components (name_error e) = name_error e
  lookup_components out_of_fuel = out_of_fuel

  -- Case 1: a name that starts with a dot. Each round deletes a component.
  unfoldable pub resolve_relative : Text → Text → Resolution A
  resolve_relative context_path name =
      let components = split dot (context_path ++ name) in
      lookup_components (collapse (length components + 1) components)

  -- Case 3: the only element whose last name component is the name.
  unfoldable pub resolve_by_last : Text → Resolution A
  resolve_by_last name =
      only (select_names (λ n. text_eq (last_component (split dot n)) name) names)

  -- Case 2, the absolute name, with what is stored under it; and otherwise case 3.
  abbrev pub absolute : Text → Option A → Resolution A
  absolute name (some a) = found a
  absolute name none = resolve_by_last name

  -- The request's own name comes first, then `context_path` and the name, if there is one.
  unfoldable pub resolve_name : Text → Text → Option Text → Resolution A
  resolve_name self_name context_path none = name_error not_found
  resolve_name self_name context_path (some name) =
      if starts_with (dot ∷ []) name
      then resolve_relative context_path name
      else absolute name (lookup_name (self_name ++ dot ∷ name) names)
