-- ===== src/Helpers/CaseName.antt =====
-- boofuzz/helpers.py: `parse_test_case_name`.
use boofuzz.Base.{
  ℕ, Bool, true, false, ◌&&◌, ◌||◌, List, [], ◌∷◌, Option, none, some, ◌==◌, leb, if◌then◌else◌,
  ◌>>=◌,
}
use boofuzz.Base.Text.{Text, onto_first}

-- `test_case.split(":", 1)`: what stands before the first colon, and what stands behind it if there
-- is one.
unfoldable pub split_colon : Text → Text × Option Text
split_colon [] = ([], none)
split_colon (c ∷ cs) =
    let rest = split_colon cs in if c == b':' then ([], some cs) else (c ∷ rest.0, rest.1)

-- `re.split("->", text)`.
unfoldable pub split_arrow : Text → List Text
split_arrow [] = [] ∷ []
split_arrow (c ∷ []) = (c ∷ []) ∷ []
split_arrow (c ∷ d ∷ cs) =
    let after = split_arrow cs in
    let rest = split_arrow (d ∷ cs) in
    if c == b'-' && d == b'>' then [] ∷ after else onto_first c rest

-- A character in front of the rest; without one, the bracket itself may close.
abbrev pub onto_rest : (closes : Bool) → ℕ → Option Text → Option Text
onto_rest closes c (some t) = some (c ∷ t)
onto_rest true c none = some []
onto_rest false c none = none

-- `(.*)\]` from here on: what stands before the last bracket of the line.
unfoldable pub before_bracket : Text → Option Text
before_bracket [] = none
before_bracket (c ∷ cs) =
    let rest = before_bracket cs in if c == 10 then none else onto_rest (c == b']') c rest

-- The group of `re.match(r"\[(.*)\]", text)`.
unfoldable pub bracketed : Text → Option Text
bracketed [] = none
bracketed (c ∷ cs) = if c == b'[' then before_bracket cs else none

-- `\s` of a pattern that is a str: the white space of Unicode.
abbrev pub is_space : ℕ → Bool
is_space c =
    (leb 9 c && leb c 13)
    || (leb 28 c && leb c 32)
    || (leb 8192 c && leb c 8202)
    || c == 133
    || c == 160
    || c == 5760
    || c == 8232
    || c == 8233
    || c == 8239
    || c == 8287
    || c == 12288

-- `re.split(r",\s*", text)`; `skipping` says whether spaces behind a comma are being skipped.
unfoldable pub split_commas : (skipping : Bool) → Text → List Text
split_commas skipping [] = [] ∷ []
split_commas skipping (c ∷ cs) =
    let after = split_commas true cs in
    let rest = split_commas false cs in
    if skipping && is_space c then after else if c == b',' then [] ∷ after else onto_first c rest

abbrev pub mutations_of : Option Text → Option (List Text)
mutations_of none = some []
mutations_of (some t) = bracketed t >>= λ inner. some (split_commas false inner)

-- `parse_test_case_name`: the message path and the names of the mutations; `none` is a BoofuzzError.
unfoldable pub parse_test_case_name : Text → Option (List Text × List Text)
parse_test_case_name test_case =
    let components = split_colon test_case in
    mutations_of components.1 >>= λ mutations. some (split_arrow components.0, mutations)
