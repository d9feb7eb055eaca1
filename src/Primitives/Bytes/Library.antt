-- ===== src/Primitives/Bytes/Library.antt =====
-- boofuzz/primitives/bytes.py: the constants of Bytes.
use boofuzz.Base.{ℕ, List, [], ◌∷◌, ◌++◌, ◌==◌, if◌then◌else◌, length, times}
use boofuzz.Base.Text.{codes}

-- The binary strings that are always test cases.
unfoldable pub fuzz_library : List (List ℕ)
fuzz_library =
    []
    ∷ (0 ∷ [])
    ∷ (255 ∷ [])
    ∷ (times 10 (codes "A"))
    ∷ (times 100 (codes "A"))
    ∷ (times 1000 (codes "A"))
    ∷ (times 5000 (codes "A"))
    ∷ (times 10000 (codes "A"))
    ∷ (times 100000 (codes "A"))
    ∷ []

abbrev pub magic_debug_values : List (List ℕ)
magic_debug_values =
    (0 ∷ 0 ∷ 129 ∷ 35 ∷ [])
    ∷ (0 ∷ 250 ∷ 202 ∷ 222 ∷ [])
    ∷ (27 ∷ 173 ∷ 176 ∷ 2 ∷ [])
    ∷ (139 ∷ 173 ∷ 240 ∷ 13 ∷ [])
    ∷ (165 ∷ 165 ∷ 165 ∷ 165 ∷ [])
    ∷ (165 ∷ [])
    ∷ (171 ∷ 171 ∷ 171 ∷ 171 ∷ [])
    ∷ (171 ∷ 173 ∷ 186 ∷ 190 ∷ [])
    ∷ (171 ∷ 186 ∷ 186 ∷ 190 ∷ [])
    ∷ (171 ∷ 173 ∷ 202 ∷ 254 ∷ [])
    ∷ (177 ∷ 107 ∷ 0 ∷ 181 ∷ [])
    ∷ (186 ∷ 173 ∷ 240 ∷ 13 ∷ [])
    ∷ (186 ∷ 170 ∷ 170 ∷ 173 ∷ [])
    ∷ (186 ∷ 210 ∷ 34 ∷ 34 ∷ [])
    ∷ (186 ∷ 219 ∷ 173 ∷ 186 ∷ 219 ∷ 173 ∷ [])
    ∷ (186 ∷ 220 ∷ 15 ∷ 254 ∷ 224 ∷ 221 ∷ 240 ∷ 13 ∷ [])
    ∷ (186 ∷ 221 ∷ 202 ∷ 254 ∷ [])
    ∷ (187 ∷ 173 ∷ 190 ∷ 239 ∷ [])
    ∷ (190 ∷ 239 ∷ 202 ∷ 206 ∷ [])
    ∷ (192 ∷ 0 ∷ 16 ∷ 255 ∷ [])
    ∷ (202 ∷ 254 ∷ 186 ∷ 190 ∷ [])
    ∷ (202 ∷ 254 ∷ 208 ∷ 13 ∷ [])
    ∷ (202 ∷ 254 ∷ 254 ∷ 237 ∷ [])
    ∷ (204 ∷ 204 ∷ 204 ∷ 204 ∷ [])
    ∷ (205 ∷ 205 ∷ 205 ∷ 205 ∷ [])
    ∷ (13 ∷ 21 ∷ 234 ∷ 94 ∷ [])
    ∷ (221 ∷ 221 ∷ 221 ∷ 221 ∷ [])
    ∷ (222 ∷ 173 ∷ 16 ∷ 204 ∷ [])
    ∷ (222 ∷ 173 ∷ 186 ∷ 190 ∷ [])
    ∷ (222 ∷ 173 ∷ 190 ∷ 239 ∷ [])
    ∷ (222 ∷ 173 ∷ 202 ∷ 254 ∷ [])
    ∷ (222 ∷ 173 ∷ 192 ∷ 222 ∷ [])
    ∷ (222 ∷ 173 ∷ 250 ∷ 17 ∷ [])
    ∷ (222 ∷ 173 ∷ 240 ∷ 13 ∷ [])
    ∷ (222 ∷ 254 ∷ 200 ∷ 237 ∷ [])
    ∷ (222 ∷ 173 ∷ 222 ∷ 173 ∷ [])
    ∷ (235 ∷ 235 ∷ 235 ∷ 235 ∷ [])
    ∷ (250 ∷ 222 ∷ 222 ∷ 173 ∷ [])
    ∷ (253 ∷ 253 ∷ 253 ∷ 253 ∷ [])
    ∷ (254 ∷ 225 ∷ 222 ∷ 173 ∷ [])
    ∷ (254 ∷ 237 ∷ 250 ∷ 206 ∷ [])
    ∷ (254 ∷ 238 ∷ 254 ∷ 238 ∷ [])
    ∷ []

-- `[i for i in values if len(i) == n]`.
abbrev pub with_length : ℕ → List (List ℕ) → List (List ℕ)
with_length n [] = []
with_length n (b ∷ bs) = if length b == n then b ∷ with_length n bs else with_length n bs

-- What replaces a block of one, two or four bytes.
abbrev pub fuzz_strings_1byte : List (List ℕ)
fuzz_strings_1byte =
    ((0 ∷ []) ∷ (1 ∷ []) ∷ (127 ∷ []) ∷ (128 ∷ []) ∷ (255 ∷ []) ∷ [])
    ++ with_length 1 magic_debug_values

abbrev pub fuzz_strings_2byte : List (List ℕ)
fuzz_strings_2byte =
    ((0 ∷ 0 ∷ [])
      ∷ (1 ∷ 0 ∷ [])
      ∷ (0 ∷ 1 ∷ [])
      ∷ (127 ∷ 255 ∷ [])
      ∷ (255 ∷ 127 ∷ [])
      ∷ (254 ∷ 255 ∷ [])
      ∷ (255 ∷ 254 ∷ [])
      ∷ (255 ∷ 255 ∷ [])
      ∷ [])
    ++ with_length 2 magic_debug_values

abbrev pub fuzz_strings_4byte : List (List ℕ)
fuzz_strings_4byte =
    ((0 ∷ 0 ∷ 0 ∷ 0 ∷ [])
      ∷ (0 ∷ 0 ∷ 0 ∷ 1 ∷ [])
      ∷ (1 ∷ 0 ∷ 0 ∷ 0 ∷ [])
      ∷ (127 ∷ 255 ∷ 255 ∷ 255 ∷ [])
      ∷ (255 ∷ 255 ∷ 255 ∷ 127 ∷ [])
      ∷ (254 ∷ 255 ∷ 255 ∷ 255 ∷ [])
      ∷ (255 ∷ 255 ∷ 255 ∷ 254 ∷ [])
      ∷ (255 ∷ 255 ∷ 255 ∷ 255 ∷ [])
      ∷ [])
    ++ with_length 4 magic_debug_values

-- The factors of `_mutators_of_default_value`.
abbrev pub mutators_of_default_value : List ℕ
mutators_of_default_value = 2 ∷ 10 ∷ 100 ∷ []
