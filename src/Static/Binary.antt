-- ===== src/Static/Binary.antt =====
-- boofuzz/__init__.py: `s_binary`.
use boofuzz.Base.{
  ℕ, ◌+◌, ◌-◌, ◌*◌, ◌≡◌, ap, sym, ◌∙◌, ◌&&◌, ◌||◌, List, [], ◌∷◌, ◌++◌, Option, none, some, ◌>>=◌,
  ◌==◌, leb, if◌then◌else◌, bind_cases,
}
use boofuzz.Base.Text.{Text}
use boofuzz.Blocks.Element.{text}
use boofuzz.Static.{Globals}
use boofuzz.Static.Primitives.{s_static}

-- `parsed.replace(c, "")` for a character.
unfoldable pub without : ℕ → Text → Text
without c [] = []
without c (d ∷ ds) = let rest = without c ds in if d == c then rest else d ∷ rest

-- `parsed.replace(..., "")` for a text of two characters, from the left.
unfoldable pub without_pair : (a b : ℕ) → Text → Text
without_pair a b [] = []
without_pair a b (c ∷ []) = c ∷ []
without_pair a b (c ∷ d ∷ cs) =
    let after = without_pair a b cs in
    let next = without_pair a b (d ∷ cs) in if c == a && d == b then after else c ∷ next

unfoldable pub cleaned : Text → Text
cleaned value = without_pair b'\\' b'x' (
    without_pair b'0' b'x'
      (without b',' (without 10 (without 13 (without 9 (without b' ' value))))))

unfoldable pub hex_digit : ℕ → Option ℕ
hex_digit c =
    if leb b'0' c && leb c b'9'
    then some (c - b'0')
    else if leb b'a' c && leb c b'f'
    then some (c - b'a' + 10)
    else if leb b'A' c && leb c b'F'
    then some (c - b'A' + 10)
    else none

-- `int(pair, 16).to_bytes(1, "little")` on a text of one or two characters: a sign may stand before a
-- digit, and a negative number has no bytes.
unfoldable pub hex_byte : Text → Option ℕ
hex_byte [] = none
hex_byte (c ∷ []) = hex_digit c
hex_byte (c ∷ d ∷ cs) = do
  low ← hex_digit d
  if c == b'+' || (c == b'-' && low == 0)
      then some low
      else (hex_digit c >>= λ high. some (high * 16 + low))

-- The loop: the bytes, and what is left of the text.
unfoldable pub parse_pairs : (value : List ℕ) → Text → Option (List ℕ × Text)
parse_pairs value [] = some (value, [])
parse_pairs value (c ∷ []) = hex_byte (c ∷ []) >>= λ b. some (value ++ b ∷ [], [])
parse_pairs value (c ∷ d ∷ rest) = hex_byte (c ∷ d ∷ []) >>= λ b. parse_pairs (value ++ b ∷ []) rest

-- `s_binary` pushes what is left of the text.
unfoldable pub s_binary : (value : Text) (name : Option Text) → Globals → Option Globals
s_binary value name g = parse_pairs [] (cleaned value) >>= λ result. s_static (text result.1) name g

parse_pairs-left :
    (value : List ℕ) (t : Text) (r : List ℕ × Text) → parse_pairs value t ≡ some r → r.1 ≡ []
unfolding parse_pairs
parse_pairs-left value [] r e = cc
parse_pairs-left value (c ∷ []) r e = let (b, eb, rest) = bind_cases (hex_byte (c ∷ [])) _ r e in cc
parse_pairs-left value (c ∷ d ∷ t) r e =
    let (b, eb, rest) = bind_cases (hex_byte (c ∷ d ∷ [])) _ r e in
    parse_pairs-left (value ++ b ∷ []) t r rest

-- When `s_binary` succeeds, whatever bytes the text stands for, it has pushed a static element with
-- an empty value.
pub s_binary-s_static :
    (value : Text) (name : Option Text) (g g' : Globals)
    → s_binary value name g ≡ some g'
    → s_static (text []) name g ≡ some g'
unfolding s_binary
s_binary-s_static value name g g' e =
    let (r, er, rest) = bind_cases (parse_pairs [] (cleaned value)) _ g' e in
    ap (λ (t : Text). s_static (text t) name g) (sym (parse_pairs-left [] (cleaned value) r er))
    ∙ rest
