-- ===== src/Session/CaseName.antt =====
-- The name of a test case (`_test_case_name` and `_message_path_to_str` of
-- boofuzz/sessions/session.py), and what `parse_test_case_name` makes of it.
use boofuzz.Base.{
  ℕ, ◌≡◌, ◌≢◌, refl, ap, ◌∙◌, Bool, true, false, List, [], ◌∷◌, ◌++◌, Option, some, ◌==◌,
  if◌then◌else◌, ◌&&◌, ◌>>=◌, All, All-append, map, arith,
}
use boofuzz.Base.Int.{pos}
use boofuzz.Base.Text.{Text, onto_first, join, Lacks, ne→false}
use boofuzz.Primitives.BitField.{format_d}
use boofuzz.Helpers.CaseName.{
  split_colon, split_arrow, before_bracket, onto_rest, bracketed, is_space, split_commas,
  mutations_of, parse_test_case_name,
}

-- `"{0}:{1}".format(qualified_name, mutation.index)`.
abbrev pub mutation_name : Text × ℕ → Text
mutation_name (qualified_name, index) = qualified_name ++ (b':' ∷ format_d (pos index))

-- `_message_path_to_str`, for the names of the nodes.
abbrev pub message_path_to_str : List Text → Text
message_path_to_str names = join (b'-' ∷ b'>' ∷ []) names

unfoldable pub test_case_name : (names : List Text) (mutations : List (Text × ℕ)) → Text
test_case_name names mutations =
    message_path_to_str names
    ++ (b':' ∷ b'[' ∷ (join (b',' ∷ 32 ∷ []) (map mutation_name mutations) ++ b']' ∷ []))

-- A node's name has no colon and no ">".
abbrev pub IsNodeName : Text → Type 0
IsNodeName t = Lacks b':' t × Lacks b'>' t

-- A mutation's name has a first character, which is no space, no comma and no line break.
abbrev pub IsMutationName : Text → Type 0
IsMutationName [] = ⊥
IsMutationName (c ∷ cs) = (is_space c ≡ false) × Lacks b',' (c ∷ cs) × Lacks 10 (c ∷ cs)

==_refl : (c : ℕ) → (c == c) ≡ true
==_refl c = ground arith

split_colon_lem : (p s : Text) → Lacks b':' p → split_colon (p ++ (b':' ∷ s)) ≡ (p, some s)
unfolding split_colon
split_colon_lem [] s h = refl
split_colon_lem (c ∷ cs) s h =
    rw (ne→false c b':' h.0)
      (ap (λ (r : Text × Option Text). (c ∷ r.0, r.1)) (split_colon_lem cs s h.1))

module _ (P : ℕ → Type 0) (separator : Text) (s : All P separator) where
  All-join : (ps : List Text) → All (λ p. All P p) ps → All P (join separator ps)
  unfolding join
  All-join [] h = tt
  All-join (p ∷ []) h = h.0
  All-join (p ∷ q ∷ ps) h =
      All-append P p _ h.0 (All-append P separator _ s (All-join (q ∷ ps) h.1))

neither : (a b : Bool) (x y : List Text) → b ≡ false → (if a && b then x else y) ≡ y
neither a true x y e = absurd cc
neither true false x y e = refl
neither false false x y e = refl

split_arrow_part : (p : Text) → Lacks b'>' p → split_arrow p ≡ p ∷ []
unfolding split_arrow
split_arrow_part [] h = refl
split_arrow_part (c ∷ []) h = refl
split_arrow_part (c ∷ d ∷ p) h =
    neither (c == b'-') (d == b'>') _ _ (ne→false d b'>' h.1.0)
    ∙ ap (onto_first c) (split_arrow_part (d ∷ p) h.1)

split_arrow_front :
    (p s : Text) → Lacks b'>' p → split_arrow (p ++ (b'-' ∷ b'>' ∷ s)) ≡ p ∷ split_arrow s
unfolding split_arrow
split_arrow_front [] s h = refl
split_arrow_front (c ∷ []) s h = neither (c == b'-') false _ _ refl
split_arrow_front (c ∷ d ∷ p) s h =
    neither (c == b'-') (d == b'>') _ _ (ne→false d b'>' h.1.0)
    ∙ ap (onto_first c) (split_arrow_front (d ∷ p) s h.1)

split_arrow-join :
    (p : Text) (ps : List Text)
    → All (λ (t : Text). Lacks b'>' t) (p ∷ ps)
    → split_arrow (message_path_to_str (p ∷ ps)) ≡ p ∷ ps
unfolding join
split_arrow-join p [] h = split_arrow_part p h.0
split_arrow-join p (q ∷ ps) h =
    split_arrow_front p (message_path_to_str (q ∷ ps)) h.0
    ∙ ap (λ (l : List Text). p ∷ l) (split_arrow-join q ps h.1)

before_bracket_lem : (t : Text) → Lacks 10 t → before_bracket (t ++ b']' ∷ []) ≡ some t
unfolding before_bracket
before_bracket_lem [] h = refl
before_bracket_lem (c ∷ t) h =
    rw (ne→false c 10 h.0) (ap (onto_rest (c == b']') c) (before_bracket_lem t h.1))

split_commas_part : (p : Text) → Lacks b',' p → split_commas false p ≡ p ∷ []
unfolding split_commas
split_commas_part [] h = refl
split_commas_part (c ∷ p) h = rw (ne→false c b',' h.0) (ap (onto_first c) (split_commas_part p h.1))

split_commas_front :
    (p s : Text) → Lacks b',' p → split_commas false (p ++ (b',' ∷ s)) ≡ p ∷ split_commas true s
unfolding split_commas
split_commas_front [] s h = refl
split_commas_front (c ∷ p) s h =
    rw (ne→false c b',' h.0) (ap (onto_first c) (split_commas_front p s h.1))

-- Behind a comma a text that does not begin with a space is read as at the start.
unskipped :
    (skipping : Bool) (c : ℕ) (s : Text)
    → is_space c ≡ false
    → split_commas skipping (c ∷ s) ≡ split_commas false (c ∷ s)
unfolding split_commas
unskipped skipping c s e = neither skipping (is_space c) _ _ e

split_commas_space : (s : Text) → split_commas true (32 ∷ s) ≡ split_commas true s
unfolding split_commas
split_commas_space s = refl

split_commas-join :
    (skipping : Bool) (p : Text) (ps : List Text)
    → All IsMutationName (p ∷ ps)
    → split_commas skipping (join (b',' ∷ 32 ∷ []) (p ∷ ps)) ≡ p ∷ ps
unfolding join
split_commas-join skipping [] ps h = absurd h.0
split_commas-join skipping (c ∷ p) [] h =
    unskipped skipping c p h.0.0 ∙ split_commas_part (c ∷ p) h.0.1
split_commas-join skipping (c ∷ p) (q ∷ ps) h =
    unskipped skipping c (p ++ (b',' ∷ 32 ∷ join (b',' ∷ 32 ∷ []) (q ∷ ps))) h.0.0
    ∙ (split_commas_front (c ∷ p) (32 ∷ join (b',' ∷ 32 ∷ []) (q ∷ ps)) h.0.1
        ∙ ap (λ (l : List Text). (c ∷ p) ∷ l)
            (split_commas_space (join (b',' ∷ 32 ∷ []) (q ∷ ps)) ∙ split_commas-join true q ps h.1))

unbroken : (ts : List Text) → All IsMutationName ts → All (λ (t : Text). Lacks 10 t) ts
unbroken [] h = tt
unbroken ([] ∷ ts) h = absurd h.0
unbroken ((c ∷ t) ∷ ts) h = (h.0.2, unbroken ts h.1)

no_colon : (ts : List Text) → All IsNodeName ts → All (λ (t : Text). Lacks b':' t) ts
no_colon [] h = tt
no_colon (t ∷ ts) h = (h.0.0, no_colon ts h.1)

no_arrow : (ts : List Text) → All IsNodeName ts → All (λ (t : Text). Lacks b'>' t) ts
no_arrow [] h = tt
no_arrow (t ∷ ts) h = (h.0.1, no_arrow ts h.1)

mutations_lem :
    (t : Text) (ts : List Text)
    → All IsMutationName (t ∷ ts)
    → mutations_of (some (b'[' ∷ (join (b',' ∷ 32 ∷ []) (t ∷ ts) ++ b']' ∷ []))) ≡ some (t ∷ ts)
unfolding bracketed
mutations_lem t ts h =
    ap (λ (o : Option Text). o >>= λ inner. some (split_commas false inner))
      (before_bracket_lem (join (b',' ∷ 32 ∷ []) (t ∷ ts)) (
        All-join (λ c. c ≢ 10) (b',' ∷ 32 ∷ [])
          ((λ e. omega (arith, e)), ((λ e. omega (arith, e)), tt)) (t ∷ ts) (unbroken (t ∷ ts) h)))
    ∙ ap some (split_commas-join false t ts h)

-- Of the name of a test case with nodes and at least one mutation, parse_test_case_name makes the
-- names of the nodes and of the mutations again, where no node's name has a colon or ">", and no
-- mutation's name a comma, a line break or a space in front.
pub parse_test_case_name-test_case_name :
    (p : Text) (ps : List Text) (m : Text × ℕ) (ms : List (Text × ℕ))
    → All IsNodeName (p ∷ ps)
    → All IsMutationName (map mutation_name (m ∷ ms))
    → parse_test_case_name (test_case_name (p ∷ ps) (m ∷ ms))
      ≡ some (p ∷ ps, map mutation_name (m ∷ ms))
unfolding parse_test_case_name test_case_name
parse_test_case_name-test_case_name p ps m ms h k =
    ap
      (λ (r : Text × Option Text).
        mutations_of r.1 >>= λ mutations. some (split_arrow r.0, mutations))
      (split_colon_lem (message_path_to_str (p ∷ ps)) _ (
        All-join (λ c. c ≢ b':') (b'-' ∷ b'>' ∷ [])
          ((λ e. omega (arith, e)), ((λ e. omega (arith, e)), tt)) (p ∷ ps) (no_colon (p ∷ ps) h)))
    ∙ (ap
          (λ (o : Option (List Text)).
            o >>= λ mutations. some (split_arrow (message_path_to_str (p ∷ ps)), mutations))
          (mutations_lem (mutation_name m) (map mutation_name ms) k)
        ∙ ap (λ (l : List Text). some (l, map mutation_name (m ∷ ms)))
            (split_arrow-join p ps (no_arrow (p ∷ ps) h)))
