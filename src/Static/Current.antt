-- ===== src/Static/Current.antt =====
-- What the functions do to the requests that are not current.
use boofuzz.Base.{
  ◌≡◌, ◌≢◌, refl, ap, sym, ◌∙◌, Bool, true, false, List, [], ◌∷◌, Option, some, if◌then◌else◌,
  bind_cases, some_inj, subst,
}
use boofuzz.Base.Text.{Text, text_eq, eq_of_text_eq}
use boofuzz.Blocks.Names.{lookup_name}
use boofuzz.Static.{Definition, Globals, put_request, on_current}

text_ne : (s t : Text) → s ≢ t → text_eq s t ≡ false
text_ne s t h = decide (text_eq s t) refl
  where
    decide : (b : Bool) → text_eq s t ≡ b → b ≡ false
    decide true e = absurd (h (eq_of_text_eq s t e))
    decide false e = refl

lookup_name-put_request_other :
    (name other : Text) (d : Definition) (rs : List (Text × Definition))
    → other ≢ name
    → lookup_name other (put_request name d rs) ≡ lookup_name other rs
unfolding lookup_name put_request
lookup_name-put_request_other name other d [] h = refl
lookup_name-put_request_other name other d ((n, old) ∷ rs) h =
    decide (text_eq n name) refl (lookup_name-put_request_other name other d rs h)
  where
    decide :
        (b : Bool)
        → text_eq n name ≡ b
        → lookup_name other (put_request name d rs) ≡ lookup_name other rs
        → lookup_name other (if b then (n, d) ∷ rs else (n, old) ∷ put_request name d rs)
          ≡ (if text_eq n other then some old else lookup_name other rs)
    decide true e ih = rw (text_ne n other (λ same. h (sym same ∙ eq_of_text_eq n name e))) refl
    decide false e ih = ap (λ (o : Option Definition). if text_eq n other then some old else o) ih

lookup_name-put_request :
    (name : Text) (d old : Definition) (rs : List (Text × Definition))
    → lookup_name name rs ≡ some old
    → lookup_name name (put_request name d rs) ≡ some d
unfolding lookup_name put_request
lookup_name-put_request name d old [] h = absurd cc
lookup_name-put_request name d old ((n, o) ∷ rs) h =
    decide (text_eq n name) refl h (lookup_name-put_request name d old rs)
  where
    decide :
        (b : Bool)
        → text_eq n name ≡ b
        → (if b then some o else lookup_name name rs) ≡ some old
        → (lookup_name name rs ≡ some old → lookup_name name (put_request name d rs) ≡ some d)
        → lookup_name name (if b then (n, d) ∷ rs else (n, o) ∷ put_request name d rs) ≡ some d
    decide true e k ih = rw e refl
    decide false e k ih = rw e (ih k)

-- What a method of the current request has done: it has turned the request `name` into another state
-- of it, and every other request is as before, and so is which one is current.
abbrev pub HasChanged : (Definition → Option Definition) → Text → Globals → Globals → Type 0
HasChanged method name g g' =
    (before : Definition) × (after : Definition) × (lookup_name name g.requests ≡ some before)
    × (method before ≡ some after)
    × (lookup_name name g'.requests ≡ some after)
    × ((other : Text) → other ≢ name → lookup_name other g'.requests ≡ lookup_name other g.requests)
    × (g'.current ≡ g.current)

-- A function that calls a method of the current request, and succeeds, has put that request into
-- the state that the method gives, and has left every other request and the choice of the current
-- one unchanged.
pub on_current-HasChanged :
    (method : Definition → Option Definition) (g g' : Globals) (name : Text)
    → g.current ≡ some name
    → on_current method g ≡ some g'
    → HasChanged method name g g'
unfolding on_current
on_current-HasChanged method g g' name c e =
    let (n, en, rest) = bind_cases g.current _ g' e in
    let (before, eb, rest2) = bind_cases (lookup_name n g.requests) _ g' rest in
    let (after, ea, rest3) = bind_cases (method before) _ g' rest2 in
    subst (λ m. HasChanged method m g g') (some_inj (sym en ∙ c))
      (subst (λ h. HasChanged method n g h) (some_inj rest3)
        (
          before,
          after,
          eb,
          ea,
          lookup_name-put_request n after before g.requests eb,
          λ other differs. lookup_name-put_request_other n other after g.requests differs,
          refl,
        ))
