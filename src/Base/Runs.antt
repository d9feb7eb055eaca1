-- ===== src/Base/Runs.antt =====
-- Two runs of a chain that may fail, compared where both give a result.
use mathlib.Core.Path.{◌≡◌, sym, ◌∙◌, subst}
use mathlib.Core.Bool.{Bool, true, false}
use mathlib.Core.Option.{Option, none, some}
use boofuzz.Base.Logic.{◌>>=◌, bind_cases, some_inj}
use boofuzz.Base.Compare.{if◌then◌else◌}

-- Any two results are related.
abbrev pub Related : {A : Type 0} → (A → A → Type 0) → Option A → Option A → Type 0
Related {A} R o o' = (a b : A) → o ≡ some a → o' ≡ some b → R a b

-- Each result satisfies the predicate.
abbrev pub Yields : {A : Type 0} → (A → Type 0) → Option A → Type 0
Yields {A} P o = (a : A) → o ≡ some a → P a

pub Related-bind :
    {A B : Type 0} (R : A → A → Type 0) (S : B → B → Type 0) (o o' : Option A) (f f' : A → Option B)
    → Related R o o'
    → ((a b : A) → R a b → Related S (f a) (f' b))
    → Related S (o >>= f) (o' >>= f')
Related-bind R S o o' f f' h k x y e e' =
    let (a, ra, ea) = bind_cases o f x e in
    let (b, rb, eb) = bind_cases o' f' y e' in k a b (h a b ra rb) x y ea eb

pub Related-none : {A : Type 0} (R : A → A → Type 0) (o : Option A) → Related R none o
Related-none R o a b e e' = absurd cc

pub Related-none_right : {A : Type 0} (R : A → A → Type 0) (o : Option A) → Related R o none
Related-none_right R o a b e e' = absurd cc

pub Related-some : {A : Type 0} (R : A → A → Type 0) (a b : A) → R a b → Related R (some a) (some b)
Related-some R a b h x y e e' = subst (λ u. R u y) (some_inj e) (subst (λ v. R a v) (some_inj e') h)

-- One computation, whatever relation its result has to itself.
pub Related-same :
    {A : Type 0} (R : A → A → Type 0) → ((a : A) → R a a) → (o : Option A) → Related R o o
Related-same R h o a b e e' = subst (λ v. R a v) (some_inj (sym e ∙ e')) (h a)

pub Yields-bind :
    {A B : Type 0} (P : B → Type 0) (o : Option A) (f : A → Option B)
    → ((a : A) → Yields P (f a))
    → Yields P (o >>= f)
Yields-bind P o f h b e = let (a, ra, ea) = bind_cases o f b e in h a b ea

-- A chain whose next step may count on what the first one yields.
pub Yields-chain :
    {A B : Type 0} (P : A → Type 0) (Q : B → Type 0) (o : Option A) (f : A → Option B)
    → Yields P o
    → ((a : A) → P a → Yields Q (f a))
    → Yields Q (o >>= f)
Yields-chain P Q o f h k b e = let (a, ra, ea) = bind_cases o f b e in k a (h a ra) b ea

pub Yields-none : {A : Type 0} (P : A → Type 0) → Yields P none
Yields-none P a e = absurd cc

pub Yields-some : {A : Type 0} (P : A → Type 0) (a : A) → P a → Yields P (some a)
Yields-some P a h b e = subst P (some_inj e) h

pub Yields-if :
    {A : Type 0} (P : A → Type 0) (b : Bool) (o o' : Option A)
    → Yields P o
    → Yields P o'
    → Yields P (if b then o else o')
Yields-if P true o o' h k = h
Yields-if P false o o' h k = k
