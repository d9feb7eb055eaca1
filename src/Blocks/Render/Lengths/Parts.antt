-- ===== src/Blocks/Render/Lengths/Parts.antt =====
-- The lengths of the parts that a rendering is put together from.
use boofuzz.Base.{
  ℕ, zero, suc, ◌+◌, ◌*◌, ◌≡◌, refl, ap, ap₂, sym, ◌∙◌, Bool, List, [], ◌∷◌, ◌++◌, Option, none,
  some, length, times, some_inj, arith, length-append, length-times,
}
use boofuzz.Base.Int.{ℤ, pos, negsuc}
use boofuzz.Base.Runs.{Related, Yields, Related-none, Related-some, Related-same}
use boofuzz.Primitives.BitField.{OutputFormat, binary, render_int, Endian}
use boofuzz.Primitives.BitField.Render.{render_int-binary}
use boofuzz.Blocks.Element.{Value, none_value, bytes, text, int}
use boofuzz.Blocks.Values.{align, repeat_bytes, apply_encoder}
use boofuzz.Blocks.Render.Stable.{IsStableEncoder}

abbrev pub SameLength : List ℕ → List ℕ → Type 0
SameLength a b = length a ≡ length b

abbrev pub Equal : {A : Type 0} → A → A → Type 0
Equal a b = a ≡ b

pub same_run : (o : Option (List ℕ)) → Related SameLength o o
same_run = Related-same SameLength (λ a. refl)

pub of_length :
    (n : ℕ) (o o' : Option (List ℕ))
    → Yields (λ a. length a ≡ n) o
    → Yields (λ a. length a ≡ n) o'
    → Related SameLength o o'
of_length n o o' h k a b e e' = h a e ∙ sym (k b e')

-- A binary integer of `n` bytes.
pub render_int-Yields :
    (v : ℤ) (format : OutputFormat) (n : ℕ) (endian : Endian) (signed : Bool)
    → format ≡ binary
    → Yields (λ a. length a ≡ n) (render_int v format (n * 8) endian signed)
render_int-Yields v format n endian signed h a e =
    let (b, runs, fits, _, _) = render_int-binary v (n * 8) endian signed in
    ap length (
      some_inj (sym e ∙ (ap (λ (f : OutputFormat). render_int v f (n * 8) endian signed) h ∙ runs)))
    ∙ (fits ∙ omega arith)

pub repeat_SameLength :
    (v : Value) (a b : List ℕ)
    → SameLength a b
    → Related SameLength (repeat_bytes v a) (repeat_bytes v b)
repeat_SameLength (int (pos n)) a b h =
    Related-some SameLength (times n a) (times n b)
      (length-times n a ∙ (ap (λ (k : ℕ). n * k) h ∙ sym (length-times n b)))
repeat_SameLength (int (negsuc n)) a b h = same_run (some [])
repeat_SameLength none_value a b h = Related-none SameLength none
repeat_SameLength (bytes c) a b h = Related-none SameLength none
repeat_SameLength (text t) a b h = Related-none SameLength none

pub append_SameLength :
    (a b c d : List ℕ) → SameLength a b → SameLength c d → SameLength (a ++ c) (b ++ d)
append_SameLength a b c d h k =
    length-append a c ∙ (ap₂ (λ (n m : ℕ). n + m) h k ∙ sym (length-append b d))

pub align-SameLength :
    (modulus : ℕ) (pattern a b : List ℕ)
    → SameLength a b
    → Related SameLength (align modulus pattern a) (align modulus pattern b)
unfolding align
align-SameLength zero pattern a b h = Related-none SameLength none
align-SameLength (suc m) [] a b h = Related-none SameLength none
align-SameLength (suc m) (p ∷ ps) a b h =
    rw h (Related-some SameLength _ _ (append_SameLength a b _ _ h refl))

pub encoder_SameLength :
    (encoder : Option (List ℕ → List ℕ))
    → IsStableEncoder encoder
    → (a b : List ℕ) → SameLength a b
    → SameLength (apply_encoder encoder a) (apply_encoder encoder b)
encoder_SameLength none stable a b h = h
encoder_SameLength (some f) stable a b h = stable a b h
