-- ===== src/Blocks/Render/SizeField.antt =====
-- What a size field announces, and what an aligned block is padded to.
use boofuzz.Base.{
  ℕ, suc, ◌+◌, ◌-◌, ◌*◌, ◌/◌, ◌%◌, ◌≡◌, ◌<◌, ◌≤◌, refl, ap, ap₂, sym, ◌∙◌, false, List, ◌∷◌, ◌++◌,
  Option, some, length, times, take, All, arith, length-append, length-times, length-take,
}
use native.Mathlib.Omega.{mod_fact}
use native.Mathlib.Nat.{div-add-mod', mod-add-mod, mod_self}
use boofuzz.Base.Int.{ℤ, pos, ◌+ℤ◌}
use boofuzz.Base.Text.{Text, text_mem}
use boofuzz.Primitives.BitField.{binary, render_int}
use boofuzz.Primitives.BitField.Binary.{unsigned}
use boofuzz.Primitives.BitField.Render.{render_int-binary, decode}
use boofuzz.Blocks.Names.{qualified_name}
use boofuzz.Blocks.Element.{none_value, Info, SizeSpec, Element, leaf, size}
use boofuzz.Blocks.Values.{align}
use boofuzz.Blocks.Render.{
  Message, target_of, get_value, length_of_target, inclusive_length, encode_size, encode_leaf,
  render,
}
use boofuzz.Blocks.Render.Stable.{IsStable, target_of-IsStable}
use boofuzz.Blocks.Render.Lengths.{render-SameLength}

-- A field of as many bytes as the specification says that reads, in its byte order, as the number.
abbrev pub Announces : SizeSpec → ℤ → Option (List ℕ) → Type 0
Announces s v result =
    (b : List ℕ) × (result ≡ some b)
    × (length b ≡ s.length)
    × (decode s.endian b ≡ unsigned v (s.length * 8))

abbrev pub announced : SizeSpec → ℕ → ℤ
announced s n = s.math (s.offset +ℤ pos (inclusive_length s) +ℤ pos n)

renders_number :
    (s : SizeSpec) (v : ℤ)
    → s.format ≡ binary
    → Announces s v (render_int v s.format (s.length * 8) s.endian s.signed)
renders_number s v h =
    let (b, runs, fits, _, value) = render_int-binary v (s.length * 8) s.endian s.signed in
    (
      b,
      ap (λ f. render_int v f (s.length * 8) s.endian s.signed) h ∙ runs,
      fits ∙ omega arith,
      value,
    )

module _ (m : Message) (i : Info) (s : SizeSpec) where
  abbrev own_name : Text
  own_name = qualified_name i.context_path i.name

  length_of_target_lem :
      (fuel : ℕ) (flags : List Text) (name : Text) (t : Element) (c : List ℕ)
      → s.block_name ≡ some name
      → target_of m i name ≡ some t
      → render m fuel (own_name ∷ flags) t ≡ some c
      → length_of_target m (render m fuel) flags i s.block_name ≡ some (length c)
  length_of_target_lem fuel flags name t c names leads runs = rw (names, leads, runs) refl

  encode_size_lem :
      (fuel : ℕ) (flags : List Text) (n : ℕ)
      → s.format ≡ binary
      → text_mem own_name flags ≡ false
      → length_of_target m (render m fuel) flags i s.block_name ≡ some n
      → Announces s (announced s n) (encode_size m (render m fuel) flags i s none_value)
  unfolding encode_size
  encode_size_lem fuel flags n format calm measured =
      rw (calm, measured) (renders_number s (announced s n) format)

  -- A binary size field with its default value and no raised flag, in a message whose named elements
  -- are stable, that refers to `t`, which renders: it announces, in its own number of bytes, what
  -- `math` makes of the offset, its own length if that counts, and the length that `t` has in any
  -- rendering, also in one that contains the size field and raises no flag of it.
  pub render-Announces :
      All (λ (x : Text × Element). IsStable x.1) m.names
      → s.format ≡ binary
      → (fuel : ℕ) → get_value m fuel (leaf i (size s)) ≡ some none_value
      → (flags : List Text) → text_mem own_name flags ≡ false
      → (name : Text) (t : Element) → s.block_name ≡ some name
      → target_of m i name ≡ some t
      → (inner : List ℕ) → render m fuel (own_name ∷ flags) t ≡ some inner
      → (fuel' : ℕ) (flags' : List Text) (c : List ℕ) → render m fuel' flags' t ≡ some c
      → Announces s (announced s (length c)) (render m (suc fuel) flags (leaf i (size s)))
  unfolding render encode_leaf
  render-Announces named format fuel default flags calm name t names leads inner runs fuel' flags' c
        runs' =
      rw default (
        encode_size_lem fuel flags (length c) format calm (
          length_of_target_lem fuel flags name t inner names leads runs
          ∙ ap some (
              render-SameLength m named fuel fuel' (own_name ∷ flags) flags' t
                (target_of-IsStable m i name t named leads) inner c runs runs')))

length_padding :
    (p : ℕ) (ps : List ℕ) (n : ℕ)
    → let w = suc (length ps) in length (times (n / w) (p ∷ ps) ++ take (n % w) (p ∷ ps)) ≡ n
length_padding p ps n =
    let w = suc (length ps) in
    length-append (times (n / w) (p ∷ ps)) (take (n % w) (p ∷ ps))
    ∙ (ap₂ (λ (a b : ℕ). a + b) (length-times (n / w) (p ∷ ps))
          (short (n % w) (mod_fact n (length ps)))
        ∙ div-add-mod' n w)
  where
    short : (k : ℕ) → k < suc (length ps) → length (take k (p ∷ ps)) ≡ k
    short k h = omega (arith, length-take k (p ∷ ps))

fills : (l m : ℕ) → (l + (suc m - l % suc m)) % suc m ≡ 0
fills l m =
    sym (mod-add-mod l (suc m) (suc m - l % suc m))
    ∙ (ap (λ (n : ℕ). n % suc m) (omega (arith, mod_fact l m)) ∙ mod_self (suc m))

-- A modulus and a pattern that are not empty: the contents come first, at least one byte of padding
-- and at most a whole modulus follows, and the whole length is a multiple of the modulus.
pub align-multiple :
    (m p : ℕ) (ps child_data : List ℕ)
    → (padding : List ℕ) × (align (suc m) (p ∷ ps) child_data ≡ some (child_data ++ padding))
      × (0 < length padding)
      × (length padding ≤ suc m)
      × ((length child_data + length padding) % suc m ≡ 0)
unfolding align
align-multiple m p ps child_data =
    let n = suc m - length child_data % suc m in
    let fits = length_padding p ps n in
    (
      times (n / suc (length ps)) (p ∷ ps) ++ take (n % suc (length ps)) (p ∷ ps),
      refl,
      omega (arith, fits, mod_fact (length child_data) m),
      omega (arith, fits),
      ap (λ (k : ℕ). (length child_data + k) % suc m) fits ∙ fills (length child_data) m,
    )
