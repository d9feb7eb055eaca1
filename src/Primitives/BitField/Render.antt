-- ===== src/Primitives/BitField/Render.antt =====
-- What `_render_int` writes: the bytes of the number's low bits in the order that was asked for,
-- or the decimal text of the integer that the bits stand for.
use boofuzz.Base.{
  ℕ, zero, suc, ◌+◌, ◌-◌, ◌*◌, ◌/◌, ◌%◌, ◌<◌, ◌≤◌, ◌≡◌, refl, ap, sym, ◌∙◌, inl, inr, Bool, false,
  List, [], ◌∷◌, ◌++◌, reverse, Option, some, replicate, length, take, drop, All, length-append,
  length-replicate, length-take, length-drop, drop-drop, take-append-drop, length-reverse, arith,
  ◌==◌, Bool-cases, All-append, reverse-cons, ◌^◌,
}
use native.Mathlib.Nat.{pow-suc}
use boofuzz.Base.Words.{from_little_endian}
use boofuzz.Base.Int.{ℤ}
use boofuzz.Primitives.BitField.{
  Endian, little, big, int_to_binary_string, binary_string_to_int, pack_chunks, pad_bits, pack_byte,
  render_int, render_binary, binary, order_bytes,
}
use boofuzz.Primitives.BitField.Binary.{
  unsigned, bits_value, IsBit, parse_binary_lem, bits_value_split, bits_value-append, bits_value-lt,
  bits_value_digits, int_to_binary_string-IsBit, length-int_to_binary_string,
}

-- The number that a byte string stands for, most significant byte first.
abbrev pub big_endian : ℕ → List ℕ → ℕ
big_endian acc [] = acc
big_endian acc (b ∷ bs) = big_endian (acc * 256 + b) bs

-- The number that a byte string stands for, in a byte order.
abbrev pub decode : Endian → List ℕ → ℕ
decode little bytes = from_little_endian bytes
decode big bytes = big_endian 0 bytes

snoc_lem : (c n p b : ℕ) → c + 256 * (n + p * b) ≡ c + 256 * n + p * 256 * b
snoc_lem c n p b = omega arith

split_lem :
    (x y n p acc b : ℕ) → x ≡ n + p * (acc * 256 + b) → y ≡ n + p * b → x ≡ y + p * 256 * acc
split_lem x y n p acc b h k = omega (arith, h, k)

-- The first byte of a little-endian number counts ones, and the last one the most.
from_little_endian-snoc :
    (bs : List ℕ) (b : ℕ)
    → from_little_endian (bs ++ b ∷ []) ≡ from_little_endian bs + 256 ^ length bs * b
unfolding from_little_endian
from_little_endian-snoc [] b = omega arith
from_little_endian-snoc (c ∷ bs) b =
    ap (λ (n : ℕ). c + 256 * n) (from_little_endian-snoc bs b)
    ∙ (snoc_lem c (from_little_endian bs) (256 ^ length bs) b
        ∙ ap (λ (n : ℕ). c + 256 * from_little_endian bs + n * b) (sym (pow-suc 256 (length bs))))

front_lem :
    (b : ℕ) (bs : List ℕ)
    → big_endian 0 bs + 256 ^ length bs * (0 * 256 + b) ≡ big_endian 0 bs + 256 ^ length bs * b
front_lem b bs = ap (λ (k : ℕ). big_endian 0 bs + 256 ^ length bs * k) (omega arith)

big_endian_split :
    (acc : ℕ) (bs : List ℕ) → big_endian acc bs ≡ big_endian 0 bs + 256 ^ length bs * acc
big_endian_split acc [] = omega arith
big_endian_split acc (b ∷ bs) =
    split_lem _ _ (big_endian 0 bs) (256 ^ length bs) acc b (big_endian_split (acc * 256 + b) bs)
      (big_endian_split (0 * 256 + b) bs ∙ front_lem b bs)
    ∙ ap (λ (n : ℕ). big_endian (0 * 256 + b) bs + n * acc) (sym (pow-suc 256 (length bs)))

-- Reading backwards.
from_little_endian-reverse : (bs : List ℕ) → from_little_endian (reverse bs) ≡ big_endian 0 bs
unfolding from_little_endian
from_little_endian-reverse [] = refl
from_little_endian-reverse (b ∷ bs) =
    ap from_little_endian (reverse-cons b bs)
    ∙ (from_little_endian-snoc (reverse bs) b
        ∙ (rw (from_little_endian-reverse bs, length-reverse bs)
            (sym (big_endian_split (0 * 256 + b) bs ∙ front_lem b bs))))

take-IsBit : (n : ℕ) (s : List ℕ) → All IsBit s → All IsBit (take n s)
take-IsBit zero s h = tt
take-IsBit (suc n) [] h = tt
take-IsBit (suc n) (c ∷ s) h = (h.0, take-IsBit n s h.1)

drop-IsBit : (n : ℕ) (s : List ℕ) → All IsBit s → All IsBit (drop n s)
drop-IsBit zero s h = h
drop-IsBit (suc n) [] h = tt
drop-IsBit (suc n) (c ∷ s) h = drop-IsBit n s h.1

int_of_bits :
    (c : List ℕ) → 0 < length c → All IsBit c → binary_string_to_int c ≡ some (bits_value 0 c)
unfolding binary_string_to_int
int_of_bits [] h k = elim h [ ]
int_of_bits (x ∷ c) h k = parse_binary_lem 0 (x ∷ c) k

nil_of_length : (xs : List ℕ) → length xs ≡ 0 → xs ≡ []
nil_of_length [] h = refl
nil_of_length (x ∷ xs) h = absurd (omega arith)

-- A byte string of `k` bytes that stands for the digits `t` after whatever stands before it.
record IsPacked (k : ℕ) (t bytes : List ℕ) : Type 0 where
  size : length bytes ≡ k
  in_range : All (λ b. b < 256) bytes
  value : (acc : ℕ) → big_endian acc bytes ≡ bits_value acc t

module _ (t : List ℕ) (enough : 8 ≤ length t) (bits : All IsBit t) where
  chunk_size : length (take 8 t) ≡ 8
  chunk_size = omega (arith, length-take 8 t)

  chunk-lt : bits_value 0 (take 8 t) < 256
  chunk-lt = rw chunk_size at (bits_value-lt (take 8 t) (take-IsBit 8 t bits))

  chunk_value :
      (acc : ℕ) → bits_value acc t ≡ bits_value (acc * 256 + bits_value 0 (take 8 t)) (drop 8 t)
  chunk_value acc =
      ap (bits_value acc) (sym (take-append-drop 8 t))
      ∙ bits_value-append acc (take 8 t) (drop 8 t)
      ∙ ap (λ (v : ℕ). bits_value v (drop 8 t)) first
    where
      first : bits_value acc (take 8 t) ≡ acc * 256 + bits_value 0 (take 8 t)
      first = rw chunk_size at (bits_value_split acc (take 8 t))

  IsPacked-cons :
      (k : ℕ) (bytes : List ℕ)
      → IsPacked k (drop 8 t) bytes
      → IsPacked (suc k) t (bits_value 0 (take 8 t) ∷ bytes)
  IsPacked-cons k bytes p = record {
    size = ap suc p.size;
    in_range = (chunk-lt, p.in_range);
    value = λ acc. p.value (acc * 256 + bits_value 0 (take 8 t)) ∙ sym (chunk_value acc);
  }

next_chunk : (i : ℕ) (s : List ℕ) → drop 8 (drop (8 * i) s) ≡ drop (8 * (i + 1)) s
next_chunk i s = drop-drop (8 * i) 8 s ∙ ap (λ (n : ℕ). drop n s) (shift i)
  where
    shift : (i : ℕ) → 8 * i + 8 ≡ 8 * (i + 1)
    shift i = omega arith

pack_byte_lem : (x : ℕ) → x < 256 → pack_byte x ≡ some x
pack_byte_lem x h = ground arith

pack_chunks_lem :
    (i k : ℕ) (s : List ℕ)
    → length (drop (8 * i) s) ≡ 8 * k
    → All IsBit (drop (8 * i) s)
    → (bytes : List ℕ) × (pack_chunks i k s ≡ some bytes) × IsPacked k (drop (8 * i) s) bytes
unfolding pack_chunks
pack_chunks_lem i zero s h bits = (
  [],
  refl,
  rw (nil_of_length (drop (8 * i) s) h)
      (record { size = refl; in_range = tt; value = λ acc. refl }),
)
pack_chunks_lem i (suc k) s h bits =
    let t = drop (8 * i) s in
    let enough : 8 ≤ length t = omega arith in
    let (bytes, runs, packed) =
      pack_chunks_lem (i + 1) k s
        (ap length (sym (next_chunk i s)) ∙ (length-drop 8 t ∙ omega arith))
        (rw (next_chunk i s) at (drop-IsBit 8 t bits)) in
    (
      bits_value 0 (take 8 t) ∷ bytes,
      rw (
        int_of_bits (take 8 t) (omega (arith, chunk_size t enough bits)) (take-IsBit 8 t bits),
        pack_byte_lem _ (chunk-lt t enough bits),
        runs,
      ),
      IsPacked-cons t enough bits k bytes (rw (← next_chunk i s) at packed),
    )

pub zeros_value : (n : ℕ) → bits_value 0 (replicate n b'0') ≡ 0
zeros_value zero = refl
zeros_value (suc n) = zeros_value n

pub zeros-IsBit : (n : ℕ) → All IsBit (replicate n b'0')
zeros-IsBit zero = tt
zeros-IsBit (suc n) = (inl refl, zeros-IsBit n)

abbrev pub byte_count : ℕ → ℕ
byte_count width = (width + 7) / 8

-- The padded stream has the field's digits and fills whole bytes.
record IsPadded (v : ℤ) (w : ℕ) (s : List ℕ) : Type 0 where
  size : length s ≡ 8 * byte_count w
  bits : All IsBit s
  value : bits_value 0 s ≡ unsigned v w

module _ (v : ℤ) (w : ℕ) where
  zeros-IsPadded :
      (w % 8 == 0) ≡ false → IsPadded v w (replicate (8 - w % 8) b'0' ++ int_to_binary_string v w)
  zeros-IsPadded odd = record {
    size = ground (
      arith,
      length-append (replicate (8 - w % 8) b'0') (int_to_binary_string v w),
      length-replicate {A = ℕ} (8 - w % 8) b'0',
      length-int_to_binary_string v w,
    );
    bits =
        All-append IsBit _ (int_to_binary_string v w) (zeros-IsBit (8 - w % 8))
          (int_to_binary_string-IsBit v w);
    value =
        bits_value-append 0 (replicate (8 - w % 8) b'0') (int_to_binary_string v w)
        ∙ rw (zeros_value (8 - w % 8)) (bits_value_digits v w);
  }

  pad_bits-IsPadded : IsPadded v w (pad_bits v w)
  unfolding pad_bits
  pad_bits-IsPadded = elim (Bool-cases (w % 8 == 0)) [
    | inl even ↦ rw even (record {
      size = length-int_to_binary_string v w ∙ ground arith;
      bits = int_to_binary_string-IsBit v w;
      value = bits_value_digits v w;
    })
    | inr odd ↦ rw odd (zeros-IsPadded odd)
  ]

-- A result of the fewest bytes that hold `w` bits, which stand for the low `w` bits of `v`.
abbrev pub IsRendered : ℤ → ℕ → Endian → Option (List ℕ) → Type 0
IsRendered v w endian result =
    (bytes : List ℕ) × (result ≡ some bytes)
    × (length bytes ≡ byte_count w)
    × All (λ b. b < 256) bytes
    × (decode endian bytes ≡ unsigned v w)

All-reverse : (P : ℕ → Type 0) (xs : List ℕ) → All P xs → All P (reverse xs)
All-reverse P [] h = tt
All-reverse P (x ∷ xs) h =
    rw reverse-cons (All-append P (reverse xs) (x ∷ []) (All-reverse P xs h.1) (h.0, tt))

ordered :
    (endian : Endian) (v : ℤ) (w : ℕ) (s bytes : List ℕ)
    → IsPadded v w s
    → IsPacked (byte_count w) s bytes
    → IsRendered v w endian (some (order_bytes endian bytes))
ordered little v w s bytes pad p = (
  reverse bytes,
  refl,
  length-reverse bytes ∙ p.size,
  All-reverse (λ b. b < 256) bytes p.in_range,
  from_little_endian-reverse bytes ∙ (p.value 0 ∙ pad.value),
)
ordered big v w s bytes pad p = (bytes, refl, p.size, p.in_range, p.value 0 ∙ pad.value)

stream_from_start : (s : List ℕ) → drop (8 * 0) s ≡ s
stream_from_start s = refl

-- A binary field of `w` bits renders for every integer: to the fewest bytes that hold `w` bits,
-- which stand, in the field's byte order, for the low `w` bits of the integer.
pub render_int-binary :
    (v : ℤ) (w : ℕ) (endian : Endian) (signed : Bool)
    → IsRendered v w endian (render_int v binary w endian signed)
unfolding render_int render_binary
render_int-binary v w endian signed =
    let s = pad_bits v w in
    let pad = pad_bits-IsPadded v w in
    let rounds : length s / 8 ≡ byte_count w = omega (arith, pad.size) in
    let (bytes, runs, packed) = pack_chunks_lem 0 (byte_count w) s pad.size pad.bits in
    rw (rounds, runs) (ordered endian v w s bytes pad packed)
