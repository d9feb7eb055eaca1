-- ===== src/Helpers/Checksum/Verify.antt =====
-- What a receiver relies on: a message that its checksum was put after sums up to all ones.
use Prim.Native.Nat.{bit_and}
use boofuzz.Base.{
  ℕ, ◌+◌, ◌-◌, ◌/◌, ◌%◌, ◌<◌, ◌≡◌, refl, ap, sym, ◌∙◌, List, [], ◌∷◌, ◌++◌, some, length, take, All,
  arith, length-append, length-take,
}
use boofuzz.Base.Bits.{bit_and_low}
use boofuzz.Helpers.Checksum.{
  ones_complement_sum_carry_16, collate_bytes, words, reduce, complement_16, pad_odd, ipv4_checksum,
  pack_big_endian_16, pseudo_header, udp_checksum,
}

abbrev pub IsByte : ℕ → Type 0
IsByte b = b < 256

abbrev IsWord : ℕ → Type 0
IsWord w = w < 65536

low_16 : (n : ℕ) → bit_and n 65535 ≡ n % 65536
low_16 n = bit_and_low 16 n

sum_carry-IsWord : (a b : ℕ) → IsWord a → IsWord b → IsWord (ones_complement_sum_carry_16 a b)
unfolding ones_complement_sum_carry_16
sum_carry-IsWord a b h k = omega (arith, low_16 (a + b))

words-IsWord : (msg : List ℕ) → All IsByte msg → All IsWord (words msg)
unfolding words
words-IsWord [] h = tt
words-IsWord (a ∷ []) h = tt
words-IsWord (a ∷ b ∷ msg) h = (omega (arith, h.0, h.1.0), words-IsWord msg h.1.1)

reduce-IsWord : (total : ℕ) (ws : List ℕ) → IsWord total → All IsWord ws → IsWord (reduce total ws)
unfolding reduce
reduce-IsWord total [] h k = h
reduce-IsWord total (w ∷ ws) h k =
    reduce-IsWord (ones_complement_sum_carry_16 total w) ws (sum_carry-IsWord total w h k.0) k.1

reduce-append : (total : ℕ) (vs ws : List ℕ) → reduce total (vs ++ ws) ≡ reduce (reduce total vs) ws
unfolding reduce
reduce-append total [] ws = refl
reduce-append total (v ∷ vs) ws = reduce-append (ones_complement_sum_carry_16 total v) vs ws

words-append : (msg end : List ℕ) → length msg % 2 ≡ 0 → words (msg ++ end) ≡ words msg ++ words end
unfolding words
words-append [] end h = refl
words-append (a ∷ []) end h = absurd (omega arith)
words-append (a ∷ b ∷ msg) end h =
    ap (λ (l : List ℕ). collate_bytes a b ∷ l) (words-append msg end (omega arith))

complement_lem : (t : ℕ) → IsWord t → complement_16 t ≡ 65535 - t
unfolding complement_16
complement_lem t h = omega (arith, low_16 t)

sum_complement : (t : ℕ) → IsWord t → ones_complement_sum_carry_16 t (65535 - t) ≡ 65535
unfolding ones_complement_sum_carry_16
sum_complement t h = omega (arith, low_16 (t + (65535 - t)))

pad_even : (msg : List ℕ) → length msg % 2 ≡ 0 → pad_odd msg ≡ msg
pad_even msg h = ground arith

pad_odd_lem : (msg : List ℕ) → length msg % 2 ≡ 1 → pad_odd msg ≡ msg ++ 0 ∷ []
pad_odd_lem msg h = ground arith

-- The checksum's two bytes, most significant first.
abbrev pub checksum_bytes : ℕ → List ℕ
checksum_bytes c = c / 256 ∷ c % 256 ∷ []

collate_bytes_lem : (c : ℕ) → words (checksum_bytes c) ≡ c ∷ []
unfolding words
collate_bytes_lem c = ap (λ (n : ℕ). n ∷ []) (omega arith)

module _ (msg : List ℕ) (even : length msg % 2 ≡ 0) where
  checksum_value :
      All IsByte msg
      → IsWord (reduce 0 (words msg)) × (ipv4_checksum msg ≡ 65535 - reduce 0 (words msg))
  unfolding ipv4_checksum
  checksum_value bytes =
      let small = reduce-IsWord 0 (words msg) (omega arith) (words-IsWord msg bytes) in
      (small, rw (pad_even msg even) (complement_lem (reduce 0 (words msg)) small))

  total_value :
      (c : ℕ)
      → reduce 0 (words (msg ++ checksum_bytes c))
        ≡ ones_complement_sum_carry_16 (reduce 0 (words msg)) c
  unfolding reduce
  total_value c =
      ap (reduce 0) (
        words-append msg (checksum_bytes c) even
        ∙ ap (λ (l : List ℕ). words msg ++ l) (collate_bytes_lem c))
      ∙ reduce-append 0 (words msg) (c ∷ [])

  whole_value :
      (c : ℕ)
      → ones_complement_sum_carry_16 (reduce 0 (words msg)) c ≡ 65535
      → ipv4_checksum (msg ++ checksum_bytes c) ≡ 0
  unfolding ipv4_checksum
  whole_value c ones =
      ap (λ (m : List ℕ). complement_16 (reduce 0 (words m)))
        (pad_even (msg ++ checksum_bytes c) (omega (arith, length-append msg (checksum_bytes c))))
      ∙ (ap complement_16 (total_value c ∙ ones) ∙ complement_lem 65535 (omega arith))

-- A message of bytes with an even length: its checksum fits into two bytes, and with these put
-- after it the message has checksum 0.
pub ipv4_checksum_verifies :
    (msg : List ℕ)
    → All IsByte msg
    → length msg % 2 ≡ 0
    → (ipv4_checksum msg < 65536) × (ipv4_checksum (msg ++ checksum_bytes (ipv4_checksum msg)) ≡ 0)
ipv4_checksum_verifies msg bytes even =
    let (small, value) = checksum_value msg even bytes in
    (
      omega arith,
      rw value (
          whole_value msg even (65535 - reduce 0 (words msg))
            (sum_complement (reduce 0 (words msg)) small)),
    )

-- A message of odd length has the checksum of the message with a zero byte put after it.
pub ipv4_checksum_odd :
    (msg : List ℕ) → length msg % 2 ≡ 1 → ipv4_checksum msg ≡ ipv4_checksum (msg ++ 0 ∷ [])
unfolding ipv4_checksum
ipv4_checksum_odd msg odd =
    ap (λ (m : List ℕ). complement_16 (reduce 0 (words m)))
      (pad_odd_lem msg odd
        ∙ sym (pad_even (msg ++ 0 ∷ []) (omega (arith, length-append msg (0 ∷ [])))))

-- Every message has a UDP checksum, however long it is: the checksum is that of the pseudo header
-- with the length of at most 65535 bytes, and of as many bytes of the message.
pub udp_checksum_cut :
    (msg src_addr dst_addr : List ℕ)
    → udp_checksum msg src_addr dst_addr
      ≡ some (
          ipv4_checksum (
            pseudo_header src_addr dst_addr (checksum_bytes (length (take 65535 msg)))
            ++ take 65535 msg))
unfolding udp_checksum
udp_checksum_cut msg src_addr dst_addr =
    rw (packs (length (take 65535 msg)) (omega (arith, length-take 65535 msg)))
  where
    packs : (n : ℕ) → n < 65536 → pack_big_endian_16 n ≡ some (checksum_bytes n)
    packs n h = ground arith
