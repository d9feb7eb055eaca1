-- ===== src/Helpers/Checksum.antt =====
-- The IPv4 and UDP checksums of boofuzz/helpers.py, on byte strings.
pub mod Verify
use Prim.Native.Nat.{bit_and}
use boofuzz.Base.{
  ℕ, zero, suc, ◌+◌, ◌-◌, ◌*◌, ◌/◌, ◌%◌, ◌^◌, List, [], ◌∷◌, ◌++◌, Option, none, some, ltb, ◌==◌,
  if◌then◌else◌, length, take, ◌>>=◌,
}

-- `pre_sum & 0xFFFF` is added to `pre_sum >> 16`.
unfoldable pub ones_complement_sum_carry_16 : ℕ → ℕ → ℕ
ones_complement_sum_carry_16 a b = bit_and (a + b) 65535 + (a + b) / 2 ^ 16

-- `(msb << 8) + lsb`.
abbrev pub collate_bytes : ℕ → ℕ → ℕ
collate_bytes msb lsb = msb * 256 + lsb

-- `map(_collate_bytes, msg[0::2], msg[1::2])`, which ends with the shorter of the two.
unfoldable pub words : List ℕ → List ℕ
words [] = []
words (msb ∷ []) = []
words (msb ∷ lsb ∷ msg) = collate_bytes msb lsb ∷ words msg

-- `reduce(_ones_complement_sum_carry_16, msg_words, total)`.
unfoldable pub reduce : ℕ → List ℕ → ℕ
unfolding ones_complement_sum_carry_16
reduce total [] = total
reduce total (w ∷ ws) = reduce (ones_complement_sum_carry_16 total w) ws

-- `~total & 0xFFFF`: the bits of 0xFFFF that `total` does not have.
unfoldable pub complement_16 : ℕ → ℕ
complement_16 total = 65535 - bit_and total 65535

-- A message of odd length is padded with a zero byte.
abbrev pub pad_odd : List ℕ → List ℕ
pad_odd msg = if length msg % 2 == 1 then msg ++ 0 ∷ [] else msg

unfoldable pub ipv4_checksum : List ℕ → ℕ
unfolding words reduce complement_16
ipv4_checksum msg = complement_16 (reduce 0 (words (pad_odd msg)))

-- `struct.pack(">H", n)`; `none` is the error of a number that two bytes do not hold.
abbrev pub pack_big_endian_16 : ℕ → Option (List ℕ)
pack_big_endian_16 n = if ltb n 65536 then some (n / 256 ∷ n % 256 ∷ []) else none

abbrev pub pseudo_header : List ℕ → List ℕ → List ℕ → List ℕ
pseudo_header src_addr dst_addr len = src_addr ++ (dst_addr ++ 0 ∷ 17 ∷ len)

abbrev pub udp_checksum_pseudo_header : List ℕ → List ℕ → ℕ → Option (List ℕ)
udp_checksum_pseudo_header src_addr dst_addr msg_len = do
  len ← pack_big_endian_16 msg_len
  some (pseudo_header src_addr dst_addr len)

-- The message is cut off at UDP_MAX_LENGTH_THEORETICAL.
unfoldable pub udp_checksum : List ℕ → List ℕ → List ℕ → Option ℕ
unfolding ipv4_checksum
udp_checksum msg src_addr dst_addr = do
  let cut = take 65535 msg
  header ← udp_checksum_pseudo_header src_addr dst_addr (length cut)
  some (ipv4_checksum (header ++ cut))
