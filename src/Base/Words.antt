-- ===== src/Base/Words.antt =====
-- `struct.pack` and `struct.unpack` of unsigned numbers, in both byte orders.
use Prim.Native.Nat.{ℕ, zero, suc, ◌+◌, ◌*◌, ◌/◌, ◌%◌, ◌^◌, ◌<◌}
use mathlib.Core.Path.{◌≡◌, refl, ap}
use mathlib.Core.Option.{Option, none, some}
use mathlib.Core.List.{List, [], ◌∷◌, reverse}
use native.Mathlib.Nat.{pow-suc}
use native.Mathlib.Omega.{arith}
use boofuzz.Base.Compare.{ltb, lt→ltb, if◌then◌else◌}
use boofuzz.Base.Lists.{length}

-- The `k` low bytes of a number, the lowest one first.
unfoldable pub little_endian : ℕ → ℕ → List ℕ
little_endian zero n = []
little_endian (suc k) n = (n % 256) ∷ little_endian k (n / 256)

unfoldable pub from_little_endian : List ℕ → ℕ
from_little_endian [] = 0
from_little_endian (b ∷ bs) = b + 256 * from_little_endian bs

-- `struct.pack("<B", n)`, `"<H"` and `"<L"` for 1, 2 and 4 bytes; another number is a struct.error.
unfoldable pub pack_little : ℕ → ℕ → Option (List ℕ)
pack_little k n = if ltb n (256 ^ k) then some (little_endian k n) else none

-- `">H"` and `">L"`.
unfoldable pub pack_big : ℕ → ℕ → Option (List ℕ)
pack_big k n = if ltb n (256 ^ k) then some (reverse (little_endian k n)) else none

abbrev pub from_big_endian : List ℕ → ℕ
from_big_endian bs = from_little_endian (reverse bs)

pub length-little_endian : (k n : ℕ) → length (little_endian k n) ≡ k
unfolding little_endian
length-little_endian zero n = refl
length-little_endian (suc k) n = ap suc (length-little_endian k (n / 256))

pub from_little_endian-little_endian :
    (k n : ℕ) → n < 256 ^ k → from_little_endian (little_endian k n) ≡ n
unfolding little_endian from_little_endian
from_little_endian-little_endian zero n h = omega arith
from_little_endian-little_endian (suc k) n h =
    omega (arith, from_little_endian-little_endian k (n / 256) (omega (arith, pow-suc 256 k)))

pub pack_little-some : (k n : ℕ) → n < 256 ^ k → pack_little k n ≡ some (little_endian k n)
unfolding pack_little
pack_little-some k n h = rw (lt→ltb n (256 ^ k) h)
