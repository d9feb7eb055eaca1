-- ===== src/Tests/Checksums.antt =====
-- Checksums at concrete inputs.
use boofuzz.Base.{ℕ, ◌≡◌, refl, ◌<◌, List, [], ◌∷◌, ◌++◌, arith}
use boofuzz.Helpers.Checksum.{ipv4_checksum}
use boofuzz.Helpers.Checksum.Verify.{checksum_bytes, ipv4_checksum_verifies}

abbrev message : List ℕ
message = 69 ∷ 0 ∷ 255 ∷ 254 ∷ []

ipv4_checksum_example :
    (ipv4_checksum message < 65536)
    × (ipv4_checksum (message ++ checksum_bytes (ipv4_checksum message)) ≡ 0)
ipv4_checksum_example =
    ipv4_checksum_verifies message (omega arith, (omega arith, (omega arith, (omega arith, tt))))
      refl
