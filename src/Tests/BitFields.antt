-- ===== src/Tests/BitFields.antt =====
-- Bit fields at concrete inputs.
use boofuzz.Base.{none, Elem, ◌↔◌, false}
use boofuzz.Base.Int.{pos, negsuc, ◌<ℤ◌}
use boofuzz.Primitives.BitField.{BitField, bit_field, little, binary, render_int, iterate_fuzz_lib}
use boofuzz.Primitives.BitField.Render.{IsRendered, render_int-binary}
use boofuzz.Primitives.BitField.FuzzLib.{NearSome, landmarks, iterate_fuzz_lib-Elem}

render_int-binary_example :
    IsRendered (negsuc 2) 12 little (render_int (negsuc 2) binary 12 little false)
render_int-binary_example = render_int-binary (negsuc 2) 12 little false

abbrev a_byte : BitField
a_byte = bit_field 8 none little binary false false

fuzz_lib_members_example :
    Elem (pos 255) (iterate_fuzz_lib a_byte)
    ↔ (negsuc 0 <ℤ pos 255) × (pos 255 <ℤ pos 256) × NearSome (pos 255) (landmarks 256)
fuzz_lib_members_example = iterate_fuzz_lib-Elem 8 none little binary false (pos 255)
