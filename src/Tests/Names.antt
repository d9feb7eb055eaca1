-- ===== src/Tests/Names.antt =====
-- Names at concrete inputs: an element of the block `b` of the request `r`.
use boofuzz.Base.{ℕ, ◌≡◌, ◌≢◌, refl, All, List, [], ◌∷◌, some, arith}
use boofuzz.Base.Text.{Text, join}
use boofuzz.Blocks.Names.{dot}
use boofuzz.Blocks.Resolve.{resolve_name, lookup_resolved_name}
use boofuzz.Blocks.Resolve.Dots.{relative_name, IsComponent, resolve_name-relative}

abbrev r : Text
r = b'r' ∷ []

abbrev b : Text
b = b'b' ∷ []

abbrev s : Text
s = b's' ∷ []

abbrev names : List (Text × ℕ)
names = (b'r' ∷ dot ∷ b's' ∷ [], 7) ∷ []

component : (c : ℕ) → c ≢ dot → IsComponent (c ∷ [])
component c h = (λ e. cc, (h, tt))

below : All IsComponent (s ∷ [])
below = (component b's' (ground arith), tt)

within : All IsComponent (r ∷ b ∷ [])
within = (component b'r' (ground arith), (component b'b' (ground arith), tt))

resolve_name-relative_example :
    resolve_name names r (join (dot ∷ []) (r ∷ b ∷ [])) (some (relative_name 1 s))
    ≡ lookup_resolved_name names (join (dot ∷ []) (r ∷ s ∷ []))
unfolding join
resolve_name-relative_example =
    resolve_name-relative names r r (b ∷ []) (r ∷ []) (b ∷ []) s [] refl within below
