-- ===== src/Blocks/Element.antt =====
-- The elements of a message as a tree: every class of boofuzz/primitives and boofuzz/blocks is a
-- kind of leaf or of block. An element that stands in a tree is attached to its request.
use boofuzz.Base.{ℕ, Bool, List, Option}
use boofuzz.Base.Int.{ℤ}
use boofuzz.Base.Text.{Text}
use boofuzz.Primitives.BitField.{BitField, Endian, OutputFormat}
use boofuzz.Blocks.Names.{qualified_name}

-- A Python value that an element may hold: None, bytes, str or int.
pub data Value : Type 0 where
  none_value : Value
  bytes : List ℕ → Value
  text : Text → Value
  int : ℤ → Value

-- `default_value`: a static value, or a ProtocolSessionReference with a name and a default.
pub data DefaultValue : Type 0 where
  static_value : Value → DefaultValue
  reference : Text → Value → DefaultValue

-- The attributes of `Fuzzable` that do not change once the message is built.
pub record Info : Type 0 where
  pub name : Text
  pub context_path : Text
  pub default_value : DefaultValue
  pub fuzzable : Bool
  pub fuzz_values : List Value

pub record SizeSpec : Type 0 where
  pub block_name : Option Text
  pub offset : ℤ
  pub length : ℕ
  pub endian : Endian
  pub format : OutputFormat
  pub inclusive : Bool
  pub signed : Bool
  pub math : ℤ → ℤ
  pub bit_field : BitField

-- `checksum` is `_checksum` for the chosen algorithm, on the data and the two addresses.
pub record ChecksumSpec : Type 0 where
  pub block_name : Option Text
  pub length : ℕ
  pub checksum : Option (List ℕ) → Option (List ℕ) → Option (List ℕ) → Option (List ℕ)
  pub ipv4_src_block_name : Option Text
  pub ipv4_dst_block_name : Option Text

-- The ways in which a class encodes: `unchanged` is `Fuzzable.encode` (Simple, RandomData),
-- `or_empty` is `BasePrimitive.encode` (Bytes, Group, FromFile), `as_bytes` is that of Static and
-- Delim.
pub data Leaf : Type 0 where
  unchanged or_empty as_bytes : Leaf
  string : (size : Option ℕ) (padding : List ℕ) (encoding : Text) → Leaf
  number : BitField → Leaf
  size : SizeSpec → Leaf
  checksum : ChecksumSpec → Leaf
  repeat : (block_name : Option Text) → Leaf
  mirror : (primitive_name : Option Text) → Leaf

-- dep_compare.
pub data Comparison : Type 0 where
  eq ne gt ge lt le : Comparison

pub record BlockSpec : Type 0 where
  pub group : Option Text
  pub encoder : Option (List ℕ → List ℕ)
  pub dep : Option Text
  pub dep_value : Value
  pub dep_values : List Value
  pub dep_compare : Comparison

-- `request` says whether a block of the request is still open.
pub data BlockKind : Type 0 where
  block : BlockSpec → BlockKind
  aligned : (modulus : ℕ) (pattern : List ℕ) → BlockKind
  request : (open_block : Bool) → BlockKind

mutual
  pub data Element : Type 0 where
    leaf : Info → Leaf → Element
    node : Info → BlockKind → Elements → Element

  pub data Elements : Type 0 where
    nil : Elements
    cons : Element → Elements → Elements

abbrev pub info : Element → Info
info (leaf i k) = i
info (node i k es) = i

abbrev pub qualified_name_of : Element → Text
qualified_name_of e = qualified_name (info e).context_path (info e).name
