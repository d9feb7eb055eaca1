-- ===== src/Blocks/Render/Lengths.antt =====
-- The rendered length of an element does not depend on the recursion flags: this is what the dummy
-- values of Size and Checksum are for.
pub mod Parts
pub mod Values
use boofuzz.Base.{
  ℕ, zero, suc, ◌+◌, ◌-◌, ◌*◌, ◌/◌, ◌%◌, ◌≡◌, refl, ap, ap₂, sym, ◌∙◌, subst, inl, inr, Bool, true,
  false, List, [], ◌∷◌, ◌++◌, Option, none, some, length, replicate, times, take, All, Bool-cases,
  Option-cases, if◌then◌else◌, some_inj, ◌>>=◌, arith, length-append, length-replicate,
  length-times,
}
use boofuzz.Base.Int.{ℤ, pos, negsuc}
use boofuzz.Base.Text.{Text, text_mem}
use boofuzz.Base.Runs.{
  Related, Yields, Related-bind, Related-none, Related-none_right, Related-some, Related-same,
  Yields-bind,
}
use boofuzz.Primitives.BitField.{OutputFormat, binary, render_int, Endian}
use boofuzz.Primitives.BitField.Render.{render_int-binary, IsRendered}
use boofuzz.Blocks.Names.{lookup_name, qualified_name}
use boofuzz.Blocks.Element.{
  Value, none_value, bytes, text, int, Info, Leaf, SizeSpec, ChecksumSpec, BlockSpec, BlockKind,
  Element, Elements, leaf, node, nil, cons, unchanged, or_empty, as_bytes, string, number, size,
  checksum, repeat, mirror, block, aligned, request, qualified_name_of,
}
use boofuzz.Blocks.Values.{
  MutationContext, MutationValue, plain, callable, mutated, render_all, align, repeat_bytes,
  apply_encoder, dependency_allows, encode_number,
}
use boofuzz.Blocks.Render.{
  Message, target_of, original_value, get_value, Renderer, length_of_target, encode_size,
  render_block, encode_checksum, encode_leaf, dependencies_allow_render, encode_node, render,
}
use boofuzz.Blocks.Render.Stable.{
  IsStable, AreStable, IsStableLeaf, IsStableKind, IsLengthwise, IsStableEncoder,
  target_of-IsStable,
}
use boofuzz.Blocks.Render.Lengths.Parts.{
  SameLength, Equal, same_run, of_length, render_int-Yields, repeat_SameLength, append_SameLength,
  align-SameLength, encoder_SameLength,
}
use boofuzz.Blocks.Render.Lengths.Values.{
  original_value-Equal, get_value-Equal, Compared, encode_size-Yields, encode_checksum-Yields,
  size_SameLength, checksum_SameLength, dependencies_Equal, if_SameLength,
}

module _ (m : Message) where
  module _ (named : All (λ (x : Text × Element). IsStable x.1) m.names)
      (render1 render2 : Renderer m) (compared : Compared m render1 render2)
      (flags flags' : List Text) where
    -- What is made of the element that a reference leads to.
    target_SameLength :
        (i : Info) (name : Text) (f g : Element → Option (List ℕ))
        → ((t : Element) → IsStable t → Related SameLength (f t) (g t))
        → Related SameLength (target_of m i name >>= f) (target_of m i name >>= g)
    target_SameLength i name f g h a b e e' = go (target_of m i name) refl a b e e'
      where
        go : (o : Option Element) → target_of m i name ≡ o → Related SameLength (o >>= f) (o >>= g)
        go none leads = Related-none SameLength none
        go (some t) leads = h t (target_of-IsStable m i name t named leads)

    leaf_SameLength :
        (i : Info) (k : Leaf) (v : Value)
        → IsStableLeaf k
        → Related SameLength
            (encode_leaf m render1 flags i k v)
            (encode_leaf m render2 flags' i k v)
    unfolding encode_leaf
    leaf_SameLength i unchanged v h = same_run _
    leaf_SameLength i or_empty v h = same_run _
    leaf_SameLength i as_bytes v h = same_run _
    leaf_SameLength i (string n padding encoding) v h = same_run _
    leaf_SameLength i (number f) v h = same_run _
    leaf_SameLength i (size s) v h = size_SameLength m render1 render2 flags flags' i s v h
    leaf_SameLength i (checksum c) v h = checksum_SameLength m render1 render2 flags flags' i c v h
    leaf_SameLength i (repeat none) v h = same_run _
    leaf_SameLength i (repeat (some name)) v h = target_SameLength i name _ _ (λ t st.
        Related-bind SameLength SameLength _ _ _ _ (compared flags flags' t st)
          (λ a b k. repeat_SameLength v a b k))
    leaf_SameLength i (mirror none) v h = same_run none
    leaf_SameLength i (mirror (some name)) v h =
        target_SameLength i name (render1 flags) (render2 flags') (compared flags flags')

    render_all-SameLength :
        (es : Elements)
        → AreStable es
        → Related SameLength (render_all (render1 flags) es) (render_all (render2 flags') es)
    unfolding render_all
    render_all-SameLength nil h = same_run (some [])
    render_all-SameLength (cons e es) h =
        Related-bind SameLength SameLength _ _ _ _ (compared flags flags' e h.0) (λ a b k.
          Related-bind SameLength SameLength _ _ _ _ (render_all-SameLength es h.1)
            (λ c d l. Related-some SameLength (a ++ c) (b ++ d) (append_SameLength a b c d k l)))

    node_SameLength :
        (fuel fuel' : ℕ) (i : Info) (k : BlockKind) (es : Elements)
        → IsStableKind k
        → AreStable es
        → Related SameLength
            (encode_node m fuel (render1 flags) i k es)
            (encode_node m fuel' (render2 flags') i k es)
    unfolding encode_node
    node_SameLength fuel fuel' i (request true) es s h = Related-none SameLength none
    node_SameLength fuel fuel' i (request false) es s h = render_all-SameLength es h
    node_SameLength fuel fuel' i (aligned modulus pattern) es s h =
        Related-bind SameLength SameLength _ _ _ _ (render_all-SameLength es h)
          (λ a b k. align-SameLength modulus pattern a b k)
    node_SameLength fuel fuel' i (block spec) es s h =
        Related-bind Equal SameLength _ _ _ _ (dependencies_Equal m fuel fuel' i spec spec.dep)
          (λ x y same.
            Related-bind SameLength SameLength _ _ _ _
              (subst
                (λ (z : Bool).
                  Related SameLength (if x then render_all (render1 flags) es else some [])
                    (if z then render_all (render2 flags') es else some []))
                same (if_SameLength m x _ _ (render_all-SameLength es h)))
              (λ a b k. Related-some SameLength _ _ (encoder_SameLength spec.encoder s a b k)))

  -- A message whose named elements are all stable, and a stable element: rendered twice, whatever
  -- recursion flags are raised and however deep the recursion may go, it has the same length both
  -- times, where both give a result.
  pub render-SameLength :
      All (λ (x : Text × Element). IsStable x.1) m.names
      → (fuel fuel' : ℕ) (flags flags' : List Text) (e : Element) → IsStable e
      → Related SameLength (render m fuel flags e) (render m fuel' flags' e)
  unfolding render
  render-SameLength named zero fuel' flags flags' e h = Related-none SameLength _
  render-SameLength named (suc fuel) zero flags flags' e h = Related-none_right SameLength _
  render-SameLength named (suc fuel) (suc fuel') flags flags' (leaf i k) h =
      Related-bind Equal SameLength _ _ _ _ (get_value-Equal m fuel fuel' (leaf i k)) (λ v w same.
        subst
          (λ (u : Value).
            Related SameLength (encode_leaf m (render m fuel) flags i k v)
              (encode_leaf m (render m fuel') flags' i k u))
          same
          (leaf_SameLength named (render m fuel) (render m fuel')
            (render-SameLength named fuel fuel') flags flags' i k v h))
  render-SameLength named (suc fuel) (suc fuel') flags flags' (node i (request o) es) h =
      node_SameLength named (render m fuel) (render m fuel') (render-SameLength named fuel fuel')
        flags flags' fuel fuel' i (request o) es h.0 h.1
  render-SameLength named (suc fuel) (suc fuel') flags flags' (node i (block spec) es) h =
      Related-bind Equal SameLength _ _ _ _ (get_value-Equal m fuel fuel' (node i (block spec) es))
        (λ v w same.
          node_SameLength named (render m fuel) (render m fuel')
            (render-SameLength named fuel fuel') flags flags' fuel fuel' i (block spec) es h.0 h.1)
  render-SameLength named (suc fuel) (suc fuel') flags flags' (node i (aligned modulus pattern) es)
        h =
      Related-bind Equal SameLength _ _ _ _
        (get_value-Equal m fuel fuel' (node i (aligned modulus pattern) es))
        (λ v w same.
          node_SameLength named (render m fuel) (render m fuel')
            (render-SameLength named fuel fuel') flags flags' fuel fuel' i (aligned modulus pattern)
            es h.0 h.1)
