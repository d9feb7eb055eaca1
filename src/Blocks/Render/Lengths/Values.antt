-- ===== src/Blocks/Render/Lengths/Values.antt =====
-- The values in force, and the lengths of size and checksum fields.
use boofuzz.Base.{
  ℕ, zero, suc, ◌≡◌, refl, ap, subst, Bool, true, false, List, [], ◌∷◌, Option, none, some, length,
  if◌then◌else◌, ◌>>=◌, length-replicate,
}
use boofuzz.Base.Text.{Text, text_mem}
use boofuzz.Base.Runs.{
  Related, Yields, Related-bind, Related-none, Related-none_right, Related-some, Related-same,
  Yields-bind, Yields-some, Yields-if,
}
use boofuzz.Primitives.BitField.{binary}
use boofuzz.Blocks.Names.{lookup_name, qualified_name}
use boofuzz.Blocks.Element.{
  Value, none_value, bytes, text, int, Info, SizeSpec, ChecksumSpec, BlockSpec, Element, leaf,
  checksum, mirror, qualified_name_of,
}
use boofuzz.Blocks.Values.{MutationValue, plain, callable, mutated, dependency_allows}
use boofuzz.Blocks.Render.{
  Message, target_of, original_value, get_value, Renderer, length_of_target, encode_size,
  render_block, encode_checksum, dependencies_allow_render,
}
use boofuzz.Blocks.Render.Stable.{IsStable, IsStableLeaf}
use boofuzz.Blocks.Render.Lengths.Parts.{SameLength, Equal, same_run, of_length, render_int-Yields}

module _ (m : Message) where
  -- The original value is the same with any fuel that gives one.
  pub original_value-Equal :
      (fuel fuel' : ℕ) (e : Element)
      → Related Equal (original_value m fuel e) (original_value m fuel' e)
  unfolding original_value
  original_value-Equal zero fuel' e = Related-none Equal _
  original_value-Equal (suc fuel) zero e = Related-none_right Equal _
  original_value-Equal (suc fuel) (suc fuel') (leaf i (mirror (some name))) =
      Related-bind Equal Equal (target_of m i name) (target_of m i name) _ _
        (Related-same Equal (λ a. refl) _)
        (λ a b h.
          subst
            (λ (c : Element). Related Equal (original_value m fuel a) (original_value m fuel' c)) h
            (original_value-Equal fuel fuel' a))
  original_value-Equal (suc fuel) (suc fuel') (leaf i (mirror none)) =
      Related-same Equal (λ a. refl) _
  original_value-Equal (suc fuel) (suc fuel') e = Related-same Equal (λ a. refl) _

  pub get_value-Equal :
      (fuel fuel' : ℕ) (e : Element) → Related Equal (get_value m fuel e) (get_value m fuel' e)
  unfolding get_value
  get_value-Equal fuel fuel' e =
      in_force (lookup_name (qualified_name_of e) m.context.mutations)
        (original_value-Equal fuel fuel' e)
    where
      in_force :
          (o : Option MutationValue)
          → Related Equal (original_value m fuel e) (original_value m fuel' e)
          → Related Equal
              (elim o [
                | none ↦ original_value m fuel e
                | some v ↦ mutated v (original_value m fuel e)
              ])
              (elim o [
                | none ↦ original_value m fuel' e
                | some v ↦ mutated v (original_value m fuel' e)
              ])
      in_force none h = h
      in_force (some (plain v)) h = Related-same Equal (λ a. refl) (some v)
      in_force (some (callable f)) h =
          Related-bind Equal Equal _ _ _ _ h (λ a b k. Related-some Equal (f a) (f b) (ap f k))

  -- Two ways of rendering the elements, with equal lengths for stable elements.
  abbrev pub Compared : Renderer m → Renderer m → Type 0
  Compared render1 render2 =
      (flags flags' : List Text) (e : Element)
      → IsStable e
      → Related SameLength (render1 flags e) (render2 flags' e)

  pub encode_size-Yields :
      (render1 : Renderer m) (flags : List Text) (i : Info) (s : SizeSpec)
      → s.format ≡ binary
      → Yields (λ a. length a ≡ s.length) (encode_size m render1 flags i s none_value)
  unfolding encode_size
  encode_size-Yields render1 flags i s h =
      Yields-if _ (text_mem (qualified_name i.context_path i.name) flags) _ _
        (Yields-some _ _ (length-replicate s.length 0))
        (Yields-bind _ (length_of_target m render1 flags i s.block_name) _
          (λ n. render_int-Yields _ s.format s.length s.endian s.signed h))

  pub encode_checksum-Yields :
      (render1 : Renderer m) (flags : List Text) (i : Info) (c : ChecksumSpec)
      → IsStableLeaf (checksum c)
      → Yields (λ a. length a ≡ c.length) (encode_checksum m render1 flags i c none_value)
  unfolding encode_checksum
  encode_checksum-Yields render1 flags i c h =
      Yields-if _ (text_mem (qualified_name i.context_path i.name) flags) _ _
        (Yields-some _ _ (length-replicate c.length 0))
        (Yields-bind _ (render_block m render1 flags i c.block_name) _ (λ x.
          Yields-bind _ (render_block m render1 flags i c.ipv4_src_block_name) _ (λ y.
            Yields-bind _ (render_block m render1 flags i c.ipv4_dst_block_name) _ (λ z. h x y z))))

  pub size_SameLength :
      (render1 render2 : Renderer m) (flags flags' : List Text) (i : Info) (s : SizeSpec)
      (v : Value)
      → s.format ≡ binary
      → Related SameLength (encode_size m render1 flags i s v) (encode_size m render2 flags' i s v)
  unfolding encode_size
  size_SameLength render1 render2 flags flags' i s none_value h =
      of_length s.length _ _ (encode_size-Yields render1 flags i s h)
        (encode_size-Yields render2 flags' i s h)
  size_SameLength render1 render2 flags flags' i s (bytes b) h = same_run _
  size_SameLength render1 render2 flags flags' i s (text t) h = same_run _
  size_SameLength render1 render2 flags flags' i s (int n) h = same_run _

  pub checksum_SameLength :
      (render1 render2 : Renderer m) (flags flags' : List Text) (i : Info) (c : ChecksumSpec)
      (v : Value)
      → IsStableLeaf (checksum c)
      → Related SameLength
          (encode_checksum m render1 flags i c v)
          (encode_checksum m render2 flags' i c v)
  unfolding encode_checksum
  checksum_SameLength render1 render2 flags flags' i c none_value h =
      of_length c.length _ _ (encode_checksum-Yields render1 flags i c h)
        (encode_checksum-Yields render2 flags' i c h)
  checksum_SameLength render1 render2 flags flags' i c (bytes b) h = same_run _
  checksum_SameLength render1 render2 flags flags' i c (text t) h = same_run _
  checksum_SameLength render1 render2 flags flags' i c (int n) h = same_run _

  pub dependencies_Equal :
      (fuel fuel' : ℕ) (i : Info) (spec : BlockSpec) (dep : Option Text)
      → Related Equal
          (dependencies_allow_render m fuel i spec dep)
          (dependencies_allow_render m fuel' i spec dep)
  dependencies_Equal fuel fuel' i spec none = Related-same Equal (λ a. refl) (some true)
  dependencies_Equal fuel fuel' i spec (some []) = Related-same Equal (λ a. refl) (some true)
  dependencies_Equal fuel fuel' i spec (some (c ∷ cs)) =
      Related-bind Equal Equal (target_of m i (c ∷ cs)) (target_of m i (c ∷ cs)) _ _
        (Related-same Equal (λ a. refl) _)
        (λ a b h.
          subst (λ (c : Element). Related Equal (allows fuel a) (allows fuel' c)) h
            (Related-bind Equal Equal _ _ _ _ (get_value-Equal fuel fuel' a) (λ v w k.
              subst
                (λ (u : Value).
                  Related Equal (dependency_allows spec.dep_compare spec v)
                    (dependency_allows spec.dep_compare spec u))
                k (Related-same Equal (λ c. refl) _))))
    where
      allows : ℕ → Element → Option Bool
      allows n t = get_value m n t >>= dependency_allows spec.dep_compare spec

  pub if_SameLength :
      (x : Bool) (o o' : Option (List ℕ))
      → Related SameLength o o'
      → Related SameLength (if x then o else some []) (if x then o' else some [])
  if_SameLength true o o' h = h
  if_SameLength false o o' h = same_run (some [])
