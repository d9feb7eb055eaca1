-- ===== src/Session/Control/Failures.antt =====
-- What `_process_failures` counts and skips.
use boofuzz.Base.{
  ℕ, zero, suc, ◌+◌, ◌≤◌, ◌≡◌, ◌≢◌, refl, ap, ◌∙◌, Bool, true, false, Option, none, some, leb, ◌==◌,
  if◌then◌else◌, arith, ==_self, max,
}
use boofuzz.Base.Dict.{lookup, lookup-insert}
use boofuzz.Session.Control.{
  Mutant, FuzzNode, Thresholds, Progress, or_zero, crashes, count_crash, skip, skip_node,
  skip_element, exhaust, mutant_key, process_failures,
}

crashes-count_crash :
    (k j : ℕ) (p : Progress)
    → crashes j (count_crash k p) ≡ (if k == j then crashes k p + 1 else crashes j p)
unfolding count_crash
crashes-count_crash k j p =
    ap or_zero (lookup-insert k j (crashes k p + 1) p.crashing_primitives) ∙ either (k == j)
  where
    either :
        (b : Bool)
        → or_zero (if b then some (crashes k p + 1) else lookup j p.crashing_primitives)
          ≡ (if b then crashes k p + 1 else crashes j p)
    either true = refl
    either false = refl

-- Both indices have gone forward by the same, and to at most `bound`, if the mutant index was not
-- past it already.
abbrev pub GoesForward : ℕ → Progress → Progress → Type 0
GoesForward bound p q =
    (p.mutant_index ≤ q.mutant_index)
    × (q.total_mutant_index + p.mutant_index ≡ p.total_mutant_index + q.mutant_index)
    × (q.mutant_index ≤ max p.mutant_index bound)

abbrev pub mutant_size : Option Mutant → ℕ
mutant_size none = 0
mutant_size (some m) = m.num_mutations

Forward-if :
    (bound : ℕ) (p : Progress) (b : Bool) (q r : Progress)
    → GoesForward bound p q
    → GoesForward bound p r
    → GoesForward bound p (if b then q else r)
Forward-if bound p true q r h k = h
Forward-if bound p false q r h k = k

stays : (bound : ℕ) (p : Progress) → GoesForward bound p p
stays bound p = (omega arith, refl, omega arith)

skips : (n bound : ℕ) (p : Progress) → n ≤ bound → GoesForward bound p (skip n p)
skips n bound p h = (omega arith, omega arith, ground arith)

element_skips :
    (m : Mutant) (bound : ℕ) (p : Progress)
    → m.num_mutations ≤ bound
    → GoesForward bound p (skip_element m p)
element_skips m bound p h =
    Forward-if bound p m.is_counted p _ (stays bound p) (skips m.num_mutations bound p h)

exhaust-GoesForward :
    (t : Thresholds) (node : FuzzNode) (p : Progress) (o : Option Mutant)
    → mutant_size o ≤ node.num_mutations
    → GoesForward node.num_mutations p (exhaust t node p o)
exhaust-GoesForward t node p none h = stays node.num_mutations p
exhaust-GoesForward t node p (some m) h =
    Forward-if node.num_mutations p (leb t.crash_threshold_node (crashes node.key p))
      (skip_node node p) _ (skips node.num_mutations node.num_mutations p (omega arith))
      (Forward-if node.num_mutations p (leb t.crash_threshold_element (crashes m.key p))
        (skip_element m p) p (element_skips m node.num_mutations p h) (stays node.num_mutations p))

-- A mutant with no more mutations than its request, and any number of crash synopses: the mutant
-- index and the total index go forward by the same, and the mutant index to at most the number of
-- mutations of the request, unless it was past it already.
pub process_failures-GoesForward :
    (t : Thresholds) (node : FuzzNode) (synopses : ℕ) (p : Progress)
    → mutant_size node.mutant ≤ node.num_mutations
    → GoesForward node.num_mutations p (process_failures t node synopses p).1
unfolding process_failures count_crash
process_failures-GoesForward t node zero p h = stays node.num_mutations p
process_failures-GoesForward t node (suc n) p h =
    exhaust-GoesForward t node (count_crash node.key (count_crash (mutant_key node.mutant) p))
      node.mutant h

flag-if :
    (b : Bool) (q r : Progress)
    → (if b then q else r).skip_current_node
      ≡ (if b then q.skip_current_node else r.skip_current_node)
flag-if true q r = refl
flag-if false q r = refl

element_flag :
    (m : Mutant) (c : Bool) (p : Progress)
    → p.skip_current_node ≡ false
    → (if c then skip_element m p else p).skip_current_node ≡ false
element_flag m true p h = flag-if m.is_counted p _ ∙ same m.is_counted
  where
    same : (b : Bool) → (if b then p.skip_current_node else p.skip_current_node) ≡ false
    same true = h
    same false = h
element_flag m false p h = h

exhaust_flag :
    (t : Thresholds) (node : FuzzNode) (m : Mutant) (p : Progress)
    → p.skip_current_node ≡ false
    → (exhaust t node p (some m)).skip_current_node
      ≡ leb t.crash_threshold_node (crashes node.key p)
exhaust_flag t node m p h =
    flag-if (leb t.crash_threshold_node (crashes node.key p)) (skip_node node p) _
    ∙ chosen (leb t.crash_threshold_node (crashes node.key p))
  where
    rest : Progress
    rest = if leb t.crash_threshold_element (crashes m.key p) then skip_element m p else p

    chosen : (b : Bool) → (if b then true else rest.skip_current_node) ≡ b
    chosen true = refl
    chosen false = element_flag m (leb t.crash_threshold_element (crashes m.key p)) p h

-- A failure of a request with a mutant of another key, and no skip of the request asked for yet:
-- it is asked for exactly when this crash of the request makes as many as its threshold.
pub process_failures-skip_current_node :
    (t : Thresholds) (key num_mutations synopses : ℕ) (m : Mutant) (p : Progress)
    → m.key ≢ key
    → p.skip_current_node ≡ false
    → (process_failures t
        (record { key = key; num_mutations = num_mutations; mutant = some m })
        (suc synopses)
        p).1.skip_current_node
      ≡ leb t.crash_threshold_node (crashes key p + 1)
unfolding process_failures
process_failures-skip_current_node t key num synopses m p other calm =
    exhaust_flag t (record { key = key; num_mutations = num; mutant = some m }) m _ calm
    ∙ ap (leb t.crash_threshold_node) (
        crashes-count_crash key key (count_crash m.key p)
        ∙ rw (==_self key) (
            ap (λ (n : ℕ). n + 1)
              (crashes-count_crash m.key key p ∙ rw (apart m.key key other) refl)))
  where
    apart : (a b : ℕ) → a ≢ b → (a == b) ≡ false
    apart a b h = ground arith
