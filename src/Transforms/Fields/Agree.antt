-- ===== src/Transforms/Fields/Agree.antt =====
-- What getField inserts denotes the component that the other getField finds.
use event_queue.Common.{
  ℕ, ◌<◌, ◌≤◌, ◌≡◌, refl, sym, ap, subst, ◌∙◌, List, [], ◌∷◌, arith, update, Option, none, some,
  >>=-elim, Bool, true, false, Bool-cases, inl, inr, ◌==◌, ◌&&◌, some_injective, Option-cases,
  length, take, ltb,
}
use event_queue.Names.{Name, is_empty}
use event_queue.Transforms.Fields.{
  Structure, Emitted, get_comp, constant_index, affine_apply, extract_element, Inserted, insert,
  find, rfind, structure_of, specified_index, loop_indices, specify, specify_each, shift_index,
  fix_index, Enclosing, stoi, take_element, descend, get_field, get_original, element_of,
}

-- What buildIdMap makes of the operations: the component that each value stands for, where the operand
-- of a splat stands for itself. An element of a
-- vector is what was splat.
abbrev pub ids_of : Structure → (ℕ → ℕ) → List Emitted → ℕ → ℕ
ids_of g base [] = base
ids_of g base (get_comp r h name ∷ os) =
    update (ids_of g base os) r (g.comps_tree (ids_of g base os h) name)
ids_of g base (constant_index r n ∷ os) = update (ids_of g base os) r r
ids_of g base (affine_apply r v plus n ∷ os) = update (ids_of g base os) r r
ids_of g base (extract_element r vector index ∷ os) =
    update (ids_of g base os) r (g.splat_operand (ids_of g base os vector))

-- More has been inserted, and what the values below stand for is the same.
abbrev pub Extends : Structure → (ℕ → ℕ) → Inserted → Inserted → Type 0
Extends g base b b' =
    (b.next ≤ b'.next)
    × ((v : ℕ) → v < b.next → ids_of g base b'.operations v ≡ ids_of g base b.operations v)

update_below : (m : ℕ → ℕ) (k x v : ℕ) → v < k → update m k x v ≡ m v
update_below m k x v lt = ground arith

update_same : (m : ℕ → ℕ) (k x : ℕ) → update m k x k ≡ x
update_same m k x = ground arith

Extends-refl : (g : Structure) (base : ℕ → ℕ) (b : Inserted) → Extends g base b b
Extends-refl g base b = (omega arith, (λ v lt. refl))

Extends-trans :
    (g : Structure) (base : ℕ → ℕ) (b b1 b2 : Inserted)
    → Extends g base b b1
    → Extends g base b1 b2
    → Extends g base b b2
Extends-trans g base b b1 b2 e1 e2 =
    let le1 = e1.0 in let le2 = e2.0 in (omega arith, (λ v lt. e2.1 v (omega arith) ∙ e1.1 v lt))

shift_index-Extends :
    (g : Structure) (base : ℕ → ℕ) (b : Inserted) (iv : ℕ) (plus : Bool) (sp : Name) (i : ℕ)
    (b' : Inserted)
    → shift_index b iv plus sp ≡ some (i, b')
    → Extends g base b b'
shift_index-Extends g base b iv plus sp i b' e = >>=-elim (stoi sp) _ e λ n p q.
    subst (λ (t : ℕ × Inserted). Extends g base b t.1) (some_injective q)
      (omega arith, (λ v lt. update_below (ids_of g base b.operations) b.next b.next v lt))

fix_index-Extends :
    (g : Structure) (base : ℕ → ℕ) (b : Inserted) (sp : Name) (i : ℕ) (b' : Inserted)
    → fix_index b sp ≡ some (i, b')
    → Extends g base b b'
fix_index-Extends g base b sp i b' e = >>=-elim (stoi sp) _ e λ n p q.
    subst (λ (t : ℕ × Inserted). Extends g base b t.1) (some_injective q)
      (omega arith, (λ v lt. update_below (ids_of g base b.operations) b.next b.next v lt))

specify-Extends :
    (g : Structure) (base : ℕ → ℕ) (b : Inserted) (iv : ℕ) (sp : Name) (i : ℕ) (b' : Inserted)
    → specify b iv sp ≡ some (i, b')
    → Extends g base b b'
specify-Extends g base b iv [] i b' e = cc
specify-Extends g base b iv (c ∷ sp) i b' e = elim (Bool-cases (c == b'+')) [
  | inl p ↦ shift_index-Extends g base b iv true sp i b' (sym (rw p refl) ∙ e)
  | inr p ↦ elim (Bool-cases (c == b'-')) [
    | inl q ↦ shift_index-Extends g base b iv false sp i b' (sym (rw (p, q) refl) ∙ e)
    | inr q ↦ elim (Bool-cases (c == b':' && is_empty sp)) [
      | inl r ↦
          let whole : some (iv, b) ≡ some (i, b') = sym (rw (p, q, r) refl) ∙ e in
          subst (λ (t : ℕ × Inserted). Extends g base b t.1) (some_injective whole)
            (Extends-refl g base b)
      | inr r ↦ fix_index-Extends g base b (c ∷ sp) i b' (sym (rw (p, q, r) refl) ∙ e)
    ]
  ]
]

specify_each-Extends :
    (g : Structure) (base : ℕ → ℕ) (b : Inserted) (ivs : List ℕ) (sps : List Name) (is : List ℕ)
    (b' : Inserted)
    → specify_each b ivs sps ≡ some (is, b')
    → Extends g base b b'
specify_each-Extends g base b ivs [] is b' e =
    subst (λ (t : List ℕ × Inserted). Extends g base b t.1) (some_injective e)
      (Extends-refl g base b)
specify_each-Extends g base b [] (sp ∷ sps) is b' e = cc
specify_each-Extends g base b (iv ∷ ivs) (sp ∷ sps) is b' e =
    >>=-elim (specify b iv sp) _ e λ t p e1. >>=-elim (specify_each t.1 ivs sps) _ e1 λ u q e2.
      subst (λ (r : List ℕ × Inserted). Extends g base b r.1) (some_injective e2)
        (Extends-trans g base b t.1 u.1 (specify-Extends g base b iv sp t.0 t.1 p)
          (specify_each-Extends g base t.1 ivs sps u.0 u.1 q))

element_of-vector :
    (g : Structure) (v : ℕ) (shape : List ℕ)
    → g.vector_shape v ≡ some shape
    → g.splat_operand v ≡ element_of g v
element_of-vector g v shape p = rw (p, element_of) refl

-- A value that stands for the component is followed by one that stands for the component or for the
-- operand of its splat.
descend-stands :
    (g : Structure) (base : ℕ → ℕ) (around : List Enclosing) (b : Inserted) (s : Name)
    (parent original value component : ℕ) (b' : Inserted)
    → parent < b.next
    → ids_of g base b.operations parent ≡ original
    → descend g around b s parent original ≡ some (value, component, b')
    → (component ≡ element_of g original)
      × (value < b'.next)
      × (ids_of g base b'.operations value ≡ component)
unfolding descend
descend-stands g base around b s parent original value component b' lt stands e =
    elim (Option-cases (g.vector_shape original)) [
      | inl n ↦
          let whole : (parent, original, b) ≡ (value, component, b') =
            some_injective (sym (rw (n, descend) refl) ∙ e) in
          subst
            (λ (t : ℕ × ℕ × Inserted).
              (t.1 ≡ element_of g original)
              × (t.0 < t.2.next)
              × (ids_of g base t.2.operations t.0 ≡ t.1))
            whole (rw (n, element_of) refl, lt, stands)
      | inr (shape, p) ↦
          let opened : take_element g around b s parent original shape
              ≡ some (value, component, b') =
            sym (rw (p, descend) refl) ∙ e in
          >>=-elim (loop_indices around (length shape)) _ opened λ ivs p1 e1.
            >>=-elim (specified_index s) _ e1 λ sps p2 e2.
              >>=-elim (specify_each b ivs sps) _ e2 λ u p3 e3.
                let grown = specify_each-Extends g base b ivs sps u.0 u.1 p3 in
                subst
                  (λ (t : ℕ × ℕ × Inserted).
                    (t.1 ≡ element_of g original)
                    × (t.0 < t.2.next)
                    × (ids_of g base t.2.operations t.0 ≡ t.1))
                  (some_injective e3)
                  (
                    element_of-vector g original shape p,
                    omega arith,
                    update_same (ids_of g base u.1.operations) u.1.next _
                        ∙ ap g.splat_operand (grown.1 parent lt ∙ stands),
                  )
    ]

structure_of-take :
    (s : Name) (e : Option ℕ) (n : Name) (start : ℕ)
    → find b'[' s ≡ some start
    → structure_of s e ≡ some n
    → take start s ≡ n
structure_of-take s none n start f p = ground arith
structure_of-take s (some last) n start f p = elim (Bool-cases (ltb start last)) [
  | inl l ↦ ground arith
  | inr l ↦ ground arith
]

-- One name further: the look-up of the component, and the element of a vector.
step-stands :
    (g : Structure) (base : ℕ → ℕ) (around : List Enclosing) (b : Inserted) (s : Name)
    (parent original : ℕ) (name : Name) (value component : ℕ) (b' : Inserted)
    → parent < b.next
    → ids_of g base b.operations parent ≡ original
    → descend g around
        (insert b (λ r. get_comp r parent name))
        s
        b.next
        (g.comps_tree original name)
      ≡ some (value, component, b')
    → (component ≡ element_of g (g.comps_tree original name))
      × (value < b'.next)
      × (ids_of g base b'.operations value ≡ component)
step-stands g base around b s parent original name value component b' lt stands e =
    descend-stands g base around (insert b (λ r. get_comp r parent name)) s b.next
      (g.comps_tree original name) value component b' (omega arith)
      (update_same (ids_of g base b.operations) b.next _
        ∙ ap (λ (h : ℕ). g.comps_tree h name) stands)
      e

structure_of-same :
    (s : Name) (e1 e2 : Option ℕ) (n1 n2 : Name)
    → structure_of s e1 ≡ some n1
    → structure_of s e2 ≡ some n2
    → n1 ≡ n2
structure_of-same s e1 e2 n1 n2 p q = elim (Option-cases (find b'[' s)) [
  | inl n ↦ some_injective (sym p ∙ rw (n, structure_of) refl ∙ q)
  | inr (start, f) ↦ sym (structure_of-take s e1 n1 start f p) ∙ structure_of-take s e2 n2 start f q
]

-- A value that stands for a component is followed, through the operations that getField inserts, by one
-- that stands for the component that the other getField finds from there, where both find one.
pub get_field-stands :
    (g : Structure) (base : ℕ → ℕ) (around : List Enclosing) (b : Inserted) (structs : List Name)
    (parent original value : ℕ) (b' : Inserted) (component : ℕ)
    → parent < b.next
    → ids_of g base b.operations parent ≡ original
    → get_field g around b structs parent original ≡ some (value, b')
    → get_original g structs original ≡ some component
    → ids_of g base b'.operations value ≡ component
unfolding get_field get_original
get_field-stands g base around b [] parent original value b' component lt stands e o = cc
get_field-stands g base around b (s ∷ []) parent original value b' component lt stands e o =
    >>=-elim (structure_of s (rfind b']' s)) _ e λ name p1 e1.
      >>=-elim
        (descend g around (insert b (λ r. get_comp r parent name)) s b.next
          (g.comps_tree original name))
        _ e1
        λ t p2 e2. >>=-elim (structure_of s (find b']' s)) _ o λ name' q1 o1.
          let step = step-stands g base around b s parent original name t.0 t.1 t.2 lt stands p2 in
          let same = structure_of-same s _ _ name name' p1 q1 in
          subst (λ (r : ℕ × Inserted). ids_of g base r.1.operations r.0 ≡ component)
            (some_injective e2)
            (step.2
              ∙ step.0
              ∙ ap (λ (n : Name). element_of g (g.comps_tree original n)) same
              ∙ some_injective o1)
get_field-stands g base around b (s ∷ t ∷ ts) parent original value b' component lt stands e o =
    >>=-elim (structure_of s (rfind b']' s)) _ e λ name p1 e1.
      >>=-elim
        (descend g around (insert b (λ r. get_comp r parent name)) s b.next
          (g.comps_tree original name))
        _ e1
        λ u p2 e2. >>=-elim (structure_of s (find b']' s)) _ o λ name' q1 o1.
          let step = step-stands g base around b s parent original name u.0 u.1 u.2 lt stands p2 in
          let same = structure_of-same s _ _ name name' p1 q1 in
          get_field-stands g base around u.2 (t ∷ ts) u.0 u.1 value b' component step.1 step.2 e2 (
            ap (λ (c : ℕ). get_original g (t ∷ ts) c)
              (step.0 ∙ ap (λ (n : Name). element_of g (g.comps_tree original n)) same)
            ∙ o1)
