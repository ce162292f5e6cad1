-- ===== src/Transforms/Extraction/Bindings.antt =====
-- What the operations that replace a user of a vector bind the elements' names to.
use event_queue.Common.{
  ℕ, zero, suc, ◌+◌, ◌<◌, ◌≤◌, ◌≡◌, refl, ap, subst, ◌∙◌, List, [], ◌∷◌, ◌++◌, map, arith,
  get_elem?, some, >>=-eq-some, >>=-elim, some_injective, sym, All, update,
}
use event_queue.Names.{Name}
use event_queue.Transforms.Tuples.{tuples, InBounds, rank}
use event_queue.Transforms.Extraction.{
  Values, duplicate, CompOp, create_comp, add_comp, add_element, add_elements, name_elements,
  set_at, zip, splat_user, get_permutation, index_of, element_name, lower_extract, extract_at,
  constant_indices, returned_value, get_comp, node,
}
use event_queue.Transforms.Extraction.Clones.{
  CopyOf, IsClosed, Grown, CopyOf-kept, CopyOf-below, All-higher, update-IsClosed, duplicate-Copies,
}
use event_queue.Transforms.Extraction.Elements.{
  suffix, get_permutation-eq, element_name-line, element_name-eq,
}

pub set_at-get :
    {A : Type 0} (i : ℕ) (a : A) (xs ys : List A)
    → set_at i a xs ≡ some ys
    → get_elem? ys i ≡ some a
set_at-get zero a [] ys e = cc
set_at-get (suc i) a [] ys e = cc
set_at-get zero a (x ∷ xs) ys e = ground arith
set_at-get (suc i) a (x ∷ xs) ys e =
    let (zs, p, q) = >>=-eq-some (set_at i a xs) _ e in
    let ih = set_at-get i a xs zs p in ground arith

get_elem?-zip :
    (ns : List Name) (vs : List ℕ) (i : ℕ) (n : Name) (v : ℕ)
    → get_elem? ns i ≡ some n
    → get_elem? vs i ≡ some v
    → get_elem? (zip ns vs) i ≡ some (n, v)
get_elem?-zip [] vs i n v p q = cc
get_elem?-zip (m ∷ ns) [] i n v p q = cc
get_elem?-zip (m ∷ ns) (w ∷ vs) zero n v p q = cc
get_elem?-zip (m ∷ ns) (w ∷ vs) (suc i) n v p q = get_elem?-zip ns vs i n v p q

-- The value is a copy of the other one, made of new values, at that depth.
abbrev pub Copied : ℕ → Values → ℕ → ℕ → Type 0
Copied depth s v w =
    (lo mid : ℕ) × (lo ≤ mid) × (mid ≤ s.next) × CopyOf depth s.definer lo mid s.next v w

Copied-Grown :
    (depth : ℕ) (s t : Values) (v w : ℕ) → Grown s t → Copied depth s v w → Copied depth t v w
Copied-Grown depth s t v w g (lo, mid, le, le', c) =
    let grows = g.0 in
    (
      lo,
      mid,
      le,
      omega arith,
      CopyOf-kept depth s.definer t.definer lo mid s.next mid t.next (λ x l. g.1 x (omega arith))
          (λ x ge l. g.1 x l) (omega arith) (omega arith) v w c,
    )

-- Each operation adds to the component, at the place `i`, the next name with a copy of the value that the
-- name before it has.
abbrev pub BindsCopies : ℕ → Values → ℕ → ℕ → ℕ → List CompOp → List Name → Type 0
BindsCopies depth s i comp prev [] [] = Unit
BindsCopies depth s i comp prev [] (n ∷ ns) = ⊥
BindsCopies depth s i comp prev (op ∷ ops) [] = ⊥
BindsCopies depth s i comp prev (op ∷ ops) (n ∷ ns) =
    (v : ℕ) × (cs : List (Name × ℕ)) × (op ≡ add_comp comp cs)
    × (get_elem? cs i ≡ some (n, v))
    × Copied depth s prev v
    × BindsCopies depth s i comp v ops ns

-- The first operation makes the component, with the first name for the value itself, and the others add
-- copies to it.
abbrev pub BindsElements : ℕ → Values → ℕ → ℕ → ℕ → List CompOp → List Name → Type 0
BindsElements depth s i comp value [] [] = Unit
BindsElements depth s i comp value [] (n ∷ ns) = ⊥
BindsElements depth s i comp value (op ∷ ops) [] = ⊥
BindsElements depth s i comp value (op ∷ ops) (n ∷ ns) =
    ((cs : List (Name × ℕ)) × (op ≡ create_comp cs) × (get_elem? cs i ≡ some (n, value)))
    × BindsCopies depth s i comp value ops ns

-- A round adds a copy under its name.
pub add_element-Copied :
    (fuel : ℕ) (s : Values) (comp i : ℕ) (name : Name) (names : List Name) (operands : List ℕ)
    (prev : ℕ) (op : CompOp) (operands' : List ℕ) (s' : Values)
    → IsClosed s.next s.definer
    → get_elem? operands i ≡ some prev
    → prev < s.next
    → add_element fuel s comp i name names operands ≡ some (op, operands', s')
    → Grown s s'
      × ((v : ℕ) × (cs : List (Name × ℕ)) × (op ≡ add_comp comp cs)
          × (get_elem? cs i ≡ some (name, v))
          × (get_elem? operands' i ≡ some v)
          × (v < s'.next)
          × Copied fuel s' prev v)
unfolding add_element
add_element-Copied fuel s comp i name names operands prev op operands' s' closed at lt e =
    >>=-elim (get_elem? operands i) _ e λ to_dup p1 e1.
      >>=-elim (duplicate fuel s to_dup) _ e1 λ r p2 e2.
        >>=-elim (set_at i r.0 operands) _ e2 λ vs p3 e3.
          >>=-elim (set_at i name names) _ e3 λ ns p4 e4.
            let same : to_dup ≡ prev = some_injective (sym p1 ∙ at) in
            let dup : duplicate fuel s prev ≡ some (r.0, r.1) =
              subst (λ (z : ℕ). duplicate fuel s z ≡ some (r.0, r.1)) same p2 in
            let (g, copy) =
              duplicate-Copies fuel s.next s prev r.0 r.1 closed closed (omega arith) lt dup in
            let grows = g.0 in
            let below = CopyOf-below fuel r.1.definer s.next s.next r.1.next prev r.0 copy in
            let put = set_at-get i r.0 operands vs p3 in
            let bound = get_elem?-zip ns vs i name r.0 (set_at-get i name names ns p4) put in
            subst
              (λ (t : CompOp × List ℕ × Values).
                Grown s t.2
                × ((v : ℕ) × (cs : List (Name × ℕ)) × (t.0 ≡ add_comp comp cs)
                    × (get_elem? cs i ≡ some (name, v))
                    × (get_elem? t.1 i ≡ some v)
                    × (v < t.2.next)
                    × Copied fuel t.2 prev v))
              (some_injective e4)
              (
                g,
                (
                  r.0,
                  zip ns vs,
                  refl,
                  bound,
                  put,
                  below,
                  (s.next, s.next, omega arith, omega arith, copy),
                ),
              )

Grown-trans : (s t u : Values) → Grown s t → Grown t u → Grown s u
Grown-trans s t u g h =
    let a = g.0 in let b = h.0 in (omega arith, (λ x l. h.1 x (omega arith) ∙ g.1 x l), h.2)

add_elements-BindsCopies :
    (fuel : ℕ) (s : Values) (comp i prev : ℕ) (base : Name) (names : List Name) (operands : List ℕ)
    (lines : List Name) (ops : List CompOp) (s' : Values)
    → IsClosed s.next s.definer
    → get_elem? operands i ≡ some prev
    → prev < s.next
    → add_elements fuel s comp i base names operands lines ≡ some (ops, s')
    → Grown s s' × BindsCopies fuel s' i comp prev ops (map (λ (line : Name). base ++ line) lines)
unfolding add_elements
add_elements-BindsCopies fuel s comp i prev base names operands [] ops s' closed at lt e =
    subst (λ (t : List CompOp × Values). Grown s t.1 × BindsCopies fuel t.1 i comp prev t.0 [])
      (some_injective e) ((omega arith, (λ x l. refl), closed), tt)
add_elements-BindsCopies fuel s comp i prev base names operands (line ∷ lines) ops s' closed at lt
      e =
    >>=-elim (add_element fuel s comp i (base ++ line) names operands) _ e λ r p1 e1.
      >>=-elim (add_elements fuel r.2 comp i base names r.1 lines) _ e1 λ q p2 e2.
        let (g, (v, cs, is, bound, put, below, copy)) =
          add_element-Copied fuel s comp i (base ++ line) names operands prev r.0 r.1 r.2 closed at
            lt p1 in
        let (h, others) =
          add_elements-BindsCopies fuel r.2 comp i v base names r.1 lines q.0 q.1 g.2 put below
            p2 in
        subst
          (λ (t : List CompOp × Values).
            Grown s t.1
            × BindsCopies fuel t.1 i comp prev t.0 (map (λ (l : Name). base ++ l) (line ∷ lines)))
          (some_injective e2)
          (
            Grown-trans s r.2 q.1 g h,
            (v, cs, is, bound, Copied-Grown fuel r.2 q.1 prev v h copy, others),
          )

element_names :
    (base : Name) (ts : List (List ℕ))
    → map (λ (line : Name). base ++ line) (map (λ (t : List ℕ). [] ++ suffix t) ts)
      ≡ map (element_name base) ts
element_names base [] = refl
element_names base (t ∷ ts) = rw (element_name-eq base t, element_names base ts)

pub All-set_at :
    (P : ℕ → Type 0) (i a : ℕ) (xs ys : List ℕ)
    → All P xs
    → P a
    → set_at i a xs ≡ some ys
    → All P ys
All-set_at P zero a [] ys h p e = cc
All-set_at P (suc i) a [] ys h p e = cc
All-set_at P zero a (x ∷ xs) ys h p e =
    subst (λ (zs : List ℕ). All P zs) (some_injective e) (p, h.1)
All-set_at P (suc i) a (x ∷ xs) ys h p e = >>=-elim (set_at i a xs) _ e λ zs q r.
    subst (λ (us : List ℕ). All P us) (some_injective r) (h.0, All-set_at P i a xs zs h.1 p q)

name_elements-BindsElements :
    (fuel : ℕ) (s : Values) (i one_comp : ℕ) (base : Name) (names : List Name) (operands : List ℕ)
    (lines : List Name) (ops : List CompOp) (s' : Values)
    → IsClosed s.next s.definer
    → All (λ (o : ℕ). o < s.next) operands
    → one_comp < s.next
    → get_elem? operands i ≡ some one_comp
    → name_elements fuel s i base names operands lines ≡ some (ops, s')
    → BindsElements fuel s' i s.next one_comp ops (map (λ (line : Name). base ++ line) lines)
unfolding name_elements
name_elements-BindsElements fuel s i one_comp base names operands [] ops s' closed low lt at_i e =
    subst (λ (t : List CompOp × Values). BindsElements fuel t.1 i s.next one_comp t.0 [])
      (some_injective e) tt
name_elements-BindsElements fuel s i one_comp base names operands (line ∷ lines) ops s' closed low
      lt at_i e =
    let s1 : Values = record s {
      definer = update s.definer s.next (node operands);
      next = s.next + 1;
    } in
    >>=-elim (set_at i (base ++ line) names) _ e λ ns p1 e1.
      >>=-elim (add_elements fuel s1 s.next i base names operands lines) _ e1 λ q p2 e2.
        let bound =
          get_elem?-zip ns operands i (base ++ line) one_comp
            (set_at-get i (base ++ line) names ns p1) at_i in
        let closed1 : IsClosed s1.next s1.definer =
          update-IsClosed s.next (s.next + 1) s.definer s.next (node operands) closed (omega arith)
            (λ x l ne. omega (arith, ne))
            (All-higher s.next (s.next + 1) operands (omega arith) low) in
        let (g, others) =
          add_elements-BindsCopies fuel s1 s.next i one_comp base names operands lines q.0 q.1
            closed1 at_i (omega arith) p2 in
        subst
          (λ (t : List CompOp × Values).
            BindsElements fuel t.1 i s.next one_comp t.0
              (map (λ (l : Name). base ++ l) (line ∷ lines)))
          (some_injective e2) ((zip ns operands, refl, bound), others)

-- What replaces a user of a vector binds the name of each element, in order, at the place of the
-- vector. The first operation makes a component in which the first name stands for the component that
-- was splat. Each other one adds to it the next name for a copy, made of new values down to the depth
-- that the fuel allows, of the value before: where all operands are numbers in use.
pub splat_user-BindsElements :
    (fuel : ℕ) (s : Values) (one_comp vector : ℕ) (shape : List ℕ) (names : List Name)
    (operands : List ℕ) (ops : List CompOp) (s' : Values)
    → IsClosed s.next s.definer
    → All (λ (o : ℕ). o < s.next) operands
    → one_comp < s.next
    → splat_user fuel s one_comp vector shape names operands ≡ some (ops, s')
    → (base : Name) × (get_elem? names (index_of vector operands) ≡ some base)
      × BindsElements fuel s'
          (index_of vector operands)
          s.next
          one_comp
          ops
          (map (element_name base) (tuples shape))
unfolding splat_user
splat_user-BindsElements fuel s one_comp vector shape names operands ops s' closed low lt e =
    let i = index_of vector operands in
    >>=-elim (set_at i one_comp operands) _ e λ vs p1 e1.
      >>=-elim (get_elem? names i) _ e1 λ base p2 e2. (
        base,
        p2,
        subst (λ (ns : List Name). BindsElements fuel s' i s.next one_comp ops ns)
            (ap (λ (ls : List Name). map (λ (l : Name). base ++ l) ls) (get_permutation-eq shape [])
              ∙ element_names base (tuples shape))
            (name_elements-BindsElements fuel s i one_comp base names vs (get_permutation shape [])
              ops s' closed (All-set_at (λ (o : ℕ). o < s.next) i one_comp operands vs low lt p1) lt
              (set_at-get i one_comp operands vs p1) e2),
      )

-- An extraction at constant indices in the bounds of the vector, from a component that launches hand
-- out, is a look-up of the name that the lowering gives the element at these indices.
pub extract_finds :
    (fuel : ℕ) (s : Values) (vector v handler : ℕ) (name : Name) (indices t shape : List ℕ)
    → constant_indices s indices ≡ some t
    → returned_value fuel s vector ≡ some v
    → s.definer v ≡ get_comp handler name
    → InBounds t shape
    → (line : Name) × (get_elem? (get_permutation shape []) (rank t shape) ≡ some line)
      × (lower_extract fuel s vector indices ≡ some (some (handler, name ++ line)))
unfolding lower_extract
extract_finds fuel s vector v handler name indices t shape ei ev ed h =
    let (line, at_rank, named) = element_name-line name shape t h in
    (line, at_rank, rw (ei, extract_at) (rw (ev, extract_at) (rw ed (rw named))))
