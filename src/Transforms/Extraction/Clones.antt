-- ===== src/Transforms/Extraction/Clones.antt =====
-- What `duplicate` makes: a copy of a value, whose operands are copies in turn.
use event_queue.Common.{
  ℕ, zero, suc, ◌+◌, ◌<◌, ◌≤◌, ◌≡◌, ◌≢◌, refl, sym, ap, subst, ◌∙◌, List, [], ◌∷◌, All, arith,
  Option, some, >>=-elim, some_injective, update, ==-of-ne, ==-refl, Bool-cases, inl, inr, ◌==◌,
}
use event_queue.Transforms.Extraction.{
  Values, Definer, constant_index, get_comp, launch, node, duplicate, duplicate_each, clone,
  operands_of, with_operands,
}

abbrev pub Pairs : (ℕ → ℕ → Type 0) → List ℕ → List ℕ → Type 0
Pairs P [] [] = Unit
Pairs P [] (w ∷ ws) = ⊥
Pairs P (v ∷ vs) [] = ⊥
Pairs P (v ∷ vs) (w ∷ ws) = P v w × Pairs P vs ws

-- `w` is a copy of `v` down to the depth: its definer is that of `v` with copies of the operands. The
-- values that are copied are below `lo`, and the copies are from `mid` up to `hi`.
abbrev pub CopyOf : ℕ → (ℕ → Definer) → ℕ → ℕ → ℕ → ℕ → ℕ → Type 0
CopyOf zero d lo mid hi v w = ⊥
CopyOf (suc depth) d lo mid hi v w =
    (v < lo)
    × (mid ≤ w)
    × (w < hi)
    × ((ws : List ℕ) × (d w ≡ with_operands (d v) ws)
        × Pairs (CopyOf depth d lo mid hi) (operands_of (d v)) ws)

-- The operands of values below the bound are below it.
abbrev pub IsClosed : ℕ → (ℕ → Definer) → Type 0
IsClosed k d = (v : ℕ) → v < k → All (λ (o : ℕ). o < k) (operands_of (d v))

Pairs-map :
    (P Q : ℕ → ℕ → Type 0) (vs ws : List ℕ)
    → ((v w : ℕ) → P v w → Q v w)
    → Pairs P vs ws
    → Pairs Q vs ws
Pairs-map P Q [] [] h a = tt
Pairs-map P Q [] (w ∷ ws) h a = a
Pairs-map P Q (v ∷ vs) [] h a = a
Pairs-map P Q (v ∷ vs) (w ∷ ws) h a = (h v w a.0, Pairs-map P Q vs ws h a.1)

-- A copy stays one where the definers of what it is made of stay.
pub CopyOf-kept :
    (depth : ℕ) (d d' : ℕ → Definer) (lo mid hi mid' hi' : ℕ)
    → ((x : ℕ) → x < lo → d' x ≡ d x)
    → ((x : ℕ) → mid ≤ x → x < hi → d' x ≡ d x)
    → mid' ≤ mid
    → hi ≤ hi'
    → (v w : ℕ) → CopyOf depth d lo mid hi v w
    → CopyOf depth d' lo mid' hi' v w
CopyOf-kept zero d d' lo mid hi mid' hi' below between le le' v w c = c
CopyOf-kept (suc depth) d d' lo mid hi mid' hi' below between le le' v w (a, b, c, (ws, e, ps)) =
    let old = below v a in
    (
      a,
      omega arith,
      omega arith,
      (
        ws,
        between w b c ∙ e ∙ ap (λ (f : Definer). with_operands f ws) (sym old),
        subst (λ (f : Definer). Pairs (CopyOf depth d' lo mid' hi') (operands_of f) ws) (sym old)
            (Pairs-map (CopyOf depth d lo mid hi) (CopyOf depth d' lo mid' hi') (operands_of (d v))
              ws (CopyOf-kept depth d d' lo mid hi mid' hi' below between le le') ps),
      ),
    )

pub CopyOf-below :
    (depth : ℕ) (d : ℕ → Definer) (lo mid hi v w : ℕ) → CopyOf depth d lo mid hi v w → w < hi
CopyOf-below zero d lo mid hi v w c = elim c [ ]
CopyOf-below (suc depth) d lo mid hi v w c = c.2

Pairs-below :
    (depth : ℕ) (d : ℕ → Definer) (lo mid hi : ℕ) (vs ws : List ℕ)
    → Pairs (CopyOf depth d lo mid hi) vs ws
    → All (λ (o : ℕ). o < hi) ws
Pairs-below depth d lo mid hi [] [] a = tt
Pairs-below depth d lo mid hi [] (w ∷ ws) a = elim a [ ]
Pairs-below depth d lo mid hi (v ∷ vs) [] a = elim a [ ]
Pairs-below zero d lo mid hi (v ∷ vs) (w ∷ ws) a = elim a.0 [ ]
Pairs-below (suc depth) d lo mid hi (v ∷ vs) (w ∷ ws) a =
    (a.0.2, Pairs-below (suc depth) d lo mid hi vs ws a.1)

pub All-higher :
    (k k' : ℕ) (vs : List ℕ) → k ≤ k' → All (λ (o : ℕ). o < k) vs → All (λ (o : ℕ). o < k') vs
All-higher k k' [] le a = tt
All-higher k k' (v ∷ vs) le a = (omega arith, All-higher k k' vs le a.1)

with_operands-below :
    (k : ℕ) (d : Definer) (ws : List ℕ)
    → All (λ (o : ℕ). o < k) ws
    → All (λ (o : ℕ). o < k) (operands_of d)
    → All (λ (o : ℕ). o < k) (operands_of (with_operands d ws))
with_operands-below k (constant_index n) ws a b = b
with_operands-below k (get_comp h name) [] a b = b
with_operands-below k (get_comp h name) (w ∷ ws) a b = (a.0, tt)
with_operands-below k (launch s rs ys) ws a b = b
with_operands-below k (node vs) ws a b = a

-- What a step that copies has done: it starts at the first free number and goes on to the next one, keeps
-- all definers below, and leaves them closed.
abbrev pub Grown : Values → Values → Type 0
Grown s s' =
    (s.next ≤ s'.next)
    × ((x : ℕ) → x < s.next → s'.definer x ≡ s.definer x)
    × IsClosed s'.next s'.definer

abbrev pub Copies : (Values → ℕ → Option (ℕ × Values)) → ℕ → Type 0
Copies copy depth =
    (lo : ℕ) (s : Values) (v w : ℕ) (s' : Values)
    → IsClosed s.next s.definer
    → IsClosed lo s.definer
    → lo ≤ s.next
    → v < lo
    → copy s v ≡ some (w, s')
    → Grown s s' × CopyOf depth s'.definer lo s.next s'.next v w

pub IsClosed-kept :
    (lo : ℕ) (d d' : ℕ → Definer) → ((x : ℕ) → x < lo → d' x ≡ d x) → IsClosed lo d → IsClosed lo d'
IsClosed-kept lo d d' same c v lt =
    subst (λ (f : Definer). All (λ (o : ℕ). o < lo) (operands_of f)) (sym (same v lt)) (c v lt)

duplicate_each-Pairs :
    (copy : Values → ℕ → Option (ℕ × Values)) (depth : ℕ)
    → Copies copy depth
    → (lo : ℕ) (s : Values) (vs ws : List ℕ) (s' : Values) → IsClosed s.next s.definer
    → IsClosed lo s.definer
    → lo ≤ s.next
    → All (λ (o : ℕ). o < lo) vs
    → duplicate_each copy s vs ≡ some (ws, s')
    → Grown s s' × Pairs (CopyOf depth s'.definer lo s.next s'.next) vs ws
duplicate_each-Pairs copy depth h lo s [] ws s' c cl le a e =
    subst
      (λ (t : List ℕ × Values).
        Grown s t.1 × Pairs (CopyOf depth t.1.definer lo s.next t.1.next) [] t.0)
      (some_injective e) ((omega arith, (λ x lt. refl), c), tt)
duplicate_each-Pairs copy depth h lo s (v ∷ vs) ws s' c cl le a e =
    >>=-elim (copy s v) _ e λ r p e1. >>=-elim (duplicate_each copy r.1 vs) _ e1 λ q p2 e2.
      let (g1, first) = h lo s v r.0 r.1 c cl le a.0 p in
      let cl1 = IsClosed-kept lo s.definer r.1.definer (λ x lt. g1.1 x (omega arith)) cl in
      let grows1 = g1.0 in
      let (g2, others) =
        duplicate_each-Pairs copy depth h lo r.1 vs q.0 q.1 g1.2 cl1 (omega arith) a.1 p2 in
      let grows2 = g2.0 in
      subst
        (λ (t : List ℕ × Values).
          Grown s t.1 × Pairs (CopyOf depth t.1.definer lo s.next t.1.next) (v ∷ vs) t.0)
        (some_injective e2)
        (
          (omega arith, (λ x lt. g2.1 x (omega arith) ∙ g1.1 x lt), g2.2),
          (
            CopyOf-kept depth r.1.definer q.1.definer lo s.next r.1.next s.next q.1.next
                (λ x lt. g2.1 x (omega arith)) (λ x ge lt. g2.1 x lt) (omega arith) (omega arith) v
                r.0 first,
            Pairs-map (CopyOf depth q.1.definer lo r.1.next q.1.next)
                (CopyOf depth q.1.definer lo s.next q.1.next) vs q.0
                (CopyOf-kept depth q.1.definer q.1.definer lo r.1.next q.1.next s.next q.1.next
                  (λ x lt. refl) (λ x ge lt. refl) (omega arith) (omega arith))
                others,
          ),
        )

pub update_other : (d : ℕ → Definer) (k x : ℕ) (f : Definer) → x ≢ k → update d k f x ≡ d x
update_other d k x f ne = rw (==-of-ne k x (λ e. ne (sym e))) refl

update_here : (d : ℕ → Definer) (k : ℕ) (f : Definer) → update d k f k ≡ f
update_here d k f = rw (==-refl k) refl

-- A definer whose operands are below the new bound keeps the definers closed.
pub update-IsClosed :
    (k k' : ℕ) (d : ℕ → Definer) (j : ℕ) (f : Definer)
    → IsClosed k d
    → k ≤ k'
    → ((x : ℕ) → x < k' → x ≢ j → x < k)
    → All (λ (o : ℕ). o < k') (operands_of f)
    → IsClosed k' (update d j f)
update-IsClosed k k' d j f c le within a v lt = elim (Bool-cases (j == v)) [
  | inl e ↦ rw e a
  | inr e ↦ rw e (All-higher k k' (operands_of (d v)) le (c v (within v lt (λ q. ground arith))))
]

pub duplicate-Copies : (fuel : ℕ) → Copies (duplicate fuel) fuel
unfolding duplicate
duplicate-Copies zero lo s v w s' c cl le lt e = cc
duplicate-Copies (suc fuel) lo s v w s' c cl le lt e =
    let t = clone s v in
    >>=-elim (duplicate_each (duplicate fuel) t (operands_of (s.definer v))) _ e λ q p e1.
      let ct : IsClosed t.next t.definer =
        update-IsClosed s.next (s.next + 1) s.definer s.next (s.definer v) c (omega arith)
          (λ x l ne. omega (arith, ne))
          (All-higher lo (s.next + 1) (operands_of (s.definer v)) (omega arith) (cl v lt)) in
      let clt =
        IsClosed-kept lo s.definer t.definer
          (λ x l. update_other s.definer s.next x (s.definer v) (λ q. omega arith)) cl in
      let (g, pairs) =
        duplicate_each-Pairs (duplicate fuel) fuel (duplicate-Copies fuel) lo t
          (operands_of (s.definer v)) q.0 q.1 ct clt (omega arith) (cl v lt) p in
      let grows = g.0 in
      let f = with_operands (s.definer v) q.0 in
      let d' = update q.1.definer s.next f in
      let below =
        Pairs-below fuel q.1.definer lo t.next q.1.next (operands_of (s.definer v)) q.0 pairs in
      let old : (x : ℕ) → x < s.next → d' x ≡ s.definer x = λ x l.
        update_other q.1.definer s.next x f (λ q. omega arith)
        ∙ g.1 x (omega arith)
        ∙ update_other s.definer s.next x (s.definer v) (λ q. omega arith) in
      let old_v = old v (omega arith) in
      subst
        (λ (r : ℕ × Values). Grown s r.1 × CopyOf (suc fuel) r.1.definer lo s.next r.1.next v r.0)
        (some_injective e1)
        (
          (
            omega arith,
            old,
            update-IsClosed q.1.next q.1.next q.1.definer s.next f g.2 (omega arith) (λ x l ne. l)
                (with_operands-below q.1.next (s.definer v) q.0 below
                  (All-higher lo q.1.next (operands_of (s.definer v)) (omega arith) (cl v lt))),
          ),
          (
            lt,
            omega arith,
            omega arith,
            (
              q.0,
              update_here q.1.definer s.next f
                  ∙ ap (λ (x : Definer). with_operands x q.0) (sym old_v),
              subst (λ (x : Definer). Pairs (CopyOf fuel d' lo s.next q.1.next) (operands_of x) q.0)
                  (sym old_v)
                  (Pairs-map (CopyOf fuel q.1.definer lo t.next q.1.next)
                    (CopyOf fuel d' lo s.next q.1.next) (operands_of (s.definer v)) q.0
                    (CopyOf-kept fuel q.1.definer d' lo t.next q.1.next s.next q.1.next
                      (λ x l. update_other q.1.definer s.next x f (λ q. omega arith))
                      (λ x ge l. update_other q.1.definer s.next x f (λ q. omega arith))
                      (omega arith) (omega arith))
                    pairs),
            ),
          ),
        )
