-- ===== src/Transforms/Extraction/Depth.antt =====
-- How deep the operands of a value go, and that `duplicate` comes to an end with that much fuel.
use event_queue.Common.{
  ℕ, zero, suc, ◌+◌, ◌<◌, ◌≤◌, ◌≡◌, refl, sym, subst, List, [], ◌∷◌, All, arith, Option, some,
  update,
}
use event_queue.Transforms.Extraction.{
  Values, Definer, constant_index, get_comp, launch, node, duplicate, duplicate_each, clone,
  operands_of, with_operands,
}
use event_queue.Transforms.Extraction.Clones.{
  Pairs, CopyOf, IsClosed, Copies, All-higher, IsClosed-kept, update_other, update-IsClosed,
  duplicate-Copies,
}

-- The operands of the value, those of what defines them and so on are no more levels than that.
abbrev pub IsDeep : ℕ → (ℕ → Definer) → ℕ → Type 0
IsDeep zero d v = ⊥
IsDeep (suc n) d v = All (IsDeep n d) (operands_of (d v))

All-both :
    (P Q R : ℕ → Type 0) (vs : List ℕ)
    → ((v : ℕ) → P v → Q v → R v)
    → All P vs
    → All Q vs
    → All R vs
All-both P Q R [] h a b = tt
All-both P Q R (v ∷ vs) h a b = (h v a.0 b.0, All-both P Q R vs h a.1 b.1)

pub IsDeep-kept :
    (n lo : ℕ) (d d' : ℕ → Definer)
    → ((x : ℕ) → x < lo → d' x ≡ d x)
    → IsClosed lo d
    → (v : ℕ) → v < lo
    → IsDeep n d v
    → IsDeep n d' v
IsDeep-kept zero lo d d' same c v lt h = h
IsDeep-kept (suc n) lo d d' same c v lt h =
    subst (λ (f : Definer). All (IsDeep n d') (operands_of f)) (sym (same v lt))
      (All-both (λ (o : ℕ). o < lo) (IsDeep n d) (IsDeep n d') (operands_of (d v))
        (IsDeep-kept n lo d d' same c) (c v lt) h)

Pairs-right :
    (R : ℕ → ℕ → Type 0) (P : ℕ → Type 0) (vs ws : List ℕ)
    → ((v w : ℕ) → R v w → P w)
    → Pairs R vs ws
    → All P ws
Pairs-right R P [] [] h a = tt
Pairs-right R P [] (w ∷ ws) h a = elim a [ ]
Pairs-right R P (v ∷ vs) [] h a = elim a [ ]
Pairs-right R P (v ∷ vs) (w ∷ ws) h a = (h v w a.0, Pairs-right R P vs ws h a.1)

with_operands-All :
    (R : ℕ → ℕ → Type 0) (P : ℕ → Type 0) (f : Definer) (ws : List ℕ)
    → ((v w : ℕ) → R v w → P w)
    → Pairs R (operands_of f) ws
    → All P (operands_of (with_operands f ws))
with_operands-All R P (constant_index n) ws h a = tt
with_operands-All R P (get_comp x name) [] h a = elim a [ ]
with_operands-All R P (get_comp x name) (w ∷ ws) h a = (h x w a.0, tt)
with_operands-All R P (launch s rs ys) ws h a = tt
with_operands-All R P (node vs) ws h a = Pairs-right R P vs ws h a

-- A copy is no deeper than what it is a copy of.
pub CopyOf-IsDeep :
    (n : ℕ) (d : ℕ → Definer) (lo mid hi v w : ℕ) → CopyOf n d lo mid hi v w → IsDeep n d w
CopyOf-IsDeep zero d lo mid hi v w c = c
CopyOf-IsDeep (suc n) d lo mid hi v w (a, b, c, (ws, e, ps)) =
    subst (λ (f : Definer). All (IsDeep n d) (operands_of f)) (sym e)
      (with_operands-All (CopyOf n d lo mid hi) (IsDeep n d) (d v) ws (CopyOf-IsDeep n d lo mid hi)
        ps)

abbrev CopiesAll : (Values → ℕ → Option (ℕ × Values)) → ℕ → Type 0
CopiesAll copy depth =
    (lo : ℕ) (s : Values) (v : ℕ)
    → IsClosed s.next s.definer
    → IsClosed lo s.definer
    → lo ≤ s.next
    → v < lo
    → IsDeep depth s.definer v
    → (w : ℕ) × (s' : Values) × (copy s v ≡ some (w, s'))

duplicate_each_total :
    (copy : Values → ℕ → Option (ℕ × Values)) (depth : ℕ)
    → Copies copy depth
    → CopiesAll copy depth
    → (lo : ℕ) (s : Values) (vs : List ℕ) → IsClosed s.next s.definer
    → IsClosed lo s.definer
    → lo ≤ s.next
    → All (λ (o : ℕ). o < lo) vs
    → All (IsDeep depth s.definer) vs
    → (ws : List ℕ) × (s' : Values) × (duplicate_each copy s vs ≡ some (ws, s'))
duplicate_each_total copy depth h total lo s [] c cl le a deep = ([], s, refl)
duplicate_each_total copy depth h total lo s (v ∷ vs) c cl le a deep =
    let (w, s1, e1) = total lo s v c cl le a.0 deep.0 in
    let (g, _) = h lo s v w s1 c cl le a.0 e1 in
    let grows = g.0 in
    let same : (x : ℕ) → x < lo → s1.definer x ≡ s.definer x = λ x lt. g.1 x (omega arith) in
    let deep' =
      All-both (λ (o : ℕ). o < lo) (IsDeep depth s.definer) (IsDeep depth s1.definer) vs
        (IsDeep-kept depth lo s.definer s1.definer same cl) a.1 deep.1 in
    let (ws, s2, e2) =
      duplicate_each_total copy depth h total lo s1 vs g.2
        (IsClosed-kept lo s.definer s1.definer same cl) (omega arith) a.1 deep' in
    (w ∷ ws, s2, rw (e1, e2) refl)

pub duplicate_total : (fuel : ℕ) → CopiesAll (duplicate fuel) fuel
unfolding duplicate
duplicate_total zero lo s v c cl le lt deep = elim deep [ ]
duplicate_total (suc fuel) lo s v c cl le lt deep =
    let t = clone s v in
    let vs = operands_of (s.definer v) in
    let same : (x : ℕ) → x < lo → t.definer x ≡ s.definer x =
      λ x l. update_other s.definer s.next x (s.definer v) (λ q. omega arith) in
    let ct : IsClosed t.next t.definer =
      update-IsClosed s.next (s.next + 1) s.definer s.next (s.definer v) c (omega arith)
        (λ x l ne. omega (arith, ne)) (All-higher lo (s.next + 1) vs (omega arith) (cl v lt)) in
    let deep' =
      All-both (λ (o : ℕ). o < lo) (IsDeep fuel s.definer) (IsDeep fuel t.definer) vs
        (IsDeep-kept fuel lo s.definer t.definer same cl) (cl v lt) deep in
    let (ws, s', e) =
      duplicate_each_total (duplicate fuel) fuel (duplicate-Copies fuel) (duplicate_total fuel) lo t
        vs ct (IsClosed-kept lo s.definer t.definer same cl) (omega arith) (cl v lt) deep' in
    (
      s.next,
      record s' { definer = update s'.definer s.next (with_operands (s.definer v) ws) },
      rw e refl,
    )
