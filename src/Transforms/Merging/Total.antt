-- ===== src/Transforms/Merging/Total.antt =====
-- Merging loops whose indices are in range succeeds.
use event_queue.Common.{
  ℕ, zero, suc, ◌*◌, ◌<◌, ◌≡◌, refl, sym, subst, ap, ◌∙◌, arith, some, List, [], ◌∷◌, get_elem?,
  length, All,
}
use event_queue.Transforms.Reorder.{AffineLoop}
use event_queue.Transforms.Merging.{set_upper, trip_count, collapse, merge_loops}
use event_queue.Transforms.Merging.Trips.{FromZero, all_trips, merge_loops-trips}

get_elem?_total :
    (loops : List AffineLoop) (i : ℕ)
    → i < length loops
    → (l : AffineLoop) × (get_elem? loops i ≡ some l)
get_elem?_total [] i lt = absurd (omega arith)
get_elem?_total (x ∷ loops) zero lt = (x, refl)
get_elem?_total (x ∷ loops) (suc i) lt = get_elem?_total loops i (omega arith)

set_upper_total :
    (i u : ℕ) (loops : List AffineLoop)
    → i < length loops
    → (loops' : List AffineLoop) × (set_upper i u loops ≡ some loops')
      × (length loops' ≡ length loops)
set_upper_total i u [] lt = absurd (omega arith)
set_upper_total zero u (x ∷ loops) lt = (record x { upper = u } ∷ loops, refl, refl)
set_upper_total (suc i) u (x ∷ loops) lt =
    let (rest, e, same) = set_upper_total i u loops (omega arith) in
    (x ∷ rest, rw e refl, ap suc same)

All-length : (m n : ℕ) (is : List ℕ) → n ≡ m → All (λ (i : ℕ). i < m) is → All (λ (i : ℕ). i < n) is
All-length m n is e h = subst (λ (k : ℕ). All (λ (i : ℕ). i < k) is) (sym e) h

collapse_total :
    (loops : List AffineLoop) (indices : List ℕ) (bound : ℕ)
    → All (λ (i : ℕ). i < length loops) indices
    → (loops' : List AffineLoop) × (bound' : ℕ) × (collapse loops indices bound
        ≡ some (loops', bound'))
      × (length loops' ≡ length loops)
unfolding collapse
collapse_total loops [] bound h = (loops, bound, refl, refl)
collapse_total loops (i ∷ indices) bound h =
    let (l, at) = get_elem?_total loops i h.0 in
    let (next, set, same) = set_upper_total i 1 loops h.0 in
    let (loops', bound', e, same') =
      collapse_total next indices (bound * trip_count l)
        (All-length (length loops) (length next) indices (omega arith) h.1) in
    (loops', bound', rw (at, set) e, same' ∙ same)

-- Merging loops that run from 0, of which the first one has step 1, succeeds when the indices are in
-- range, and the product of the runs of all loops is as before.
pub merge_loops_keeps :
    (loops : List AffineLoop) (i : ℕ) (indices : List ℕ) (l : AffineLoop)
    → All FromZero loops
    → All (λ (k : ℕ). k < length loops) (i ∷ indices)
    → get_elem? loops i ≡ some l
    → l.step ≡ 1
    → (loops' : List AffineLoop) × (merge_loops loops (i ∷ indices) ≡ some loops')
      × (all_trips loops' ≡ all_trips loops)
unfolding merge_loops
merge_loops_keeps loops i indices l h inside at one_step =
    let (mid, bound, e, same) = collapse_total loops (i ∷ indices) 1 inside in
    let lt : i < length loops = inside.0 in
    let (loops', set, _) = set_upper_total i bound mid (omega arith) in
    let made : merge_loops loops (i ∷ indices) ≡ some loops' = rw e set in
    (loops', made, merge_loops-trips loops i indices l loops' h at one_step made)
