-- ===== src/Transforms/Merging/Trips.antt =====
-- The runs of all loops together.
use native.Mathlib.Nat.{mul_assoc, mul_comm, mul-one, div_self}
use event_queue.Common.{
  ℕ, zero, suc, ◌+◌, ◌-◌, ◌*◌, ◌/◌, ◌<◌, ◌≡◌, refl, sym, ap, subst, ◌∙◌, arith, some, List, [], ◌∷◌,
  get_elem?, >>=-elim, some_injective, All,
}
use event_queue.Memory.{ceil_div}
use event_queue.Memory.Cycles.{ceil_div_least}
use event_queue.Transforms.Reorder.{AffineLoop}
use event_queue.Transforms.Merging.{set_upper, trip_count, collapse, merge_loops}

abbrev pub all_trips : List AffineLoop → ℕ
all_trips [] = 1
all_trips (l ∷ loops) = trip_count l * all_trips loops

-- From 0, with a step.
abbrev pub FromZero : AffineLoop → Type 0
FromZero l = (l.lower ≡ 0) × (0 < l.step)

swap_ends : (a b c : ℕ) → a * b * c ≡ c * b * a
swap_ends a b c = mul_comm (a * b) c ∙ ap (λ (n : ℕ). c * n) (mul_comm a b) ∙ sym (mul_assoc c b a)

set_upper-trips :
    (i u : ℕ) (loops loops' : List AffineLoop) (l : AffineLoop)
    → get_elem? loops i ≡ some l
    → set_upper i u loops ≡ some loops'
    → all_trips loops' * trip_count l ≡ all_trips loops * trip_count (record l { upper = u })
set_upper-trips i u [] loops' l g e = cc
set_upper-trips zero u (x ∷ loops) loops' l g e =
    let same : x ≡ l = some_injective g in
    subst
      (λ (ls : List AffineLoop).
        all_trips ls * trip_count l ≡ all_trips (x ∷ loops) * trip_count (record l { upper = u }))
      (some_injective e)
      (subst
        (λ (y : AffineLoop).
          trip_count (record x { upper = u }) * all_trips loops * trip_count y
          ≡ trip_count x * all_trips loops * trip_count (record y { upper = u }))
        same (swap_ends (trip_count (record x { upper = u })) (all_trips loops) (trip_count x)))
set_upper-trips (suc i) u (x ∷ loops) loops' l g e = >>=-elim (set_upper i u loops) _ e λ rest p q.
    let ih = set_upper-trips i u loops rest l g p in
    subst
      (λ (ls : List AffineLoop).
        all_trips ls * trip_count l ≡ all_trips (x ∷ loops) * trip_count (record l { upper = u }))
      (some_injective q)
      (mul_assoc (trip_count x) (all_trips rest) (trip_count l)
        ∙ ap (λ (n : ℕ). trip_count x * n) ih
        ∙ sym (mul_assoc (trip_count x) (all_trips loops) (trip_count (record l { upper = u }))))

once : (l : AffineLoop) → FromZero l → trip_count (record l { upper = 1 }) ≡ 1
once l (zero_lower, pos) =
    let whole : 1 - l.lower + l.step - 1 ≡ l.step = omega arith in
    ap (λ (n : ℕ). n / l.step) whole ∙ div_self pos

full : (l : AffineLoop) (u : ℕ) → l.lower ≡ 0 → l.step ≡ 1 → trip_count (record l { upper = u }) ≡ u
full l u zero_lower one_step =
    let (a, b) = ceil_div_least (u - l.lower) 1 (omega arith) in
    ap (λ (d : ℕ). ceil_div (u - l.lower) d) one_step ∙ omega arith

set_upper-FromZero :
    (i u : ℕ) (loops loops' : List AffineLoop)
    → All FromZero loops
    → set_upper i u loops ≡ some loops'
    → All FromZero loops'
set_upper-FromZero i u [] loops' h e = cc
set_upper-FromZero zero u (x ∷ loops) loops' h e =
    subst (λ (ls : List AffineLoop). All FromZero ls) (some_injective e) h
set_upper-FromZero (suc i) u (x ∷ loops) loops' h e = >>=-elim (set_upper i u loops) _ e λ rest p q.
    subst (λ (ls : List AffineLoop). All FromZero ls) (some_injective q)
      (h.0, set_upper-FromZero i u loops rest h.1 p)

get_elem?-FromZero :
    (loops : List AffineLoop) (i : ℕ) (l : AffineLoop)
    → All FromZero loops
    → get_elem? loops i ≡ some l
    → FromZero l
get_elem?-FromZero [] i l h e = cc
get_elem?-FromZero (x ∷ loops) zero l h e = subst FromZero (some_injective e) h.0
get_elem?-FromZero (x ∷ loops) (suc i) l h e = get_elem?-FromZero loops i l h.1 e

-- The loop runs up to 1, and has that step.
abbrev pub OneAt : ℕ → ℕ → List AffineLoop → Type 0
OneAt i step loops =
    (l : AffineLoop) × (get_elem? loops i ≡ some l) × (l.upper ≡ 1) × (l.step ≡ step)

set_upper-same :
    (i : ℕ) (loops loops' : List AffineLoop) (l : AffineLoop)
    → get_elem? loops i ≡ some l
    → set_upper i 1 loops ≡ some loops'
    → OneAt i l.step loops'
set_upper-same i [] loops' l g e = cc
set_upper-same zero (x ∷ loops) loops' l g e =
    subst (OneAt zero l.step) (some_injective e)
      (record x { upper = 1 }, refl, refl, ap (λ (y : AffineLoop). y.step) (some_injective g))
set_upper-same (suc i) (x ∷ loops) loops' l g e =
    >>=-elim (set_upper i 1 loops) _ e λ rest p q.
      subst (OneAt (suc i) l.step) (some_injective q) (set_upper-same i loops rest l g p)

set_upper-OneAt :
    (i j step : ℕ) (loops loops' : List AffineLoop)
    → OneAt i step loops
    → set_upper j 1 loops ≡ some loops'
    → OneAt i step loops'
set_upper-OneAt i j step [] loops' h e = cc
set_upper-OneAt zero zero step (x ∷ loops) loops' (l, g, u, s) e =
    subst (OneAt zero step) (some_injective e)
      (record x { upper = 1 }, refl, refl, ap (λ (y : AffineLoop). y.step) (some_injective g) ∙ s)
set_upper-OneAt (suc i) zero step (x ∷ loops) loops' h e =
    subst (OneAt (suc i) step) (some_injective e) h
set_upper-OneAt zero (suc j) step (x ∷ loops) loops' h e =
    >>=-elim (set_upper j 1 loops) _ e λ rest p q. subst (OneAt zero step) (some_injective q) h
set_upper-OneAt (suc i) (suc j) step (x ∷ loops) loops' h e =
    >>=-elim (set_upper j 1 loops) _ e λ rest p q.
      subst (OneAt (suc i) step) (some_injective q) (set_upper-OneAt i j step loops rest h p)

collapse-OneAt :
    (i step : ℕ) (loops : List AffineLoop) (indices : List ℕ) (bound : ℕ) (loops' : List AffineLoop)
    (bound' : ℕ)
    → OneAt i step loops
    → collapse loops indices bound ≡ some (loops', bound')
    → OneAt i step loops'
unfolding collapse
collapse-OneAt i step loops [] bound loops' bound' h e =
    subst (λ (t : List AffineLoop × ℕ). OneAt i step t.0) (some_injective e) h
collapse-OneAt i step loops (j ∷ indices) bound loops' bound' h e =
    >>=-elim (get_elem? loops j) _ e λ l p e1. >>=-elim (set_upper j 1 loops) _ e1 λ next q e2.
      collapse-OneAt i step next indices (bound * trip_count l) loops' bound'
        (set_upper-OneAt i j step loops next h q) e2

collapse-trips :
    (loops : List AffineLoop) (indices : List ℕ) (bound : ℕ) (loops' : List AffineLoop) (bound' : ℕ)
    → All FromZero loops
    → collapse loops indices bound ≡ some (loops', bound')
    → (all_trips loops' * bound' ≡ all_trips loops * bound) × All FromZero loops'
unfolding collapse
collapse-trips loops [] bound loops' bound' h e =
    subst
      (λ (t : List AffineLoop × ℕ).
        (all_trips t.0 * t.1 ≡ all_trips loops * bound) × All FromZero t.0)
      (some_injective e) (refl, h)
collapse-trips loops (j ∷ indices) bound loops' bound' h e =
    >>=-elim (get_elem? loops j) _ e λ l p e1. >>=-elim (set_upper j 1 loops) _ e1 λ next q e2.
      let (ih, all) =
        collapse-trips next indices (bound * trip_count l) loops' bound'
          (set_upper-FromZero j 1 loops next h q) e2 in
      let step =
        set_upper-trips j 1 loops next l p q
        ∙ ap (λ (n : ℕ). all_trips loops * n) (once l (get_elem?-FromZero loops j l h p))
        ∙ mul-one (all_trips loops) in
      (
        ih
            ∙ ap (λ (n : ℕ). all_trips next * n) (mul_comm bound (trip_count l))
            ∙ sym (mul_assoc (all_trips next) (trip_count l) bound)
            ∙ ap (λ (n : ℕ). n * bound) step,
        all,
      )

-- Where merging loops that run from 0, of which the first one has step 1, succeeds, the product of the
-- runs of all loops is as before.
pub merge_loops-trips :
    (loops : List AffineLoop) (i : ℕ) (indices : List ℕ) (l : AffineLoop) (loops' : List AffineLoop)
    → All FromZero loops
    → get_elem? loops i ≡ some l
    → l.step ≡ 1
    → merge_loops loops (i ∷ indices) ≡ some loops'
    → all_trips loops' ≡ all_trips loops
unfolding merge_loops collapse
merge_loops-trips loops i indices l loops' h g one_step e =
    >>=-elim (collapse loops (i ∷ indices) 1) _ e λ t p e1.
      let (kept, all) = collapse-trips loops (i ∷ indices) 1 t.0 t.1 h p in
      >>=-elim (get_elem? loops i) _ p λ x gx p1. >>=-elim (set_upper i 1 loops) _ p1 λ next q p2.
        let same : x ≡ l = some_injective (sym gx ∙ g) in
        let (k, gk, upper, step) =
          collapse-OneAt i x.step next indices (1 * trip_count x) t.0 t.1
            (set_upper-same i loops next x gx q) p2 in
        let k_step : k.step ≡ 1 = step ∙ ap (λ (y : AffineLoop). y.step) same ∙ one_step in
        let k_zero = get_elem?-FromZero t.0 i k all gk in
        let one_trip : trip_count k ≡ 1 =
          ap (λ (u : ℕ). trip_count (record k { upper = u })) upper ∙ once k k_zero in
        sym (mul-one (all_trips loops'))
        ∙ ap (λ (n : ℕ). all_trips loops' * n) (sym one_trip)
        ∙ set_upper-trips i t.1 t.0 loops' k gk e1
        ∙ ap (λ (n : ℕ). all_trips t.0 * n) (full k t.1 k_zero.0 k_step)
        ∙ kept
        ∙ mul-one (all_trips loops)
