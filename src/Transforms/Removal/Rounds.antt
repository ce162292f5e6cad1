-- ===== src/Transforms/Removal/Rounds.antt =====
-- The walk ends: each removal takes a loop away.
use event_queue.Common.{
  ℕ, zero, suc, ◌+◌, ◌-◌, ◌≤◌, ◌≡◌, refl, Option, some, arith, Option-cases, Bool-cases, inl, inr,
  ltb,
}
use event_queue.Transforms.Removal.{
  Bound, Ops, end, op, nest, affine_for, append, fold_bound, WalkEnd, nothing, next_band, stop,
  keep, otherwise, visit, walk_end, walk, replace_all_uses,
}

abbrev pub count_loops : Ops → ℕ
count_loops end = 0
count_loops (op id args rest) = count_loops rest
count_loops (nest id body rest) = count_loops body + count_loops rest
count_loops (affine_for l u s iv body rest) = suc (count_loops body + count_loops rest)

count_loops-append : (a b : Ops) → count_loops (append a b) ≡ count_loops a + count_loops b
count_loops-append end b = omega arith
count_loops-append (op id args rest) b = count_loops-append rest b
count_loops-append (nest id body rest) b = omega (arith, count_loops-append rest b)
count_loops-append (affine_for l u s iv body rest) b = omega (arith, count_loops-append rest b)

count_loops-replace_all_uses :
    (v c : ℕ) (ops : Ops) → count_loops (replace_all_uses v c ops) ≡ count_loops ops
unfolding replace_all_uses
count_loops-replace_all_uses v c end = refl
count_loops-replace_all_uses v c (op id args rest) = count_loops-replace_all_uses v c rest
count_loops-replace_all_uses v c (nest id body rest) =
    omega (arith, count_loops-replace_all_uses v c body, count_loops-replace_all_uses v c rest)
count_loops-replace_all_uses v c (affine_for l u s iv body rest) =
    omega (arith, count_loops-replace_all_uses v c body, count_loops-replace_all_uses v c rest)

abbrev pub Ends : Option (Ops × WalkEnd) → Type 0
Ends r = (w : Ops × WalkEnd) × (r ≡ some w)

keep-Ends :
    (rebuild : Ops → Ops) (e : WalkEnd) (r : Option (Ops × WalkEnd))
    → Ends r
    → Ends (keep rebuild e r)
keep-Ends rebuild e r (w, p) = ((rebuild w.0, otherwise e w.1), rw (p, keep))

visit-Ends :
    (l u : Bound) (s : ℕ) (rebuild : Ops → Ops) (inside : Option (Ops × WalkEnd))
    (removed : ℕ → Option (Ops × WalkEnd))
    → Ends inside
    → ((lb : ℕ) → Ends (removed lb))
    → Ends (visit l u s rebuild inside removed)
visit-Ends l u s rebuild inside removed hin hout = elim (Option-cases (fold_bound u)) [
  | inl nu ↦ rw (nu, visit) (keep-Ends rebuild stop inside hin)
  | inr (ub, eu) ↦ elim (Option-cases (fold_bound l)) [
    | inl nl ↦ rw (eu, visit) (rw nl (keep-Ends rebuild stop inside hin))
    | inr (lb, el) ↦ elim (Bool-cases (ltb s (ub - lb))) [
      | inl more ↦ rw (eu, visit) (rw el (rw more (keep-Ends rebuild next_band inside hin)))
      | inr le ↦ rw (eu, visit) (rw el (rw le (keep-Ends (λ ops. ops) stop (removed lb) (hout lb))))
    ]
  ]
]

walk_end-Ends :
    (build : Ops → Ops → Ops) (rest : Ops) (outer : Option (Ops × WalkEnd)) (body : Ops)
    (e : WalkEnd)
    → Ends outer
    → Ends (walk_end build rest outer body e)
walk_end-Ends build rest outer body nothing (w, p) = ((build body w.0, w.1), rw p)
walk_end-Ends build rest outer body next_band h = (_, refl)
walk_end-Ends build rest outer body stop h = (_, refl)

-- As much fuel as there are loops is enough for a walk to end.
pub walk-Ends : (fuel : ℕ) (ops : Ops) → count_loops ops ≤ fuel → Ends (walk fuel ops)
unfolding walk
walk-Ends fuel end h = (_, refl)
walk-Ends fuel (op id args rest) h =
    let (w, p) = walk-Ends fuel rest h in ((op id args w.0, w.1), rw p)
walk-Ends fuel (nest id body rest) h =
    let (w, p) = walk-Ends fuel body (omega arith) in
    rw p (walk_end-Ends (nest id) rest (walk fuel rest) w.0 w.1 (walk-Ends fuel rest (omega arith)))
walk-Ends zero (affine_for l u s iv body rest) h = elim h [ ]
walk-Ends (suc fuel) (affine_for l u s iv body rest) h =
    visit-Ends l u s (λ b. affine_for l u s iv b rest) (walk (suc fuel) body)
      (λ lb. walk fuel (append (replace_all_uses iv lb body) rest))
      (walk-Ends (suc fuel) body (omega arith))
      (λ lb. walk-Ends fuel (append (replace_all_uses iv lb body) rest) (
        omega (
          arith,
          count_loops-append (replace_all_uses iv lb body) rest,
          count_loops-replace_all_uses iv lb body,
        )))
