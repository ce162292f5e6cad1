-- ===== src/Transforms/Parallel/Copies.antt =====
-- The copies of the body of a parallel nest, and the signal that is waited for.
use event_queue.Common.{
  ℕ, zero, suc, ◌+◌, ◌-◌, ◌≡◌, refl, sym, ap, ◌∙◌, Option, none, some, List, [], ◌∷◌, ◌++◌, map,
  length, length-append, take, arith, product, ◌*◌, Bool, true, ◌&&◌, get_elem?, some_injective,
  Option-cases, inl, inr,
}
use mathlib.Core.List.{append_assoc, append-nil}
use event_queue.Transforms.Tuples.{
  tuples, each_first, InBounds, rank, tuples-rank, length-tuples, get_elem?-append_left,
  get_elem?-append_right,
}
use event_queue.Transforms.Parallel.{
  each_index, get_permutation, Instance, ParallelLoop, clone_body, clone_each, Signal, done,
  control_and, join_signals, lower_parallel, collect_ranges, collect_ivs, bind_ivs,
}

take-front : (xs ys : List ℕ) (n : ℕ) → n ≡ length xs → take n (xs ++ ys) ≡ xs
take-front [] ys zero e = refl
take-front [] ys (suc n) e = absurd (omega arith)
take-front (x ∷ xs) ys zero e = absurd (omega arith)
take-front (x ∷ xs) ys (suc n) e = ap (λ (s : List ℕ). x ∷ s) (take-front xs ys n (omega arith))

pop_back : (line : List ℕ) (j : ℕ) → take (length (line ++ j ∷ []) - 1) (line ++ j ∷ []) ≡ line
pop_back line j =
    take-front line (j ∷ []) (length (line ++ j ∷ []) - 1)
      (omega (arith, length-append line (j ∷ [])))

map-append : (f : List ℕ → List ℕ) (xs ys : List (List ℕ)) → map f (xs ++ ys) ≡ map f xs ++ map f ys
map-append f [] ys = refl
map-append f (x ∷ xs) ys = ap (λ (s : List (List ℕ)). f x ∷ s) (map-append f xs ys)

map-first :
    (line : List ℕ) (j : ℕ) (ts : List (List ℕ))
    → map (λ (t : List ℕ). (line ++ j ∷ []) ++ t) ts
      ≡ map (λ (t : List ℕ). line ++ t) (map (λ (t : List ℕ). j ∷ t) ts)
map-first line j [] = refl
map-first line j (t ∷ ts) = simp (map-first line j ts, append_assoc)

each_index-eq :
    (rest : List ℕ → List (List ℕ)) (ts : List (List ℕ))
    → ((line : List ℕ) → rest line ≡ map (λ (t : List ℕ). line ++ t) ts)
    → (n j : ℕ) (line : List ℕ)
    → each_index rest n j line ≡ map (λ (t : List ℕ). line ++ t) (each_first n j ts)
each_index-eq rest ts h zero j line = refl
each_index-eq rest ts h (suc n) j line = rw (pop_back line j) (
    rw (h (line ++ j ∷ []), map-first line j ts, each_index-eq rest ts h n (suc j) line)
      (sym (
        map-append (λ (t : List ℕ). line ++ t) (map (λ (t : List ℕ). j ∷ t) ts)
          (each_first n (suc j) ts))))

get_permutation-map :
    (ubs line : List ℕ) → get_permutation ubs line ≡ map (λ (t : List ℕ). line ++ t) (tuples ubs)
unfolding get_permutation tuples
get_permutation-map [] line = ap (λ (s : List ℕ). s ∷ []) (sym (append-nil line))
get_permutation-map (u ∷ ubs) line =
    each_index-eq (get_permutation ubs) (tuples ubs) (get_permutation-map ubs) u 0 line

map-same : (ts : List (List ℕ)) → map (λ (t : List ℕ). [] ++ t) ts ≡ ts
map-same [] = refl
map-same (t ∷ ts) = ap (λ (s : List (List ℕ)). t ∷ s) (map-same ts)

-- The tuples are those of all indices below the bounds, in lexicographic order.
pub get_permutation-tuples : (ubs : List ℕ) → get_permutation ubs [] ≡ tuples ubs
get_permutation-tuples ubs = get_permutation-map ubs [] ∙ map-same (tuples ubs)

module _ (fresh : List ℕ → ℕ → Option ℕ) (ivs : List ℕ) where
  -- The clone of an operation.
  abbrev pub instance_of : List ℕ → ℕ → Instance
  instance_of bounds o = record { op = o; bounds = bind_ivs ivs bounds; signal = fresh bounds o }

  length-clone_body : (bounds ops : List ℕ) → length (clone_body fresh ivs bounds ops) ≡ length ops
  length-clone_body bounds [] = refl
  length-clone_body bounds (o ∷ ops) = omega (arith, length-clone_body bounds ops)

  length-clone_each :
      (ops : List ℕ) (ts : List (List ℕ))
      → length (clone_each fresh ivs ops ts) ≡ length ts * length ops
  length-clone_each ops [] = omega arith
  length-clone_each ops (t ∷ ts) = grind (
    arith,
    length-clone_each ops ts,
    length-clone_body t ops,
    length-append (clone_body fresh ivs t ops) (clone_each fresh ivs ops ts),
  )

  get_elem?-clone_body :
      (bounds ops : List ℕ) (k o : ℕ)
      → get_elem? ops k ≡ some o
      → get_elem? (clone_body fresh ivs bounds ops) k ≡ some (instance_of bounds o)
  get_elem?-clone_body bounds [] k o e = cc
  get_elem?-clone_body bounds (p ∷ ops) zero o e =
      ap (λ (q : ℕ). some (instance_of bounds q)) (some_injective e)
  get_elem?-clone_body bounds (p ∷ ops) (suc k) o e = get_elem?-clone_body bounds ops k o e

  get_elem?-clone_each :
      (ops : List ℕ) (ts : List (List ℕ)) (i k o : ℕ) (t : List ℕ)
      → get_elem? ts i ≡ some t
      → get_elem? ops k ≡ some o
      → get_elem? (clone_each fresh ivs ops ts) (i * length ops + k) ≡ some (instance_of t o)
  get_elem?-clone_each ops [] i k o t et eo = cc
  get_elem?-clone_each ops (s ∷ ts) zero k o t et eo =
      let at : 0 * length ops + k ≡ k = omega arith in
      ap (get_elem? (clone_each fresh ivs ops (s ∷ ts))) at
      ∙ get_elem?-append_left (clone_body fresh ivs s ops) (clone_each fresh ivs ops ts) k
          (instance_of s o) (get_elem?-clone_body s ops k o eo)
      ∙ ap (λ (b : List ℕ). some (instance_of b o)) (some_injective et)
  get_elem?-clone_each ops (s ∷ ts) (suc i) k o t et eo =
      let at : suc i * length ops + k ≡ length (clone_body fresh ivs s ops) + (i * length ops + k) =
        grind (arith, length-clone_body s ops) in
      ap (get_elem? (clone_each fresh ivs ops (s ∷ ts))) at
      ∙ get_elem?-append_right (clone_body fresh ivs s ops) (clone_each fresh ivs ops ts)
          (i * length ops + k)
      ∙ get_elem?-clone_each ops ts i k o t et eo

-- The body has one copy for each tuple of indices below the ranges of the loops, and no other: the
-- copies stand behind the other operations of the block, those of a tuple together and in the order
-- of the body, and the tuples in lexicographic order, with the loops' variables bound to them.
pub lower_parallel-copies :
    (fresh : List ℕ → ℕ → Option ℕ) (loops : List ParallelLoop) (body : List ℕ)
    (before behind : List Instance) (t : List ℕ) (k o : ℕ)
    → InBounds t (collect_ranges loops)
    → get_elem? body k ≡ some o
    → (get_elem?
          (lower_parallel fresh loops body before behind).operations
          (length (before ++ behind) + (rank t (collect_ranges loops) * length body + k))
        ≡ some (instance_of fresh (collect_ivs loops) t o))
      × (length (lower_parallel fresh loops body before behind).operations
          ≡ length (before ++ behind) + product (collect_ranges loops) * length body)
unfolding lower_parallel
lower_parallel-copies fresh loops body before behind t k o h e =
    let ubs = collect_ranges loops in
    let ivs = collect_ivs loops in
    rw (get_permutation-tuples ubs) (
      get_elem?-append_right (before ++ behind) (clone_each fresh ivs body (tuples ubs))
            (rank t ubs * length body + k)
          ∙ get_elem?-clone_each fresh ivs body (tuples ubs) (rank t ubs) k o t
              (tuples-rank ubs t h) e,
      length-append (before ++ behind) (clone_each fresh ivs body (tuples ubs))
          ∙ ap (λ (n : ℕ). length (before ++ behind) + n)
              (length-clone_each fresh ivs body (tuples ubs)
                ∙ ap (λ (n : ℕ). n * length body) (length-tuples ubs)),
    )

-- Whether a signal is done, by those of the operations.
abbrev pub is_fired : (ℕ → Bool) → Signal → Bool
is_fired v (done s) = v s
is_fired v (control_and a b) = is_fired v a && is_fired v b

abbrev pub signal_done : (ℕ → Bool) → Option ℕ → Bool
signal_done v none = true
signal_done v (some s) = v s

abbrev pub all_done : (ℕ → Bool) → List Instance → Bool
all_done v [] = true
all_done v (o ∷ ops) = signal_done v o.signal && all_done v ops

-- What an optional signal says; no signal is done.
abbrev pub awaits : (ℕ → Bool) → Option Signal → Bool
awaits v none = true
awaits v (some s) = is_fired v s

join_signals-done :
    (v : ℕ → Bool) (prev : Option Signal) (ops : List Instance)
    → awaits v (join_signals prev ops) ≡ (awaits v prev && all_done v ops)
unfolding join_signals
join_signals-done v none [] = refl
join_signals-done v (some s) [] = ground arith
join_signals-done v none (o ∷ ops) = elim (Option-cases o.signal) [
  | inl e ↦ ground (arith, join_signals-done v none ops)
  | inr (s, e) ↦ ground (arith, join_signals-done v (some (done s)) ops)
]
join_signals-done v (some s) (o ∷ ops) = elim (Option-cases o.signal) [
  | inl e ↦ ground (arith, join_signals-done v (some s) ops)
  | inr (s', e) ↦ ground (arith, join_signals-done v (some (control_and s (done s'))) ops)
]

-- The wait behind the pass: the awaited signal is done exactly when those of all launches and copies of
-- the block are, also of those that do not come from the nest. Without a signal there is none to wait
-- for, which MLIR refuses.
pub lower_parallel-awaits :
    (fresh : List ℕ → ℕ → Option ℕ) (loops : List ParallelLoop) (body : List ℕ)
    (before behind : List Instance) (v : ℕ → Bool)
    → awaits v (lower_parallel fresh loops body before behind).awaited
      ≡ all_done v (lower_parallel fresh loops body before behind).operations
unfolding lower_parallel
lower_parallel-awaits fresh loops body before behind v =
    join_signals-done v none (lower_parallel fresh loops body before behind).operations
