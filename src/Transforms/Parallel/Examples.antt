-- ===== src/Transforms/Parallel/Examples.antt =====
-- A nest of two loops around a launch and an operation without a signal.
use event_queue.Common.{
  ℕ, ◌≡◌, refl, List, [], ◌∷◌, none, some, Option, arith, length, get_elem?, ◌+◌, ◌*◌, false, ◌==◌,
  if◌then◌else◌,
}
use event_queue.Transforms.Parallel.{
  Instance, ParallelLoop, lower_parallel, collect_ranges, collect_ivs, get_permutation,
}
use event_queue.Transforms.Parallel.Copies.{
  lower_parallel-copies, lower_parallel-awaits, awaits, all_done,
}

abbrev fresh : List ℕ → ℕ → Option ℕ
fresh (a ∷ b ∷ []) o = if o == 1 then some (100 + a * 10 + b) else none
fresh _ o = none

abbrev nest : List ParallelLoop
nest = record { ranges = 2 ∷ []; ivs = 50 ∷ [] } ∷ record { ranges = 3 ∷ []; ivs = 51 ∷ [] } ∷ []

abbrev other_op : Instance
other_op = record { op = 9; bounds = []; signal = some 7 }

-- The tuples of two sizes.
two_sizes :
    get_permutation (2 ∷ 2 ∷ []) [] ≡ (0 ∷ 0 ∷ []) ∷ (0 ∷ 1 ∷ []) ∷ (1 ∷ 0 ∷ []) ∷ (1 ∷ 1 ∷ []) ∷ []
unfolding get_permutation
two_sizes = refl

-- The copy of the first operation at the indices 1 and 2 is the eleventh.
lower_parallel-copies_example :
    (get_elem?
        (lower_parallel fresh nest (1 ∷ 2 ∷ []) (other_op ∷ []) []).operations
        (1 + (5 * 2 + 0))
      ≡ some (record { op = 1; bounds = (50, 1) ∷ (51, 2) ∷ []; signal = some 112 }))
    × (length (lower_parallel fresh nest (1 ∷ 2 ∷ []) (other_op ∷ []) []).operations ≡ 1 + 6 * 2)
unfolding collect_ranges collect_ivs
lower_parallel-copies_example =
    lower_parallel-copies fresh nest (1 ∷ 2 ∷ []) (other_op ∷ []) [] (1 ∷ 2 ∷ []) 0 1 (omega arith)
      refl

lower_parallel-awaits_example :
    awaits (λ s. false) (lower_parallel fresh nest (1 ∷ 2 ∷ []) (other_op ∷ []) []).awaited
    ≡ all_done (λ s. false) (lower_parallel fresh nest (1 ∷ 2 ∷ []) (other_op ∷ []) []).operations
lower_parallel-awaits_example =
    lower_parallel-awaits fresh nest (1 ∷ 2 ∷ []) (other_op ∷ []) [] (λ s. false)
