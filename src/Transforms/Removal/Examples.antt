-- ===== src/Transforms/Removal/Examples.antt =====
-- A loop of one turn beside a nest whose inner loop has one turn once the outer one is replaced.
use event_queue.Common.{◌+◌, ◌≡◌, refl, none, some, [], ◌∷◌, arith}
use event_queue.Transforms.Removal.{
  known, mapped, variable, constant_index, Ops, end, op, affine_for, walk, stop, replace_all_uses,
  remove_loops,
}
use event_queue.Transforms.Removal.Meaning.{trace, Env}
use event_queue.Transforms.Removal.Keeps.{walk-KeepsTrace, walk-empty_loop}
use event_queue.Transforms.Removal.Rounds.{walk-Ends, Ends}

abbrev inner : Ops
inner =
    affine_for (mapped (variable 1) (λ n. n)) (mapped (variable 1) (λ n. n + 2)) 2 2
      (op 7 (variable 1 ∷ variable 2 ∷ []) end) end

abbrev sample : Ops
sample = affine_for (known 3) (known 4) 1 1 inner (op 8 [] end)

abbrev lowered : Ops
lowered = op 7 (constant_index 3 ∷ constant_index 3 ∷ []) (op 8 [] end)

abbrev zeros : Env
zeros v = 0

sample-walk : walk 2 sample ≡ some (lowered, stop)
unfolding walk
sample-walk = refl

walk-KeepsTrace_example : trace zeros lowered ≡ trace zeros sample
walk-KeepsTrace_example =
    walk-KeepsTrace 2 sample ((λ e. absurd (omega arith), tt, tt), (tt, tt, tt), tt) lowered stop
      zeros sample-walk (omega arith, (λ i. (omega arith, (λ j. tt), tt)), tt)

walk-Ends_example : Ends (walk 2 sample)
walk-Ends_example = walk-Ends 2 sample (omega arith)

walk-empty_loop_example :
    (trace zeros (affine_for (known 5) (known 5) 1 1 (op 7 (variable 1 ∷ []) end) end) ≡ [])
    × (walk 1 (affine_for (known 5) (known 5) 1 1 (op 7 (variable 1 ∷ []) end) end)
        ≡ some (replace_all_uses 1 5 (op 7 (variable 1 ∷ []) end), stop))
    × (trace zeros (replace_all_uses 1 5 (op 7 (variable 1 ∷ []) end))
        ≡ record { id = 7; values = 5 ∷ [] } ∷ [])
walk-empty_loop_example = walk-empty_loop 0 5 5 1 1 7 (variable 1 ∷ []) zeros (omega arith)

-- Two loops of one turn and one that stays: the second one is looked at again after it is erased.
abbrev three : Ops
three =
    affine_for (known 0) (known 1) 1 1 end
      (affine_for (known 0) (known 1) 1 2 end (affine_for (known 0) (known 9) 1 3 end end))

looked_at_again : remove_loops 3 (three ∷ []) ≡ none
unfolding remove_loops
looked_at_again = refl

abbrev second_loop : Ops
second_loop = affine_for (known 0) (known 1) 1 5 (op 7 [] end) end

-- In two launches: the pass ends with the first one.
second_launch :
    remove_loops 3 (affine_for (known 0) (known 1) 1 1 end end ∷ second_loop ∷ [])
    ≡ some (end ∷ second_loop ∷ [])
unfolding remove_loops
second_launch = refl
