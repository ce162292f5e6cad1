-- ===== src/Transforms/Merging/Examples.antt =====
-- Three loops, of which the first and the last become one.
use event_queue.Common.{ℕ, ◌≡◌, refl, some, none, List, [], ◌∷◌, arith}
use event_queue.Transforms.Reorder.{AffineLoop}
use event_queue.Transforms.Merging.{merge_loops, collapse, modify_loops}
use event_queue.Transforms.Merging.Trips.{all_trips}
use event_queue.Transforms.Merging.Total.{merge_loops_keeps}

abbrev up_to : ℕ → ℕ → AffineLoop
up_to n step = record { lower = 0; upper = n; step = step }

abbrev sample : List AffineLoop
sample = up_to 4 1 ∷ up_to 5 1 ∷ up_to 7 3 ∷ []

merge_loops-sample :
    merge_loops sample (0 ∷ 2 ∷ []) ≡ some (up_to 12 1 ∷ up_to 5 1 ∷ up_to 1 3 ∷ [])
unfolding merge_loops collapse
merge_loops-sample = refl

-- The merged loop has step 3: it runs 4 times in place of 12.
merge_loops_stepped :
    merge_loops sample (2 ∷ 0 ∷ []) ≡ some (up_to 1 1 ∷ up_to 5 1 ∷ up_to 12 3 ∷ [])
unfolding merge_loops collapse
merge_loops_stepped = refl

merge_loops_nothing : merge_loops sample [] ≡ none
unfolding merge_loops
merge_loops_nothing = refl

modify_loops-sample :
    modify_loops sample (1 ∷ []) (2 ∷ []) ≡ some (up_to 4 1 ∷ up_to 2 1 ∷ up_to 7 3 ∷ [])
unfolding modify_loops
modify_loops-sample = refl

merge_loops_keeps_example :
    (loops' : List AffineLoop) × (merge_loops sample (0 ∷ 2 ∷ []) ≡ some loops')
    × (all_trips loops' ≡ all_trips sample)
merge_loops_keeps_example =
    merge_loops_keeps sample 0 (2 ∷ []) (up_to 4 1)
      ((refl, omega arith), ((refl, omega arith), ((refl, omega arith), tt)))
      (omega arith, (omega arith, tt)) refl refl
