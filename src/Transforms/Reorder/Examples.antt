-- ===== src/Transforms/Reorder/Examples.antt =====
-- Three loops, of which the outermost one goes inside.
use event_queue.Common.{ℕ, ◌≡◌, refl, some, List, [], ◌∷◌}
use event_queue.Transforms.Reorder.{AffineLoop, pick_bounds, set_bounds, replace_uses, reorder}
use event_queue.Transforms.Reorder.Bounds.{AllRangeAlike, reorder-RangeAlike}

abbrev a_loop : ℕ → ℕ → ℕ → AffineLoop
a_loop l u s = record { lower = l; upper = u; step = s }

abbrev three : List AffineLoop
three = a_loop 0 4 1 ∷ a_loop 1 5 1 ∷ a_loop 2 8 2 ∷ []

-- The steps stay where they are.
abbrev turned : List AffineLoop
turned = a_loop 1 5 1 ∷ a_loop 2 8 1 ∷ a_loop 0 4 2 ∷ []

program : Unit {0}
unfolding pick_bounds set_bounds replace_uses reorder
program = tt

reorder-three : reorder three (1 ∷ 2 ∷ 0 ∷ []) ≡ some (turned, (2, 1) ∷ (0, 2) ∷ (1, 0) ∷ [])
unfolding program
reorder-three = refl

reorder-RangeAlike_example : AllRangeAlike three turned ((2, 1) ∷ (0, 2) ∷ (1, 0) ∷ [])
unfolding program
reorder-RangeAlike_example =
    reorder-RangeAlike three turned (1 ∷ 2 ∷ 0 ∷ []) ((2, 1) ∷ (0, 2) ∷ (1, 0) ∷ []) refl
