-- ===== src/Transforms/Merging.antt =====
-- lib/Transforms/MergeLoop.cpp and lib/Transforms/ModifyLoop.cpp: upper bounds of loops are set. The loops
-- have constant bounds that are not above them below; `none` is an index out of range.
pub mod Trips
pub mod Total
mod Examples
use event_queue.Common.{ℕ, zero, suc, ◌-◌, ◌*◌, Option, none, some, List, [], ◌∷◌, get_elem?, ◌>>=◌}
use event_queue.Memory.{ceil_div}
use event_queue.Transforms.Reorder.{AffineLoop}

-- `setConstantUpperBound` at one of the loops.
abbrev pub set_upper : ℕ → ℕ → List AffineLoop → Option (List AffineLoop)
set_upper i u [] = none
set_upper zero u (l ∷ loops) = some (record l { upper = u } ∷ loops)
set_upper (suc i) u (l ∷ loops) = do rest ← set_upper i u loops; some (l ∷ rest)

abbrev pub trip_count : AffineLoop → ℕ
trip_count l = ceil_div (l.upper - l.lower) l.step

-- MergeLoop: each loop runs once, and `bound` counts the runs that all had.
unfoldable pub collapse : List AffineLoop → List ℕ → ℕ → Option (List AffineLoop × ℕ)
collapse loops [] bound = some (loops, bound)
collapse loops (i ∷ indices) bound = do
  l ← get_elem? loops i
  loops' ← set_upper i 1 loops
  collapse loops' indices (bound * trip_count l)

-- The first loop has all the runs.
unfoldable pub merge_loops : List AffineLoop → List ℕ → Option (List AffineLoop)
unfolding collapse
merge_loops loops [] = none
merge_loops loops (i ∷ indices) = do
  (loops', bound) ← collapse loops (i ∷ indices) 1
  set_upper i bound loops'

-- ModifyLoop.
unfoldable pub modify_loops : List AffineLoop → List ℕ → List ℕ → Option (List AffineLoop)
modify_loops loops [] values = some loops
modify_loops loops (i ∷ indices) [] = none
modify_loops loops (i ∷ indices) (v ∷ values) = do
  loops' ← set_upper i v loops
  modify_loops loops' indices values
