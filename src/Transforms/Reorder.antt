-- ===== src/Transforms/Reorder.antt =====
-- lib/Transforms/LoopReorder.cpp: loops of constant bounds, from the outermost one on, in a new order.
-- `none` is an index out of range, or the use of a placeholder that is erased already.
pub mod Bounds
mod Examples
use event_queue.Common.{
  ℕ, zero, suc, ◌≡◌, Bool, true, false, not, ◌&&◌, Option, none, some, List, [], ◌∷◌, ◌>>=◌, ◌>>◌,
  check, ◌==◌, get_elem?, if◌then◌else◌,
}

pub record AffineLoop : Type 0 where
  pub lower : ℕ
  pub upper : ℕ
  pub step : ℕ

-- The bounds of the loops that `orders` names, in that order.
unfoldable pub pick_bounds : List AffineLoop → List ℕ → Option (List AffineLoop)
pick_bounds loops [] = some []
pick_bounds loops (order ∷ orders) = do
  l ← get_elem? loops order
  ls ← pick_bounds loops orders
  some (l ∷ ls)

-- The loops get the bounds one after the other, and keep their steps.
unfoldable pub set_bounds : List AffineLoop → List AffineLoop → Option (List AffineLoop)
set_bounds loops [] = some loops
set_bounds [] (b ∷ bs) = none
set_bounds (l ∷ loops) (b ∷ bs) = do
  rest ← set_bounds loops bs
  some (record l { lower = b.lower; upper = b.upper } ∷ rest)

abbrev pub is_in : ℕ → List ℕ → Bool
is_in k [] = false
is_in k (j ∷ js) = if k == j then true else is_in k js

-- Each placeholder is replaced and erased once.
abbrev pub all_distinct : List ℕ → Bool
all_distinct [] = true
all_distinct (k ∷ ks) = not (is_in k ks) && all_distinct ks

-- Where the uses of the loops' variables go: `k` replaces the placeholder of the loop `orders[k]`,
-- for each `k` of the list.
unfoldable pub replace_uses : List ℕ → List ℕ → Option (List (ℕ × ℕ))
replace_uses orders [] = some []
replace_uses orders (k ∷ ks) = do
  loop ← get_elem? orders k
  rest ← replace_uses orders ks
  some ((loop, k) ∷ rest)

-- The pass: the loops behind it, and which loop's variable each loop's uses have become.
unfoldable pub reorder : List AffineLoop → List ℕ → Option (List AffineLoop × List (ℕ × ℕ))
unfolding pick_bounds set_bounds replace_uses
reorder loops orders = do
  bounds ← pick_bounds loops orders
  nest ← set_bounds loops bounds
  check (all_distinct orders)
  uses ← replace_uses orders orders
  some (nest, uses)
