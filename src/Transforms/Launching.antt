-- ===== src/Transforms/Launching.antt =====
-- lib/Transforms/SplitLaunch.cpp and lib/Transforms/StructureMatching.cpp: a range of operations of a
-- block becomes the body of a new launch, which returns the values that are used outside. A value and
-- an operation are numbers. `none` is an iterator past the end, or an option that is missing.
pub mod Scopes
pub mod Users
pub mod Moves
pub mod Passes
pub mod Order
pub mod Dangling
mod Examples
use event_queue.Common.{
  ℕ, zero, suc, ◌+◌, min, Bool, true, false, not, ◌&&◌, Option, none, some, List, [], ◌∷◌, ◌++◌,
  length, get_elem?, ◌==◌, if◌then◌else◌, ◌>>=◌,
}
use event_queue.Transforms.Reorder.{is_in}

-- The operations of a block: each with what stands behind it. `arguments` and `body` are those of its
-- regions.
pub data Ops : Type 0 where
  end : Ops
  op : (id : ℕ) (operands arguments : List ℕ) (body : Ops) (results : List ℕ) (rest : Ops) → Ops

abbrev pub append : Ops → Ops → Ops
append end later = later
append (op id vs args body rs rest) later = op id vs args body rs (append rest later)

abbrev pub user_here : ℕ → ℕ → List ℕ → List ℕ
user_here v id vs = if is_in v vs then id ∷ [] else []

-- `getUsers`, which finds the users inside of regions too.
unfoldable pub users : ℕ → Ops → List ℕ
users v end = []
users v (op id vs args body rs rest) = user_here v id vs ++ users v body ++ users v rest

-- The operations of the range, without those inside of their regions.
abbrev pub members : Ops → List ℕ
members end = []
members (op id vs args body rs rest) = id ∷ members rest

-- The values that the operations of the range define.
abbrev pub values : Ops → List ℕ
values end = []
values (op id vs args body rs rest) = rs ++ values rest

abbrev pub all_in : List ℕ → List ℕ → Bool
all_in [] ys = true
all_in (x ∷ xs) ys = is_in x ys && all_in xs ys

abbrev pub keep_live : Ops → List ℕ → List ℕ → List ℕ
keep_live whole range [] = []
keep_live whole range (v ∷ vs) =
    let live = keep_live whole range vs in if all_in (users v whole) range then live else v ∷ live

-- The values that not only operations of the range use. `whole` is the range and what stands behind
-- it: a value is used only behind its definition.
unfoldable pub live_outs : Ops → Ops → List ℕ
live_outs whole range = keep_live whole (members range) (values range)

-- `replaceUsesWithIf`, where it replaces.
abbrev pub replace_operands : ℕ → ℕ → List ℕ → List ℕ
replace_operands v w [] = []
replace_operands v w (x ∷ xs) = (if x == v then w else x) ∷ replace_operands v w xs

abbrev pub replace : ℕ → ℕ → Ops → Ops
replace v w end = end
replace v w (op id vs args body rs rest) =
    op id (replace_operands v w vs) args (replace v w body) rs (replace v w rest)

-- In the launch itself only the operands of the operations inside of regions are replaced, since their
-- blocks are other ones than the launch's.
abbrev pub replace_inside : ℕ → ℕ → Ops → Ops
replace_inside v w end = end
replace_inside v w (op id vs args body rs rest) =
    op id vs args (replace v w body) rs (replace_inside v w rest)

-- Each value is replaced by the next of the launch's results.
abbrev pub replace_each : (ℕ → ℕ → Ops → Ops) → List ℕ → ℕ → Ops → Ops
replace_each replaced [] w ops = ops
replace_each replaced (v ∷ vs) w ops = replace_each replaced vs (w + 1) (replaced v w ops)

abbrev pub count_from : ℕ → ℕ → List ℕ
count_from w zero = []
count_from w (suc n) = w ∷ count_from (w + 1) n

-- The start operation, its signal, and the launch with its results. The new operations and their values
-- are numbered from `fresh` on; `results` is what the launch returns.
unfoldable pub launch_range : ℕ → ℕ → List ℕ → Ops → Ops → Ops
launch_range fresh proc results range later =
    let body =
      append (replace_each replace_inside results (fresh + 2) range)
        (op (fresh + 2) results [] end [] end) in
    let pe_res = (fresh + 1) ∷ count_from (fresh + 2) (length results) in
    op fresh [] [] end (fresh ∷ []) (op (fresh + 1) (fresh ∷ proc ∷ []) [] body pe_res later)

-- The first `n` operations and the others: the iterator after `n` steps.
abbrev pub split_at : ℕ → Ops → Option (Ops × Ops)
split_at zero ops = some (end, ops)
split_at (suc n) end = none
split_at (suc n) (op id vs args body rs rest) = do
  (first, others) ← split_at n rest
  some (op id vs args body rs first, others)

abbrev pub is_end : Ops → Bool
is_end end = true
is_end (op id vs args body rs rest) = false

-- The operations in front of the terminator, and the terminator.
abbrev pub split_last : Ops → Option (Ops × Ops)
split_last end = none
split_last (op id vs args body rs rest) =
    let behind = split_last rest in
    if is_end rest
    then some (end, op id vs args body rs rest)
    else do (first, terminator) ← behind; some (op id vs args body rs first, terminator)

-- SplitLaunch: the operations of the launch at which it is split, those behind them.
unfoldable pub split_point : List ℕ → ℕ → Ops → Option (Ops × Ops)
split_point [] i body = split_last body
split_point (a ∷ ats) i body = do n ← get_elem? (a ∷ ats) i; split_at n body

-- SplitLaunch at one launch, with what stands behind it: the new launch is in front of it.
unfoldable pub split_launch : ℕ → List ℕ → ℕ → Ops → Option Ops
unfolding live_outs launch_range split_point
split_launch fresh at i end = none
split_launch fresh at i (op id vs args body rs rest) = do
  (range, others) ← split_point at i body
  proc ← get_elem? vs 1
  let results = live_outs (append range others) range
  let others' = replace_each replace results (fresh + 2) others
  some (launch_range fresh proc results range (op id vs args others' rs rest))

-- StructureMatching: what is in front of the range, the range, and what is behind.
unfoldable pub match_range : List ℕ → List ℕ → ℕ → Ops → Option (Ops × Ops × Ops)
match_range [] tos i block = do
  (range, terminator) ← split_last block
  some (end, range, terminator)
match_range (f ∷ froms) tos i block = do
  to ← get_elem? tos i
  from ← get_elem? (f ∷ froms) i
  (first, others) ← split_at to block
  (before, range) ← split_at (min from to) first
  some (before, range, others)

-- StructureMatching at one region. `field` is what getField puts there, and `proc` the value that it
-- returns.
unfoldable pub match_structure : ℕ → List ℕ → List ℕ → ℕ → Ops → ℕ → Ops → Option Ops
unfolding live_outs launch_range match_range
match_structure fresh froms tos i field proc block = do
  (before, range, others) ← match_range froms tos i block
  let results = live_outs (append range others) range
  let others' = replace_each replace results (fresh + 2) others
  some (append before (append field (launch_range fresh proc results range others')))
