-- ===== src/Transforms/Parallel.antt =====
-- lib/Transforms/ParallelToEQueue.cpp: a nest of parallel loops around launches and copies becomes a
-- copy of its body for each tuple of indices, and waits for all of their signals. `none` is the null
-- value, which MLIR refuses as an operand.
pub mod Copies
mod Examples
use event_queue.Common.{
  ℕ, zero, suc, ◌-◌, Option, none, some, List, [], ◌∷◌, ◌++◌, length, take, Bool, true, false,
  ◌>>=◌,
}

-- `getPermutation`: the loop over `j`; what is pushed is popped again behind the call.
abbrev pub each_index : (List ℕ → List (List ℕ)) → ℕ → ℕ → List ℕ → List (List ℕ)
each_index rest zero j line_ivs = []
each_index rest (suc n) j line_ivs =
    let line = line_ivs ++ j ∷ [] in
    rest line ++ each_index rest n (suc j) (take (length line - 1) line)

unfoldable pub get_permutation : List ℕ → List ℕ → List (List ℕ)
get_permutation [] line_ivs = line_ivs ∷ []
get_permutation (u ∷ ubs) line_ivs = each_index (get_permutation ubs) u 0 line_ivs

-- An operation with the constants that stand for the variables of the loops, and its signal, if it is
-- a launch or a copy.
pub record Instance : Type 0 where
  pub op : ℕ
  pub bounds : List (ℕ × ℕ)
  pub signal : Option ℕ

-- A loop of the nest: the ranges and the variables of its dimensions.
pub record ParallelLoop : Type 0 where
  pub ranges : List ℕ
  pub ivs : List ℕ

-- The loops from the innermost one outwards.
unfoldable pub collect_ranges : List ParallelLoop → List ℕ
collect_ranges [] = []
collect_ranges (l ∷ loops) = l.ranges ++ collect_ranges loops

unfoldable pub collect_ivs : List ParallelLoop → List ℕ
collect_ivs [] = []
collect_ivs (l ∷ loops) = l.ivs ++ collect_ivs loops

-- `map.map(ivs[i], c)` for each bound.
abbrev pub bind_ivs : List ℕ → List ℕ → List (ℕ × ℕ)
bind_ivs (v ∷ ivs) (b ∷ bounds) = (v, b) ∷ bind_ivs ivs bounds
bind_ivs _ _ = []

-- The clone of the body at some bounds. `fresh` names the signal that the clone of an operation has.
abbrev pub clone_body : (List ℕ → ℕ → Option ℕ) → List ℕ → List ℕ → List ℕ → List Instance
clone_body fresh ivs bounds [] = []
clone_body fresh ivs bounds (o ∷ ops) =
    record { op = o; bounds = bind_ivs ivs bounds; signal = fresh bounds o }
    ∷ clone_body fresh ivs bounds ops

abbrev pub clone_each : (List ℕ → ℕ → Option ℕ) → List ℕ → List ℕ → List (List ℕ) → List Instance
clone_each fresh ivs ops [] = []
clone_each fresh ivs ops (bounds ∷ rest) =
    clone_body fresh ivs bounds ops ++ clone_each fresh ivs ops rest

-- A signal of an operation, or of a `control_and` of two.
pub data Signal : Type 0 where
  done : ℕ → Signal
  control_and : Signal → Signal → Signal

-- The loop over the operations of the block, with the signal so far.
unfoldable pub join_signals : Option Signal → List Instance → Option Signal
join_signals prev [] = prev
join_signals none (o ∷ ops) = elim o.signal [
  | none ↦ join_signals none ops
  | some s ↦ join_signals (some (done s)) ops
]
join_signals (some prev) (o ∷ ops) = elim o.signal [
  | none ↦ join_signals (some prev) ops
  | some s ↦ join_signals (some (control_and prev (done s))) ops
]

-- The block behind the pass: what stands before and behind the nest, the copies of the body, and, in
-- front of the terminator, the wait for the signal.
pub record Lowered : Type 0 where
  pub operations : List Instance
  pub awaited : Option Signal

-- The pass on one nest, whose operation stands between `before` and `behind` in its block.
unfoldable pub lower_parallel :
    (List ℕ → ℕ → Option ℕ) → List ParallelLoop → List ℕ → List Instance → List Instance → Lowered
unfolding get_permutation collect_ranges collect_ivs join_signals
lower_parallel fresh loops body before behind =
    let copies =
      clone_each fresh (collect_ivs loops) body (get_permutation (collect_ranges loops) []) in
    let operations = (before ++ behind) ++ copies in
    record { operations = operations; awaited = join_signals none operations }
