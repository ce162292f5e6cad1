-- ===== src/Runner/Build.antt =====
-- lib/EQueue/CommandProcessor.cpp: `Runner::walkRegions` and `Runner::buildExMap`: how often each
-- block of the program runs.
pub mod Runs
mod Examples
use event_queue.Common.{
  ℕ, zero, suc, ◌*◌, ◌≡◌, Bool, true, false, Option, none, some, List, [], ◌∷◌, u64, update, ◌>>=◌,
  if◌then◌else◌,
}
use event_queue.Program.{Program, Kind, launch, scf_for, generic, get_ex_times}

-- The operations that have a region; each has one region, of one block.
unfoldable pub has_region : Kind → Bool
has_region launch = true
has_region scf_for = true
has_region (generic _ _) = true
has_region _ = false

-- `DenseMap::insert`: a key that is there keeps its value.
abbrev pub insert_if_new : (ℕ → Option ℕ) → ℕ → ℕ → ℕ → Option ℕ
insert_if_new m k v = elim (m k) [ none ↦ update m k (some v) | some _ ↦ m ]

abbrev pub times_outer : Option ℕ → ℕ → ℕ
times_outer none n = n
times_outer (some outer) n = u64 (outer * n)

module _ (p : Program) where
  module _ {ℓ} {S : Type ℓ} (func1 func2 : S → ℕ → Option S) where
    -- The loop over the operations of a block; `walk` is for the blocks inside of them.
    unfoldable pub walk_operations : (S → ℕ → Option S) → S → List ℕ → Option S
    unfolding has_region
    walk_operations walk s [] = some s
    walk_operations walk s (op ∷ ops) = do
      s1 ← if has_region (p.operation op).kind then walk s (p.operation op).body else some s
      s2 ← func2 s1 op
      walk_operations walk s2 ops

    -- `walkRegions` on a block. The fuel bounds how deep regions are nested.
    unfoldable pub walk_regions : ℕ → S → ℕ → Option S
    unfolding walk_operations
    walk_regions zero s b = none
    walk_regions (suc depth) s b = do
      s' ← func1 s b
      walk_operations (walk_regions depth) s' (p.block b).operations

  -- The runs of a block for each run of the block around it.
  abbrev pub ex_times_of : ℕ → Kind → Option ℕ
  ex_times_of pop scf_for = get_ex_times p pop
  ex_times_of pop k = some 1

  abbrev pub ex_times : ℕ → Option ℕ
  ex_times b = let pop = (p.block b).parent_op in ex_times_of pop (p.operation pop).kind

  -- The block around a block.
  abbrev pub around : ℕ → ℕ
  around b = (p.operation (p.block b).parent_op).parent

  abbrev pub count_block : (ℕ → Option ℕ) → ℕ → Option (ℕ → Option ℕ)
  count_block block_exs b = do
    n ← ex_times b
    some (insert_if_new block_exs b (times_outer (block_exs (around b)) n))

  abbrev pub skip_operation : (ℕ → Option ℕ) → ℕ → Option (ℕ → Option ℕ)
  skip_operation block_exs op = some block_exs

  unfoldable pub build_ex_map : ℕ → ℕ → Option (ℕ → Option ℕ)
  unfolding walk_regions
  build_ex_map depth top = walk_regions count_block skip_operation depth (λ b. none) top
