-- ===== src/Transforms/Copying.antt =====
-- lib/Transforms/MemCopyToLaunch.cpp and lib/Transforms/MergeMemCopyLaunch.cpp: a memcpy becomes a launch
-- of its own, or a part of a launch that is there. A value is a number. `none` is an operation that is
-- erased while its result is used, or the definer of a block argument.
pub mod Effects
mod Examples
use event_queue.Common.{
  ℕ, Bool, true, false, not, ◌&&◌, Option, none, some, List, [], ◌∷◌, ◌++◌, ◌==◌, if◌then◌else◌,
  ◌>>=◌, ◌>>◌, check,
}
use event_queue.Names.{is_empty}

-- `done_users` are the users of its signal.
pub record MemCopy : Type 0 where
  pub start : ℕ
  pub src_buffer : ℕ
  pub dest_buffer : ℕ
  pub dma : ℕ
  pub size : List ℕ
  pub done_users : List ℕ

-- Reads and writes; one of the whole buffer has no size.
pub data Access : Type 0 where
  read : (result buffer : ℕ) (size : List ℕ) → Access
  write : (value buffer : ℕ) (size : List ℕ) → Access

pub record CopyLaunch : Type 0 where
  pub signal : ℕ
  pub device : ℕ
  pub operands : List ℕ
  pub body : List Access

-- The pass at one memcpy.
unfoldable pub copy_to_launch : ℕ → MemCopy → Option CopyLaunch
copy_to_launch fresh c = do
  let body = read fresh c.src_buffer c.size ∷ write fresh c.src_buffer c.size ∷ []
  check (is_empty c.done_users)
  some (record {
    signal = c.start;
    device = c.dma;
    operands = c.src_buffer ∷ c.dest_buffer ∷ [];
    body = body;
  })

-- `getReadOp`: the values that stand for the buffer and are not it, in the order of the map. `reads`
-- has the results of the reads of a value in the launch, in the order in which MLIR lists users.
unfoldable pub get_read_op : List (ℕ × ℕ) → (ℕ → Bool) → (ℕ → List ℕ) → ℕ → Option (Option ℕ)
get_read_op [] is_argument reads id = some none
get_read_op ((k, v) ∷ value_ids) is_argument reads id =
    let onward = get_read_op value_ids is_argument reads id in
    if v == id && not (v == k)
    then if is_argument k then none else elim (reads k) [ [] ↦ onward | r ∷ _ ↦ some (some r) ]
    else onward

-- The launch's body without its terminator, with the value that is read already or a new one.
abbrev pub merged_body : ℕ → MemCopy → List Access → Option ℕ → List Access
merged_body fresh c body (some tensor) = body ++ write tensor c.src_buffer c.size ∷ []
merged_body fresh c body none =
    read fresh c.src_buffer c.size ∷ (body ++ write fresh c.src_buffer c.size ∷ [])

-- The pass at one memcpy and one launch; `stands_for` is what the map has for a value.
unfoldable pub merge_launch :
    ℕ
    → List (ℕ × ℕ)
    → (ℕ → Bool)
    → (ℕ → List ℕ)
    → (ℕ → ℕ)
    → MemCopy
    → List Access
    → Option (List Access)
unfolding get_read_op
merge_launch fresh value_ids is_argument reads stands_for c body = do
  found ← get_read_op value_ids is_argument reads (stands_for c.src_buffer)
  check (is_empty c.done_users)
  some (merged_body fresh c body found)
