-- ===== src/Program.antt =====
-- The MLIR program that is simulated, as far as lib/EQueue/CommandProcessor.cpp looks at it:
-- operations, blocks and values are numbers, which stand for the source's pointers. MLIR itself is
-- a library that the repository only uses. The accessors follow the classes that
-- include/EQueue/EQueueOps.td declares.
use Prim.Native.String.{String}
use event_queue.Common.{
  ℕ, zero, suc, ◌-◌, ◌/◌, Bool, true, false, Option, none, some, List, [], ◌∷◌, u64, u64_mod, leb,
  ◌==◌, if◌then◌else◌, product, min,
}
use event_queue.Memory.{ceil_div}

-- The kinds of operation that the simulator tells apart. Constants are not negative. The `size` of
-- an access is absent when the attribute is.
pub data Kind : Type 0 where
  constant : ℕ → Kind
  create_mem : (shape : List ℕ) (data_bit : ℕ) (type : String) (banks : ℕ) → Kind
  create_dma create_proc : Kind
  connection : (bandwidth : ℕ) → Kind
  create_comp add_comp : (names : List String) → Kind
  get_comp : (name : String) → Kind
  unknown_spec : Kind
  mem_alloc : (shape : List ℕ) (data_bit : ℕ) → Kind
  mem_dealloc : Kind
  mem_read mem_write : (size : Option (List ℕ)) (bank : ℕ) → Kind
  mem_copy : (size : Option (List ℕ)) (src_bank dest_bank : ℕ) → Kind
  launch return_op await : Kind
  control_start control_and control_or : Kind
  scf_for scf_yield : Kind
  generic : (inputs outputs : ℕ) → Kind
  reshape sub_view splat extract_element linalg_yield func_return : Kind
  unknown : (op_name : String) → Kind
  other : (name : String) → Kind

pub record Operation : Type 0 where
  pub kind : Kind
  pub operands : List ℕ
  pub results : List ℕ
  pub parent : ℕ
  pub body : ℕ

pub record Block : Type 0 where
  pub operations : List ℕ
  pub arguments : List ℕ
  pub parent_op : ℕ

-- `definer` is `getDefiningOp`, and `is_signal` says that a value's type is `!equeue.signal`.
pub record Program : Type 0 where
  pub operation : ℕ → Operation
  pub block : ℕ → Block
  pub definer : ℕ → Option ℕ
  pub is_signal : ℕ → Bool

-- `Value()`, which a map gives for a key that it lacks.
abbrev pub null_value : ℕ
null_value = 0

abbrev pub operand : List ℕ → ℕ → ℕ
operand [] i = null_value
operand (v ∷ vs) zero = v
operand (v ∷ vs) (suc i) = operand vs i

abbrev pub drop_front : List ℕ → List ℕ
drop_front [] = []
drop_front (v ∷ vs) = vs

-- The traits `ControlOpTrait`, `AsyncOpTrait` and `StructureOpTrait`.
unfoldable pub is_control : Kind → Bool
is_control control_start = true
is_control control_and = true
is_control control_or = true
is_control _ = false

unfoldable pub is_async : Kind → Bool
is_async launch = true
is_async (mem_copy _ _ _) = true
is_async control_start = true
is_async control_and = true
is_async control_or = true
is_async _ = false

unfoldable pub is_structure : Kind → Bool
is_structure (create_mem _ _ _ _) = true
is_structure create_dma = true
is_structure create_proc = true
is_structure (connection _) = true
is_structure (create_comp _) = true
is_structure (add_comp _) = true
is_structure (get_comp _) = true
is_structure unknown_spec = true
is_structure _ = false

-- Lines and bits of an access to a buffer of the given shape and width.
abbrev pub access_lines : Option (List ℕ) → List ℕ → ℕ
access_lines none shape = product shape
access_lines (some size) shape = product size

abbrev pub copy_lines : Option (List ℕ) → List ℕ → List ℕ → ℕ
copy_lines none src dest = min (product dest) (product src)
copy_lines (some size) src dest = product size

module _ (p : Program) where
  -- The operation whose region holds the operation.
  abbrev pub parent_op : ℕ → ℕ
  parent_op op = (p.block (p.operation op).parent).parent_op

  abbrev constant_of : Kind → Option ℕ
  constant_of (constant n) = some n
  constant_of _ = none

  abbrev pub defined_constant : Option ℕ → Option ℕ
  defined_constant none = none
  defined_constant (some op) = constant_of (p.operation op).kind

  -- `getConstant`; `none` is its `llvm_unreachable`.
  unfoldable pub get_constant : ℕ → Option ℕ
  get_constant v = defined_constant (p.definer v)

  -- `ceil((float)(ub - lb) / (float)step)` as a word; `none` for a step of 0.
  abbrev pub trips : ℕ → ℕ → ℕ → Option ℕ
  trips lb ub step =
      if step == 0
      then none
      else some (if leb lb ub then ceil_div (ub - lb) step else u64 (u64_mod - (lb - ub) / step))

  abbrev pub trips_of : Option ℕ → Option ℕ → Option ℕ → Option ℕ
  trips_of (some lb) (some ub) (some step) = trips lb ub step
  trips_of _ _ _ = none

  -- `getExTimes`: how often the body of a `for` operation runs.
  unfoldable pub get_ex_times : ℕ → Option ℕ
  get_ex_times op =
      let args = (p.operation op).operands in
      trips_of (get_constant (operand args 0)) (get_constant (operand args 1))
        (get_constant (operand args 2))
