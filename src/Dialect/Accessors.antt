-- ===== src/Dialect/Accessors.antt =====
-- include/EQueue/EQueueOps.td: the accessors of the operations' classes. `none` is a missing operand, or
-- a cast of an attribute that is missing or of another class.
use event_queue.Common.{ℕ, Option, none, some, List, drop, product, ◌>>=◌, min}
use event_queue.Names.{Name, get_comp_str_list}
use event_queue.Dialect.State.{
  OperationState, Attr, get_attr, as_integer, as_tensor, as_string, get_operand,
}

-- `CreateMemOp` and `MemAllocOp`.
unfoldable pub get_shape : OperationState → Option (List ℕ)
get_shape s = as_tensor (get_attr "shape" s)

unfoldable pub get_data_bit : OperationState → Option ℕ
get_data_bit s = as_integer (get_attr "data_bit" s)

unfoldable pub get_mem_type : OperationState → Option Name
get_mem_type s = as_string (get_attr "type" s)

abbrev pub integer_or : ℕ → Option Attr → Option ℕ
integer_or n none = some n
integer_or n (some a) = as_integer (some a)

unfoldable pub get_mem_bank : OperationState → Option ℕ
get_mem_bank s = integer_or 1 (get_attr "banks" s)

unfoldable pub get_bandwidth : OperationState → Option ℕ
get_bandwidth s = as_integer (get_attr "bandwidth" s)

-- `getNames` and `getCompStrList` of `CreateCompOp` and `AddCompOp`.
unfoldable pub get_names : OperationState → Option Name
get_names s = as_string (get_attr "names" s)

unfoldable pub get_comp_names : OperationState → Option (List Name)
unfolding get_names get_comp_str_list
get_comp_names s = do names ← get_names s; some (get_comp_str_list names)

-- The operand `i` if there is one, and `Value()` otherwise.
abbrev pub operand_or_null : ℕ → OperationState → ℕ
operand_or_null i s = elim (get_operand i s) [ none ↦ 0 | some v ↦ v ]

-- `MemReadOp`.
unfoldable pub read_buffer : OperationState → Option ℕ
read_buffer s = get_operand 0 s

unfoldable pub read_connection : OperationState → ℕ
read_connection s = operand_or_null 1 s

-- `MemWriteOp`.
unfoldable pub write_buffer : OperationState → Option ℕ
write_buffer s = get_operand 1 s

unfoldable pub write_connection : OperationState → ℕ
write_connection s = operand_or_null 2 s

unfoldable pub get_bank : OperationState → Option ℕ
get_bank s = integer_or 0 (get_attr "bank" s)

-- The attribute `size`, if there is one.
abbrev pub size_or : List ℕ → Option Attr → Option (List ℕ)
size_or shape none = some shape
size_or shape (some a) = as_tensor (some a)

-- `getDlines` of `MemReadOp` and `MemWriteOp`; the allocation has the given shape.
unfoldable pub get_dlines : List ℕ → OperationState → Option ℕ
get_dlines shape s = do size ← size_or shape (get_attr "size" s); some (product size)

-- `MemCopyOp`.
unfoldable pub copy_src : OperationState → Option ℕ
copy_src s = get_operand 1 s

unfoldable pub copy_dest : OperationState → Option ℕ
copy_dest s = get_operand 2 s

unfoldable pub copy_dma : OperationState → Option ℕ
copy_dma s = get_operand 3 s

unfoldable pub copy_connection : OperationState → ℕ
copy_connection s = operand_or_null 4 s

unfoldable pub get_src_bank : OperationState → Option ℕ
get_src_bank s = integer_or 0 (get_attr "src_bank" s)

unfoldable pub get_dest_bank : OperationState → Option ℕ
get_dest_bank s = integer_or 0 (get_attr "dest_bank" s)

abbrev pub copy_lines_of : List ℕ → List ℕ → Option Attr → Option ℕ
copy_lines_of src dest none = some (min (product dest) (product src))
copy_lines_of src dest (some a) = do size ← as_tensor (some a); some (product size)

-- `getDlines` of `MemCopyOp`; the two allocations have the given shapes.
unfoldable pub copy_dlines : List ℕ → List ℕ → OperationState → Option ℕ
copy_dlines src dest s = copy_lines_of src dest (get_attr "size" s)

-- `LaunchOp`.
unfoldable pub start_signal : OperationState → Option ℕ
start_signal s = get_operand 0 s

unfoldable pub device_handler : OperationState → Option ℕ
device_handler s = get_operand 1 s

unfoldable pub launch_operands : OperationState → List ℕ
launch_operands s = drop 2 s.operands
