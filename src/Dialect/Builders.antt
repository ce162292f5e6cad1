-- ===== src/Dialect/Builders.antt =====
-- lib/EQueue/EQueueOps.cpp: the `build` functions. `none` is a cast that fails.
use event_queue.Common.{ℕ, zero, suc, Option, none, some, List, [], ◌∷◌, map, ◌>>=◌}
use event_queue.Names.{Name, name_attr}
use event_queue.Dialect.State.{
  ValueType, i32, f32, signal, mem_ref, tensor, integer, tensor_attr, string, OperationState,
  add_operands, add_attribute, add_types, add_region,
}

unfoldable pub build_create_dma : OperationState → OperationState
build_create_dma s = add_types (i32 ∷ []) s

unfoldable pub build_create_mem : List ℕ → ℕ → Name → ℕ → OperationState → OperationState
build_create_mem shape data_bit type banks s = add_types (i32 ∷ []) (
    add_attribute "banks" (integer banks) (
      add_attribute "type" (string type) (
        add_attribute "data_bit" (integer data_bit) (add_attribute "shape" (tensor_attr shape) s))))

unfoldable pub build_create_proc : Name → OperationState → OperationState
build_create_proc type s = add_types (i32 ∷ []) (add_attribute "type" (string type) s)

unfoldable pub build_connection : Name → ℕ → OperationState → OperationState
build_connection type bandwidth s =
    add_types (i32 ∷ [])
      (add_attribute "bandwidth" (integer bandwidth) (add_attribute "type" (string type) s))

unfoldable pub build_create_comp : List Name → List ℕ → OperationState → OperationState
unfolding name_attr
build_create_comp names comps s =
    add_types (i32 ∷ []) (add_attribute "names" (string (name_attr names)) (add_operands comps s))

unfoldable pub build_add_comp : ℕ → List Name → List ℕ → OperationState → OperationState
unfolding name_attr
build_add_comp comp names comps s =
    add_attribute "names" (string (name_attr names))
      (add_operands comps (add_operands (comp ∷ []) s))

unfoldable pub build_get_comp : ℕ → Name → OperationState → OperationState
build_get_comp comp name s =
    add_types (i32 ∷ []) (add_attribute "name" (string name) (add_operands (comp ∷ []) s))

-- The overload with the type of the result.
unfoldable pub build_get_comp_typed : ℕ → Name → ValueType → OperationState → OperationState
build_get_comp_typed comp name res_type s =
    add_types (res_type ∷ []) (add_attribute "name" (string name) (add_operands (comp ∷ []) s))

-- The element type is `f32`, whatever the type of the data.
unfoldable pub build_mem_alloc : ℕ → List ℕ → ℕ → ValueType → OperationState → OperationState
build_mem_alloc mem shape data_bit tensor_data_type s = add_types (mem_ref shape f32 ∷ []) (
    add_attribute "data_bit" (integer data_bit)
      (add_attribute "shape" (tensor_attr shape) (add_operands (mem ∷ []) s)))

unfoldable pub build_mem_dealloc : List ℕ → OperationState → OperationState
build_mem_dealloc buffers s = add_operands buffers s

-- The operand `connection` is left out if it is `Value()`, and the attribute if the size is empty.
abbrev pub add_connection : ℕ → OperationState → OperationState
add_connection zero s = s
add_connection (suc c) s = add_operands (suc c ∷ []) s

abbrev pub add_size : List ℕ → OperationState → OperationState
add_size [] s = s
add_size (n ∷ size) s = add_attribute "size" (tensor_attr (n ∷ size)) s

unfoldable pub build_mem_write : ℕ → ℕ → ℕ → List ℕ → ℕ → OperationState → OperationState
build_mem_write value buffer connection size bank s = add_attribute "bank" (integer bank) (
    add_size size
      (add_connection connection (add_operands (buffer ∷ []) (add_operands (value ∷ []) s))))

-- The overloads without a connection, and without a size.
unfoldable pub build_mem_write_sized : ℕ → ℕ → List ℕ → ℕ → OperationState → OperationState
build_mem_write_sized value buffer size bank s =
    add_attribute "bank" (integer bank)
      (add_size size (add_operands (buffer ∷ []) (add_operands (value ∷ []) s)))

unfoldable pub build_mem_write_whole : ℕ → ℕ → ℕ → OperationState → OperationState
build_mem_write_whole value buffer bank s =
    add_attribute "bank" (integer bank) (add_operands (buffer ∷ []) (add_operands (value ∷ []) s))

-- The type of what is read with a size from a buffer of the given type.
abbrev pub read_type : List ℕ → ValueType → Option ValueType
read_type (suc zero ∷ []) (mem_ref shape element) = some element
read_type (n ∷ size) (mem_ref shape element) = some (tensor shape element)
read_type [] (mem_ref shape element) = some (tensor [] element)
read_type size _ = none

abbrev pub whole_type : ValueType → Option ValueType
whole_type (mem_ref shape element) = some (tensor shape element)
whole_type _ = none

module _ (type_of : ℕ → ValueType) where
  unfoldable pub build_mem_read : ℕ → ℕ → List ℕ → ℕ → OperationState → Option OperationState
  build_mem_read buffer connection size bank s = do
    t ← read_type size (type_of buffer)
    some (
        add_types (t ∷ []) (
          add_attribute "bank" (integer bank)
            (add_size size (add_connection connection (add_operands (buffer ∷ []) s)))))

  unfoldable pub build_mem_read_sized : ℕ → List ℕ → ℕ → OperationState → Option OperationState
  build_mem_read_sized buffer size bank s = do
    t ← read_type size (type_of buffer)
    some (
        add_types (t ∷ [])
          (add_attribute "bank" (integer bank) (add_size size (add_operands (buffer ∷ []) s))))

  unfoldable pub build_mem_read_whole : ℕ → ℕ → OperationState → Option OperationState
  build_mem_read_whole buffer bank s = do
    t ← whole_type (type_of buffer)
    some (add_types (t ∷ []) (add_attribute "bank" (integer bank) (add_operands (buffer ∷ []) s)))

  -- The body builder is given the arguments of the block and says which values it returns.
  unfoldable pub build_launch : ℕ → ℕ → List ℕ → List ℕ → OperationState → OperationState
  build_launch start device operands returned s = add_types (map type_of returned) (
      add_types (signal ∷ []) (
        add_region (record { arguments = map type_of operands })
          (add_operands operands (add_operands (device ∷ []) (add_operands (start ∷ []) s)))))

unfoldable pub build_unkown_specification : ℕ → ℕ → ℕ → OperationState → OperationState
build_unkown_specification input_bit output_bit cycle s = add_types (i32 ∷ []) (
    add_attribute "cycle" (integer cycle) (
      add_attribute "output_bit" (integer output_bit)
        (add_attribute "input_bit" (integer input_bit) s)))

unfoldable pub build_unkown : Name → List ℕ → ValueType → OperationState → OperationState
build_unkown op_name inputs res_type s =
    add_types (res_type ∷ []) (add_operands inputs (add_attribute "op_name" (string op_name) s))

unfoldable pub build_mem_copy : ℕ → ℕ → ℕ → ℕ → ℕ → List ℕ → ℕ → ℕ → OperationState → OperationState
build_mem_copy start src dest dma connection size src_bank dest_bank s = add_types (signal ∷ []) (
    add_attribute "dest_bank" (integer dest_bank) (
      add_attribute "src_bank" (integer src_bank) (
        add_size size (
          add_connection connection (
            add_operands (dma ∷ []) (
              add_operands (dest ∷ []) (add_operands (src ∷ []) (add_operands (start ∷ []) s))))))))

unfoldable pub build_mem_copy_sized :
    ℕ → ℕ → ℕ → ℕ → List ℕ → ℕ → ℕ → OperationState → OperationState
build_mem_copy_sized start src dest dma size src_bank dest_bank s = add_types (signal ∷ []) (
    add_attribute "dest_bank" (integer dest_bank) (
      add_attribute "src_bank" (integer src_bank) (
        add_size size (
          add_operands (dma ∷ [])
            (add_operands (dest ∷ []) (add_operands (src ∷ []) (add_operands (start ∷ []) s)))))))

unfoldable pub build_mem_copy_whole : ℕ → ℕ → ℕ → ℕ → ℕ → ℕ → OperationState → OperationState
build_mem_copy_whole start src dest dma src_bank dest_bank s = add_types (signal ∷ []) (
    add_attribute "dest_bank" (integer dest_bank) (
      add_attribute "src_bank" (integer src_bank) (
        add_operands (dma ∷ [])
          (add_operands (dest ∷ []) (add_operands (src ∷ []) (add_operands (start ∷ []) s))))))

unfoldable pub build_control_start : OperationState → OperationState
build_control_start s = add_types (signal ∷ []) s

unfoldable pub build_control_and : List ℕ → OperationState → OperationState
build_control_and signals s = add_types (signal ∷ []) (add_operands signals s)

unfoldable pub build_control_or : List ℕ → OperationState → OperationState
build_control_or signals s = add_types (signal ∷ []) (add_operands signals s)

unfoldable pub build_await : List ℕ → OperationState → OperationState
build_await signals s = add_operands signals s
