-- ===== src/Dialect/RoundTrip.antt =====
-- The accessors read back what the builders have put together.
use event_queue.Common.{
  ℕ, zero, suc, ◌≡◌, ◌≢◌, refl, ap, map, some, List, [], ◌∷◌, product, arith, min, All,
}
use event_queue.Names.{Name}
use event_queue.Names.RoundTrip.{IsWord, name_attr_read_back}
use event_queue.Dialect.State.{
  ValueType, signal, mem_ref, tensor, OperationState, empty_state, add_types, add_attribute,
  add_operands, integer,
}
use event_queue.Dialect.Builders.{
  build_mem_read, build_mem_write, build_mem_copy, build_create_comp, build_launch, read_type,
  add_size, add_connection,
}
use event_queue.Dialect.Accessors.{
  read_buffer, read_connection, write_buffer, write_connection, get_bank, get_dlines, copy_src,
  copy_dest, copy_dma, copy_connection, get_src_bank, get_dest_bank, copy_dlines, get_comp_names,
  start_signal, device_handler, get_names, launch_operands,
}

-- The lines of an access with a size, or, without one, of the whole buffer.
abbrev pub lines_of : List ℕ → List ℕ → ℕ
lines_of [] shape = product shape
lines_of (n ∷ size) shape = product (n ∷ size)

-- A write of the buffer over the connection, if it is not null, of the size, if it is not empty, and
-- on the bank, as the accessors read it.
abbrev pub IsWrite : ℕ → ℕ → List ℕ → ℕ → OperationState → Type 0
IsWrite buffer connection size bank s =
    (write_buffer s ≡ some buffer)
    × (write_connection s ≡ connection)
    × (get_bank s ≡ some bank)
    × ((shape : List ℕ) → get_dlines shape s ≡ some (lines_of size shape))

-- `MemWriteOp::build`: the accessors read back the buffer, the connection, the bank and the lines.
pub build_mem_write-IsWrite :
    (value buffer connection : ℕ) (size : List ℕ) (bank : ℕ)
    → IsWrite buffer connection size bank
        (build_mem_write value buffer connection size bank empty_state)
unfolding build_mem_write write_buffer write_connection get_bank get_dlines
build_mem_write-IsWrite value buffer zero [] bank = (refl, refl, refl, λ shape. refl)
build_mem_write-IsWrite value buffer zero (n ∷ size) bank = (refl, refl, refl, λ shape. refl)
build_mem_write-IsWrite value buffer (suc c) [] bank = (refl, refl, refl, λ shape. refl)
build_mem_write-IsWrite value buffer (suc c) (n ∷ size) bank = (refl, refl, refl, λ shape. refl)

abbrev pub IsRead : ℕ → ℕ → List ℕ → ℕ → OperationState → Type 0
IsRead buffer connection size bank s =
    (read_buffer s ≡ some buffer)
    × (read_connection s ≡ connection)
    × (get_bank s ≡ some bank)
    × ((shape : List ℕ) → get_dlines shape s ≡ some (lines_of size shape))

read_type_total :
    (size shape : List ℕ) (element : ValueType)
    → (t : ValueType) × (read_type size (mem_ref shape element) ≡ some t)
read_type_total [] shape element = (tensor [] element, refl)
read_type_total (zero ∷ size) shape element = (tensor shape element, refl)
read_type_total (suc zero ∷ []) shape element = (element, refl)
read_type_total (suc zero ∷ n ∷ size) shape element = (tensor shape element, refl)
read_type_total (suc (suc k) ∷ size) shape element = (tensor shape element, refl)

-- The operation that a read becomes, whatever the type of its result.
abbrev read_of : ℕ → ℕ → List ℕ → ℕ → ValueType → OperationState
read_of buffer connection size bank t = add_types (t ∷ []) (
    add_attribute "bank" (integer bank)
      (add_size size (add_connection connection (add_operands (buffer ∷ []) empty_state))))

read_of-IsRead :
    (buffer connection : ℕ) (size : List ℕ) (bank : ℕ) (t : ValueType)
    → IsRead buffer connection size bank (read_of buffer connection size bank t)
unfolding read_buffer read_connection get_bank get_dlines
read_of-IsRead buffer zero [] bank t = (refl, refl, refl, λ shape. refl)
read_of-IsRead buffer zero (n ∷ size) bank t = (refl, refl, refl, λ shape. refl)
read_of-IsRead buffer (suc c) [] bank t = (refl, refl, refl, λ shape. refl)
read_of-IsRead buffer (suc c) (n ∷ size) bank t = (refl, refl, refl, λ shape. refl)

-- `MemReadOp::build` on a buffer whose type is a `memref`: it gives an operation, from which the
-- accessors read back the buffer, the connection, the bank and the lines.
pub build_mem_read-IsRead :
    (type_of : ℕ → ValueType) (buffer connection : ℕ) (size : List ℕ) (bank : ℕ) (shape : List ℕ)
    (element : ValueType)
    → type_of buffer ≡ mem_ref shape element
    → (s : OperationState) × (build_mem_read type_of buffer connection size bank empty_state
        ≡ some s)
      × IsRead buffer connection size bank s
unfolding build_mem_read
build_mem_read-IsRead type_of buffer connection size bank shape element e =
    let (t, et) = read_type_total size shape element in
    (
      read_of buffer connection size bank t,
      rw (e, build_mem_read) (rw et),
      read_of-IsRead buffer connection size bank t,
    )

abbrev pub copied_lines : List ℕ → List ℕ → List ℕ → ℕ
copied_lines [] src dest = min (product dest) (product src)
copied_lines (n ∷ size) src dest = product (n ∷ size)

-- A copy between two buffers, as the accessors of `MemCopyOp` read it.
abbrev pub IsCopy : ℕ → ℕ → ℕ → ℕ → List ℕ → ℕ → ℕ → OperationState → Type 0
IsCopy src dest dma connection size src_bank dest_bank s =
    (copy_src s ≡ some src)
    × (copy_dest s ≡ some dest)
    × (copy_dma s ≡ some dma)
    × (copy_connection s ≡ connection)
    × (get_src_bank s ≡ some src_bank)
    × (get_dest_bank s ≡ some dest_bank)
    × ((a b : List ℕ) → copy_dlines a b s ≡ some (copied_lines size a b))

-- `MemCopyOp::build`: the accessors read back the buffers, the DMA engine, the connection, the banks
-- and the lines.
pub build_mem_copy-IsCopy :
    (start src dest dma connection : ℕ) (size : List ℕ) (src_bank dest_bank : ℕ)
    → IsCopy src dest dma connection size src_bank dest_bank
        (build_mem_copy start src dest dma connection size src_bank dest_bank empty_state)
unfolding build_mem_copy copy_src copy_dest copy_dma copy_connection get_src_bank get_dest_bank
    copy_dlines
build_mem_copy-IsCopy start src dest dma zero [] a b =
    (refl, refl, refl, refl, refl, refl, λ s d. refl)
build_mem_copy-IsCopy start src dest dma zero (n ∷ size) a b =
    (refl, refl, refl, refl, refl, refl, λ s d. refl)
build_mem_copy-IsCopy start src dest dma (suc c) [] a b =
    (refl, refl, refl, refl, refl, refl, λ s d. refl)
build_mem_copy-IsCopy start src dest dma (suc c) (n ∷ size) a b =
    (refl, refl, refl, refl, refl, refl, λ s d. refl)

-- How many numbers a value of a type holds.
abbrev pub volume_of : ValueType → ℕ
volume_of (tensor shape element) = product shape
volume_of _ = 1

read_of-types :
    (buffer connection : ℕ) (size : List ℕ) (bank : ℕ) (t : ValueType)
    → (read_of buffer connection size bank t).types ≡ t ∷ []
read_of-types buffer zero [] bank t = refl
read_of-types buffer zero (n ∷ size) bank t = refl
read_of-types buffer (suc c) [] bank t = refl
read_of-types buffer (suc c) (n ∷ size) bank t = refl

-- A read of a whole buffer: its result has the type of a tensor without dimensions, so that it holds
-- one number, and the lines that `getDlines` counts are those of the buffer. For a buffer of any other
-- number of lines the two differ.
pub build_mem_read_volume :
    (type_of : ℕ → ValueType) (buffer connection bank : ℕ) (shape : List ℕ) (element : ValueType)
    → type_of buffer ≡ mem_ref shape element
    → product shape ≢ 1
    → (s : OperationState) × (t : ValueType) × (build_mem_read type_of buffer connection [] bank
          empty_state
        ≡ some s)
      × (s.types ≡ t ∷ [])
      × (get_dlines shape s ≡ some (product shape))
      × (volume_of t ≢ product shape)
unfolding build_mem_read
build_mem_read_volume type_of buffer connection bank shape element e ne = (
  read_of buffer connection [] bank (tensor [] element),
  tensor [] element,
  rw (e, build_mem_read),
  read_of-types buffer connection [] bank (tensor [] element),
  (read_of-IsRead buffer connection [] bank (tensor [] element)).3 shape,
  λ p. ne (omega arith),
)

-- The names that `CreateCompOp::build` is given are those that `getCompStrList` reads, if none is empty
-- or has white space, and its operands are the components.
pub build_create_comp-names :
    (names : List Name) (comps : List ℕ)
    → All IsWord names
    → (get_comp_names (build_create_comp names comps empty_state) ≡ some names)
      × ((build_create_comp names comps empty_state).operands ≡ comps)
unfolding build_create_comp get_comp_names get_names
build_create_comp-names names comps h =
    (ap (λ (ns : List Name). some ns) (name_attr_read_back names h).1, refl)

-- A launch on a device with the operands, as the accessors of `LaunchOp` read it, with the types of its
-- results and of its block's arguments.
abbrev pub IsLaunch : ℕ → ℕ → List ℕ → List ValueType → List ValueType → OperationState → Type 0
IsLaunch start device operands results arguments s =
    (start_signal s ≡ some start)
    × (device_handler s ≡ some device)
    × (launch_operands s ≡ operands)
    × (s.types ≡ results)
    × (s.regions ≡ record { arguments = arguments } ∷ [])

-- `LaunchOp::build`: the signal, the device and the operands are read back, the block has an argument of
-- the type of each operand, and the results are a signal and one of the type of each returned value.
pub build_launch-IsLaunch :
    (type_of : ℕ → ValueType) (start device : ℕ) (operands returned : List ℕ)
    → IsLaunch start device operands
        (signal ∷ map type_of returned)
        (map type_of operands)
        (build_launch type_of start device operands returned empty_state)
unfolding build_launch start_signal device_handler launch_operands
build_launch-IsLaunch type_of start device operands returned = (refl, refl, refl, refl, refl)
