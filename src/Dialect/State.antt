-- ===== src/Dialect/State.antt =====
-- An operation that is being built or has been built: MLIR's `OperationState`, as far as the builders
-- and parsers of lib/EQueue/EQueueOps.cpp fill it and the accessors of include/EQueue/EQueueOps.td read
-- it. Values are numbers, and 0 is `Value()`.
use Prim.Native.String.{String}
use text.Mathlib.Text.{◌==◌ as str_eq}
use event_queue.Common.{ℕ, Option, none, some, List, [], ◌∷◌, ◌++◌, get_elem?, if◌then◌else◌}
use event_queue.Names.{Name}

-- The types of values that the dialect makes. `builtin` stands for MLIR's other types.
pub data ValueType : Type 0 where
  i32 f32 signal : ValueType
  mem_ref tensor : (shape : List ℕ) (element : ValueType) → ValueType
  container : (value container_type : ValueType) → ValueType
  builtin : ℕ → ValueType

-- An `int64_t` is a word; an array is a list of attributes of its own kind.
pub data Attr : Type 0 where
  integer : ℕ → Attr
  tensor_attr : List ℕ → Attr
  string : Name → Attr
  array : List (Option ℕ) → Attr

-- A region with one block: the types of its arguments.
pub record Body : Type 0 where
  pub arguments : List ValueType

pub record OperationState : Type 0 where
  pub operands : List ℕ
  pub attributes : List (String × Attr)
  pub types : List ValueType
  pub regions : List Body

abbrev pub empty_state : OperationState
empty_state = record { operands = []; attributes = []; types = []; regions = [] }

abbrev pub add_operands : List ℕ → OperationState → OperationState
add_operands vs s = record s { operands = s.operands ++ vs }

abbrev pub add_attribute : String → Attr → OperationState → OperationState
add_attribute name a s = record s { attributes = s.attributes ++ (name, a) ∷ [] }

abbrev pub add_types : List ValueType → OperationState → OperationState
add_types ts s = record s { types = s.types ++ ts }

abbrev pub add_region : Body → OperationState → OperationState
add_region b s = record s { regions = s.regions ++ b ∷ [] }

abbrev pub find_attr : String → List (String × Attr) → Option Attr
find_attr name [] = none
find_attr name ((n, a) ∷ attrs) = if str_eq n name then some a else find_attr name attrs

-- `getAttr`.
abbrev pub get_attr : String → OperationState → Option Attr
get_attr name s = find_attr name s.attributes

-- `cast` of an attribute that may be missing; `none` where it is missing or of another class.
abbrev pub as_integer : Option Attr → Option ℕ
as_integer (some (integer n)) = some n
as_integer _ = none

abbrev pub as_tensor : Option Attr → Option (List ℕ)
as_tensor (some (tensor_attr ns)) = some ns
as_tensor _ = none

abbrev pub as_string : Option Attr → Option Name
as_string (some (string t)) = some t
as_string _ = none

abbrev pub get_operand : ℕ → OperationState → Option ℕ
get_operand i s = get_elem? s.operands i
