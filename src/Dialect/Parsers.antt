-- ===== src/Dialect/Parsers.antt =====
-- lib/EQueue/EQueueOps.cpp: the `parse` functions. MLIR's parser is a library: a record of its methods,
-- each from a position in the text to what it reads and the position behind it, or to a failure.
use event_queue.Common.{
  ℕ, zero, suc, ◌<◌, ◌≤◌, ◌≡◌, Option, none, some, List, [], ◌∷◌, ◌++◌, length, true, false, ◌>>=◌,
  ◌>>◌, check, ◌==◌,
}
use event_queue.Names.{Name, is_empty}
use event_queue.Dialect.State.{
  ValueType, i32, signal, Attr, tensor_attr, array, string, Body, OperationState, empty_state,
  add_operands, add_attribute, add_types, add_region,
}

-- An operand is named before it is resolved to a value. `parseOptionalRegionArgument` succeeds and gives
-- no name where the text has none. `left` measures the text that is left: an argument takes none of it or
-- some, and a comma takes some.
pub record OpAsmParser : Type 1 where
  pub Position : Type 0
  pub left : Position → ℕ
  pub parse_keyword : Position → Option (Name × Position)
  pub parse_given_keyword : Name → Position → Option Position
  pub parse_comma : Position → Option Position
  pub parse_optional_comma : Position → Option Position
  pub parse_colon : Position → Option Position
  pub parse_equal : Position → Option Position
  pub parse_l_paren : Position → Option Position
  pub parse_r_paren : Position → Option Position
  pub parse_attribute : Position → Option (Attr × Position)
  pub parse_operand : Position → Option (Name × Position)
  pub parse_operand_list : Position → Option (List Name × Position)
  pub parse_type : Position → Option (ValueType × Position)
  pub parse_colon_type_list : Position → Option (List ValueType × Position)
  pub parse_optional_colon_type_list : Position → Option (List ValueType × Position)
  pub parse_optional_region_argument : Position → Option (Option Name × Position)
  pub parse_region : List Name → List ValueType → Position → Option (Body × Position)
  pub resolve_operand : Name → ValueType → Option ℕ
  pub resolve_operands : List Name → List ValueType → Option (List ℕ)
  pub argument_moves :
      (at : Position) (arg : Option Name) (to : Position)
      → parse_optional_region_argument at ≡ some (arg, to)
      → left to ≤ left at
  pub comma_moves : (at to : Position) → parse_optional_comma at ≡ some to → left to < left at

-- The `int64_t` numbers of an array attribute.
abbrev pub integers_of : List (Option ℕ) → Option (List ℕ)
integers_of [] = some []
integers_of (none ∷ extents) = none
integers_of (some n ∷ extents) = do ints ← integers_of extents; some (n ∷ ints)

abbrev pub extents_of : Attr → Option (List ℕ)
extents_of (array extents) = integers_of extents
extents_of _ = none

module _ (p : OpAsmParser) where
  open p use {
    Position, left, parse_keyword, parse_given_keyword, parse_comma, parse_optional_comma,
    parse_colon, parse_equal, parse_l_paren, parse_r_paren, parse_attribute, parse_operand,
    parse_operand_list, parse_type, parse_colon_type_list, parse_optional_colon_type_list,
    parse_optional_region_argument, parse_region, resolve_operand, resolve_operands,
  }

  unfoldable pub parse_create_mem : Position → Option (OperationState × Position)
  parse_create_mem at = do
    (extents_raw, at) ← parse_attribute at
    at ← parse_comma at
    (data_word, at) ← parse_keyword at
    at ← parse_comma at
    (type, at) ← parse_keyword at
    at ← parse_comma at
    (banks, at) ← parse_attribute at
    ints ← extents_of extents_raw
    some (
      add_types (i32 ∷ []) (
          add_attribute "type" (string type) (
            add_attribute "data" (string data_word) (
              add_attribute "shape" (tensor_attr ints) (add_attribute "banks" banks empty_state)))),
      at,
    )

  unfoldable pub parse_create_proc : Position → Option (OperationState × Position)
  parse_create_proc at = do
    (type, at) ← parse_keyword at
    some (add_types (i32 ∷ []) (add_attribute "type" (string type) empty_state), at)

  unfoldable pub parse_mem_alloc : Position → Option (OperationState × Position)
  parse_mem_alloc at = do
    (mem, at) ← parse_operand at
    at ← parse_comma at
    v ← resolve_operand mem i32
    (extents_raw, at) ← parse_attribute at
    at ← parse_comma at
    (data_word, at) ← parse_keyword at
    at ← parse_colon at
    (res_type, at) ← parse_type at
    ints ← extents_of extents_raw
    some (
      add_attribute "shape" (tensor_attr ints) (
          add_types (res_type ∷ [])
            (add_attribute "data" (string data_word) (add_operands (v ∷ []) empty_state))),
      at,
    )

  unfoldable pub parse_mem_dealloc : Position → Option (OperationState × Position)
  parse_mem_dealloc at = do
    (buffers, at) ← parse_operand_list at
    (types, at) ← parse_colon_type_list at
    vs ← resolve_operands buffers types
    some (add_operands vs empty_state, at)

  -- The variable `regionArg` keeps its name where no argument is read.
  abbrev pub arg_or : Name → Option Name → Name
  arg_or region_arg none = region_arg
  arg_or region_arg (some arg) = arg

  -- The loop over the arguments of the region: behind the last one stand an equals sign, the operands
  -- and their types. `args` is what has been read so far.
  unfoldable pub parse_arguments :
      ℕ → Name → List Name → Position → Option (List Name × List Name × List ValueType × Position)
  parse_arguments zero region_arg args at = none
  parse_arguments (suc fuel) region_arg args at = elim (parse_optional_region_argument at) [
    | none ↦ some (args, [], [], at)
    | some (read, at1) ↦
        let arg = arg_or region_arg read in
        let args' = args ++ arg ∷ [] in
        elim (is_empty arg) [
          | true ↦ some (args, [], [], at1)
          | false ↦ elim (parse_optional_comma at1) [
            | some at2 ↦ parse_arguments fuel arg args' at2
            | none ↦ do
              at3 ← parse_equal at1
              (operands, at4) ← parse_operand_list at3
              (types, at5) ← parse_colon_type_list at4
              some (args', operands, types, at5)
          ]
        ]
  ]

  unfoldable pub parse_launch : Position → Option (OperationState × Position)
  unfolding parse_arguments
  parse_launch at = do
    at ← parse_l_paren at
    (args, operands, types, at) ← parse_arguments (suc (left at)) [] [] at
    at ← parse_r_paren at
    at ← parse_given_keyword (b'i' ∷ b'n' ∷ []) at
    at ← parse_l_paren at
    (start, at) ← parse_operand at
    at ← parse_comma at
    (device, at) ← parse_operand at
    at ← parse_r_paren at
    (res_types, at) ← parse_optional_colon_type_list at
    check (length operands == length args)
    (body, at) ← parse_region args types at
    vs ← resolve_operands (start ∷ device ∷ operands) (signal ∷ i32 ∷ types)
    some (
      add_types res_types (add_types (signal ∷ []) (add_operands vs (add_region body empty_state))),
      at,
    )
