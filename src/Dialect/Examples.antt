-- ===== src/Dialect/Examples.antt =====
-- A launch with two operands, in tokens, and operations over a buffer of four lines.
use event_queue.Common.{ℕ, ◌≡◌, ◌≢◌, refl, Option, none, some, List, [], ◌∷◌, arith}
use event_queue.Names.{Name}
use event_queue.Dialect.State.{
  ValueType, f32, i32, signal, mem_ref, integer, array, OperationState, empty_state,
}
use event_queue.Dialect.Builders.{build_mem_read, build_mem_copy, build_create_comp}
use event_queue.Dialect.Accessors.{
  get_dlines, get_comp_names, get_data_bit, get_shape, get_mem_type,
}
use event_queue.Dialect.RoundTrip.{
  IsRead, IsCopy, build_mem_read-IsRead, build_mem_copy-IsCopy, build_mem_read_volume, volume_of,
  build_create_comp-names,
}
use event_queue.Dialect.Parsers.{parse_launch, parse_create_mem, parse_arguments}
use event_queue.Dialect.Shapes.{
  IsLaunchOf, Reads, parse_launch-IsLaunchOf, parse_arguments-Reads, parse_create_mem_data_bit,
}
use event_queue.Dialect.Tokens.{
  Lexeme, punctuation, word, value, attribute, value_type, block, token_parser, resolve_all-cons,
}

abbrev a_buffer : ℕ → ValueType
a_buffer v = mem_ref (4 ∷ []) f32

build_mem_read-IsRead_example :
    (s : OperationState) × (build_mem_read a_buffer 7 8 (2 ∷ []) 1 empty_state ≡ some s)
    × IsRead 7 8 (2 ∷ []) 1 s
build_mem_read-IsRead_example = build_mem_read-IsRead a_buffer 7 8 (2 ∷ []) 1 (4 ∷ []) f32 refl

build_mem_copy-IsCopy_example :
    IsCopy 2 3 4 0 (2 ∷ []) 0 1 (build_mem_copy 1 2 3 4 0 (2 ∷ []) 0 1 empty_state)
build_mem_copy-IsCopy_example = build_mem_copy-IsCopy 1 2 3 4 0 (2 ∷ []) 0 1

build_mem_read_volume_example :
    (s : OperationState) × (t : ValueType) × (build_mem_read a_buffer 7 0 [] 0 empty_state ≡ some s)
    × (s.types ≡ t ∷ [])
    × (get_dlines (4 ∷ []) s ≡ some 4)
    × (volume_of t ≢ 4)
build_mem_read_volume_example =
    build_mem_read_volume a_buffer 7 0 0 (4 ∷ []) f32 refl (λ e. absurd (omega arith))

build_create_comp-names_example :
    (get_comp_names (build_create_comp ((b'p' ∷ b'e' ∷ []) ∷ []) (5 ∷ []) empty_state)
      ≡ some ((b'p' ∷ b'e' ∷ []) ∷ []))
    × ((build_create_comp ((b'p' ∷ b'e' ∷ []) ∷ []) (5 ∷ []) empty_state).operands ≡ 5 ∷ [])
build_create_comp-names_example =
    build_create_comp-names ((b'p' ∷ b'e' ∷ []) ∷ []) (5 ∷ []) ((λ e. cc, (refl, (refl, tt))), tt)

-- `(%1, %2 = %5, %6 : i32, f32) in (%3, %4) : f32 { ... }`.
abbrev launch_text : List Lexeme
launch_text =
    punctuation b'('
    ∷ value (1 ∷ [])
    ∷ punctuation b','
    ∷ value (2 ∷ [])
    ∷ punctuation b'='
    ∷ value (5 ∷ [])
    ∷ punctuation b','
    ∷ value (6 ∷ [])
    ∷ punctuation b':'
    ∷ value_type i32
    ∷ punctuation b','
    ∷ value_type f32
    ∷ punctuation b')'
    ∷ word (b'i' ∷ b'n' ∷ [])
    ∷ punctuation b'('
    ∷ value (3 ∷ [])
    ∷ punctuation b','
    ∷ value (4 ∷ [])
    ∷ punctuation b')'
    ∷ punctuation b':'
    ∷ value_type f32
    ∷ block
    ∷ []

abbrev launch_state : OperationState
launch_state = record {
  operands = 3 ∷ 4 ∷ 5 ∷ 6 ∷ [];
  attributes = [];
  types = signal ∷ f32 ∷ [];
  regions = record { arguments = i32 ∷ f32 ∷ [] } ∷ [];
}

launch_parsed : parse_launch token_parser launch_text ≡ some (launch_state, [])
unfolding parse_launch
launch_parsed = refl

parse_launch-IsLaunchOf_example : IsLaunchOf token_parser launch_text launch_state
parse_launch-IsLaunchOf_example =
    parse_launch-IsLaunchOf token_parser launch_text [] launch_state resolve_all-cons launch_parsed

parse_arguments-Reads_example :
    Reads token_parser [] []
      (value (1 ∷ []) ∷ punctuation b',' ∷ [])
      (parse_arguments token_parser 4 [] [] (value (1 ∷ []) ∷ punctuation b',' ∷ []))
parse_arguments-Reads_example =
    parse_arguments-Reads token_parser 4 [] [] (value (1 ∷ []) ∷ punctuation b',' ∷ [])
      (omega arith)

-- `[4], data, SRAM, 2`, the words in short.
abbrev mem_text : List Lexeme
mem_text =
    attribute (array (some 4 ∷ []))
    ∷ punctuation b','
    ∷ word (b'f' ∷ [])
    ∷ punctuation b','
    ∷ word (b's' ∷ [])
    ∷ punctuation b','
    ∷ attribute (integer 2)
    ∷ []

abbrev mem_state : Option (OperationState × List Lexeme) → OperationState
mem_state none = empty_state
mem_state (some (s, to)) = s

abbrev parsed_mem : OperationState
unfolding parse_create_mem
parsed_mem = mem_state (parse_create_mem token_parser mem_text)

parse_create_mem_data_bit_example :
    (get_data_bit parsed_mem ≡ none)
    × ((shape : List ℕ) × (get_shape parsed_mem ≡ some shape))
    × ((type : Name) × (get_mem_type parsed_mem ≡ some type))
unfolding parsed_mem parse_create_mem
parse_create_mem_data_bit_example =
    parse_create_mem_data_bit token_parser mem_text [] parsed_mem refl
