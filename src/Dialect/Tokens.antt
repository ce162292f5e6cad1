-- ===== src/Dialect/Tokens.antt =====
-- A parser over a list of tokens, which meets what the parse functions rely on.
use event_queue.Common.{
  ℕ, ◌<◌, ◌≤◌, ◌≡◌, refl, Option, none, some, List, [], ◌∷◌, length, ◌==◌, if◌then◌else◌, arith,
  ◌>>=◌, >>=-elim, some_injective, sym,
}
use event_queue.Names.{Name}
use event_queue.Dialect.State.{ValueType, Attr, Body}
use event_queue.Dialect.Parsers.{OpAsmParser}

-- `punctuation` is one of the characters that stand for themselves.
pub data Lexeme : Type 0 where
  punctuation : ℕ → Lexeme
  word : Name → Lexeme
  value : Name → Lexeme
  attribute : Attr → Lexeme
  value_type : ValueType → Lexeme
  block : Lexeme

abbrev expect : ℕ → List Lexeme → Option (List Lexeme)
expect c (punctuation d ∷ ts) = if c == d then some ts else none
expect c _ = none

abbrev word_token : List Lexeme → Option (Name × List Lexeme)
word_token (word w ∷ ts) = some (w, ts)
word_token _ = none

abbrev expect_keyword : Name → List Lexeme → Option (List Lexeme)
expect_keyword (c ∷ w) (word (d ∷ v) ∷ ts) = if c == d then some ts else none
expect_keyword _ _ = none

abbrev attr_token : List Lexeme → Option (Attr × List Lexeme)
attr_token (attribute a ∷ ts) = some (a, ts)
attr_token _ = none

abbrev operand_token : List Lexeme → Option (Name × List Lexeme)
operand_token (value v ∷ ts) = some (v, ts)
operand_token _ = none

abbrev type_token : List Lexeme → Option (ValueType × List Lexeme)
type_token (value_type t ∷ ts) = some (t, ts)
type_token _ = none

abbrev argument : List Lexeme → Option (Option Name × List Lexeme)
argument (value v ∷ ts) = some (some v, ts)
argument ts = some (none, ts)

-- Operands and types with commas between them.
abbrev operand_tokens : List Lexeme → List Name × List Lexeme
operand_tokens (value v ∷ punctuation c ∷ ts) =
    if c == b','
    then (v ∷ (operand_tokens ts).0, (operand_tokens ts).1)
    else (v ∷ [], punctuation c ∷ ts)
operand_tokens (value v ∷ ts) = (v ∷ [], ts)
operand_tokens ts = ([], ts)

abbrev type_tokens : List Lexeme → List ValueType × List Lexeme
type_tokens (value_type t ∷ punctuation c ∷ ts) =
    if c == b',' then (t ∷ (type_tokens ts).0, (type_tokens ts).1) else (t ∷ [], punctuation c ∷ ts)
type_tokens (value_type t ∷ ts) = (t ∷ [], ts)
type_tokens ts = ([], ts)

abbrev colon_types : List Lexeme → Option (List ValueType × List Lexeme)
colon_types (punctuation c ∷ ts) = if c == b':' then some (type_tokens ts) else none
colon_types _ = none

abbrev optional_colon_types : List Lexeme → Option (List ValueType × List Lexeme)
optional_colon_types (punctuation c ∷ ts) =
    if c == b':' then some (type_tokens ts) else some ([], punctuation c ∷ ts)
optional_colon_types ts = some ([], ts)

-- A type for each argument.
abbrev typed : List Name → List ValueType → List ValueType
typed [] ts = []
typed (n ∷ ns) [] = ValueType.i32 ∷ typed ns []
typed (n ∷ ns) (t ∷ ts) = t ∷ typed ns ts

abbrev pub region_token : List Name → List ValueType → List Lexeme → Option (Body × List Lexeme)
region_token args types (block ∷ ts) = some (record { arguments = typed args types }, ts)
region_token args types _ = none

-- The value of a name is its first code.
abbrev pub resolve : Name → ValueType → Option ℕ
resolve [] t = none
resolve (c ∷ n) t = some c

abbrev pub resolve_all : List Name → List ValueType → Option (List ℕ)
resolve_all [] types = some []
resolve_all ([] ∷ names) types = none
resolve_all ((c ∷ n) ∷ names) [] = none
resolve_all ((c ∷ n) ∷ names) (t ∷ types) = do vs ← resolve_all names types; some (c ∷ vs)

pub argument_moves_lem :
    (at : List Lexeme) (arg : Option Name) (to : List Lexeme)
    → argument at ≡ some (arg, to)
    → length to ≤ length at
argument_moves_lem [] arg to e = ground arith
argument_moves_lem (punctuation c ∷ ts) arg to e = ground arith
argument_moves_lem (word w ∷ ts) arg to e = ground arith
argument_moves_lem (value v ∷ ts) arg to e = ground arith
argument_moves_lem (attribute a ∷ ts) arg to e = ground arith
argument_moves_lem (value_type t ∷ ts) arg to e = ground arith
argument_moves_lem (block ∷ ts) arg to e = ground arith

pub comma_moves_lem : (at to : List Lexeme) → expect b',' at ≡ some to → length to < length at
comma_moves_lem [] to e = cc
comma_moves_lem (punctuation c ∷ ts) to e = ground arith
comma_moves_lem (word w ∷ ts) to e = cc
comma_moves_lem (value v ∷ ts) to e = cc
comma_moves_lem (attribute a ∷ ts) to e = cc
comma_moves_lem (value_type t ∷ ts) to e = cc
comma_moves_lem (block ∷ ts) to e = cc

-- The operands are resolved one after the other.
pub resolve_all-cons :
    (n : Name) (t : ValueType) (names : List Name) (types : List ValueType) (vs : List ℕ)
    → resolve_all (n ∷ names) (t ∷ types) ≡ some vs
    → (v : ℕ) × (ws : List ℕ) × (vs ≡ v ∷ ws)
      × (resolve n t ≡ some v)
      × (resolve_all names types ≡ some ws)
resolve_all-cons [] t names types vs e = cc
resolve_all-cons (c ∷ n) t names types vs e =
    >>=-elim (resolve_all names types) _ e λ ws p q. (c, ws, sym (some_injective q), refl, p)

abbrev pub token_parser : OpAsmParser
token_parser = record {
  Position = List Lexeme;
  left = length;
  parse_keyword = word_token;
  parse_given_keyword = expect_keyword;
  parse_comma = expect b',';
  parse_optional_comma = expect b',';
  parse_colon = expect b':';
  parse_equal = expect b'=';
  parse_l_paren = expect b'(';
  parse_r_paren = expect b')';
  parse_attribute = attr_token;
  parse_operand = operand_token;
  parse_operand_list = λ ts. some (operand_tokens ts);
  parse_type = type_token;
  parse_colon_type_list = colon_types;
  parse_optional_colon_type_list = optional_colon_types;
  parse_optional_region_argument = argument;
  parse_region = region_token;
  resolve_operand = resolve;
  resolve_operands = resolve_all;
  argument_moves = argument_moves_lem;
  comma_moves = comma_moves_lem;
}
