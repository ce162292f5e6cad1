-- ===== src/Dialect/Types.antt =====
-- lib/EQueue/EQueueDialect.cpp: how the dialect's types are printed and parsed. MLIR's printer and parser
-- of types are given, as is its lexer.
pub mod Reading
mod Examples
use event_queue.Common.{
  ℕ, ◌≡◌, Bool, true, false, Option, none, some, List, [], ◌∷◌, ◌++◌, ◌>>=◌, ◌==◌, ◌&&◌, ◌||◌, not,
  leb, if◌then◌else◌,
}
use event_queue.Names.{Name}

-- A type of the dialect; its parts are types of any dialect.
pub data EQueueType (T : Type 0) : Type 0 where
  signal : EQueueType T
  container : (value_type container_type : T) → EQueueType T

abbrev pub signal_word : Name
signal_word = b's' ∷ b'i' ∷ b'g' ∷ b'n' ∷ b'a' ∷ b'l' ∷ []

abbrev pub container_word : Name
container_word = b'c' ∷ b'o' ∷ b'n' ∷ b't' ∷ b'a' ∷ b'i' ∷ b'n' ∷ b'e' ∷ b'r' ∷ []

-- No keyword goes on here.
abbrev pub ends_word : Name → Bool
ends_word [] = true
ends_word (c ∷ rest) = not (
    (leb b'a' c && leb c b'z')
    || (leb b'A' c && leb c b'Z')
    || (leb b'0' c && leb c b'9')
    || (c == b'_')
    || (c == b'$')
    || (c == b'.'))

-- MLIR's DialectAsmParser. `text` is what is left of the text at a position; the laws say what the
-- lexer does on what the dialect prints, where a blank in front of a type is skipped.
pub record DialectAsmParser (T : Type 0) (print : T → Name) : Type 1 where
  pub Position : Type 0
  pub text : Position → Name
  pub parse_keyword : Position → Option (Name × Position)
  pub parse_less : Position → Option Position
  pub parse_comma : Position → Option Position
  pub parse_greater : Position → Option Position
  pub parse_type : Position → Option (T × Position)
  pub reads_signal :
      (p : Position) (rest : Name)
      → ends_word rest ≡ true
      → text p ≡ signal_word ++ rest
      → (q : Position) × (parse_keyword p ≡ some (signal_word, q)) × (text q ≡ rest)
  pub reads_container :
      (p : Position) (rest : Name)
      → text p ≡ container_word ++ b'<' ∷ rest
      → (q : Position) × (parse_keyword p ≡ some (container_word, q)) × (text q ≡ b'<' ∷ rest)
  pub reads_less :
      (p : Position) (rest : Name)
      → text p ≡ b'<' ∷ rest
      → (q : Position) × (parse_less p ≡ some q) × (text q ≡ rest)
  pub reads_comma :
      (p : Position) (rest : Name)
      → text p ≡ b',' ∷ rest
      → (q : Position) × (parse_comma p ≡ some q) × (text q ≡ rest)
  pub reads_greater :
      (p : Position) (rest : Name)
      → text p ≡ b'>' ∷ rest
      → (q : Position) × (parse_greater p ≡ some q) × (text q ≡ rest)
  pub reads_value :
      (p : Position) (t : T) (rest : Name)
      → text p ≡ print t ++ b',' ∷ rest
      → (q : Position) × (parse_type p ≡ some (t, q)) × (text q ≡ b',' ∷ rest)
  pub reads_last :
      (p : Position) (t : T) (rest : Name)
      → text p ≡ b' ' ∷ (print t ++ b'>' ∷ rest)
      → (q : Position) × (parse_type p ≡ some (t, q)) × (text q ≡ b'>' ∷ rest)

-- The comparison of the keyword.
abbrev pub same_word : Name → Name → Bool
same_word [] [] = true
same_word [] (d ∷ ds) = false
same_word (c ∷ cs) [] = false
same_word (c ∷ cs) (d ∷ ds) = (c == d) && same_word cs ds

module _ {T : Type 0} {print : T → Name} (parser : DialectAsmParser T print) where
  abbrev parse_container : parser.Position → Option (EQueueType T × parser.Position)
  parse_container p = do
    p1 ← parser.parse_less p
    (value, p2) ← parser.parse_type p1
    p3 ← parser.parse_comma p2
    (container_type, p4) ← parser.parse_type p3
    p5 ← parser.parse_greater p4
    some (container value container_type, p5)

  abbrev parse_named : Name → parser.Position → Option (EQueueType T × parser.Position)
  parse_named type_name_spelling p =
      let inner = parse_container p in
      if same_word type_name_spelling signal_word
      then some (signal, p)
      else if same_word type_name_spelling container_word
      then inner
      else none

  -- `none` is the null type, after an error.
  unfoldable pub parse_type : parser.Position → Option (EQueueType T × parser.Position)
  parse_type p = do
    (type_name_spelling, p1) ← parser.parse_keyword p
    parse_named type_name_spelling p1

unfoldable pub print_type : {T : Type 0} → (T → Name) → EQueueType T → Name
print_type print signal = signal_word
print_type print (container value container_type) =
    container_word ++ b'<' ∷ (print value ++ b',' ∷ b' ' ∷ (print container_type ++ b'>' ∷ []))
