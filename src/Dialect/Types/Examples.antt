-- ===== src/Dialect/Types/Examples.antt =====
-- A lexer over a text for types of one letter.
use event_queue.Common.{
  ◌≡◌, refl, ap, Bool, true, false, Option, none, some, [], ◌∷◌, ◌++◌, ◌>>=◌, ◌==◌, if◌then◌else◌,
}
use event_queue.Names.{Name, strip_prefix}
use event_queue.Dialect.Types.{
  container, signal_word, container_word, DialectAsmParser, parse_type, print_type,
}
use event_queue.Dialect.Types.Reading.{print_type-parse_type}

abbrev letter : Bool → Name
letter true = b't' ∷ []
letter false = b'f' ∷ []

abbrev keyword_at : Name → Option (Name × Name)
keyword_at s = elim (strip_prefix signal_word s) [
  | some rest ↦ some (signal_word, rest)
  | none ↦ do rest ← strip_prefix container_word s; some (container_word, rest)
]

abbrev letter_at : Name → Option (Bool × Name)
letter_at [] = none
letter_at (c ∷ s) = if c == b't' then some (true, s) else some (false, s)

abbrev type_at : Name → Option (Bool × Name)
type_at [] = none
type_at (c ∷ s) = if c == b' ' then letter_at s else letter_at (c ∷ s)

type_at-value :
    (p : Name) (t : Bool) (rest : Name)
    → p ≡ letter t ++ b',' ∷ rest
    → (q : Name) × (type_at p ≡ some (t, q)) × (q ≡ b',' ∷ rest)
type_at-value p true rest e = (b',' ∷ rest, ap type_at e, refl)
type_at-value p false rest e = (b',' ∷ rest, ap type_at e, refl)

type_at-last :
    (p : Name) (t : Bool) (rest : Name)
    → p ≡ b' ' ∷ (letter t ++ b'>' ∷ rest)
    → (q : Name) × (type_at p ≡ some (t, q)) × (q ≡ b'>' ∷ rest)
type_at-last p true rest e = (b'>' ∷ rest, ap type_at e, refl)
type_at-last p false rest e = (b'>' ∷ rest, ap type_at e, refl)

abbrev lexer : DialectAsmParser Bool letter
lexer = record {
  Position = Name;
  text = λ s. s;
  parse_keyword = keyword_at;
  parse_less = strip_prefix (b'<' ∷ []);
  parse_comma = strip_prefix (b',' ∷ []);
  parse_greater = strip_prefix (b'>' ∷ []);
  parse_type = type_at;
  reads_signal = λ p rest ends e. (rest, ap keyword_at e, refl);
  reads_container = λ p rest e. (b'<' ∷ rest, ap keyword_at e, refl);
  reads_less = λ p rest e. (rest, ap (strip_prefix (b'<' ∷ [])) e, refl);
  reads_comma = λ p rest e. (rest, ap (strip_prefix (b',' ∷ [])) e, refl);
  reads_greater = λ p rest e. (rest, ap (strip_prefix (b'>' ∷ [])) e, refl);
  reads_value = type_at-value;
  reads_last = type_at-last;
}

abbrev text : Name
text = container_word ++ b'<' ∷ b't' ∷ b',' ∷ b' ' ∷ b'f' ∷ b'>' ∷ []

print_sample : print_type letter (container true false) ≡ text
unfolding print_type
print_sample = refl

print_type-parse_type_example :
    (q : Name) × (parse_type lexer (text ++ b'>' ∷ []) ≡ some (container true false, q))
    × (q ≡ b'>' ∷ [])
unfolding print_type
print_type-parse_type_example =
    print_type-parse_type letter lexer (text ++ b'>' ∷ []) (container true false) (b'>' ∷ []) refl
      refl

-- Another word is an error.
parse_other : parse_type lexer (b'i' ∷ b'3' ∷ b'2' ∷ []) ≡ none
unfolding parse_type
parse_other = refl
