-- ===== src/Dialect/Types/Reading.antt =====
-- A type is read back from what is printed of it.
use event_queue.Common.{◌≡◌, refl, ap, ◌∙◌, true, some, [], ◌∷◌, ◌++◌}
use event_queue.Names.{Name}
use event_queue.Dialect.Types.{
  EQueueType, signal, container, container_word, ends_word, DialectAsmParser, parse_type,
  print_type,
}

++_assoc : (a b c : Name) → (a ++ b) ++ c ≡ a ++ (b ++ c)
++_assoc [] b c = refl
++_assoc (x ∷ a) b c = ap (λ (l : Name). x ∷ l) (++_assoc a b c)

-- Where the text is a printed type and something that does not go on as a word, the parse function
-- returns that type, at the position where the rest is left.
pub print_type-parse_type :
    {T : Type 0} (print : T → Name) (parser : DialectAsmParser T print) (p : parser.Position)
    (t : EQueueType T) (rest : Name)
    → ends_word rest ≡ true
    → parser.text p ≡ print_type print t ++ rest
    → (q : parser.Position) × (parse_type parser p ≡ some (t, q)) × (parser.text q ≡ rest)
unfolding parse_type print_type
print_type-parse_type print parser p signal rest ends h =
    let (q, read, left) = parser.reads_signal p rest ends h in (q, rw read refl, left)
print_type-parse_type print parser p (container value container_type) rest ends h =
    let last = b' ' ∷ (print container_type ++ b'>' ∷ rest) in
    let whole : parser.text p ≡ container_word ++ b'<' ∷ (print value ++ b',' ∷ last) =
      h
      ∙ ap (λ (s : Name). container_word ++ b'<' ∷ s)
          (++_assoc (print value) _ rest
            ∙ ap (λ (s : Name). print value ++ b',' ∷ b' ' ∷ s)
                (++_assoc (print container_type) (b'>' ∷ []) rest)) in
    let (q, read, at) = parser.reads_container p (print value ++ b',' ∷ last) whole in
    let (q1, read1, at1) = parser.reads_less q (print value ++ b',' ∷ last) at in
    let (q2, read2, at2) = parser.reads_value q1 value last at1 in
    let (q3, read3, at3) = parser.reads_comma q2 last at2 in
    let (q4, read4, at4) = parser.reads_last q3 container_type rest at3 in
    let (q5, read5, at5) = parser.reads_greater q4 rest at4 in
    (q5, rw read (rw read1 (rw read2 (rw read3 (rw read4 (rw read5 refl))))), at5)
