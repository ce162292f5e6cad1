-- ===== src/Names.antt =====
-- Names and lists of names as the codes of their characters: `split` and `trancate` of
-- include/EQueue/Utils.h (lib/EQueue/CommandProcessor.cpp has the same `split`), the attribute `names`
-- that the builders of lib/EQueue/EQueueOps.cpp write, and `getCompStrList` of
-- include/EQueue/EQueueOps.td, which reads it.
pub mod Decimal
pub mod RoundTrip
mod Examples
use event_queue.Common.{
  ℕ, zero, suc, ◌+◌, Bool, true, false, Option, none, some, List, [], ◌∷◌, ◌++◌, map, length, ◌==◌,
  leb, ◌&&◌, ◌||◌, if◌then◌else◌,
}

abbrev pub Name : Type 0
Name = List ℕ

abbrev pub is_empty {ℓ} : {A : Type ℓ} → List A → Bool
is_empty [] = true
is_empty (x ∷ xs) = false

-- What is left of a text behind a prefix that it has.
abbrev pub strip_prefix : Name → Name → Option Name
strip_prefix [] s = some s
strip_prefix (d ∷ ds) [] = none
strip_prefix (d ∷ ds) (c ∷ s) = if d == c then strip_prefix ds s else none

-- `str.find(delim, prev)` on the text from `prev` on: what stands before the delimiter, and, if it is
-- found, what stands behind it.
unfoldable pub break_at : Name → Name → Name × Option Name
break_at delim [] = ([], none)
break_at delim (c ∷ s) = elim (strip_prefix delim (c ∷ s)) [
  | some rest ↦ ([], some rest)
  | none ↦ (c ∷ (break_at delim s).0, (break_at delim s).1)
]

abbrev pub push_token : List Name → Name → List Name
push_token tokens token = if is_empty token then tokens else tokens ++ token ∷ []

-- The loop of `split`; each round but the last one takes a delimiter off the text.
unfoldable pub split_loop : Name → ℕ → Name → List Name → List Name
unfolding break_at
split_loop delim zero rest tokens = tokens
split_loop delim (suc fuel) rest tokens =
    let tokens' = push_token tokens (break_at delim rest).0 in
    elim (break_at delim rest).1 [
      | none ↦ tokens'
      | some [] ↦ tokens'
      | some (c ∷ s) ↦ split_loop delim fuel (c ∷ s) tokens'
    ]

unfoldable pub split : Name → Name → List Name
unfolding split_loop
split str delim = split_loop delim (suc (length str)) str []

-- `trancate`: the components on the way to each structure that an option names.
unfoldable pub trancate : List Name → List (List Name)
unfolding split
trancate [] = []
trancate (s ∷ names) = split s (b'@' ∷ []) ∷ trancate names

-- The loop of the builders: each name with a space behind it.
unfoldable pub name_attr : List Name → Name
name_attr [] = []
name_attr (n ∷ names) = n ++ b' ' ∷ name_attr names

-- `isspace` in the C locale.
abbrev pub is_space : ℕ → Bool
is_space c = c == b' ' || (leb 9 c && leb c 13)

-- The tokens that `istream_iterator<string>` reads from a text, the current one so far given.
unfoldable pub read_tokens : Name → Name → List Name
read_tokens [] current = push_token [] current
read_tokens (c ∷ s) current = elim (is_space c) [
  | true ↦ push_token [] current ++ read_tokens s []
  | false ↦ read_tokens s (current ++ c ∷ [])
]

-- `getCompStrList` on the attribute `names`.
unfoldable pub get_comp_str_list : Name → List Name
unfolding read_tokens
get_comp_str_list names = read_tokens names []
