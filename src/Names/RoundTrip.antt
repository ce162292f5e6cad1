-- ===== src/Names/RoundTrip.antt =====
-- What `split` and `getCompStrList` give for texts that are put together from names.
use event_queue.Common.{
  ℕ, zero, suc, ◌<◌, ◌≤◌, ◌≡◌, ◌≢◌, refl, sym, ap, ◌∙◌, false, none, some, List, [], ◌∷◌, ◌++◌,
  length, length-append, All, arith,
}
use mathlib.Core.List.{append_assoc, append-nil}
use event_queue.Names.{
  Name, break_at, push_token, split_loop, split, name_attr, is_space, read_tokens,
  get_comp_str_list,
}

-- The names that are not empty.
abbrev pub nonempty : List Name → List Name
nonempty [] = []
nonempty ([] ∷ names) = nonempty names
nonempty ((c ∷ s) ∷ names) = (c ∷ s) ∷ nonempty names

-- The character does not occur in the name.
abbrev pub Lacks : ℕ → Name → Type 0
Lacks d = All (λ c. d ≢ c)

-- Each name with the character behind it.
abbrev pub terminated : ℕ → List Name → Name
terminated d [] = []
terminated d (n ∷ names) = n ++ d ∷ terminated d names

push_token-eq : (tokens : List Name) (n : Name) → push_token tokens n ≡ tokens ++ nonempty (n ∷ [])
push_token-eq tokens [] = sym (append-nil tokens)
push_token-eq tokens (c ∷ s) = refl

nonempty-cons :
    (n : Name) (names : List Name) → nonempty (n ∷ names) ≡ nonempty (n ∷ []) ++ nonempty names
nonempty-cons [] names = refl
nonempty-cons (c ∷ s) names = refl

nonempty_last : (names : List Name) → nonempty (names ++ [] ∷ []) ≡ nonempty names
nonempty_last [] = refl
nonempty_last ([] ∷ names) = nonempty_last names
nonempty_last ((c ∷ s) ∷ names) = ap (λ (ns : List Name). (c ∷ s) ∷ ns) (nonempty_last names)

module _ (d : ℕ) where
  break_at_end : (n : Name) → Lacks d n → break_at (d ∷ []) n ≡ (n, none)
  unfolding break_at
  break_at_end [] h = refl
  break_at_end (c ∷ s) h = ground (arith, break_at_end s)

  break_at_delim : (n rest : Name) → Lacks d n → break_at (d ∷ []) (n ++ d ∷ rest) ≡ (n, some rest)
  unfolding break_at
  break_at_delim [] rest h = ground arith
  break_at_delim (c ∷ s) rest h = ground (arith, break_at_delim s rest)

  split_loop-nil : (fuel : ℕ) (tokens : List Name) → split_loop (d ∷ []) fuel [] tokens ≡ tokens
  unfolding split_loop
  split_loop-nil zero tokens = refl
  split_loop-nil (suc fuel) tokens = refl

  -- The loop passes a delimiter, and goes on behind it.
  split_loop_step :
      (fuel : ℕ) (n rest : Name) (tokens : List Name)
      → Lacks d n
      → split_loop (d ∷ []) (suc fuel) (n ++ d ∷ rest) tokens
        ≡ split_loop (d ∷ []) fuel rest (push_token tokens n)
  unfolding split_loop
  split_loop_step fuel n [] tokens h =
      rw (break_at_delim n [] h, split_loop)
        (rw (break_at_delim n [] h) (sym (split_loop-nil fuel (push_token tokens n))))
  split_loop_step fuel n (c ∷ s) tokens h =
      rw (break_at_delim n (c ∷ s) h, split_loop) (rw (break_at_delim n (c ∷ s) h))

  split_loop-terminated :
      (fuel : ℕ) (names : List Name) (last : Name) (tokens : List Name)
      → All (Lacks d) names
      → Lacks d last
      → length names < fuel
      → split_loop (d ∷ []) fuel (terminated d names ++ last) tokens
        ≡ tokens ++ nonempty (names ++ last ∷ [])
  split_loop-terminated zero names last tokens h hl lt = elim lt [ ]
  split_loop-terminated (suc fuel) [] last tokens h hl lt =
      unfold split_loop in
      rw (break_at_end last hl, split_loop) (rw (break_at_end last hl) (push_token-eq tokens last))
  split_loop-terminated (suc fuel) (n ∷ names) last tokens h hl lt =
      ap (λ (text : Name). split_loop (d ∷ []) (suc fuel) text tokens)
        (append_assoc n (d ∷ terminated d names) last)
      ∙ split_loop_step fuel n (terminated d names ++ last) tokens h.0
      ∙ split_loop-terminated fuel names last (push_token tokens n) h.1 hl (omega arith)
      ∙ simp (push_token-eq tokens n, append_assoc, nonempty-cons n (names ++ last ∷ []))

  length-terminated : (names : List Name) → length names ≤ length (terminated d names)
  length-terminated [] = omega arith
  length-terminated (n ∷ names) =
      omega (arith, length-terminated names, length-append n (d ∷ terminated d names))

-- The tokens of a text are its parts between the delimiters, without the empty ones.
pub split-terminated :
    (d : ℕ) (names : List Name) (last : Name)
    → All (Lacks d) names
    → Lacks d last
    → split (terminated d names ++ last) (d ∷ []) ≡ nonempty (names ++ last ∷ [])
unfolding split
split-terminated d names last h hl =
    split_loop-terminated d (suc (length (terminated d names ++ last))) names last [] h hl
      (omega (arith, length-terminated d names, length-append (terminated d names) last))

-- A name that is not empty and has no white space.
abbrev pub IsWord : Name → Type 0
IsWord n = (n ≢ []) × All (λ c. is_space c ≡ false) n

nonempty-words : (names : List Name) → All IsWord names → nonempty names ≡ names
nonempty-words [] h = refl
nonempty-words ([] ∷ names) h = absurd ((h.0).0 refl)
nonempty-words ((c ∷ s) ∷ names) h =
    ap (λ (ns : List Name). (c ∷ s) ∷ ns) (nonempty-words names h.1)

name_attr-terminated : (names : List Name) → name_attr names ≡ terminated b' ' names
unfolding name_attr
name_attr-terminated [] = refl
name_attr-terminated (n ∷ names) = rw (name_attr-terminated names)

word-Lacks : (n : Name) → All (λ c. is_space c ≡ false) n → Lacks b' ' n
word-Lacks [] h = tt
word-Lacks (c ∷ s) h = ground (arith, word-Lacks s)

words-All : (names : List Name) → All IsWord names → All (Lacks b' ') names
words-All [] h = tt
words-All (n ∷ names) h = (word-Lacks n (h.0).1, words-All names h.1)

read_tokens-word :
    (n rest current : Name)
    → All (λ c. is_space c ≡ false) n
    → read_tokens (n ++ b' ' ∷ rest) current ≡ push_token [] (current ++ n) ++ read_tokens rest []
unfolding read_tokens
read_tokens-word [] rest current h = rw (append-nil current)
read_tokens-word (c ∷ s) rest current h =
    rw (h.0, read_tokens)
      (read_tokens-word s rest (current ++ c ∷ []) h.1
        ∙ ap (λ (word : Name). push_token [] word ++ read_tokens rest [])
            (append_assoc current (c ∷ []) s))

read_tokens-name_attr :
    (names : List Name) → All IsWord names → read_tokens (name_attr names) [] ≡ nonempty names
unfolding name_attr
read_tokens-name_attr [] h = unfold read_tokens in refl
read_tokens-name_attr (n ∷ names) h =
    read_tokens-word n (name_attr names) [] (h.0).1
    ∙ simp (read_tokens-name_attr names h.1, push_token-eq [] n, nonempty-cons n names)

-- The names that the builders of components write into the attribute are read back by `split`, as
-- `buildIdMap` calls it, and by `getCompStrList`, if none is empty or has white space.
pub name_attr_read_back :
    (names : List Name)
    → All IsWord names
    → (split (name_attr names) (b' ' ∷ []) ≡ names) × (get_comp_str_list (name_attr names) ≡ names)
unfolding get_comp_str_list
name_attr_read_back names h = (
  ap (λ (text : Name). split text (b' ' ∷ []))
        (name_attr-terminated names ∙ sym (append-nil (terminated b' ' names)))
      ∙ split-terminated b' ' names [] (words-All names h) tt
      ∙ nonempty_last names
      ∙ nonempty-words names h,
  read_tokens-name_attr names h ∙ nonempty-words names h,
)
