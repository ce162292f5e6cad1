-- ===== src/Transforms/Fields.antt =====
-- lib/Transforms/Utils.cpp: both getField of GenericStructure, which look up a component by the names
-- on the way to it. A value is a number. `none` is an assertion that fails, an index out of range, a
-- search for loops above the function, or a number that cannot be read.
pub mod Agree
mod Examples
use event_queue.Common.{
  ℕ, zero, suc, ◌+◌, ◌-◌, ◌*◌, Bool, true, false, Option, none, some, List, [], ◌∷◌, take, drop,
  length, ltb, leb, ◌==◌, ◌&&◌, if◌then◌else◌, ◌>>=◌, ◌>>◌, check, update,
}
use event_queue.Names.{Name, split, is_empty}

-- What the passes read: the components by their names, the shapes of vectors, and the operand of the
-- splat that defines a vector.
pub record Structure : Type 0 where
  pub comps_tree : ℕ → Name → ℕ
  pub vector_shape : ℕ → Option (List ℕ)
  pub splat_operand : ℕ → ℕ

-- The operations that are inserted, each with the value that it defines.
pub data Emitted : Type 0 where
  get_comp : (result handler : ℕ) (name : Name) → Emitted
  constant_index : (result n : ℕ) → Emitted
  affine_apply : (result operand : ℕ) (plus : Bool) (n : ℕ) → Emitted
  extract_element : (result vector : ℕ) (index : List ℕ) → Emitted

-- `next` is the first number that is free; the operation that was inserted last stands first.
pub record Inserted : Type 0 where
  pub next : ℕ
  pub operations : List Emitted

abbrev pub insert : Inserted → (ℕ → Emitted) → Inserted
insert b o = record b { next = b.next + 1; operations = o b.next ∷ b.operations }

-- `find` and `rfind`.
abbrev pub find : ℕ → Name → Option ℕ
find c [] = none
find c (x ∷ s) = let rest = find c s in if x == c then some 0 else do i ← rest; some (suc i)

abbrev pub rfind : ℕ → Name → Option ℕ
rfind c [] = none
rfind c (x ∷ s) = elim (rfind c s) [
  | some i ↦ some (suc i)
  | none ↦ if x == c then some 0 else none
]

-- The name in front of the bracket; `end` is where the closing bracket is.
abbrev pub structure_of : Name → Option ℕ → Option Name
structure_of s end = elim (find b'[' s) [
  | none ↦ some s
  | some start ↦ do last ← end; check (ltb start last); some (take start s)
]

-- What stands between the brackets, split.
abbrev pub specified_index : Name → Option (List Name)
specified_index s = elim (find b'[' s) [
  | none ↦ some []
  | some start ↦ do
    last ← rfind b']' s
    some (split (take (last - start - 1) (drop (start + 1) s)) (b']' ∷ b'[' ∷ []))
]

-- `stoi` on a text that begins with a digit: the digits, and nothing above an int.
abbrev pub read_digits : ℕ → Name → ℕ
read_digits n [] = n
read_digits n (c ∷ s) =
    let onward = read_digits (n * 10 + (c - b'0')) s in
    if leb b'0' c && leb c b'9' then onward else n

abbrev pub stoi : Name → Option ℕ
stoi [] = none
stoi (c ∷ s) = do
  check (leb b'0' c && leb c b'9')
  let n = read_digits 0 (c ∷ s)
  check (leb n 2147483647)
  some n

-- An operation around the place: a loop with its variable, or another one.
pub data Enclosing : Type 0 where
  affine_for : (iv : ℕ) → Enclosing
  other : Enclosing

-- One variable for each dimension, from the innermost loop outwards.
abbrev pub loop_indices : List Enclosing → ℕ → Option (List ℕ)
loop_indices around zero = some []
loop_indices [] (suc k) = none
loop_indices (affine_for iv ∷ around) (suc k) = do ivs ← loop_indices around k; some (iv ∷ ivs)
loop_indices (other ∷ around) (suc k) = loop_indices around (suc k)

-- A sign adds to the variable, and a number replaces it.
abbrev pub shift_index : Inserted → ℕ → Bool → Name → Option (ℕ × Inserted)
shift_index b iv plus sp = do n ← stoi sp; some (b.next, insert b (λ r. affine_apply r iv plus n))

abbrev pub fix_index : Inserted → Name → Option (ℕ × Inserted)
fix_index b sp = do n ← stoi sp; some (b.next, insert b (λ r. constant_index r n))

-- What is specified for one index; `:` keeps the variable.
abbrev pub specify : Inserted → ℕ → Name → Option (ℕ × Inserted)
specify b iv [] = none
specify b iv (c ∷ sp) =
    if c == b'+'
    then shift_index b iv true sp
    else if c == b'-'
    then shift_index b iv false sp
    else if c == b':' && is_empty sp
    then some (iv, b)
    else fix_index b (c ∷ sp)

abbrev pub specify_each : Inserted → List ℕ → List Name → Option (List ℕ × Inserted)
specify_each b ivs [] = some (ivs, b)
specify_each b [] (sp ∷ sps) = none
specify_each b (iv ∷ ivs) (sp ∷ sps) = do
  (i, b1) ← specify b iv sp
  (is, b2) ← specify_each b1 ivs sps
  some (i ∷ is, b2)

-- An element of a vector at the indices; the splat's operand stands for it.
abbrev pub take_element :
    Structure → List Enclosing → Inserted → Name → ℕ → ℕ → List ℕ → Option (ℕ × ℕ × Inserted)
take_element g around b s parent original shape = do
  ivs ← loop_indices around (length shape)
  specified ← specified_index s
  (index, b') ← specify_each b ivs specified
  some (b'.next, g.splat_operand original, insert b' (λ r. extract_element r parent index))

-- The component itself, or an element if it is a vector.
unfoldable pub descend :
    Structure → List Enclosing → Inserted → Name → ℕ → ℕ → Option (ℕ × ℕ × Inserted)
descend g around b s parent original = elim (g.vector_shape original) [
  | none ↦ some (parent, original, b)
  | some shape ↦ take_element g around b s parent original shape
]

-- The getField that inserts operations.
unfoldable pub get_field :
    Structure → List Enclosing → Inserted → List Name → ℕ → ℕ → Option (ℕ × Inserted)
unfolding descend
get_field g around b [] parent original = none
get_field g around b (s ∷ structs) parent original = do
  name ← structure_of s (rfind b']' s)
  let component = g.comps_tree original name
  (value, component', b') ←
      descend g around (insert b (λ r. get_comp r parent name)) s b.next component
  elim structs [ [] ↦ some (value, b') | _ ∷ _ ↦ get_field g around b' structs value component' ]

-- The getField that only looks.
abbrev pub element_of : Structure → ℕ → ℕ
element_of g v = elim (g.vector_shape v) [ none ↦ v | some _ ↦ g.splat_operand v ]

unfoldable pub get_original : Structure → List Name → ℕ → Option ℕ
get_original g [] original = none
get_original g (s ∷ structs) original = do
  name ← structure_of s (find b']' s)
  let component = element_of g (g.comps_tree original name)
  elim structs [ [] ↦ some component | _ ∷ _ ↦ get_original g structs component ]
