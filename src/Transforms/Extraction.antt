-- ===== src/Transforms/Extraction.antt =====
-- lib/Transforms/LowerExtraction.cpp: vectors of components become components with a name for each
-- element, and an extraction at constant indices becomes a look-up of such a name. A value is a number,
-- and a store says what defines it. `none` is a cast that fails, an index out of range or a chain that
-- is deeper than the fuel.
pub mod Elements
pub mod Clones
pub mod Depth
pub mod Enough
pub mod Bindings
pub mod Launches
mod Examples
use event_queue.Common.{
  ℕ, zero, suc, ◌+◌, ◌-◌, Bool, true, false, Option, none, some, List, [], ◌∷◌, ◌++◌, length,
  get_elem?, take, ◌==◌, if◌then◌else◌, ◌>>=◌, ◌>>◌, check, update,
}
use event_queue.Names.{Name}
use event_queue.Names.Decimal.{to_string}

-- `getPermutation`: the loop over `j`; the digits of `j` are taken off the line again behind the call.
abbrev pub each_line : (Name → List Name) → ℕ → ℕ → Name → List Name
each_line rest zero j line_ivs = []
each_line rest (suc n) j line_ivs =
    let line = line_ivs ++ b'_' ∷ to_string j in
    rest line ++ each_line rest n (suc j) (take (length line - 1 - length (to_string j)) line)

unfoldable pub get_permutation : List ℕ → Name → List Name
get_permutation [] line_ivs = line_ivs ∷ []
get_permutation (u ∷ ubs) line_ivs = each_line (get_permutation ubs) u 0 line_ivs

-- What defines a value. The results of a launch are those behind its signal, with the values that its
-- terminator returns.
pub data Definer : Type 0 where
  constant_index : ℕ → Definer
  get_comp : (handler : ℕ) (name : Name) → Definer
  launch : (signal : ℕ) (results yielded : List ℕ) → Definer
  node : (operands : List ℕ) → Definer

-- `next` is the first number that is free.
pub record Values : Type 0 where
  pub definer : ℕ → Definer
  pub next : ℕ

abbrev pub operands_of : Definer → List ℕ
operands_of (node vs) = vs
operands_of (get_comp handler name) = handler ∷ []
operands_of _ = []

-- The definer with new operands.
abbrev pub with_operands : Definer → List ℕ → Definer
with_operands (node vs) ws = node ws
with_operands (get_comp h name) (w ∷ ws) = get_comp w name
with_operands d ws = d

abbrev pub duplicate_each :
    (Values → ℕ → Option (ℕ × Values)) → Values → List ℕ → Option (List ℕ × Values)
duplicate_each copy s [] = some ([], s)
duplicate_each copy s (v ∷ vs) = do
  (w, s1) ← copy s v
  (ws, s2) ← duplicate_each copy s1 vs
  some (w ∷ ws, s2)

-- `rewriter.clone`: the next free number has the same definer.
abbrev pub clone : Values → ℕ → Values
clone s v = record s { definer = update s.definer s.next (s.definer v); next = s.next + 1 }

-- `duplicate`: a clone, whose operands are duplicated in turn.
unfoldable pub duplicate : ℕ → Values → ℕ → Option (ℕ × Values)
duplicate zero s v = none
duplicate (suc fuel) s v = do
  let d = s.definer v
  (ws, s') ← duplicate_each (duplicate fuel) (clone s v) (operands_of d)
  some (s.next, record s' { definer = update s'.definer s.next (with_operands d ws) })

-- The operations that a user of a vector is replaced by: a component, and what is added to it.
pub data CompOp : Type 0 where
  create_comp : (comps : List (Name × ℕ)) → CompOp
  add_comp : (comp : ℕ) (comps : List (Name × ℕ)) → CompOp

-- The first operand that is the vector, from `i` on.
abbrev pub index_of : ℕ → List ℕ → ℕ
index_of v [] = 0
index_of v (w ∷ ws) = if w == v then 0 else suc (index_of v ws)

abbrev pub set_at {ℓ} : {A : Type ℓ} → ℕ → A → List A → Option (List A)
set_at i a [] = none
set_at zero a (x ∷ xs) = some (a ∷ xs)
set_at (suc i) a (x ∷ xs) = do ys ← set_at i a xs; some (x ∷ ys)

abbrev pub zip : List Name → List ℕ → List (Name × ℕ)
zip [] vs = []
zip (n ∷ ns) [] = []
zip (n ∷ ns) (v ∷ vs) = (n, v) ∷ zip ns vs

-- A round behind the first one: a copy of the element, and an `add_comp` with its name.
unfoldable pub add_element :
    ℕ → Values → ℕ → ℕ → Name → List Name → List ℕ → Option (CompOp × List ℕ × Values)
unfolding duplicate
add_element fuel s comp i name names operands = do
  to_dup ← get_elem? operands i
  (dupped, s') ← duplicate fuel s to_dup
  operands' ← set_at i dupped operands
  names' ← set_at i name names
  some (add_comp comp (zip names' operands'), operands', s')

unfoldable pub add_elements :
    ℕ → Values → ℕ → ℕ → Name → List Name → List ℕ → List Name → Option (List CompOp × Values)
unfolding add_element
add_elements fuel s comp i base names operands [] = some ([], s)
add_elements fuel s comp i base names operands (line ∷ lines) = do
  (op, operands', s1) ← add_element fuel s comp i (base ++ line) names operands
  (ops, s2) ← add_elements fuel s1 comp i base names operands' lines
  some (op ∷ ops, s2)

-- The rounds over the lines; the first one makes the component.
unfoldable pub name_elements :
    ℕ → Values → ℕ → Name → List Name → List ℕ → List Name → Option (List CompOp × Values)
unfolding add_elements
name_elements fuel s i base names operands [] = some ([], s)
name_elements fuel s i base names operands (line ∷ lines) = do
  names' ← set_at i (base ++ line) names
  let first_comp = s.next
  let s1 = record s { definer = update s.definer first_comp (node operands); next = s.next + 1 }
  (ops, s2) ← add_elements fuel s1 first_comp i base names operands lines
  some (create_comp (zip names' operands) ∷ ops, s2)

-- `SplatOpConversion` on one user of the vector, its operations in the order in which they are made.
unfoldable pub splat_user :
    ℕ → Values → ℕ → ℕ → List ℕ → List Name → List ℕ → Option (List CompOp × Values)
unfolding get_permutation name_elements
splat_user fuel s one_comp vector shape names operands = do
  let i = index_of vector operands
  operands' ← set_at i one_comp operands
  base ← get_elem? names i
  name_elements fuel s i base names operands' (get_permutation shape [])

-- The loop of `ExtractOpConversion` that walks from the results of launches to what they return.
unfoldable pub returned_value : ℕ → Values → ℕ → Option ℕ
returned_value zero s v = none
returned_value (suc fuel) s v = elim (s.definer v) [
  | launch signal results yielded ↦ do
    w ← get_elem? yielded (index_of v results)
    returned_value fuel s w
  | _ ↦ some v
]

-- The numbers of the indices, if all are constants.
unfoldable pub constant_indices : Values → List ℕ → Option (List ℕ)
constant_indices s [] = some []
constant_indices s (v ∷ vs) = elim (s.definer v) [
  | constant_index n ↦ do ns ← constant_indices s vs; some (n ∷ ns)
  | _ ↦ none
]

unfoldable pub element_name : Name → List ℕ → Name
element_name name [] = name
element_name name (n ∷ ns) = element_name (name ++ b'_' ∷ to_string n) ns

abbrev pub extract_from : Definer → List ℕ → Option (Option (ℕ × Name))
extract_from (get_comp handler name) ns = some (some (handler, element_name name ns))
extract_from _ ns = none

abbrev pub extract_at : ℕ → Values → ℕ → Option (List ℕ) → Option (Option (ℕ × Name))
extract_at fuel s vector none = some none
extract_at fuel s vector (some ns) = do
  v ← returned_value fuel s vector
  extract_from (s.definer v) ns

-- `ExtractOpConversion`: the component and the name that are looked up. `some none` is `failure()`.
unfoldable pub lower_extract : ℕ → Values → ℕ → List ℕ → Option (Option (ℕ × Name))
unfolding returned_value constant_indices element_name
lower_extract fuel s vector indices = extract_at fuel s vector (constant_indices s indices)
