-- ===== src/Transforms/Removal.antt =====
-- lib/Transforms/LoopRemoving.cpp: loops whose range is not above one step are replaced by their body,
-- with the lower bound for the variable. `none` is the fuel running out, or an operation that is looked
-- at after it has been erased.
pub mod Meaning
pub mod Keeps
pub mod Rounds
mod Examples
use event_queue.Common.{
  ℕ, zero, suc, ◌+◌, ◌-◌, Bool, true, false, Option, none, some, List, [], ◌∷◌, ltb, ◌==◌,
  if◌then◌else◌, ◌>>=◌, map, ◌++◌,
}

-- An operand: a variable of a loop, or a constant index.
pub data Operand : Type 0 where
  variable : ℕ → Operand
  constant_index : ℕ → Operand

-- A bound: a constant, or an affine map of one operand, with one result.
pub data Bound : Type 0 where
  known : ℕ → Bound
  mapped : (operand : Operand) (map : ℕ → ℕ) → Bound

-- The operations of a block: each with what stands behind it. `nest` is an operation that is no loop and
-- has a region.
pub data Ops : Type 0 where
  end : Ops
  op : (id : ℕ) (operands : List Operand) (rest : Ops) → Ops
  nest : (id : ℕ) (body rest : Ops) → Ops
  affine_for : (lower upper : Bound) (step iv : ℕ) (body rest : Ops) → Ops

abbrev pub append : Ops → Ops → Ops
append end later = later
append (op id args rest) later = op id args (append rest later)
append (nest id body rest) later = nest id body (append rest later)
append (affine_for l u s iv body rest) later = affine_for l u s iv body (append rest later)

-- `replaceAllUsesWith` a constant.
abbrev pub replace_operand : ℕ → ℕ → Operand → Operand
replace_operand v c (variable w) = if w == v then constant_index c else variable w
replace_operand v c (constant_index n) = constant_index n

abbrev pub replace_bound : ℕ → ℕ → Bound → Bound
replace_bound v c (known n) = known n
replace_bound v c (mapped o f) = mapped (replace_operand v c o) f

unfoldable pub replace_all_uses : ℕ → ℕ → Ops → Ops
replace_all_uses v c end = end
replace_all_uses v c (op id args rest) =
    op id (map (λ (o : Operand). replace_operand v c o) args) (replace_all_uses v c rest)
replace_all_uses v c (nest id body rest) =
    nest id (replace_all_uses v c body) (replace_all_uses v c rest)
replace_all_uses v c (affine_for l u s iv body rest) =
    affine_for (replace_bound v c l) (replace_bound v c u) s iv (replace_all_uses v c body)
      (replace_all_uses v c rest)

-- The value of a bound, if it is constant or its operand is.
abbrev pub fold_bound : Bound → Option ℕ
fold_bound (known n) = some n
fold_bound (mapped (constant_index n) f) = some (f n)
fold_bound (mapped (variable v) f) = none

-- How the walk from a loop ends: it found no loop; it ended behind a loop that stays, so that the next
-- band is taken; or it ended otherwise, and the pass with it.
pub data WalkEnd : Type 0 where
  nothing next_band stop : WalkEnd

abbrev pub otherwise : WalkEnd → WalkEnd → WalkEnd
otherwise e nothing = e
otherwise e next_band = next_band
otherwise e stop = stop

-- A loop that stays: the walk goes on in its body.
abbrev pub keep : (Ops → Ops) → WalkEnd → Option (Ops × WalkEnd) → Option (Ops × WalkEnd)
keep rebuild e walked = do (body, e') ← walked; some (rebuild body, otherwise e e')

-- One turn of the `while` at a loop. `inside` walks its body, and `removed` walks what stands in its
-- place, from its lower bound.
abbrev pub visit :
    Bound
    → Bound
    → ℕ
    → (Ops → Ops)
    → Option (Ops × WalkEnd)
    → (ℕ → Option (Ops × WalkEnd))
    → Option (Ops × WalkEnd)
visit l u step rebuild inside removed = elim (fold_bound u) [
  | none ↦ keep rebuild stop inside
  | some ub ↦ elim (fold_bound l) [
    | none ↦ keep rebuild stop inside
    | some lb ↦ elim (ltb step (ub - lb)) [
      | true ↦ keep rebuild next_band inside
      | false ↦ keep (λ ops. ops) stop (removed lb)
    ]
  ]
]

-- What stands behind an operation is walked if nothing has been found in it.
abbrev pub walk_end :
    (Ops → Ops → Ops) → Ops → Option (Ops × WalkEnd) → Ops → WalkEnd → Option (Ops × WalkEnd)
walk_end build rest outer body nothing = do (rest', e) ← outer; some (build body rest', e)
walk_end build rest outer body next_band = some (build body rest, next_band)
walk_end build rest outer body stop = some (build body rest, stop)

abbrev pub walk_on :
    (Ops → Ops → Ops)
    → Ops
    → Option (Ops × WalkEnd)
    → Option (Ops × WalkEnd)
    → Option (Ops × WalkEnd)
walk_on build rest inner outer = do (body, e) ← inner; walk_end build rest outer body e

-- `walkRegions` to the first loop, and the turns of the `while` from there. Each removal takes one of
-- the fuel.
unfoldable pub walk : ℕ → Ops → Option (Ops × WalkEnd)
unfolding replace_all_uses
walk fuel end = some (end, nothing)
walk fuel (op id args rest) = do (rest', e) ← walk fuel rest; some (op id args rest', e)
walk fuel (nest id body rest) = walk_on (nest id) rest (walk fuel body) (walk fuel rest)
walk zero (affine_for l u s iv body rest) =
    visit l u s (λ b. affine_for l u s iv b rest) (walk zero body) (λ lb. none)
walk (suc fuel) (affine_for l u s iv body rest) =
    visit l u s (λ b. affine_for l u s iv b rest) (walk (suc fuel) body)
      (λ lb. walk fuel (append (replace_all_uses iv lb body) rest))

-- The `for` operations among those of a block, by their variables.
abbrev pub top_loops : Ops → List ℕ
top_loops end = []
top_loops (op id args rest) = top_loops rest
top_loops (nest id body rest) = top_loops rest
top_loops (affine_for l u s iv body rest) = iv ∷ top_loops rest

-- `bands`: those of all launches of the function.
unfoldable pub bands_of : List Ops → List ℕ
bands_of [] = []
bands_of (ops ∷ launches) = top_loops ops ++ bands_of launches

abbrev pub put_back :
    (Ops → Ops) → Option (Option (Ops × WalkEnd)) → Option (Option (Ops × WalkEnd))
put_back f found = do
  r ← found
  elim r [ none ↦ some none | some (ops, e) ↦ some (some (f ops, e)) ]

-- The turns from the band `b`, if it stands in the block: `some none` if it does not.
unfoldable pub walk_band : ℕ → ℕ → Ops → Option (Option (Ops × WalkEnd))
unfolding walk
walk_band fuel b end = some none
walk_band fuel b (op id args rest) = put_back (op id args) (walk_band fuel b rest)
walk_band fuel b (nest id body rest) = put_back (nest id body) (walk_band fuel b rest)
walk_band fuel b (affine_for l u s iv body rest) = elim (iv == b) [
  | true ↦ do r ← walk fuel (affine_for l u s iv body rest); some (some r)
  | false ↦ put_back (affine_for l u s iv body) (walk_band fuel b rest)
]

unfoldable pub walk_launches : ℕ → ℕ → List Ops → Option (List Ops × WalkEnd)
unfolding walk_band
walk_launches fuel b [] = none
walk_launches fuel b (ops ∷ launches) = do
  found ← walk_band fuel b ops
  elim found [
    | some (ops', e) ↦ some (ops' ∷ launches, e)
    | none ↦ do (launches', e) ← walk_launches fuel b launches; some (ops ∷ launches', e)
  ]

-- The `while` of `runOnFunction`, from the first of the bands that are left.
unfoldable pub walk_bands : ℕ → List ℕ → List Ops → Option (List Ops)
unfolding walk_launches
walk_bands fuel [] launches = some launches
walk_bands fuel (b ∷ bands) launches = do
  (launches', e) ← walk_launches fuel b launches
  elim e [
    | next_band ↦ walk_bands fuel bands launches'
    | nothing ↦ some launches'
    | stop ↦ some launches'
  ]

-- `runOnFunction` on the launches of a function. There is a first band.
unfoldable pub remove_loops : ℕ → List Ops → Option (List Ops)
unfolding bands_of walk_bands
remove_loops fuel launches = elim (bands_of launches) [
  | [] ↦ none
  | b ∷ bands ↦ walk_bands fuel (b ∷ bands) launches
]
