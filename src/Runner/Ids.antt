-- ===== src/Runner/Ids.antt =====
-- lib/EQueue/CommandProcessor.cpp: `Runner::buildIdMap`. It links the arguments of a region, the
-- results of an operation with a region and the components that are looked up by name to the values
-- that they stand for.
pub mod Components
pub mod Links
mod Examples
use Prim.Native.String.{String}
use text.Mathlib.Text.{◌==◌ as str_eq}
use event_queue.Common.{
  ℕ, zero, suc, ◌≡◌, Bool, true, false, Option, none, some, List, [], ◌∷◌, ◌++◌, update, ◌>>=◌,
  if◌then◌else◌,
}
use event_queue.Program.{
  Program, Kind, create_comp, add_comp, get_comp, launch, scf_for, splat, extract_element, operand,
  drop_front, null_value,
}
use event_queue.Runner.Build.{insert_if_new, walk_regions}

-- `std::map<std::string, mlir::Value>`.
abbrev pub NameMap : Type 0
NameMap = List (String × ℕ)

-- The maps that are built.
pub record Ids : Type 0 where
  pub value_ids : ℕ → Option ℕ
  pub vector_ids : ℕ → Option ℕ
  pub iter_init_value : ℕ → Option ℕ
  pub comp_map : ℕ → Option NameMap

abbrev pub no_ids : Ids
no_ids = record {
  value_ids = λ v. none;
  vector_ids = λ v. none;
  iter_init_value = λ v. none;
  comp_map = λ v. none;
}

-- What `m[k]` gives, and the map behind it: a key that is missing is put in with `Value()`.
abbrev pub value_or_null : Option ℕ → ℕ
value_or_null none = null_value
value_or_null (some v) = v

abbrev pub id_of : Ids → ℕ → ℕ
id_of s v = value_or_null (s.value_ids v)

abbrev pub seen : Ids → ℕ → Ids
seen s v = record s { value_ids = insert_if_new s.value_ids v null_value }

-- `valueIds.insert({v, id})`.
abbrev pub insert_id : Ids → ℕ → ℕ → Ids
insert_id s v id = record s { value_ids = insert_if_new s.value_ids v id }

-- A name that is there keeps its component.
abbrev pub find_name : String → NameMap → Option ℕ
find_name name [] = none
find_name name ((n, v) ∷ m) = if str_eq n name then some v else find_name name m

abbrev pub insert_name : NameMap → String → ℕ → NameMap
insert_name m name v = elim (find_name name m) [ none ↦ m ++ (name, v) ∷ [] | some _ ↦ m ]

-- The loop over the names and the operands of `create_comp` and `add_comp`.
unfoldable pub name_operands : Ids → NameMap → List String → List ℕ → Ids × NameMap
name_operands s m [] args = (s, m)
name_operands s m (name ∷ names) args =
    let v = operand args 0 in
    name_operands (seen s v) (insert_name m name (id_of s v)) names (drop_front args)

abbrev pub names_of : Option NameMap → NameMap
names_of none = []
names_of (some m) = m

-- Region arguments of a loop: each stands for itself, and begins with an operand of the loop.
unfoldable pub link_iterations : Ids → List ℕ → List ℕ → Ids
link_iterations s args [] = s
link_iterations s [] (v ∷ vs) = s
link_iterations s (arg ∷ args) (v ∷ vs) =
    let read = seen s v in
    link_iterations
      (insert_id
        (record read { iter_init_value = insert_if_new read.iter_init_value arg (id_of s v) }) arg
        arg)
      args vs

-- Region arguments of a launch: each stands for an operand.
unfoldable pub link_arguments : Ids → List ℕ → List ℕ → Ids
link_arguments s args [] = s
link_arguments s [] (v ∷ vs) = s
link_arguments s (arg ∷ args) (v ∷ vs) =
    link_arguments (insert_id (seen s v) arg (id_of s v)) args vs

-- Values that stand for themselves.
unfoldable pub insert_own : Ids → List ℕ → Ids
insert_own s [] = s
insert_own s (v ∷ vs) = insert_own (insert_id s v v) vs

-- Results of a loop or a launch: each stands for an operand of the region's last operation.
unfoldable pub link_results : Ids → List ℕ → List ℕ → Ids
link_results s results [] = s
link_results s [] (v ∷ vs) = s
link_results s (r ∷ rs) (v ∷ vs) =
    link_results
      (record (seen s v) { value_ids = update (seen s v).value_ids r (some (id_of s v)) }) rs vs

abbrev pub last_of : List ℕ → Option ℕ
last_of [] = none
last_of (op ∷ []) = some op
last_of (op ∷ next ∷ ops) = last_of (next ∷ ops)

module _ (p : Program) where
  abbrev enter_kind : Ids → ℕ → ℕ → Kind → Ids
  enter_kind s b pop scf_for =
      link_iterations s (drop_front (p.block b).arguments)
        (drop_front (drop_front (drop_front (p.operation pop).operands)))
  enter_kind s b pop launch =
      link_arguments s (p.block b).arguments (drop_front (drop_front (p.operation pop).operands))
  enter_kind s b pop k = insert_own s (p.block b).arguments

  -- The visit of a block, before its operations.
  unfoldable pub enter_region : Ids → ℕ → Option Ids
  unfolding link_iterations link_arguments insert_own
  enter_region s b =
      let pop = (p.block b).parent_op in some (enter_kind s b pop (p.operation pop).kind)

  abbrev find_comp : Ids → ℕ → Option ℕ → Ids
  find_comp s result none = insert_id s result result
  find_comp s result (some comp) = insert_id (seen s comp) result (id_of s comp)

  -- `get_comp` on the names of the component that it looks into.
  abbrev pub look_up : Ids → ℕ → ℕ → String → Ids
  look_up s handler result name =
      let comp = id_of s handler in
      let names = names_of (s.comp_map comp) in
      find_comp (record (seen s handler) { comp_map = update s.comp_map comp (some names) }) result
        (find_name name names)

  abbrev pub extract : Ids → ℕ → ℕ → Ids
  extract s vector result =
      let id = id_of s vector in
      let read = seen s vector in
      insert_id (record read { vector_ids = insert_if_new read.vector_ids id null_value }) result
        (value_or_null (read.vector_ids id))

  -- `compMap.insert({result, names})`: a component that is there stays.
  abbrev pub add_component : Ids × NameMap → ℕ → Ids
  add_component (s, names) result = elim (s.comp_map result) [
    | none ↦ record s { comp_map = update s.comp_map result (some names) }
    | some _ ↦ s
  ]

  abbrev set_names : ℕ → Ids × NameMap → Ids
  set_names comp (s, names) = record s { comp_map = update s.comp_map comp (some names) }

  abbrev components : Ids → ℕ → Kind → Ids
  components s op (create_comp names) =
      add_component (name_operands s [] names (p.operation op).operands)
        (operand (p.operation op).results 0)
  components s op (add_comp []) = seen s (operand (p.operation op).operands 0)
  components s op (add_comp names) =
      let args = (p.operation op).operands in
      let comp = id_of s (operand args 0) in
      set_names comp (
        name_operands (seen s (operand args 0)) (names_of (s.comp_map comp)) names
          (drop_front args))
  components s op k = s

  -- The operands of the last operation of a region; `none` for an empty block.
  abbrev yielded_of : ℕ → Option (List ℕ)
  yielded_of op = do
    last ← last_of (p.block (p.operation op).body).operations
    some (p.operation last).operands

  abbrev close_region : Ids → ℕ → Kind → Option Ids
  close_region s op scf_for = do
    yields ← yielded_of op
    some (link_results s (p.operation op).results yields)
  close_region s op launch = do
    yields ← yielded_of op
    some (link_results s (drop_front (p.operation op).results) yields)
  close_region s op splat =
      let v = operand (p.operation op).operands 0 in
      some (record (seen s v) {
        vector_ids = insert_if_new s.vector_ids (operand (p.operation op).results 0) (id_of s v);
      })
  close_region s op k = some s

  abbrev visit_kind : Ids → ℕ → Kind → Option Ids
  visit_kind s op (get_comp name) =
      some
        (look_up s (operand (p.operation op).operands 0) (operand (p.operation op).results 0) name)
  visit_kind s op extract_element =
      some (extract s (operand (p.operation op).operands 0) (operand (p.operation op).results 0))
  visit_kind s op k = close_region (insert_own (components s op k) (p.operation op).results) op k

  -- The visit of an operation, behind the regions in it.
  unfoldable pub visit_operation : Ids → ℕ → Option Ids
  unfolding name_operands link_results insert_own
  visit_operation s op = visit_kind s op (p.operation op).kind

  unfoldable pub build_id_map : ℕ → ℕ → Option Ids
  unfolding walk_regions enter_region visit_operation
  build_id_map depth top = walk_regions p enter_region visit_operation depth no_ids top
