-- ===== src/Runner/Entry.antt =====
-- lib/EQueue/CommandProcessor.cpp: `Runner::setOpEntry`.
pub mod Keys
pub mod Loops
use event_queue.Common.{
  ℕ, zero, suc, ◌+◌, ◌%◌, ◌≡◌, Bool, true, false, Option, none, some, List, [], ◌∷◌, ◌++◌, ◌>>=◌,
  ◌>>◌, check, u64, update, ◌==◌, not, if◌then◌else◌,
}
use event_queue.Program.{
  Program, Kind, launch, mem_copy, scf_for, scf_yield, is_control, is_async, operand, parent_op,
  get_ex_times, null_value,
}
use event_queue.Launcher.{LauncherTable, new_entry, set_block, add_event_queue}
use event_queue.Runner.State.{Runner, Who, device, table, set_table, bump_op}
use event_queue.Runner.Signals.{update_execution}

-- How a turn of the loop ends: the loop goes on, or stops with the runner and the next id.
pub data Turn : Type 0 where
  onward : Runner → Turn
  stop : Runner → ℕ → Turn

-- The operations of a block behind the given one: `++Block::iterator(pop)`.
unfoldable pub after_op : ℕ → List ℕ → List ℕ
after_op op [] = []
after_op op (o ∷ os) = if o == op then os else after_op op os

abbrev pub launcher_operand : Kind → List ℕ → ℕ
launcher_operand launch args = operand args 1
launcher_operand (mem_copy _ _ _) args = operand args 3
launcher_operand k args = null_value

-- `l.next_iter++`.
abbrev pub advance : Runner → Who → List ℕ → Option Runner
advance r w rest = do l ← table r w; some (set_table r w (record l { next_iter = rest }))

abbrev pub push_control : Runner → ℕ → Runner
push_control r op = record r { control_queue = r.control_queue ++ op ∷ [] }

module _ (p : Program) where
  -- An operation for a launcher that does not exist is done at once.
  abbrev pub skip : Runner → Who → ℕ → List ℕ → Option Turn
  skip r w op rest = do
    r' ← advance (update_execution p (bump_op r op) (p.operation op).results) w rest
    some (onward r')

  abbrev pub queued : Runner → Who → ℕ → ℕ → List ℕ → Bool × LauncherTable → Option Turn
  queued r w tid launcher rest (false, lt) = some (stop r tid)
  queued r w tid launcher rest (true, lt) = do
    r' ← advance (set_table r (device launcher) lt) w rest
    some (onward r')

  abbrev pub hand_over : Runner → Who → ℕ → ℕ → ℕ → List ℕ → Option LauncherTable → Option Turn
  hand_over r w tid op launcher rest none = skip r w op rest
  hand_over r w tid op launcher rest (some lt) =
      queued r w tid launcher rest (add_event_queue lt op)

  abbrev pub async_turn : Runner → Who → ℕ → ℕ → List ℕ → Kind → Option Turn
  async_turn r w tid op rest k =
      if is_control k
      then (do r' ← advance (push_control r op) w rest; some (onward r'))
      else (let launcher = r.value_ids (launcher_operand k (p.operation op).operands) in
          hand_over r w tid op launcher rest (table r (device launcher)))

  -- The end of a loop's body: the loop goes round again or is left. `none` for the remainder of a
  -- division by zero.
  unfoldable pub yield_to : ℕ → ℕ → LauncherTable → Option LauncherTable
  yield_to op times l = do
    let loop = parent_op p op
    n ← get_ex_times p loop
    check (not (n == 0))
    if times % n == 0
        then some (record l {
          block = some (p.operation loop).parent;
          next_iter = after_op loop (p.block (p.operation loop).parent).operations;
        })
        else some (record l { next_iter = (p.block (p.operation loop).body).operations })

  -- The operation becomes the launcher's own, and the launcher's iterator moves on.
  unfoldable pub sync_table : ℕ → ℕ → LauncherTable → List ℕ → Kind → Option LauncherTable
  sync_table op times l rest scf_for = some (set_block p l (p.operation op).body)
  sync_table op times l rest scf_yield = yield_to op times l
  sync_table op times l rest k = some (record l { next_iter = rest })

  -- `exTimes[op]++`, at the end of a loop's body.
  abbrev pub yielded : Runner → ℕ → ℕ → Kind → Runner
  yielded r op times scf_yield = record r { ex_times = update r.ex_times op times }
  yielded r op times k = r

  abbrev pub sync_turn : Runner → Who → ℕ → ℕ → List ℕ → Kind → Option Turn
  sync_turn r w tid op rest k = do
    l ← table r w
    let times = u64 (r.ex_times op + 1)
    l' ← sync_table op times (record l { op_entry = new_entry op tid }) rest k
    some (stop (set_table (yielded r op times k) w l') (u64 (tid + 1)))

  unfoldable pub turn : Runner → Who → ℕ → ℕ → List ℕ → Option Turn
  turn r w tid op rest =
      let k = (p.operation op).kind in
      if is_async k then async_turn r w tid op rest k else sync_turn r w tid op rest k

  -- The loop of `setOpEntry` over the operations from `next_iter` on.
  unfoldable pub enter : Runner → Who → ℕ → List ℕ → Option (Runner × ℕ)
  enter r w tid [] = some (r, tid)
  enter r w tid (op ∷ rest) = elim (turn r w tid op rest) [
    | none ↦ none
    | some (onward r') ↦ enter r' w tid rest
    | some (stop r' tid') ↦ some (r', tid')
  ]

  abbrev pub enter_if_idle : Runner → Who → ℕ → Option ℕ → Option ℕ → List ℕ → Option (Runner × ℕ)
  enter_if_idle r w tid (some op) block rest = some (r, tid)
  enter_if_idle r w tid none none rest = some (r, tid)
  enter_if_idle r w tid none (some b) rest = enter r w tid rest

  -- A launcher with no operation at work hands on the asynchronous operations that come next, and
  -- takes up the first other one.
  unfoldable pub set_op_entry : Runner → Who → ℕ → Option (Runner × ℕ)
  set_op_entry r w tid = do l ← table r w; enter_if_idle r w tid l.op_entry.op l.block l.next_iter
