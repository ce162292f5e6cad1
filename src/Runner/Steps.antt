-- ===== src/Runner/Steps.antt =====
-- lib/EQueue/CommandProcessor.cpp: `Runner::scheduleOp`, `Runner::finishOp` and
-- `Runner::nextEndTimes`. A trace event carries the operation and the entry's id in place of the
-- text that the source makes of them.
pub mod Trace
pub mod Effects
pub mod Ends
pub mod Finish
use Prim.Native.String.{String}
use event_queue.Common.{
  ℕ, zero, suc, ◌+◌, ◌%◌, ◌<◌, ◌≡◌, Bool, true, false, Option, none, some, List, [], ◌∷◌, ◌++◌,
  ◌>>=◌, ◌>>◌, check, u64, ◌==◌, ltb, not, ◌&&◌, if◌then◌else◌, minus_one, lookup,
}
use event_queue.Program.{
  Program, Kind, launch, mem_copy, return_op, scf_for, scf_yield, await, create_proc, create_dma,
  operand, parent_op, get_ex_times, drop_front,
}
use event_queue.Launcher.{
  OpEntry, LauncherTable, new_launcher, empty_entry, is_idle, is_started, is_done,
}
use event_queue.Runner.State.{Runner, TraceEvent, Who, table, set_table, bump_op, emit}
use event_queue.Runner.Signals.{
  wait_for_signals, update_execution, update_signal_ids, update_iter_state,
}
use event_queue.Runner.Model.{model_op}

-- The events of one side, "B" or "E", of an entry: its own, if it takes time, and one for each
-- device that it uses.
abbrev pub mark : String → ℕ → LauncherTable → ℕ → ℕ → ℕ → ℕ → TraceEvent
mark name number l ph time tid pid = record {
  name = name;
  number = number;
  cat = l.name;
  ph = if ph == 0 then "B" else "E";
  start_time = time;
  tid = tid;
  pid = pid;
}

-- `drop_front` of the operands of a launch: what its body gets.
abbrev pub launch_operands : List ℕ → List ℕ
launch_operands args = drop_front (drop_front args)

-- `Op.getIterOperands()` of a loop: behind its bounds and step.
abbrev pub iter_operands : List ℕ → List ℕ
iter_operands args = drop_front (drop_front (drop_front args))

module _ (p : Program) (op_name : Kind → String) where
  -- The marks "B" (`ph` 0) and "E" (`ph` 1) of an entry at `time` on the row `row`.
  unfoldable pub mark_devices : LauncherTable → OpEntry → ℕ → ℕ → ℕ → List ℕ → Runner → Runner
  mark_devices l e op ph time [] r = r
  mark_devices l e op ph time (uid ∷ uids) r =
      mark_devices l e op ph time uids
        (emit (mark (op_name (p.operation op).kind) e.tid l ph time uid 1) r)

  unfoldable pub mark_entry : LauncherTable → OpEntry → ℕ → ℕ → ℕ → ℕ → Runner → Runner
  unfolding mark_devices
  mark_entry l e op ph time row r = mark_devices l e op ph time e.mem_tids (
      if e.end_time == e.start_time
      then r
      else emit (mark (op_name (p.operation op).kind) e.tid l ph time row 0) r)

  -- The part of `finishOp` that depends on the operation.
  abbrev launcher_name : Kind → String
  launcher_name create_dma = "dma"
  launcher_name k = ""

  -- `launchTables.insert({key, l})`: a launcher that is there stays.
  abbrev pub new_table : Runner → ℕ → String → Runner
  new_table r key n = elim (lookup key r.launch_tables) [
    | none ↦ record r { launch_tables = r.launch_tables ++ (key, new_launcher n) ∷ [] }
    | some _ ↦ r
  ]

  abbrev region_arguments : ℕ → List ℕ
  region_arguments op = (p.block (p.operation op).body).arguments

  -- The arguments of a loop's body behind its induction variable.
  abbrev iter_arguments : ℕ → List ℕ
  iter_arguments op = drop_front (region_arguments op)

  abbrev finish_yield : Runner → ℕ → Option Runner
  finish_yield r op = do
    let loop = parent_op p op
    n ← get_ex_times p loop
    check (not (n == 0))
    if r.ex_times op % n == 0
        then some (update_signal_ids p r (p.operation loop).results (p.operation op).operands)
        else some (
            update_iter_state p
              (update_signal_ids p r (iter_arguments loop) (p.operation op).operands)
              (iter_arguments loop) true)

  unfoldable pub finish_effect : Runner → ℕ → Kind → Option Runner
  unfolding update_execution update_signal_ids update_iter_state
  finish_effect r op (mem_copy _ _ _) = some (update_execution p r (p.operation op).results)
  finish_effect r op launch =
      some (update_signal_ids p r (region_arguments op) (launch_operands (p.operation op).operands))
  finish_effect r op return_op =
      let results = (p.operation (parent_op p op)).results in
      some (
        update_signal_ids p (update_execution p r (operand results 0 ∷ [])) (drop_front results)
          (p.operation op).operands)
  finish_effect r op scf_for = some (
      update_iter_state p
        (update_signal_ids p r (iter_arguments op) (iter_operands (p.operation op).operands))
        (iter_arguments op) false)
  finish_effect r op scf_yield = finish_yield r op
  finish_effect r op create_dma =
      some (new_table r (operand (p.operation op).results 0) (launcher_name create_dma))
  finish_effect r op create_proc =
      some (new_table r (operand (p.operation op).results 0) (launcher_name create_proc))
  finish_effect r op k = some r

  -- `l.op_entry = OpEntry()` behind the effect and the trace events.
  abbrev pub release : Who → LauncherTable → ℕ → ℕ → ℕ → Runner → Option Runner
  release w l op time row r = do
    l' ← table r w
    some (
        set_table (mark_entry l l.op_entry op 1 time row r) w
          (record l' { op_entry = empty_entry }))

  abbrev pub finish_started : Runner → Who → LauncherTable → ℕ → ℕ → ℕ → Option Runner
  finish_started r w l op time row =
      finish_effect r op (p.operation op).kind >>= release w l op time row

  abbrev pub finish_entry : Runner → Who → LauncherTable → ℕ → ℕ → Option ℕ → Option Runner
  finish_entry r w l time row none = some r
  finish_entry r w l time row (some op) =
      if is_started l.op_entry && is_done l.op_entry time
      then finish_started r w l op time row
      else some r

  unfoldable pub finish_op : Runner → Who → ℕ → ℕ → Option Runner
  unfolding finish_effect is_started is_done mark_entry
  finish_op r w time row = do l ← table r w; finish_entry r w l time row l.op_entry.op

  -- The counts of `opMap` that `scheduleOp` takes.
  abbrev pub counts : Kind → Bool
  counts launch = true
  counts (mem_copy _ _ _) = true
  counts await = true
  counts k = false

  abbrev is_await : Kind → Bool
  is_await await = true
  is_await k = false

  module _ (views depth : ℕ) where
    abbrev stall : LauncherTable → OpEntry → ℕ → ℕ → Runner → Runner
    stall l e time row r =
        if ltb e.queue_ready_time time
        then emit (mark "stall" 0 l 1 time row 0)
            (emit (mark "stall" 0 l 0 e.queue_ready_time row 0) r)
        else r

    abbrev started : Runner → Who → LauncherTable → OpEntry → ℕ → ℕ → ℕ → ℕ → List ℕ → Runner
    started r w l e op time row end' tids =
        let e' = record e { start_time = time; end_time = end'; mem_tids = tids } in
        set_table (stall l e' time row (mark_entry l e' op 0 time row r)) w
          (record l { op_entry = e' })

    abbrev pub start : Runner → Who → LauncherTable → OpEntry → ℕ → ℕ → ℕ → Option Runner
    start r w l e op time row = do
      let counted = if counts (p.operation op).kind then bump_op r op else r
      (end', r', tids) ← model_op p views depth time counted e.mem_tids op
      if end' == minus_one
          then some (set_table r' w (record l { op_entry = record e { mem_tids = tids } }))
          else some (started r' w l e op time row end' tids)

    -- The operation that a launcher holds starts, unless it has started, or awaits a signal.
    abbrev start_unless : Who → LauncherTable → OpEntry → ℕ → ℕ → ℕ → Bool × Runner → Option Runner
    start_unless w l e op time row (true, r) = some (set_table r w (record l { op_entry = e }))
    start_unless w l e op time row (false, r) =
        if is_started e
        then some (set_table r w (record l { op_entry = e }))
        else start r w l e op time row

    abbrev pub made_ready : OpEntry → ℕ → OpEntry
    made_ready e time = if e.queue_ready_time == 0 then record e { queue_ready_time = time } else e

    abbrev schedule_entry : Runner → Who → LauncherTable → ℕ → ℕ → Option ℕ → Option Runner
    schedule_entry r w l time row none = some r
    schedule_entry r w l time row (some op) =
        start_unless w l (made_ready l.op_entry time) op time row
          (if is_await (p.operation op).kind then wait_for_signals p r op else (false, r))

    unfoldable pub schedule_op : Runner → Who → ℕ → ℕ → Option Runner
    unfolding wait_for_signals is_started model_op mark_entry
    schedule_op r w time row = do l ← table r w; schedule_entry r w l time row l.op_entry.op

-- `nextEndTimes` on one launcher.
abbrev no_op : Option ℕ → Bool
no_op none = true
no_op (some _) = false

unfoldable pub next_end_times : LauncherTable → List ℕ → List ℕ
unfolding is_idle is_started
next_end_times l next_times =
    if not (is_idle l) && is_started l.op_entry
    then next_times ++ l.op_entry.end_time ∷ []
    else next_times
