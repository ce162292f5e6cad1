-- ===== src/Runner/Examples.antt =====
-- A small program, and what the simulator of lib/EQueue/CommandProcessor.cpp does with it.
use Prim.Native.String.{String}
use event_queue.Common.{
  ℕ, suc, ◌+◌, ◌*◌, ◌-◌, ◌<◌, ◌≤◌, ◌≡◌, ◌⊎◌, refl, ◌||◌, Bool, true, false, Option, none, some,
  List, [], ◌∷◌, arith, get_elem?, u64, length, ◌==◌, if◌then◌else◌,
}
use event_queue.Program.{
  Program, Kind, Operation, Block, constant, launch, return_op, await, control_start, control_or,
  create_proc, scf_for, scf_yield, other, is_control, is_async, is_structure, get_constant,
  get_ex_times,
}
use event_queue.Launcher.{
  LauncherTable, new_launcher, is_idle, is_started, is_done, set_block, add_event_queue,
}
use event_queue.Runner.State.{Runner, host, device, bump_op}
use event_queue.Runner.Signals.{
  wait_for_signal, wait_for_operands, wait_for_signals, update_execution, update_signal_ids,
  update_iter_state,
}
use event_queue.Runner.Model.{model_op, takes_no_time}
use event_queue.Runner.Control.{scan_control, check_control_queue, check_event_queue}
use event_queue.Runner.Entry.{after_op, yield_to, sync_table, turn, enter, set_op_entry}
use event_queue.Runner.Steps.{
  mark_devices, mark_entry, finish_effect, finish_op, schedule_op, next_end_times,
}
use event_queue.Runner.Simulate.{
  min_element, next_time, all_end_times, any_busy, enter_all, poll, schedule_all, finish_all,
  round_queues, round_work, simulate,
}
use event_queue.Runner.Run.{simulate_function, run}
use event_queue.Runner.Build.{build_ex_map, has_region, walk_operations, walk_regions}
use event_queue.Runner.Ids.{
  build_id_map, enter_region, visit_operation, name_operands, link_results, link_arguments,
  link_iterations, insert_own,
}
use event_queue.Runner.Simulate.Clock.{
  NoneBefore, AnyEndsAt, NoneAtWork, launchers, next_time-earliest,
}
use event_queue.Runner.Steps.Finish.{Ends, has_ended, finish_op-Freed}
use event_queue.Runner.Steps.Trace.{Gained, mark_entry-Gained}
use event_queue.Runner.Entry.Keys.{Kept, set_op_entry-Kept}
use event_queue.Runner.Entry.Loops.{
  looped, left, yield_to_rounds, get_ex_times_least, empty_loop_faults,
}
use event_queue.Runner.Control.Fixpoint.{Scanned, check_control_queue-Scanned}
use event_queue.Runner.Control.Conjunction.{wait_for_signals_all}
use event_queue.Runner.Signals.Waiting.{Looked, wait_for_signals-Looked}
use event_queue.Runner.Signals.Handshake.{IsBeside, after_giving, signal_handshake}

abbrev an_operation : Kind → List ℕ → List ℕ → ℕ → ℕ → Operation
an_operation k args results parent body = record {
  kind = k;
  operands = args;
  results = results;
  parent = parent;
  body = body;
}

abbrev nothing : Operation
nothing = an_operation (other "none") [] [] 0 0

abbrev known {ℓ} : {A : Type ℓ} → A → Option A → A
known d none = d
known d (some a) = a

-- Block 0 starts a signal, makes a processor, launches block 1 on it and awaits its end. Block 2
-- holds a loop from 0 to 3, with block 3 as its body, and a loop from 3 to 3, with block 4.
abbrev operations : List Operation
operations =
    an_operation control_start [] (11 ∷ []) 0 0
    ∷ an_operation create_proc [] (12 ∷ []) 0 0
    ∷ an_operation launch (11 ∷ 12 ∷ []) (13 ∷ []) 0 1
    ∷ an_operation await (13 ∷ []) [] 0 0
    ∷ an_operation return_op [] [] 1 0
    ∷ an_operation (constant 0) [] (15 ∷ []) 2 0
    ∷ an_operation (constant 3) [] (16 ∷ []) 2 0
    ∷ an_operation (constant 1) [] (17 ∷ []) 2 0
    ∷ an_operation scf_for (15 ∷ 16 ∷ 17 ∷ []) [] 2 3
    ∷ an_operation scf_yield [] [] 3 0
    ∷ an_operation scf_for (16 ∷ 16 ∷ 17 ∷ []) [] 2 4
    ∷ an_operation scf_yield [] [] 4 0
    ∷ an_operation control_or (11 ∷ 13 ∷ []) (18 ∷ []) 0 0
    ∷ an_operation (other "mul") [] [] 1 0
    ∷ []

abbrev a_block : List ℕ → ℕ → Block
a_block ops parent = record { operations = ops; arguments = []; parent_op = parent }

abbrev blocks : List Block
blocks =
    a_block (0 ∷ 1 ∷ 2 ∷ 3 ∷ []) 99
    ∷ a_block (13 ∷ 4 ∷ []) 2
    ∷ a_block (5 ∷ 6 ∷ 7 ∷ 8 ∷ 10 ∷ []) 99
    ∷ a_block (9 ∷ []) 8
    ∷ a_block (11 ∷ []) 10
    ∷ []

abbrev sample : Program
sample = record {
  operation = λ n. known nothing (get_elem? operations n);
  block = λ n. known (a_block [] 99) (get_elem? blocks n);
  definer = λ v. get_elem? (0 ∷ 1 ∷ 2 ∷ 3 ∷ 5 ∷ 6 ∷ 7 ∷ 12 ∷ []) (v - 11);
  is_signal = λ v. (v == 11) || (v == 13) || (v == 18);
}

abbrev first_runner : Runner
first_runner = record {
  value_map = λ v. none;
  op_map = λ op. 0;
  device_id = 0;
  device_map = [];
  trace = [];
  host_table = record (new_launcher "host") {
    host = true;
    block = some 0;
    next_iter = 0 ∷ 1 ∷ 2 ∷ 3 ∷ [];
  };
  launch_tables = [];
  control_queue = [];
  ex_times = λ op. 0;
  signal_ids = λ v. none;
  iter_state = λ v. false;
  iter_init_value = λ v. none;
  value_ids = λ v. v;
  block_exs = λ b. 1;
}

abbrev named : Kind → String
named k = "op"

program : Unit {0}
unfolding is_control is_async is_structure get_constant get_ex_times is_idle is_started is_done
    set_block add_event_queue wait_for_signal wait_for_operands wait_for_signals update_execution
    update_signal_ids update_iter_state model_op takes_no_time scan_control check_control_queue
    check_event_queue after_op yield_to sync_table turn enter set_op_entry mark_devices mark_entry
    finish_effect finish_op schedule_op next_end_times min_element next_time all_end_times any_busy
    enter_all poll schedule_all finish_all round_queues round_work simulate simulate_function run
    build_id_map build_ex_map has_region walk_operations walk_regions enter_region visit_operation
    name_operands link_results link_arguments link_iterations insert_own
program = tt

-- Whether the simulation still runs after the given number of rounds, with the time, the counts of
-- the launch's and of the control operation's signal, and the number of trace events.
abbrev outcome : Option (Bool × Runner × ℕ) → Option (Bool × ℕ × Option ℕ × Option ℕ × ℕ)
outcome none = none
outcome (some (running, r, time)) =
    some (running, time, r.value_map 11, r.value_map 13, length r.trace)

-- The program is done after its multiplication, at time 2.
run-sample : outcome (run sample named 10 10 20 0) ≡ some (false, 2, some 1, some 1, 4)
unfolding program
run-sample = refl

-- The launch is at work on launcher 12 from time 1 to 3, and nothing on the host.
abbrev busy_table : LauncherTable
busy_table = record (new_launcher "proc") {
  op_entry = record {
    op = some 2;
    tid = 4;
    mem_tids = 7 ∷ [];
    start_time = 1;
    end_time = 3;
    queue_ready_time = 1;
  };
  event_queue = 2 ∷ [];
}

abbrev busy_runner : Runner
busy_runner = record first_runner { launch_tables = (12, busy_table) ∷ [] }

next_time-earliest_example :
    (NoneBefore 3 (launchers busy_runner) × AnyEndsAt 3 (launchers busy_runner))
    ⊎ (NoneAtWork (launchers busy_runner) × (3 ≡ u64 (1 + 1)))
unfolding program
next_time-earliest_example = next_time-earliest busy_runner 1

finish_op-Freed_example :
    ((has_ended busy_table 3 ≡ false)
      × (finish_op sample named busy_runner (device 12) 3 1 ≡ some busy_runner))
    ⊎ ((has_ended busy_table 3 ≡ true)
        × Ends sample named busy_runner
            (device 12)
            2
            busy_table
            (finish_op sample named busy_runner (device 12) 3 1))
unfolding program
finish_op-Freed_example =
    finish_op-Freed sample named busy_runner (device 12) 3 1 2 busy_table refl refl

mark_entry-Gained_example :
    Gained 1 3 []
      (mark_entry sample named busy_table busy_table.op_entry 2 0 1 1 busy_runner).trace
      []
      (mark_entry sample named busy_table busy_table.op_entry 2 1 3 1 busy_runner).trace
mark_entry-Gained_example =
    mark_entry-Gained sample named busy_table busy_table busy_table.op_entry 2 1 3 1 busy_runner
      busy_runner refl

abbrev entered_runner : Runner
unfolding is_control is_async set_block add_event_queue update_execution after_op yield_to
    sync_table turn enter set_op_entry get_ex_times get_constant
entered_runner = (known (first_runner, 0) (set_op_entry sample first_runner host 0)).0

set_op_entry-Kept_example : Kept sample first_runner entered_runner
unfolding program entered_runner
set_op_entry-Kept_example =
    set_op_entry-Kept sample first_runner entered_runner host 0 1
      (record { tables = tt; controls = tt }) refl

abbrev waiting_runner : Runner
waiting_runner = record first_runner { control_queue = 12 ∷ 0 ∷ [] }

check_control_queue-Scanned_example : Scanned sample (check_control_queue sample waiting_runner)
unfolding is_control
check_control_queue-Scanned_example =
    check_control_queue-Scanned sample waiting_runner (ground arith)

abbrev given_runner : Runner
given_runner = record first_runner { value_map = λ v. if v == 11 then some 1 else none }

launch-IsBeside : IsBeside sample first_runner 2 11 11 1
launch-IsBeside = record {
  is = refl;
  plain = refl;
  definer = 0;
  defined = refl;
  beside = refl;
  runs = refl;
  positive = omega arith;
  small = omega arith;
}

signal_handshake_example :
    (wait_for_signal sample first_runner 2 11 ≡ (true, first_runner))
    × (wait_for_signal sample (after_giving sample first_runner 11) 2 11
        ≡ (false, after_giving sample first_runner 11))
    × (wait_for_signal sample (bump_op (after_giving sample first_runner 11) 2) 2 11
        ≡ (true, bump_op (after_giving sample first_runner 11) 2))
signal_handshake_example =
    signal_handshake sample first_runner 2 11 11 11 1 0 launch-IsBeside refl refl refl refl
      (omega arith)

wait_for_signals-Looked_example : Looked given_runner (wait_for_signals sample given_runner 12).1
wait_for_signals-Looked_example = wait_for_signals-Looked sample given_runner 12

wait_for_signals_all_example : (wait_for_signals sample given_runner 12).0 ≡ true
wait_for_signals_all_example =
    wait_for_signals_all sample given_runner 12 13 (11 ∷ []) [] refl
      (record { signal = refl; plain = refl; never = refl })

yield_to_rounds_example :
    ((j : ℕ)
      → j < 2
      → yield_to sample 9 (1 * 3 + suc j) busy_table ≡ some (looped sample 9 busy_table))
    × (yield_to sample 9 6 busy_table ≡ some (left sample 9 busy_table))
unfolding program
yield_to_rounds_example = yield_to_rounds sample 9 1 2 busy_table refl

get_ex_times_least_example :
    (n : ℕ) × (get_ex_times sample 8 ≡ some n) × (3 ≤ 0 + n * 1) × (n * 1 < 3 - 0 + 1)
unfolding program
get_ex_times_least_example =
    get_ex_times_least sample 8 0 3 1 (refl, refl, refl) (omega arith) (omega arith)

abbrev looping_runner : Runner
looping_runner = record first_runner {
  host_table = record (new_launcher "host") { host = true; block = some 4; next_iter = 11 ∷ [] };
}

empty_loop_faults_example : set_op_entry sample looping_runner host 0 ≡ none
unfolding program
empty_loop_faults_example =
    empty_loop_faults sample looping_runner host 0 11 3 0 4 [] looping_runner.host_table refl refl
      refl refl refl refl
