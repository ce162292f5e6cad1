-- ===== src/Runner/Run.antt =====
-- lib/EQueue/CommandProcessor.cpp: `CommandProcessor::run`, which builds the maps of a program and
-- simulates it, and the start of `Runner::simulateFunction`.
use Prim.Native.String.{String}
use event_queue.Common.{ℕ, Bool, true, false, Option, none, some, [], ◌>>=◌}
use event_queue.Program.{Program, Kind}
use event_queue.Launcher.{new_launcher}
use event_queue.Runner.State.{Runner, count_of}
use event_queue.Runner.Build.{build_ex_map}
use event_queue.Runner.Ids.{Ids, id_of, build_id_map}
use event_queue.Runner.Simulate.{simulate}

-- The runner as its constructor and the two maps leave it. A value that the maps lack is null.
abbrev pub new_runner : Ids → (ℕ → Option ℕ) → Runner
new_runner ids block_exs = record {
  value_map = λ v. none;
  op_map = λ op. 0;
  device_id = 0;
  device_map = [];
  trace = [];
  host_table = new_launcher "";
  launch_tables = [];
  control_queue = [];
  ex_times = λ op. 0;
  signal_ids = λ v. none;
  iter_state = λ v. false;
  iter_init_value = ids.iter_init_value;
  value_ids = id_of ids;
  block_exs = λ b. count_of (block_exs b);
}

module _ (p : Program) (op_name : Kind → String) (views depth : ℕ) where
  abbrev pub with_host : Runner → ℕ → Runner
  with_host r top = record r {
    host_table = record (new_launcher "host") {
      host = true;
      block = some top;
      next_iter = (p.block top).operations;
    };
  }

  -- The simulation of the function whose block is `top`, for so many rounds.
  unfoldable pub simulate_function : ℕ → Runner → ℕ → Option (Bool × Runner × ℕ)
  unfolding simulate
  simulate_function rounds r top = simulate p op_name views depth rounds (with_host r top) 1 0

  unfoldable pub run : ℕ → ℕ → Option (Bool × Runner × ℕ)
  unfolding simulate_function build_id_map build_ex_map
  run rounds top = do
    ids ← build_id_map p depth top
    block_exs ← build_ex_map p depth top
    simulate_function rounds (new_runner ids block_exs) top
