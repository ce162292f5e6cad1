-- ===== src/Runner/State.antt =====
-- The fields of `class Runner` in lib/EQueue/CommandProcessor.cpp, and access to its launchers.
use Prim.Native.String.{String}
use event_queue.Common.{
  ℕ, ◌+◌, ◌≡◌, refl, Bool, Option, none, some, List, ◌∷◌, u64, lookup, assign, update, keys,
  keys-assign,
}
use event_queue.Connection.{Connection}
use event_queue.Memory.{Memory, Dma}
use event_queue.Launcher.{LauncherTable}

-- What a `std::unique_ptr<equeue::Device>` of `deviceMap` points to.
pub data Component : Type 0 where
  memory : Memory → Component
  dma : Dma → Component
  connection : Connection → Component

-- The arguments of a call of `emitTraceEvent`. The name is an operation's name and a number.
pub record TraceEvent : Type 0 where
  pub name : String
  pub number : ℕ
  pub cat : String
  pub ph : String
  pub start_time : ℕ
  pub tid : ℕ
  pub pid : ℕ

-- `launch_tables` and `device_map` stand in the order in which the source's maps are walked; what
-- is new stands last. `trace` holds the newest event first.
pub record Runner : Type 0 where
  pub value_map : ℕ → Option ℕ
  pub op_map : ℕ → ℕ
  pub device_id : ℕ
  pub device_map : List (ℕ × Component)
  pub trace : List TraceEvent
  pub host_table : LauncherTable
  pub launch_tables : List (ℕ × LauncherTable)
  pub control_queue : List ℕ
  pub ex_times : ℕ → ℕ
  pub signal_ids : ℕ → Option ℕ
  pub iter_state : ℕ → Bool
  pub iter_init_value : ℕ → Option ℕ
  pub value_ids : ℕ → ℕ
  pub block_exs : ℕ → ℕ

-- A launcher: the host, or an entry of `launchTables`.
pub data Who : Type 0 where
  host : Who
  device : ℕ → Who

-- A reference to a launcher's table is read and written through the runner, since the table of one
-- launcher may be reached as that of another operation's launcher too.
abbrev pub table : Runner → Who → Option LauncherTable
table r host = some r.host_table
table r (device v) = lookup v r.launch_tables

abbrev pub set_table : Runner → Who → LauncherTable → Runner
set_table r host l = record r { host_table = l }
set_table r (device v) l = record r { launch_tables = assign v l r.launch_tables }

-- `count++` on a counter that is missing at first.
abbrev pub next_count : Option ℕ → ℕ
next_count none = 1
next_count (some n) = u64 (n + 1)

abbrev pub count_of : Option ℕ → ℕ
count_of none = 0
count_of (some n) = n

abbrev pub bump_op : Runner → ℕ → Runner
bump_op r op = record r { op_map = update r.op_map op (u64 (r.op_map op + 1)) }

abbrev pub emit : TraceEvent → Runner → Runner
emit e r = record r { trace = e ∷ r.trace }

pub keys-set_table :
    (r : Runner) (w : Who) (l : LauncherTable)
    → keys (set_table r w l).launch_tables ≡ keys r.launch_tables
keys-set_table r host l = refl
keys-set_table r (device v) l = keys-assign v l r.launch_tables
