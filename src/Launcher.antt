-- ===== src/Launcher.antt =====
-- include/EQueue/CommandProcessor.h: the operation at work on a launcher (`OpEntry`), and a
-- launcher with its event queue (`LauncherTable`).
pub mod Bounds
mod Examples
use Prim.Native.String.{String}
use event_queue.Common.{
  ℕ, ◌≡◌, Bool, true, false, not, ◌&&◌, Option, none, some, List, [], ◌∷◌, ◌++◌, leb, ◌==◌,
  if◌then◌else◌, length,
}
use event_queue.Program.{Program}

-- `connection_tids` is left out: nothing writes or reads it.
pub record OpEntry : Type 0 where
  pub op : Option ℕ
  pub tid : ℕ
  pub mem_tids : List ℕ
  pub start_time : ℕ
  pub end_time : ℕ
  pub queue_ready_time : ℕ

unfoldable pub is_started : OpEntry → Bool
is_started e = not (e.start_time == 0) && not (e.end_time == 0)

unfoldable pub is_done : OpEntry → ℕ → Bool
is_done e t = leb e.end_time t

abbrev pub empty_entry : OpEntry
empty_entry = record {
  op = none;
  tid = 0;
  mem_tids = [];
  start_time = 0;
  end_time = 0;
  queue_ready_time = 0;
}

abbrev pub new_entry : ℕ → ℕ → OpEntry
new_entry o id = record empty_entry { op = some o; tid = id }

abbrev pub event_queue_size : ℕ
event_queue_size = 20000

-- `next_iter` is the rest of the block from the iterator on; at the end of the block it is empty.
pub record LauncherTable : Type 0 where
  pub host : Bool
  pub name : String
  pub op_entry : OpEntry
  pub block : Option ℕ
  pub next_iter : List ℕ
  pub event_queue : List ℕ

abbrev pub new_launcher : String → LauncherTable
new_launcher n = record {
  host = false;
  name = n;
  op_entry = empty_entry;
  block = none;
  next_iter = [];
  event_queue = [];
}

abbrev no_op : Option ℕ → Bool
no_op none = true
no_op (some _) = false

unfoldable pub is_idle : LauncherTable → Bool
is_idle l = no_op l.op_entry.op

unfoldable pub set_block : Program → LauncherTable → ℕ → LauncherTable
set_block p l b = record l { block = some b; next_iter = (p.block b).operations }

-- Whether the operation found room, and the launcher behind the call.
unfoldable pub add_event_queue : LauncherTable → ℕ → Bool × LauncherTable
add_event_queue l o =
    if not l.host && length l.event_queue == event_queue_size
    then (false, l)
    else (true, record l { event_queue = l.event_queue ++ o ∷ [] })
