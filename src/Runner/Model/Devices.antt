-- ===== src/Runner/Model/Devices.antt =====
-- lib/EQueue/CommandProcessor.cpp: what the branches of `Runner::modelOp` do with one entry of
-- `deviceMap`, and `Runner::getMemVolume`.
use Prim.Native.String.{String}
use text.Mathlib.Text.{◌==◌ as str_eq}
use event_queue.Common.{
  ℕ, zero, suc, ◌+◌, Bool, true, false, not, Option, none, some, List, [], ◌∷◌, u64, ◌==◌,
  if◌then◌else◌, ◌>>=◌, lookup, product,
}
use event_queue.Program.{null_value}
use event_queue.Device.{schedule_event}
use event_queue.Connection.{Connection, MemOp, schedule_transmission}
use event_queue.Memory.{Memory, Dma, new_register_file, new_sram, new_dram, new_sink, access_cycles}
use event_queue.Runner.State.{Runner, Component, memory, dma}
use event_queue.Runner.State

-- `getMemVolume`: the product of a shape.
unfoldable pub mem_volume : List ℕ → ℕ
mem_volume shape = product shape

-- `deviceMap[key] = c`.
abbrev put_component : ℕ → Component → List (ℕ × Component) → List (ℕ × Component)
put_component key c [] = (key, c) ∷ []
put_component key c ((k, d) ∷ m) = if k == key then (k, c) ∷ m else (k, d) ∷ put_component key c m

abbrev pub store_component : Runner → ℕ → Component → Runner
store_component r key c = record r { device_map = put_component key c r.device_map }

-- The casts of `deviceMap[key].get()`; `none` where there is no device, or one of another class.
abbrev as_memory : Option Component → Option Memory
as_memory (some (memory m)) = some m
as_memory _ = none

abbrev as_dma : Option Component → Option Dma
as_dma (some (dma d)) = some d
as_dma _ = none

abbrev as_connection : Option Component → Option Connection
as_connection (some (State.connection c)) = some c
as_connection _ = none

abbrev pub memory_at : Runner → ℕ → Option Memory
memory_at r key = as_memory (lookup key r.device_map)

abbrev pub dma_at : Runner → ℕ → Option Dma
dma_at r key = as_dma (lookup key r.device_map)

abbrev connection_at : Runner → ℕ → Option Connection
connection_at r key = as_connection (lookup key r.device_map)

-- The end of an operation as `modelOp` returns it, the runner, and the devices that it used.
abbrev pub Modelled : Type 0
Modelled = Option (ℕ × Runner × List ℕ)

-- The constructors that `CreateMemOp` chooses from.
abbrev pub build_memory : String → ℕ → ℕ → ℕ → ℕ → Option Memory
build_memory type id banks dlines bits =
    if str_eq type "DRAM"
    then new_dram id banks dlines bits
    else (if str_eq type "SRAM"
        then new_sram id banks dlines bits
        else (if str_eq type "RegisterFile"
            then new_register_file id banks dlines bits
            else (if str_eq type "SINK" then new_sink id banks dlines bits else none)))

abbrev pub next_device : Runner → Runner
next_device r = record r { device_id = u64 (r.device_id + 1) }

-- An access to the memory `key`: its cycles and the memory's id.
unfoldable pub access_memory : Runner → ℕ → ℕ → MemOp → Option (ℕ × ℕ × Runner)
unfolding access_cycles
access_memory r key dlines op = do
  m ← memory_at r key
  (cycles, m') ← access_cycles m dlines op
  some (cycles, m.uid, store_component r key (memory m'))

-- `mem->scheduleEvent(idx, time, execution_time, true)`.
unfoldable pub schedule_memory : Runner → ℕ → ℕ → ℕ → ℕ → Option (ℕ × Runner)
unfolding schedule_event
schedule_memory r key idx time cycles = do
  m ← memory_at r key
  (end', d) ← schedule_event m.device idx time cycles true
  some (end', store_component r key (memory (record m { device = d })))

-- A transmission on the connection of an operation, if it names one.
abbrev pub transmit : Runner → Bool → ℕ → ℕ → ℕ → MemOp → Option (Bool × Runner)
transmit r false connection time vol op = some (true, r)
transmit r true connection time vol op = do
  c ← connection_at r connection
  (done, c') ← schedule_transmission c time vol op
  some (done, store_component r connection (State.connection c'))

abbrev pub is_value : ℕ → Bool
is_value v = not (v == null_value)

-- One line at a time: the loops of `linalg::GenericOp` over the lines of a buffer.
unfoldable pub access_each : Runner → ℕ → ℕ → ℕ → MemOp → Option (ℕ × Runner)
access_each r key time zero op = some (time, r)
access_each r key time (suc n) op = do
  (cycles, uid, r') ← access_memory r key 1 op
  (_, r'') ← schedule_memory r' key 0 time cycles
  access_each r'' key (u64 (time + cycles)) n op
