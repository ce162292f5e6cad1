-- ===== src/Connection.antt =====
-- include/EQueue/EQueueStructs.h, `struct Connection`: the writes on their way through a
-- connection and the reads that take them up. `none` is undefined behaviour: the conversion of an
-- infinite quotient, on a connection of bandwidth 0.
pub mod Order
pub mod Conserve
pub mod Arrival
mod Examples
use event_queue.Common.{
  ℕ, ◌+◌, ◌-◌, ◌*◌, ◌/◌, ◌≡◌, Bool, true, false, not, Option, none, some, List, [], ◌∷◌, u64, ltb,
  leb, ◌==◌, if◌then◌else◌, max,
}

pub data MemOp : Type 0 where
  read write : MemOp

-- `std::map<uint64_t, int>`: cycles with bits, in the order of the cycles.
abbrev pub Schedule : Type 0
Schedule = List (ℕ × ℕ)

-- Of the base class only the event queues are left out: a connection makes no use of them.
pub record Connection : Type 0 where
  pub uid : ℕ
  pub bandwidth : ℕ
  pub write_schedule : Schedule
  pub data_total : ℕ

unfoldable pub new_connection : ℕ → ℕ → Connection
new_connection id bandwid = record {
  uid = id;
  bandwidth = bandwid;
  write_schedule = [];
  data_total = 0;
}

-- `floor((float)bits / bandwidth)`.
abbrev pub read_or_write_cycles : Connection → ℕ → Option ℕ
read_or_write_cycles c bits = if c.bandwidth == 0 then none else some (bits / c.bandwidth)

-- `std::map::insert`: a cycle that has an entry keeps it.
unfoldable pub insert_new : ℕ → ℕ → Schedule → Schedule
insert_new cycle bits [] = (cycle, bits) ∷ []
insert_new cycle bits ((k, v) ∷ m) =
    if ltb cycle k
    then (cycle, bits) ∷ (k, v) ∷ m
    else (if cycle == k then (k, v) ∷ m else (k, v) ∷ insert_new cycle bits m)

-- `write_schedule.rbegin()->first`, on a schedule that is not empty.
abbrev pub last_cycle : ℕ → Schedule → ℕ
last_cycle k [] = k
last_cycle k ((j, v) ∷ m) = last_cycle j m

abbrev pub put : Connection → ℕ → ℕ → Connection
put c cycle bits = record c {
  data_total = c.data_total + bits;
  write_schedule = insert_new cycle bits c.write_schedule;
}

abbrev write_after : Connection → ℕ → ℕ → ℕ → Option ℕ → Option (Bool × Connection)
write_after c cycle bits start_time none = none
write_after c cycle bits start_time (some cycles) =
    some (true, put c (max cycle (u64 (start_time + cycles))) bits)

abbrev pub transmit_write : Connection → ℕ → ℕ → Schedule → Option (Bool × Connection)
transmit_write c cycle bits [] = some (true, put c cycle bits)
transmit_write c cycle bits ((k, v) ∷ m) =
    write_after c cycle bits (last_cycle k m) (read_or_write_cycles c bits)

-- Where the read's loop stops: the bits before the entry, those up to and with it, its cycle,
-- and the entries behind it.
pub record Stop : Type 0 where
  pub prev_vol : ℕ
  pub vol : ℕ
  pub cycle : ℕ
  pub rest : Schedule

unfoldable pub find_stop : ℕ → ℕ → Schedule → Option Stop
find_stop bits vol [] = none
find_stop bits vol ((k, v) ∷ m) =
    if leb bits (vol + v)
    then some (record { prev_vol = vol; vol = vol + v; cycle = k; rest = m })
    else find_stop bits (vol + v) m

abbrev pub required_cycle : Stop → ℕ → ℕ
required_cycle s cycles = u64 (s.cycle + cycles)

abbrev pub take_up : Connection → ℕ → Stop → ℕ → Connection
take_up c bits s cycles = record c {
  write_schedule =
      if s.vol == bits then s.rest else insert_new (required_cycle s cycles) (s.vol - bits) s.rest;
}

abbrev read_at : Connection → ℕ → ℕ → Stop → Option ℕ → Option (Bool × Connection)
read_at c cycle bits s none = none
read_at c cycle bits s (some cycles) =
    if ltb cycle (required_cycle s cycles)
    then some (false, c)
    else some (true, take_up c bits s cycles)

abbrev transmit_read : Connection → ℕ → ℕ → Option Stop → Option (Bool × Connection)
transmit_read c cycle bits none = some (false, c)
transmit_read c cycle bits (some s) =
    read_at c cycle bits s (read_or_write_cycles c (bits - s.prev_vol))

-- Whether the transmission was scheduled, and the connection behind the call.
unfoldable pub schedule_transmission : Connection → ℕ → ℕ → MemOp → Option (Bool × Connection)
unfolding insert_new find_stop
schedule_transmission c cycle bits write = transmit_write c cycle bits c.write_schedule
schedule_transmission c cycle bits read =
    transmit_read c cycle bits (find_stop bits 0 c.write_schedule)

-- `data_total / cycles`, a division of words.
unfoldable pub bandwidth_over : Connection → ℕ → ℕ
bandwidth_over c cycles = if cycles == 0 then 0 else c.data_total / cycles
