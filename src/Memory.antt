-- ===== src/Memory.antt =====
-- include/EQueue/EQueueStructs.h: `struct DMA`, `struct Memory` and the four kinds of memory.
-- `none` is undefined behaviour: a division by zero, or the conversion of an infinite quotient.
-- The quotients of `float` and `double` are taken exactly; the source's are exact for the numbers
-- of lines below 2^24.
pub mod Cycles
pub mod Statistics
mod Examples
use Prim.Native.String.{String}
use event_queue.Common.{
  ℕ, zero, suc, ◌+◌, ◌-◌, ◌*◌, ◌/◌, ◌%◌, ◌^◌, ◌≡◌, Bool, true, false, Option, none, some, u64,
  u64_mod, leb, ltb, ◌==◌, if◌then◌else◌,
}
use event_queue.Device.{Device, new_device}
use event_queue.Connection.{MemOp, read, write}

-- An `int` that may be `ENOUGH`, which is -1: no limit.
pub data Amount : Type 0 where
  enough : Amount
  amount : ℕ → Amount

-- `Byte`, `KB` and `MB` as the macros expand behind a number.
abbrev byte : ℕ → ℕ
byte n = n * 1024 * 1

abbrev kb : ℕ → ℕ
kb n = byte (n * 1024)

-- An `int` product of positive constants that overflows keeps its low 32 bits, where it has a
-- value at all.
abbrev mb : ℕ → ℕ
mb n = kb (n * 1024) % 2 ^ 32

abbrev pub ceil_div : ℕ → ℕ → ℕ
ceil_div n d = (n + d - 1) / d

pub record Dma : Type 0 where
  pub device : Device
  pub open device use *
  pub mode : Bool
  pub transfer_rate : ℕ
  pub warmup_cycles : ℕ

unfoldable pub new_dma : ℕ → Dma
unfolding new_device
new_dma id = record {
  device = new_device id 1 "DMA";
  mode = true;
  transfer_rate = kb 10;
  warmup_cycles = 0;
}

unfoldable pub transfer_cycles : Dma → ℕ → ℕ
transfer_cycles d volume = d.warmup_cycles + ceil_div volume d.transfer_rate

-- `full_data_size` and `total_volume` are `none` where the source converts a logarithm of a
-- negative number; nothing reads them. `coefficient` is left out: it is never set or read.
pub record Memory : Type 0 where
  pub device : Device
  pub open device use *
  pub read_ports : Amount
  pub write_ports : Amount
  pub data_lines : Amount
  pub data_size : Amount
  pub full_data_size : Option ℕ
  pub total_volume : Option ℕ
  pub default_volume : Amount
  pub cycles_per_data : ℕ
  pub min_cycles : ℕ
  pub total_read : ℕ
  pub total_write : ℕ

-- The least `k` from the given one on with `n ≤ 2 ^ k`, on fuel.
pub log2_from : ℕ → ℕ → ℕ → ℕ
log2_from zero k n = k
log2_from (suc fuel) k n = let more = log2_from fuel (suc k) n in if leb n (2 ^ k) then k else more

-- `dlines ? ceil(log2(dlines)) : 0`.
pub address_size : ℕ → ℕ
unfolding log2_from
address_size dlines = if dlines == 0 then 0 else log2_from dlines 0 dlines

abbrev full_size : Amount → Amount → Option ℕ
full_size (amount lines) (amount bits) = some (1 + address_size lines + bits)
full_size _ _ = none

abbrev volume : Amount → Option ℕ → Option ℕ
volume (amount lines) (some size) = some (size * lines)
volume _ _ = none

-- `de_vol / default_volume`, where `default_volume` was just set to `de_vol`.
abbrev volume_ratio : Amount → Option ℕ
volume_ratio enough = some 1
volume_ratio (amount v) = if v == 0 then none else some (v / v)

module _ (id bks : ℕ) (type : String) (rp wp de_vol dlines bits : Amount)
    (cyc_per_data min_cyc : ℕ) where
  abbrev memory_of : Option ℕ → Option Memory
  memory_of none = none
  memory_of (some ratio) = some (record {
    device = new_device id bks type;
    read_ports = rp;
    write_ports = wp;
    data_lines = dlines;
    data_size = bits;
    full_data_size = full_size dlines bits;
    total_volume = volume dlines (full_size dlines bits);
    default_volume = de_vol;
    cycles_per_data = cyc_per_data * ratio;
    min_cycles = min_cyc * ratio;
    total_read = 0;
    total_write = 0;
  })

  unfoldable pub new_memory : Option Memory
  unfolding address_size new_device
  new_memory = memory_of (volume_ratio de_vol)

unfoldable pub new_register_file : ℕ → ℕ → ℕ → ℕ → Option Memory
unfolding new_memory
new_register_file id bks dlines bits =
    new_memory id bks "RegisterFile" enough enough (amount (byte 64)) (amount dlines) (amount bits)
      0 0

unfoldable pub new_sram : ℕ → ℕ → ℕ → ℕ → Option Memory
unfolding new_memory
new_sram id bks dlines bits =
    new_memory id bks "SRAM" (amount bks) enough (amount (kb 10)) (amount dlines) (amount bits) 0 0

unfoldable pub new_dram : ℕ → ℕ → ℕ → ℕ → Option Memory
unfolding new_memory
new_dram id bks dlines bits =
    new_memory id bks "DRAM" (amount bks) enough (amount (mb 512)) (amount dlines) (amount bits) 100
      50

unfoldable pub new_sink : ℕ → ℕ → ℕ → ℕ → Option Memory
unfolding new_memory
new_sink id bks dlines bits = new_memory id bks "SINK" enough enough enough enough enough 0 0

-- `total += dlines * data_size`; a `data_size` of -1 is taken off, in words.
abbrev pub count_bits : ℕ → ℕ → Amount → ℕ
count_bits total dlines enough = u64 (total + (u64_mod - dlines % u64_mod))
count_bits total dlines (amount size) = u64 (total + dlines * size)

abbrev pub port_cycles : Memory → ℕ → Amount → Option ℕ
port_cycles m dlines enough = some m.min_cycles
port_cycles m dlines (amount ports) =
    if ports == 0 then none else some (ceil_div dlines ports * m.cycles_per_data)

abbrev with_cycles : Memory → Option ℕ → Option (ℕ × Memory)
with_cycles m none = none
with_cycles m (some cycles) = some (cycles, m)

-- `getReadOrWriteCycles`: the cycles of an access, and the memory with the access counted.
unfoldable pub access_cycles : Memory → ℕ → MemOp → Option (ℕ × Memory)
access_cycles m dlines read =
    with_cycles (record m { total_read = count_bits m.total_read dlines m.data_size })
      (port_cycles m dlines m.read_ports)
access_cycles m dlines write =
    with_cycles (record m { total_write = count_bits m.total_write dlines m.data_size })
      (port_cycles m dlines m.write_ports)

-- `getBandwidth`, as a numerator and a denominator.
unfoldable pub bandwidth : Memory → ℕ → MemOp → ℕ × ℕ
bandwidth m cycles read = if cycles == 0 then (0, 1) else (m.total_read, cycles)
bandwidth m cycles write = if cycles == 0 then (0, 1) else (m.total_write, cycles)
