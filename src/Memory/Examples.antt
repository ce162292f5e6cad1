-- ===== src/Memory/Examples.antt =====
-- Small memories, and what those of include/EQueue/EQueueStructs.h do.
use event_queue.Common.{ℕ, ◌+◌, ◌*◌, ◌^◌, ◌≤◌, ◌<◌, ◌≡◌, refl, none, some}
use event_queue.Connection.{read}
use event_queue.Device.{new_device, fresh_queues}
use event_queue.Memory.{
  Memory, enough, amount, new_dma, transfer_cycles, new_memory, new_sram, new_dram, address_size,
  log2_from, access_cycles,
}
use event_queue.Memory.Cycles.{
  access_cycles_rounds, dma_transfer_least, address_size_least, new_dram_fault,
}
use event_queue.Memory.Statistics.{access_cycles_additive}

-- 4 lines of 8 bits, read through two ports, with 3 cycles for each round.
abbrev small : Memory
unfolding new_device fresh_queues
small = record {
  device = new_device 1 2 "small";
  read_ports = amount 2;
  write_ports = enough;
  data_lines = amount 4;
  data_size = amount 8;
  full_data_size = some 11;
  total_volume = some 44;
  default_volume = enough;
  cycles_per_data = 3;
  min_cycles = 1;
  total_read = 0;
  total_write = 0;
}

abbrev sram : Memory
unfolding new_device fresh_queues
sram = record small {
  device = new_device 1 2 "SRAM";
  default_volume = amount 10485760;
  cycles_per_data = 0;
  min_cycles = 0;
}

program : Unit {0}
unfolding new_device fresh_queues new_dma transfer_cycles new_memory new_sram new_dram address_size
    log2_from access_cycles
program = tt

address_size-five : address_size 5 ≡ 3
unfolding program
address_size-five = refl

new_sram-four : new_sram 1 2 4 8 ≡ some sram
unfolding program sram small
new_sram-four = refl

access_cycles_rounds_example :
    (rounds : ℕ) × (9 ≡ rounds * 3) × (5 ≤ rounds * 2) × (rounds * 2 < 5 + 2)
unfolding program small
access_cycles_rounds_example =
    access_cycles_rounds small (record small { total_read = 40 }) read 5 2 9 refl refl

abbrev after_five : Memory
unfolding small
after_five = record small { total_read = 40 }

access_cycles_additive_example :
    (after_five.total_read ≡ after_five.total_read)
    × (after_five.total_write ≡ after_five.total_write)
unfolding program small after_five
access_cycles_additive_example =
    access_cycles_additive small (record small { total_read = 16 }) after_five after_five 2 3 8 3 6
      9 read refl refl refl refl

dma_transfer_least_example :
    (25000000 ≤ transfer_cycles (new_dma 1) 25000000 * (10 * 1024 * 1024))
    × (transfer_cycles (new_dma 1) 25000000 * (10 * 1024 * 1024) < 25000000 + 10 * 1024 * 1024)
dma_transfer_least_example = dma_transfer_least 1 25000000

address_size_least_example : (5 ≤ 2 ^ address_size 5) × ((j : ℕ) → j < address_size 5 → 2 ^ j < 5)
address_size_least_example = address_size_least 5

new_dram_fault_example : new_dram 1 2 4 8 ≡ none
new_dram_fault_example = new_dram_fault 1 2 4 8
