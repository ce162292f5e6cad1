-- ===== src/Connection/Examples.antt =====
-- Small schedules, and what the connection of include/EQueue/EQueueStructs.h does on them.
use event_queue.Common.{◌+◌, ◌≤◌, ◌≡◌, refl, true, false, some, [], ◌∷◌, arith}
use event_queue.Connection.{
  Connection, new_connection, insert_new, find_stop, schedule_transmission, read, write,
  bandwidth_over,
}
use event_queue.Connection.Order.{IsOrdered, schedule_transmission-IsOrdered}
use event_queue.Connection.Conserve.{total, write_adds, write_lost, read_conserves}
use event_queue.Connection.Arrival.{arrived, read-le-arrived}

-- 32 bits for cycle 3, and 32 more for cycle 7, at 16 bits a cycle.
abbrev busy : Connection
busy = record { uid = 1; bandwidth = 16; write_schedule = (3, 32) ∷ (7, 32) ∷ []; data_total = 64 }

abbrev written : Connection
written = record busy { write_schedule = (3, 32) ∷ (7, 32) ∷ (9, 32) ∷ []; data_total = 96 }

abbrev taken : Connection
taken = record busy { write_schedule = (7, 24) ∷ [] }

program : Unit {0}
unfolding new_connection insert_new find_stop schedule_transmission bandwidth_over
program = tt

schedule_transmission-new :
    schedule_transmission (new_connection 1 16) 3 32 write
    ≡ some
        (true, record { uid = 1; bandwidth = 16; write_schedule = (3, 32) ∷ []; data_total = 32 })
unfolding program
schedule_transmission-new = refl

schedule_transmission-early : schedule_transmission busy 2 8 read ≡ some (false, busy)
unfolding program
schedule_transmission-early = refl

schedule_transmission-IsOrdered_example : IsOrdered written
unfolding program
schedule_transmission-IsOrdered_example =
    schedule_transmission-IsOrdered busy written 4 32 write true (ground arith) refl

write_adds_example : (true ≡ true) × (total written.write_schedule ≡ total busy.write_schedule + 32)
unfolding program
write_adds_example =
    write_adds busy written 4 32 3 32 ((7, 32) ∷ []) true (ground arith) refl (omega arith)
      (omega arith) refl

write_lost_example :
    (true ≡ true)
    × (74 ≡ 64 + 10)
    × ((record busy { data_total = 74 }).write_schedule ≡ busy.write_schedule)
unfolding program
write_lost_example =
    write_lost busy (record busy { data_total = 74 }) 6 10 3 32 ((7, 32) ∷ []) true (ground arith)
      refl (omega arith) (omega arith) (omega arith) refl

abbrev rest : Connection
rest = record busy { write_schedule = (3, 24) ∷ (7, 32) ∷ [] }

read_conserves_example : total rest.write_schedule + 8 ≡ total busy.write_schedule
unfolding program
read_conserves_example =
    read_conserves busy rest 4 8 (ground arith) (omega arith) (ground arith) refl

read-le-arrived_example : 8 ≤ arrived 4 busy.write_schedule
unfolding program
read-le-arrived_example =
    read-le-arrived busy rest 4 8 (ground arith) (ground arith) (omega arith) refl
