-- ===== src/Device/Examples.antt =====
-- Small queues, and what the device of include/EQueue/EQueueStructs.h does on them.
use event_queue.Common.{
  ℕ, zero, suc, ◌+◌, ◌≡◌, refl, true, false, some, none, [], ◌∷◌, ◌++◌, arith, length, All,
}
use event_queue.Device.{
  Event, Queue, Device, Store, origin, booking, new_device, fresh_queues, from_live,
  delete_outdated, insert_slot, book, schedule_queue, schedule_event, latest_end, push_all,
  schedule_joint,
}
use event_queue.Device.Booking.{
  IsOver, Booked, cleaned, delete_outdated-split, schedule_queue-Booked,
}
use event_queue.Device.Sequence.{ends, serve, serve-InOrder}
use event_queue.Device.Joint.{JointlyBooked, schedule_joint-JointlyBooked}
use event_queue.Device.Conflicts.{Overlaps, schedule_queue_double_booking, serve_past_booking}

abbrev event : ℕ → ℕ → Event
event b e = record { first = b; second = e }

abbrev line : Queue
line = origin ∷ event 2 5 ∷ event 7 9 ∷ []

program : Unit {0}
unfolding new_device fresh_queues from_live delete_outdated insert_slot book schedule_queue
    schedule_event latest_end push_all schedule_joint serve
program = tt

delete_outdated-line : delete_outdated 6 line ≡ event 2 5 ∷ event 7 9 ∷ []
unfolding program
delete_outdated-line = refl

-- The clean-up erases the first event, and the iterator is no longer valid.
schedule_queue-line : schedule_queue 6 4 true line ≡ none
unfolding program
schedule_queue-line = refl

delete_outdated-split_example :
    (dropped : Queue) × (line ≡ dropped ++ delete_outdated 6 line) × All (IsOver 6) dropped
delete_outdated-split_example = delete_outdated-split 6 line

schedule_queue-Booked_example :
    Booked 4 4 (cleaned true 4 line) (origin ∷ event 4 8 ∷ event 2 5 ∷ event 7 9 ∷ []) 8
unfolding program
schedule_queue-Booked_example =
    schedule_queue-Booked 4 4 true line (origin ∷ event 4 8 ∷ event 2 5 ∷ event 7 9 ∷ []) 8
      (omega arith) refl

serve-InOrder_example :
    (r : Queue) × (serve true ((3, 2) ∷ (5, 4) ∷ []) (origin ∷ [])
      ≡ some (ends ((3, 2) ∷ (5, 4) ∷ []), r))
    × (length r ≡ 1 + 2)
serve-InOrder_example =
    serve-InOrder true 0 ((3, 2) ∷ (5, 4) ∷ []) (origin ∷ []) (ground arith) (ground arith)

abbrev store : Store
store zero i = []
store (suc zero) i = event 0 4 ∷ []
store (suc (suc d)) i = event 0 9 ∷ []

abbrev stored : Store
unfolding push_all
stored = push_all store (booking 9 3) ((1, 0) ∷ (2, 0) ∷ [])

schedule_joint-JointlyBooked_example : JointlyBooked store ((1, 0) ∷ (2, 0) ∷ []) 6 3 12 stored
unfolding program stored
schedule_joint-JointlyBooked_example =
    schedule_joint-JointlyBooked store stored (1, 0) 6 3 12 ((2, 0) ∷ []) (omega arith) refl

schedule_queue_double_booking_example :
    (schedule_queue 6 2 false (origin ∷ event 5 9 ∷ [])
      ≡ some (8, origin ∷ booking 6 2 ∷ event 5 9 ∷ []))
    × Overlaps (booking 6 2) (event 5 9)
schedule_queue_double_booking_example =
    schedule_queue_double_booking 6 2 origin (event 5 9) [] (omega arith) (omega arith)
      (omega arith) (omega arith) (omega arith)

serve_past_booking_example :
    serve false ((5, 10) ∷ (6, 3) ∷ []) (origin ∷ [])
    ≡ some (15 ∷ 3 ∷ [], booking 5 10 ∷ origin ∷ booking 0 3 ∷ [])
serve_past_booking_example =
    serve_past_booking 5 10 6 3 (omega arith) (omega arith) (omega arith) (omega arith)
      (omega arith)
