-- ===== src/Device.antt =====
-- include/EQueue/EQueueStructs.h, `struct Device`: the event queues of a device and how an access
-- is booked on them. `none` is undefined behaviour: a queue index out of range, the read behind the
-- end of a queue that holds one event, or the use of an iterator that the clean-up has invalidated.
pub mod Booking
pub mod Sequence
pub mod Totality
pub mod Joint
pub mod Conflicts
mod Examples
use Prim.Native.String.{String}
use event_queue.Common.{
  ℕ, zero, suc, ◌+◌, ◌≡◌, Bool, true, false, ◌&&◌, Option, none, some, List, [], ◌∷◌, ◌++◌, u64,
  ltb, leb, ◌==◌, if◌then◌else◌, get_elem?, max, not, length,
}

-- `std::pair<uint64_t, uint64_t>`: begin and end of an event.
pub record Event : Type 0 where
  pub first : ℕ
  pub second : ℕ

abbrev pub Queue : Type 0
Queue = List Event

pub record Device : Type 0 where
  pub uid : ℕ
  pub type : String
  pub events : List Queue
  pub energy : ℕ
  pub equeues : ℕ

abbrev pub origin : Event
origin = record { first = 0; second = 0 }

-- The loop of the constructor: one queue for each of `eqs`, with the event (0, 0).
unfoldable pub fresh_queues : ℕ → List Queue
fresh_queues zero = []
fresh_queues (suc eqs) = (origin ∷ []) ∷ fresh_queues eqs

unfoldable pub new_device : ℕ → ℕ → String → Device
unfolding fresh_queues
new_device id eqs typ = record {
  uid = id;
  type = typ;
  events = fresh_queues eqs;
  energy = 1;
  equeues = eqs;
}

-- The rest of the queue from the event before the first one that ends after `now_time`.
unfoldable pub from_live : ℕ → Event → Queue → Option Queue
from_live now_time prev [] = none
from_live now_time prev (e ∷ es) =
    if ltb now_time e.second then some (prev ∷ e ∷ es) else from_live now_time e es

abbrev or_else : Queue → Option Queue → Queue
or_else q none = q
or_else q (some r) = r

unfoldable pub delete_outdated : ℕ → Queue → Queue
unfolding from_live
delete_outdated now_time [] = []
delete_outdated now_time (e ∷ es) =
    if ltb now_time e.second then e ∷ es else or_else (e ∷ es) (from_live now_time e es)

-- `std::make_pair(start_time, start_time + exec_time)`.
abbrev pub booking : ℕ → ℕ → Event
booking start_time exec_time = record { first = start_time; second = u64 (start_time + exec_time) }

abbrev onto : Event → Option Queue → Option Queue
onto e none = none
onto e (some q) = some (e ∷ q)

-- The test of the slot loop, on an event and its successor.
abbrev pub is_slot : ℕ → ℕ → Event → Event → Bool
is_slot start_time exec_time e next =
    leb e.second start_time && ltb next.first (u64 (start_time + exec_time))

-- The slot loop and the insertion behind the event at which it stops.
unfoldable pub insert_slot : ℕ → ℕ → Queue → Option Queue
insert_slot start_time exec_time [] = none
insert_slot start_time exec_time (e ∷ []) = none
insert_slot start_time exec_time (e ∷ next ∷ es) =
    if is_slot start_time exec_time e next
    then some (e ∷ booking start_time exec_time ∷ next ∷ es)
    else onto e (insert_slot start_time exec_time (next ∷ es))

-- `(events[idx].end() - 1)->second`, on a queue that is not empty.
abbrev pub last_end : Event → Queue → ℕ
last_end e [] = e.second
last_end e (next ∷ es) = last_end next es

abbrev pub Outcome : Type 0
Outcome = Option (ℕ × Queue)

abbrev book_slot : ℕ → ℕ → ℕ → Queue → Option Queue → Outcome
book_slot start_time exec_time late q none =
    some (u64 (late + exec_time), q ++ booking late exec_time ∷ [])
book_slot start_time exec_time late q (some r) = some (u64 (start_time + exec_time), r)

-- `scheduleEvent` on the queue that it works on, behind the clean-up.
unfoldable pub book : ℕ → ℕ → Queue → Outcome
unfolding insert_slot
book start_time exec_time [] =
    some (u64 (start_time + exec_time), booking start_time exec_time ∷ [])
book start_time exec_time (e ∷ []) =
    if ltb e.first (u64 (start_time + exec_time))
    then some (u64 (start_time + exec_time), booking start_time exec_time ∷ e ∷ [])
    else none
book start_time exec_time (e ∷ next ∷ es) =
    book_slot start_time exec_time (last_end next es) (e ∷ next ∷ es)
      (insert_slot start_time exec_time (e ∷ next ∷ es))

-- Whether the clean-up erases an event. `iter` has been taken before it, and is no longer valid then.
abbrev pub erases : ℕ → Queue → Bool
erases start_time q = not (length (delete_outdated start_time q) == length q)

unfoldable pub schedule_queue : ℕ → ℕ → Bool → Queue → Outcome
unfolding book delete_outdated
schedule_queue start_time exec_time clean_events q =
    if exec_time == 0
    then some (start_time, q)
    else if clean_events && erases start_time q
    then none
    else book start_time exec_time (if clean_events then delete_outdated start_time q else q)

abbrev pub set_queue : List Queue → ℕ → Queue → List Queue
set_queue [] i q = []
set_queue (p ∷ ps) zero q = q ∷ ps
set_queue (p ∷ ps) (suc i) q = p ∷ set_queue ps i q

abbrev store_queue : Device → ℕ → Outcome → Option (ℕ × Device)
store_queue d idx none = none
store_queue d idx (some (t, q)) = some (t, record d { events = set_queue d.events idx q })

abbrev schedule_found : Device → ℕ → ℕ → ℕ → Bool → Option Queue → Option (ℕ × Device)
schedule_found d idx start_time exec_time clean_events none =
    if exec_time == 0 then some (start_time, d) else none
schedule_found d idx start_time exec_time clean_events (some q) =
    store_queue d idx (schedule_queue start_time exec_time clean_events q)

-- The end of the booked access, and the device with the booking.
unfoldable pub schedule_event : Device → ℕ → ℕ → ℕ → Bool → Option (ℕ × Device)
unfolding schedule_queue
schedule_event d idx start_time exec_time clean_events =
    schedule_found d idx start_time exec_time clean_events (get_elem? d.events idx)

-- The overload for several devices. A place is a device and one of its queues.
abbrev pub Place : Type 0
Place = ℕ × ℕ

abbrev pub Store : Type 0
Store = ℕ → ℕ → Queue

-- The `start` vector's entry for a queue: its last end, or nothing.
abbrev pub end_or : ℕ → Queue → ℕ
end_or t [] = t
end_or t (e ∷ es) = max t (last_end e es)

unfoldable pub latest_end : Store → ℕ → List Place → ℕ
latest_end s t [] = t
latest_end s t ((d, i) ∷ ps) = latest_end s (end_or t (s d i)) ps

abbrev push_event : Store → Place → Event → Store
push_event s (d, i) e c j = if c == d then (if j == i then s c j ++ e ∷ [] else s c j) else s c j

unfoldable pub push_all : Store → Event → List Place → Store
push_all s e [] = s
push_all s e (p ∷ ps) = push_all (push_event s p e) e ps

abbrev joint_book : Store → Place → ℕ → ℕ → List Place → Queue → Option (ℕ × Store)
joint_book s own start_time exec_time ps [] = none
joint_book s own start_time exec_time ps (e ∷ es) =
    let start_t = latest_end s (max start_time (last_end e es)) ps in
    some (u64 (start_t + exec_time), push_all s (booking start_t exec_time) (own ∷ ps))

unfoldable pub schedule_joint : Store → Place → ℕ → ℕ → List Place → Option (ℕ × Store)
unfolding latest_end push_all
schedule_joint s own start_time exec_time ps =
    if exec_time == 0
    then some (start_time, s)
    else joint_book s own start_time exec_time ps (s own.0 own.1)
