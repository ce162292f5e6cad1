-- ===== src/Device/Conflicts.antt =====
-- Accesses that overlap in time. The slot search takes a slot that is too short, and books what
-- finds no slot behind the event at the end of the queue, which need not be the latest.
use event_queue.Common.{ℕ, ◌+◌, ◌≤◌, ◌<◌, ◌≡◌, false, some, [], ◌∷◌, u64_mod, arith}
use event_queue.Device.{Event, Queue, origin, booking, insert_slot, book, schedule_queue}
use event_queue.Device.Sequence.{serve}

-- Two events share a cycle.
abbrev pub Overlaps : Event → Event → Type 0
Overlaps e f = (e.first < f.second) × (f.first < e.second)

-- When the first event of a queue is over and the second one is still running at the time asked
-- for, the access is granted at that time and overlaps the second event.
pub schedule_queue_double_booking :
    (s x : ℕ) (e next : Event) (es : Queue)
    → 0 < x
    → s + x < u64_mod
    → e.second ≤ s
    → next.first ≤ s
    → s < next.second
    → (schedule_queue s x false (e ∷ next ∷ es) ≡ some (s + x, e ∷ booking s x ∷ next ∷ es))
      × Overlaps (booking s x) next
unfolding schedule_queue book insert_slot
schedule_queue_double_booking s x e next es pos small over begun running =
    (ground arith, (omega arith, omega arith))

-- On a new queue a second access that is asked for while the first one is running is booked from
-- time 0 on: its end is its length, whatever the time.
pub serve_past_booking :
    (s x s' x' : ℕ)
    → 0 < x
    → 0 < x'
    → s + x < u64_mod
    → s' + x' < u64_mod
    → s' < s + x
    → serve false ((s, x) ∷ (s', x') ∷ []) (origin ∷ [])
      ≡ some ((s + x) ∷ x' ∷ [], booking s x ∷ origin ∷ booking 0 x' ∷ [])
unfolding serve schedule_queue book insert_slot
serve_past_booking s x s' x' pos pos' small small' early = ground arith
