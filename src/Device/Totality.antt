-- ===== src/Device/Totality.antt =====
-- When an access to a device that its constructor builds is undefined behaviour, and when it is booked.
use event_queue.Common.{
  ℕ, zero, suc, ◌≤◌, ◌<◌, ◌≡◌, refl, Option, some, [], ◌∷◌, All, length, arith, In,
}
use Prim.Native.String.{String}
use event_queue.Device.{Event, Queue, Device, fresh_queues, new_device}

-- A queue with one event holds an event that begins at 0, and no queue is empty.
abbrev pub IsReady : Queue → Type 0
IsReady [] = ⊥
IsReady (e ∷ []) = e.first ≡ 0
IsReady (e ∷ next ∷ es) = Unit {0}

-- A booking is made, and leaves a queue on which the next one can be made.
abbrev Books : Option (ℕ × Queue) → Type 0
Books o = (t : ℕ) × (r : Queue) × (o ≡ some (t, r)) × IsReady r

-- The first two events are over at `now`, and one behind them is not.
abbrev pub IsOutdated : ℕ → Queue → Type 0
IsOutdated now q =
    (first next running : Event) × (rest : Queue) × (q ≡ first ∷ next ∷ rest)
    × (first.second ≤ now)
    × (next.second ≤ now)
    × In running rest
    × (now < running.second)

-- A device with `equeues` event queues, each of them ready.
pub record IsSound (d : Device) : Type 0 where
  pub sized : length d.events ≡ d.equeues
  pub ready : All IsReady d.events

fresh_queues-IsReady : (n : ℕ) → (length (fresh_queues n) ≡ n) × All IsReady (fresh_queues n)
unfolding fresh_queues
fresh_queues-IsReady zero = (refl, tt)
fresh_queues-IsReady (suc n) =
    let (sized, ready) = fresh_queues-IsReady n in (omega arith, (refl, ready))

-- The constructor builds a sound device.
pub new_device-IsSound : (id eqs : ℕ) (typ : String) → IsSound (new_device id eqs typ)
unfolding new_device
new_device-IsSound id eqs typ =
    let (sized, ready) = fresh_queues-IsReady eqs in record { sized = sized; ready = ready }
