-- ===== src/Connection/Arrival.antt =====
-- When a read may go ahead: the bits that it takes were written by then.
use native.Mathlib.Nat.{div-le_self}
use event_queue.Common.{
  ℕ, suc, ◌+◌, ◌-◌, ◌≤◌, ◌<◌, ◌^◌, ◌≡◌, true, false, some, [], ◌∷◌, arith, inl, inr, leb,
  if◌then◌else◌, All,
}
use event_queue.Connection.{read, Schedule, Connection, Stop, find_stop, schedule_transmission}
use event_queue.Connection.Order.{Above, IsOrdered, read_cases, find_stop-Above}

-- The bits written for cycles up to `now`.
abbrev pub arrived : ℕ → Schedule → ℕ
arrived now [] = 0
arrived now ((c, b) ∷ m) = (if leb c now then b else 0) + arrived now m

find_stop-arrived :
    (bits vol k now : ℕ) (m : Schedule) (s : Stop)
    → Above k m
    → find_stop bits vol m ≡ some s
    → s.cycle ≤ now
    → bits ≤ vol + arrived now m
unfolding find_stop
find_stop-arrived bits vol k now [] s a h late = cc
find_stop-arrived bits vol k now ((c, v) ∷ m) s a h late = ground (
  arith,
  find_stop-arrived bits (vol + v) (suc c) now m s,
  find_stop-Above bits (vol + v) (suc c) m s,
)

-- Cycles that leave room for the transmission of any number of bits that an `int` holds.
abbrev pub HasRoom : Schedule → Type 0
HasRoom m = All (λ e. e.0 < 2 ^ 63) m

find_stop-room :
    (bits vol : ℕ) (m : Schedule) (s : Stop)
    → HasRoom m
    → find_stop bits vol m ≡ some s
    → s.cycle < 2 ^ 63
unfolding find_stop
find_stop-room bits vol [] s a h = cc
find_stop-room bits vol ((k, v) ∷ m) s a h = ground (arith, find_stop-room bits (vol + v) m s a.1)

-- A read that is scheduled at `cycle` asks for no more bits than were written for cycles up to
-- then. The schedule is in order, and its cycles and the bits asked for are below 2^63.
pub read-le-arrived :
    (c d : Connection) (cycle bits : ℕ)
    → IsOrdered c
    → HasRoom c.write_schedule
    → bits < 2 ^ 63
    → schedule_transmission c cycle bits read ≡ some (true, d)
    → bits ≤ arrived cycle c.write_schedule
read-le-arrived c d cycle bits a room small h = elim (read_cases c d cycle bits true h) [
  | inl (failed, _) ↦ absurd (ground arith)
  | inr (_, t) ↦
      let stop = t.stop in
      let begins = find_stop-room bits 0 c.write_schedule stop room t.found in
      let waits = div-le_self (bits - stop.prev_vol) c.bandwidth in
      let here =
        find_stop-arrived bits 0 0 cycle c.write_schedule stop a t.found
          (omega (arith, t.in_time)) in
      omega (arith, here)
]

-- A read that is not scheduled leaves the connection as it is, to be asked again later.
pub read_refused :
    (c d : Connection) (cycle bits : ℕ)
    → schedule_transmission c cycle bits read ≡ some (false, d)
    → d ≡ c
read_refused c d cycle bits h = elim (read_cases c d cycle bits false h) [
  | inl (_, same) ↦ same
  | inr (succeeded, _) ↦ absurd (ground arith)
]
