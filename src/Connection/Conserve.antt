-- ===== src/Connection/Conserve.antt =====
-- Bits on their way through a connection: what a write adds and a read takes up.
use native.Mathlib.Nat.{div-eq-sub-div, div-le_self, div-eq_of_lt}
use event_queue.Common.{
  ℕ, suc, ◌+◌, ◌-◌, ◌/◌, ◌≤◌, ◌<◌, ◌≡◌, refl, true, some, [], ◌∷◌, arith, inl, inr, subst, u64,
  u64_mod, max, Bool, All,
}
use event_queue.Connection.{
  read, write, Schedule, Connection, insert_new, last_cycle, Stop, find_stop, take_up,
  schedule_transmission, required_cycle,
}
use event_queue.Connection.Order.{Above, IsOrdered, write_result, read_cases, find_stop-Above}

-- The bits on their way.
abbrev pub total : Schedule → ℕ
total [] = 0
total ((c, b) ∷ m) = b + total m

last_cycle-ge : (k v : ℕ) (m : Schedule) → Above (suc k) m → k ≤ last_cycle k m
last_cycle-ge k v [] a = omega arith
last_cycle-ge k v ((j, w) ∷ m) a = omega (arith, last_cycle-ge j w m a.1)

insert_new_late :
    (at b k v : ℕ) (m : Schedule)
    → Above (suc k) m
    → last_cycle k m < at
    → total (insert_new at b ((k, v) ∷ m)) ≡ total ((k, v) ∷ m) + b
unfolding insert_new
insert_new_late at b k v [] a late = ground arith
insert_new_late at b k v ((j, w) ∷ m) a late =
    ground (arith, insert_new_late at b j w m a.1, last_cycle-ge j w m a.1)

insert_new_last :
    (b k v : ℕ) (m : Schedule)
    → Above (suc k) m
    → insert_new (last_cycle k m) b ((k, v) ∷ m) ≡ (k, v) ∷ m
unfolding insert_new
insert_new_last b k v [] a = ground arith
insert_new_last b k v ((j, w) ∷ m) a =
    ground (arith, insert_new_last b j w m a.1, last_cycle-ge j w m a.1)

insert_new-total-le : (at b : ℕ) (m : Schedule) → total (insert_new at b m) ≤ total m + b
unfolding insert_new
insert_new-total-le at b [] = omega arith
insert_new-total-le at b ((k, v) ∷ m) = ground (arith, insert_new-total-le at b m)

insert_new_early :
    (at b : ℕ) (m : Schedule) → Above (suc at) m → total (insert_new at b m) ≡ total m + b
unfolding insert_new
insert_new_early at b [] a = ground arith
insert_new_early at b ((k, v) ∷ m) a = ground arith

-- A write that takes at least a cycle is scheduled and adds its bits to those on their way, as
-- long as cycles fit in 64 bits.
pub write_adds :
    (c d : Connection) (cycle bits k v : ℕ) (m : Schedule) (done : Bool)
    → IsOrdered c
    → c.write_schedule ≡ (k, v) ∷ m
    → c.bandwidth ≤ bits
    → last_cycle k m + bits < u64_mod
    → schedule_transmission c cycle bits write ≡ some (done, d)
    → (done ≡ true) × (total d.write_schedule ≡ total c.write_schedule + bits)
write_adds c d cycle bits k v m done a e slow small h =
    let (limited, succeeds, result) = write_result c d cycle bits k v m done e h in
    let at = max cycle (u64 (last_cycle k m + bits / c.bandwidth)) in
    let above = (subst (Above 0) e a).1 in
    let cycles : 0 < bits / c.bandwidth = omega (arith, div-eq-sub-div limited slow) in
    let fits : bits / c.bandwidth ≤ bits = div-le_self bits c.bandwidth in
    let late : last_cycle k m < at = omega arith in
    (succeeds, rw (result, e) (insert_new_late at bits k v m above late))

-- A write that takes less than a cycle, asked for no later than the last write's cycle, is
-- reported as scheduled and counted, and its bits are lost: the schedule stays as it is.
pub write_lost :
    (c d : Connection) (cycle bits k v : ℕ) (m : Schedule) (done : Bool)
    → IsOrdered c
    → c.write_schedule ≡ (k, v) ∷ m
    → bits < c.bandwidth
    → cycle ≤ last_cycle k m
    → last_cycle k m < u64_mod
    → schedule_transmission c cycle bits write ≡ some (done, d)
    → (done ≡ true) × (d.data_total ≡ c.data_total + bits) × (d.write_schedule ≡ c.write_schedule)
write_lost c d cycle bits k v m done a e quick early small h =
    let (limited, succeeds, result) = write_result c d cycle bits k v m done e h in
    let above = (subst (Above 0) e a).1 in
    let at = max cycle (u64 (last_cycle k m + bits / c.bandwidth)) in
    let none_needed : bits / c.bandwidth ≡ 0 = div-eq_of_lt quick in
    let same : at ≡ last_cycle k m = omega arith in
    (succeeds, rw result refl, rw (result, same, e) (insert_new_last bits k v m above))

find_stop-total :
    (bits vol : ℕ) (m : Schedule) (s : Stop)
    → find_stop bits vol m ≡ some s
    → (vol + total m ≡ s.vol + total s.rest) × (bits ≤ s.vol) × (s.prev_vol ≤ s.vol)
unfolding find_stop
find_stop-total bits vol [] s h = cc
find_stop-total bits vol ((k, v) ∷ m) s h = ground (arith, find_stop-total bits (vol + v) m s)

take_up-total-le :
    (c : Connection) (bits cycles : ℕ) (s : Stop)
    → find_stop bits 0 c.write_schedule ≡ some s
    → total (take_up c bits s cycles).write_schedule + bits ≤ total c.write_schedule
take_up-total-le c bits cycles s found = ground (
  arith,
  find_stop-total bits 0 c.write_schedule s found,
  insert_new-total-le (required_cycle s cycles) (s.vol - bits) s.rest,
)

find_stop-fits :
    (bits vol : ℕ) (m : Schedule) (s : Stop)
    → All (λ e. e.0 < u64_mod) m
    → find_stop bits vol m ≡ some s
    → s.cycle < u64_mod
unfolding find_stop
find_stop-fits bits vol [] s a h = cc
find_stop-fits bits vol ((k, v) ∷ m) s a h = ground (arith, find_stop-fits bits (vol + v) m s a.1)

-- A read that is scheduled takes its bits from those on their way, and adds none.
pub read_takes :
    (c d : Connection) (cycle bits : ℕ)
    → schedule_transmission c cycle bits read ≡ some (true, d)
    → total d.write_schedule + bits ≤ total c.write_schedule
read_takes c d cycle bits h = elim (read_cases c d cycle bits true h) [
  | inl (failed, _) ↦ absurd (ground arith)
  | inr (_, t) ↦ rw t.result (take_up-total-le c bits _ t.stop t.found)
]

-- No bit is lost by a read that asks for less than the connection passes on in a cycle.
pub read_conserves :
    (c d : Connection) (cycle bits : ℕ)
    → IsOrdered c
    → bits < c.bandwidth
    → All (λ e. e.0 < u64_mod) c.write_schedule
    → schedule_transmission c cycle bits read ≡ some (true, d)
    → total d.write_schedule + bits ≡ total c.write_schedule
read_conserves c d cycle bits a quick small h = elim (read_cases c d cycle bits true h) [
  | inl (failed, _) ↦ absurd (ground arith)
  | inr (_, t) ↦
      let stop = t.stop in
      let none_needed : (bits - stop.prev_vol) / c.bandwidth ≡ 0 = div-eq_of_lt (omega arith) in
      let fits = find_stop-fits bits 0 c.write_schedule stop small t.found in
      let same : required_cycle stop ((bits - stop.prev_vol) / c.bandwidth) ≡ stop.cycle =
        omega arith in
      let (_, above) = find_stop-Above bits 0 0 c.write_schedule stop a t.found in
      let early = insert_new_early stop.cycle (stop.vol - bits) stop.rest above in
      rw (t.result, same)
        (ground (arith, early, find_stop-total bits 0 c.write_schedule stop t.found))
]
