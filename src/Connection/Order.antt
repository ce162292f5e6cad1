-- ===== src/Connection/Order.antt =====
-- The entries of a connection's schedule stand in the order of their cycles, each cycle once.
use event_queue.Common.{
  ℕ, suc, ◌+◌, ◌≤◌, ◌<◌, ◌≡◌, refl, Bool, true, false, some, [], ◌∷◌, arith, ◌/◌, ◌-◌, max, u64,
  ◌⊎◌, inl, inr, Bool-cases, Option-cases, subst, sym, ltb, ◌==◌,
}
use event_queue.Connection.{
  MemOp, read, write, Schedule, Connection, insert_new, last_cycle, Stop, find_stop, take_up,
  schedule_transmission, transmit_write, put, required_cycle,
}

-- Cycles grow along the list, from `k` on.
abbrev pub Above : ℕ → Schedule → Type 0
Above k [] = Unit {0}
Above k ((c, b) ∷ m) = (k ≤ c) × Above (suc c) m

pub Above-mono : (j k : ℕ) (m : Schedule) → j ≤ k → Above k m → Above j m
Above-mono j k [] h a = tt
Above-mono j k ((c, b) ∷ m) h a = (omega arith, a.1)

pub insert_new-Above : (k c b : ℕ) (m : Schedule) → k ≤ c → Above k m → Above k (insert_new c b m)
unfolding insert_new
insert_new-Above k c b [] h a = (h, tt)
insert_new-Above k c b ((j, v) ∷ m) h a = ground (arith, insert_new-Above (suc j) c b m)

pub find_stop-Above :
    (bits vol k : ℕ) (m : Schedule) (s : Stop)
    → Above k m
    → find_stop bits vol m ≡ some s
    → (k ≤ s.cycle) × Above (suc s.cycle) s.rest
unfolding find_stop
find_stop-Above bits vol k [] s a h = cc
find_stop-Above bits vol k ((c, v) ∷ m) s a h =
    ground (arith, find_stop-Above bits (vol + v) (suc c) m s)

abbrev pub IsOrdered : Connection → Type 0
IsOrdered c = Above 0 c.write_schedule

-- What a write leaves: an entry put in at some cycle.
pub record Written (c : Connection) (cycle bits : ℕ) (done : Bool) (d : Connection) : Type 0 where
  pub at : ℕ
  pub succeeds : done ≡ true
  pub result : d ≡ put c at bits
  pub when :
      (c.write_schedule ≡ []) × (at ≡ cycle)
      ⊎ ((k v : ℕ) × (m : Schedule) × (c.write_schedule ≡ (k, v) ∷ m)
          × (0 < c.bandwidth)
          × (at ≡ max cycle (u64 (last_cycle k m + bits / c.bandwidth))))

transmit_write-Written :
    (c d : Connection) (cycle bits : ℕ) (m : Schedule) (done : Bool)
    → c.write_schedule ≡ m
    → transmit_write c cycle bits m ≡ some (done, d)
    → Written c cycle bits done d
transmit_write-Written c d cycle bits [] done e h = record {
  at = cycle;
  succeeds = ground arith;
  result = ground arith;
  when = inl (e, refl);
}
transmit_write-Written c d cycle bits ((k, v) ∷ m) done e h = record {
  at = max cycle (u64 (last_cycle k m + bits / c.bandwidth));
  succeeds = ground arith;
  result = ground arith;
  when = inr (k, v, m, e, ground arith, refl);
}

pub write-Written :
    (c d : Connection) (cycle bits : ℕ) (done : Bool)
    → schedule_transmission c cycle bits write ≡ some (done, d)
    → Written c cycle bits done d
unfolding schedule_transmission
write-Written c d cycle bits done h =
    transmit_write-Written c d cycle bits c.write_schedule done refl h

-- The same for a schedule that is known to hold entries.
pub write_result :
    (c d : Connection) (cycle bits k v : ℕ) (m : Schedule) (done : Bool)
    → c.write_schedule ≡ (k, v) ∷ m
    → schedule_transmission c cycle bits write ≡ some (done, d)
    → (0 < c.bandwidth)
      × (done ≡ true)
      × (d ≡ put c (max cycle (u64 (last_cycle k m + bits / c.bandwidth))) bits)
unfolding schedule_transmission
write_result c d cycle bits k v m done e h = ground arith

-- What a read that is scheduled has found.
pub record Taken (c : Connection) (cycle bits : ℕ) (d : Connection) : Type 0 where
  pub stop : Stop
  pub found : find_stop bits 0 c.write_schedule ≡ some stop
  pub limited : 0 < c.bandwidth
  pub in_time : required_cycle stop ((bits - stop.prev_vol) / c.bandwidth) ≤ cycle
  pub result : d ≡ take_up c bits stop ((bits - stop.prev_vol) / c.bandwidth)

-- A read either fails and leaves the connection alone, or it is scheduled.
pub read_cases :
    (c d : Connection) (cycle bits : ℕ) (done : Bool)
    → schedule_transmission c cycle bits read ≡ some (done, d)
    → (done ≡ false) × (d ≡ c) ⊎ (done ≡ true) × Taken c cycle bits d
unfolding schedule_transmission
read_cases c d cycle bits done h = elim (Option-cases (find_stop bits 0 c.write_schedule)) [
  | inl missing ↦ inl (ground arith, ground arith)
  | inr (s, found) ↦
      let cycles = (bits - s.prev_vol) / c.bandwidth in
      elim (Bool-cases (c.bandwidth == 0)) [
        | inl unlimited ↦ absurd (ground arith)
        | inr limited ↦ elim (Bool-cases (ltb cycle (required_cycle s cycles))) [
          | inl late ↦ inl (ground arith, ground arith)
          | inr ready ↦ inr (
            ground arith,
            record {
              stop = s;
              found = found;
              limited = ground arith;
              in_time = ground arith;
              result = ground arith;
            },
          )
        ]
      ]
]

put-IsOrdered : (c : Connection) (at bits : ℕ) → IsOrdered c → IsOrdered (put c at bits)
put-IsOrdered c at bits a = insert_new-Above 0 at bits c.write_schedule (omega arith) a

take_up-IsOrdered :
    (c : Connection) (bits cycles : ℕ) (s : Stop)
    → IsOrdered c
    → find_stop bits 0 c.write_schedule ≡ some s
    → IsOrdered (take_up c bits s cycles)
take_up-IsOrdered c bits cycles s a found =
    let (_, above) = find_stop-Above bits 0 0 c.write_schedule s a found in
    let rest = Above-mono 0 (suc s.cycle) s.rest (omega arith) above in
    elim (Bool-cases (s.vol == bits)) [
      | inl whole ↦ rw whole rest
      | inr part ↦
          rw part
            (insert_new-Above 0 (required_cycle s cycles) (s.vol - bits) s.rest (omega arith) rest)
    ]

-- Every transmission, scheduled or not, keeps the schedule in order.
pub schedule_transmission-IsOrdered :
    (c d : Connection) (cycle bits : ℕ) (op : MemOp) (done : Bool)
    → IsOrdered c
    → schedule_transmission c cycle bits op ≡ some (done, d)
    → IsOrdered d
schedule_transmission-IsOrdered c d cycle bits read done a h =
    elim (read_cases c d cycle bits done h) [
      | inl (_, same) ↦ subst IsOrdered (sym same) a
      | inr (_, t) ↦ subst IsOrdered (sym t.result) (take_up-IsOrdered c bits _ t.stop a t.found)
    ]
schedule_transmission-IsOrdered c d cycle bits write done a h =
    let w = write-Written c d cycle bits done h in
    subst IsOrdered (sym w.result) (put-IsOrdered c w.at bits a)
