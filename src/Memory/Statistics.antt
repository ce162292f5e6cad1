-- ===== src/Memory/Statistics.antt =====
-- The bits that a memory counts for its bandwidth.
use event_queue.Common.{ℕ, ◌+◌, ◌≡◌, refl, some, arith}
use event_queue.Connection.{MemOp, read, write}
use event_queue.Memory.Cycles.{counted, access_cycles-counted}
use event_queue.Memory.{amount, Memory, access_cycles}

counted_additive :
    (m : Memory) (a b size : ℕ) (op : MemOp)
    → m.data_size ≡ amount size
    → ((counted (counted m a op) b op).total_read ≡ (counted m (a + b) op).total_read)
      × ((counted (counted m a op) b op).total_write ≡ (counted m (a + b) op).total_write)
counted_additive m a b size read e = (rw e (omega arith), refl)
counted_additive m a b size write e = (refl, rw e (omega arith))

-- Two accesses of the same kind count as much as one of as many lines, whatever their cycles, and
-- neither kind touches the count of the other.
pub access_cycles_additive :
    (m m1 m2 m3 : Memory) (a b size t1 t2 t3 : ℕ) (op : MemOp)
    → m.data_size ≡ amount size
    → access_cycles m a op ≡ some (t1, m1)
    → access_cycles m1 b op ≡ some (t2, m2)
    → access_cycles m (a + b) op ≡ some (t3, m3)
    → (m2.total_read ≡ m3.total_read) × (m2.total_write ≡ m3.total_write)
access_cycles_additive m m1 m2 m3 a b size t1 t2 t3 op e h1 h2 h3 =
    rw
      (
        access_cycles-counted m1 m2 b t2 op h2,
        access_cycles-counted m m1 a t1 op h1,
        access_cycles-counted m m3 (a + b) t3 op h3,
      )
      (counted_additive m a b size op e)
