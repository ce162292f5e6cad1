-- ===== src/Memory/Cycles.antt =====
-- The cycles of memory accesses and transfers.
use native.Mathlib.Nat.{div-add-mod, mod-lt, pow-suc, mul_comm}
use event_queue.Common.{
  ℕ, zero, suc, ◌+◌, ◌-◌, ◌*◌, ◌/◌, ◌%◌, ◌^◌, ◌≤◌, ◌<◌, ◌≡◌, refl, none, some, arith, leb, inl, inr,
  Bool-cases, ◌==◌, ◌⊎◌, ==_iff, ==-of-ne,
}
use event_queue.Connection.{MemOp, read, write}
use event_queue.Memory.{
  Amount, enough, amount, new_dma, transfer_cycles, Memory, new_sram, new_dram, new_register_file,
  access_cycles, ceil_div, log2_from, address_size, count_bits,
}

-- The quotient rounded up is the least number of rounds that covers `n`.
pub ceil_div_least : (n d : ℕ) → 0 < d → (n ≤ ceil_div n d * d) × (ceil_div n d * d < n + d)
ceil_div_least n d pos =
    let m = n + d - 1 in
    let whole = div-add-mod m d in
    let part : m % d < d = mod-lt m pos in
    let swap = mul_comm d (m / d) in (omega arith, omega arith)

-- The ports that an access uses.
abbrev pub ports : Memory → MemOp → Amount
ports m read = m.read_ports
ports m write = m.write_ports

-- An access by a bounded number of ports takes the least number of rounds that moves all of its
-- lines, and the memory's cycles for each round.
pub access_cycles_rounds :
    (m m' : Memory) (op : MemOp) (dlines p t : ℕ)
    → ports m op ≡ amount p
    → access_cycles m dlines op ≡ some (t, m')
    → (rounds : ℕ) × (t ≡ rounds * m.cycles_per_data)
      × (dlines ≤ rounds * p)
      × (rounds * p < dlines + p)
unfolding access_cycles
access_cycles_rounds m m' read dlines p t e h =
    let (covers, least) = ceil_div_least dlines p (ground arith) in
    (ceil_div dlines p, ground arith, covers, least)
access_cycles_rounds m m' write dlines p t e h =
    let (covers, least) = ceil_div_least dlines p (ground arith) in
    (ceil_div dlines p, ground arith, covers, least)

-- The buffer size of a `DRAM` overflows to 0, and its constructor divides by it: no DRAM can be
-- built, whatever its banks, lines and bits.
pub new_dram_fault : (id bks dlines bits : ℕ) → new_dram id bks dlines bits ≡ none
unfolding new_dram
new_dram_fault id bks dlines bits = refl

-- The memory behind an access: its statistics have grown.
abbrev pub counted : Memory → ℕ → MemOp → Memory
counted m dlines read = record m { total_read = count_bits m.total_read dlines m.data_size }
counted m dlines write = record m { total_write = count_bits m.total_write dlines m.data_size }

pub access_cycles-counted :
    (m m' : Memory) (dlines t : ℕ) (op : MemOp)
    → access_cycles m dlines op ≡ some (t, m')
    → m' ≡ counted m dlines op
unfolding access_cycles
access_cycles-counted m m' dlines t read h = ground arith
access_cycles-counted m m' dlines t write h = ground arith

free_access :
    (m : Memory) (dlines p : ℕ) (op : MemOp)
    → m.cycles_per_data ≡ 0
    → m.min_cycles ≡ 0
    → 0 < p
    → (ports m op ≡ amount p) ⊎ (ports m op ≡ enough)
    → access_cycles m dlines op ≡ some (0, counted m dlines op)
unfolding access_cycles
free_access m dlines p read none_each none_least pos (inl e) = rw (e, none_each) (ground arith)
free_access m dlines p read none_each none_least pos (inr e) = rw e (ground arith)
free_access m dlines p write none_each none_least pos (inl e) = rw (e, none_each) (ground arith)
free_access m dlines p write none_each none_least pos (inr e) = rw e (ground arith)

-- Every access to an SRAM of at least one bank takes no time, and is counted.
pub sram_free :
    (id bks lines bits dlines : ℕ) (op : MemOp) (m : Memory)
    → 0 < bks
    → new_sram id bks lines bits ≡ some m
    → access_cycles m dlines op ≡ some (0, counted m dlines op)
unfolding new_sram
sram_free id bks lines bits dlines read m pos e =
    free_access m dlines bks read (ground arith) (ground arith) pos (inl (ground arith))
sram_free id bks lines bits dlines write m pos e =
    free_access m dlines bks write (ground arith) (ground arith) pos (inr (ground arith))

-- Every access to a register file takes no time, and is counted.
pub register_file_free :
    (id bks lines bits dlines : ℕ) (op : MemOp) (m : Memory)
    → new_register_file id bks lines bits ≡ some m
    → access_cycles m dlines op ≡ some (0, counted m dlines op)
unfolding new_register_file
register_file_free id bks lines bits dlines read m e =
    free_access m dlines 1 read (ground arith) (ground arith) (omega arith) (inr (ground arith))
register_file_free id bks lines bits dlines write m e =
    free_access m dlines 1 write (ground arith) (ground arith) (omega arith) (inr (ground arith))

-- A transfer of `volume` lines by a new DMA engine takes the least number of cycles that moves
-- them at 10 * 1024 * 1024 lines a cycle.
pub dma_transfer_least :
    (id volume : ℕ)
    → let cycles = transfer_cycles (new_dma id) volume in
      (volume ≤ cycles * (10 * 1024 * 1024))
      × (cycles * (10 * 1024 * 1024) < volume + 10 * 1024 * 1024)
unfolding transfer_cycles new_dma
dma_transfer_least id volume = omega arith

k-le-pow : (k : ℕ) → k < 2 ^ k
k-le-pow zero = omega arith
k-le-pow (suc k) = omega (arith, k-le-pow k, pow-suc 2 k)

below_suc : (j k n : ℕ) → 2 ^ k < n → ((i : ℕ) → i < k → 2 ^ i < n) → j < suc k → 2 ^ j < n
below_suc j k n here below early = elim (Bool-cases (j == k)) [
  | inl same ↦ rw ((==_iff j k).0 same) here
  | inr other ↦ below j (ground arith)
]

log2_from_least :
    (fuel k n : ℕ)
    → n ≤ fuel + k
    → ((j : ℕ) → j < k → 2 ^ j < n)
    → (n ≤ 2 ^ log2_from fuel k n) × ((j : ℕ) → j < log2_from fuel k n → 2 ^ j < n)
unfolding log2_from
log2_from_least zero k n fuel_left below = (omega (arith, k-le-pow k), below)
log2_from_least (suc fuel) k n fuel_left below = elim (Bool-cases (leb n (2 ^ k))) [
  | inl enough_bits ↦ rw enough_bits (ground arith, below)
  | inr more_bits ↦ rw more_bits (
      log2_from_least fuel (suc k) n (omega arith)
        (λ j early. below_suc j k n (ground arith) below early))
]

-- The addresses of a memory have just enough bits for its lines.
pub address_size_least :
    (n : ℕ) → (n ≤ 2 ^ address_size n) × ((j : ℕ) → j < address_size n → 2 ^ j < n)
unfolding address_size
address_size_least zero = (omega arith, λ j h. elim h [ ])
address_size_least (suc n) =
    rw (==-of-ne (suc n) 0 (omega arith))
      (log2_from_least (suc n) 0 (suc n) (omega arith) (λ j h. elim h [ ]))
