-- ===== src/Runner/Signals/Handshake.antt =====
-- A signal that is given and an operation that waits for it, in the same block.
use native.Mathlib.Nat.{mul-le-mul_left, mul-lt-mul_of_pos_left, mul-le-mul_right, mul_comm}
use event_queue.Common.{
  ℕ, ◌+◌, ◌*◌, ◌^◌, ◌<◌, ◌≤◌, ◌≡◌, refl, ap, ◌∙◌, Bool, true, false, Option, none, some, [], ◌∷◌,
  u64_mod, u64_small, through_int_small, leb, arith, Bool-cases, inl, inr, ==-refl, leb→le,
}
use event_queue.Program.{Program}
use event_queue.Runner.State.{Runner, count_of, next_count, bump_op}
use event_queue.Runner.Signals.{
  wait_for_signal, wait_with, get_signal_id, block_cycle, update_execution, bump_value,
}

-- Multiplying both sides by a positive number keeps the order.
leb-scaled : (c m n : ℕ) → 0 < c → leb (c * m) (n * c) ≡ leb m n
leb-scaled c m n pos = elim (Bool-cases (leb m n)) [
  | inl le ↦
      let scaled = mul-le-mul_left c (leb→le m n le) in let swapped = mul_comm n c in ground arith
  | inr gt ↦
      let lt : n < m = ground arith in
      let scaled = mul-lt-mul_of_pos_left lt pos in let swapped = mul_comm n c in ground arith
]

at_most_next : (n : ℕ) → n ≤ n + 1
at_most_next n = omega arith

leb_refl : (n : ℕ) → leb n n ≡ true
leb_refl n = ground arith

leb_next : (n : ℕ) → leb (n + 1) n ≡ false
leb_next n = ground arith

-- The signal `v` stands for `signal`, carries no value of an iteration, and is defined in the block
-- that `op` stands in; that block runs `c` times.
pub record IsBeside (p : Program) (r : Runner) (op v signal c : ℕ) : Type 0 where
  pub is : get_signal_id r (r.value_ids v) ≡ signal
  pub plain : r.iter_init_value (r.value_ids v) ≡ none
  pub definer : ℕ
  pub defined : p.definer signal ≡ some definer
  pub beside : (p.operation definer).parent ≡ (p.operation op).parent
  pub runs : r.block_exs (p.operation op).parent ≡ c
  pub positive : 0 < c
  pub small : c < 2 ^ 31

wait_with-IsBeside :
    (p : Program) (r : Runner) (op v signal c : ℕ) (given : Option ℕ)
    → IsBeside p r op v signal c
    → c * count_of given < u64_mod
    → r.op_map op * c < u64_mod
    → wait_with p r op signal given none ≡ (leb (count_of given) (r.op_map op), r)
wait_with-IsBeside p r op v signal c none b fits fits' = ground arith
wait_with-IsBeside p r op v signal c (some made) b fits fits' =
    let cycle : block_cycle p r signal ≡ c =
      rw b.defined (rw b.beside (rw b.runs (through_int_small c b.small))) in
    rw
      (
        b.runs,
        cycle,
        u64_small (c * made) fits,
        u64_small (r.op_map op * c) fits',
        leb-scaled c made (r.op_map op) b.positive,
      )
      refl

-- The operation waits exactly until the signal has been given more often than it has been counted.
wait_for_signal-IsBeside :
    (p : Program) (r : Runner) (op v signal c : ℕ)
    → IsBeside p r op v signal c
    → c * count_of (r.value_map signal) < u64_mod
    → r.op_map op * c < u64_mod
    → wait_for_signal p r op v ≡ (leb (count_of (r.value_map signal)) (r.op_map op), r)
unfolding wait_for_signal
wait_for_signal-IsBeside p r op v signal c b fits fits' =
    rw (b.is, b.plain) (wait_with-IsBeside p r op v signal c (r.value_map signal) b fits fits')

-- The runner behind the operation that gives the signal, the value `given` of the program.
abbrev pub after_giving : Program → Runner → ℕ → Runner
after_giving p r given = update_execution p r (given ∷ [])

count_after_giving :
    (p : Program) (r : Runner) (given signal n : ℕ)
    → p.is_signal given ≡ true
    → r.value_ids given ≡ signal
    → count_of (r.value_map signal) ≡ n
    → n + 1 < u64_mod
    → (after_giving p r given ≡ bump_value p r given)
      × (count_of ((bump_value p r given).value_map signal) ≡ n + 1)
unfolding update_execution
count_after_giving p r given signal n is names counted fits =
    (rw is refl, rw (names, ==-refl signal) (next_counted (r.value_map signal) counted))
  where
    next_counted : (o : Option ℕ) → count_of o ≡ n → next_count o ≡ n + 1
    next_counted none e = omega (arith, e)
    next_counted (some m) e = ground arith

-- An operation that has been counted as often as a signal of its own block has been given waits for it.
-- Once the signal is given again the operation goes ahead, and once it has been counted for that it
-- waits again. The products of counts and runs that are compared fit in 64 bits.
pub signal_handshake :
    (p : Program) (r : Runner) (op v given signal c n : ℕ)
    → IsBeside p r op v signal c
    → p.is_signal given ≡ true
    → r.value_ids given ≡ signal
    → count_of (r.value_map signal) ≡ n
    → r.op_map op ≡ n
    → c * (n + 1) < u64_mod
    → (wait_for_signal p r op v ≡ (true, r))
      × (wait_for_signal p (after_giving p r given) op v ≡ (false, after_giving p r given))
      × (wait_for_signal p (bump_op (after_giving p r given) op) op v
          ≡ (true, bump_op (after_giving p r given) op))
signal_handshake p r op v given signal c n b is names counted done fits =
    let one_each = mul-le-mul_right (n + 1) b.positive in
    let order = mul-le-mul_left c (at_most_next n) in
    let swap = mul_comm n c in
    let swap' = mul_comm (n + 1) c in
    let small : n + 1 < u64_mod = omega arith in
    let (same, counted') = count_after_giving p r given signal n is names counted small in
    let s = bump_value p r given in
    let bs : IsBeside p s op v signal c = record {
      is = b.is;
      plain = b.plain;
      definer = b.definer;
      defined = b.defined;
      beside = b.beside;
      runs = b.runs;
      positive = b.positive;
      small = b.small;
    } in
    let t = bump_op s op in
    let bt : IsBeside p t op v signal c = record {
      is = b.is;
      plain = b.plain;
      definer = b.definer;
      defined = b.defined;
      beside = b.beside;
      runs = b.runs;
      positive = b.positive;
      small = b.small;
    } in
    let done_t : t.op_map op ≡ n + 1 = rw (==-refl op, done) (u64_small (n + 1) small) in
    let first =
      wait_for_signal-IsBeside p r op v signal c b (rw counted (omega arith))
        (rw done (omega arith)) in
    let second =
      wait_for_signal-IsBeside p s op v signal c bs (rw counted' fits) (rw done (omega arith)) in
    let third =
      wait_for_signal-IsBeside p t op v signal c bt (rw counted' fits) (rw done_t (omega arith)) in
    rw same (
      first ∙ ap (λ (w : Bool). (w, r)) (rw (counted, done) (leb_refl n)),
      second ∙ ap (λ (w : Bool). (w, s)) (rw (counted', done) (leb_next n)),
      third ∙ ap (λ (w : Bool). (w, t)) (rw (counted', done_t) (leb_refl (n + 1))),
    )
