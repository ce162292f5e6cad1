-- ===== src/Runner/Entry/Loops.antt =====
-- Loops: how often a body runs, and what `setOpEntry` does at its end.
use native.Mathlib.Nat.{mod-eq_of_lt, mod_self, mul-add-mod_self_right, sub_self, div-eq_of_lt}
use event_queue.Common.{
  ℕ, suc, ◌+◌, ◌-◌, ◌*◌, ◌/◌, ◌%◌, ◌≤◌, ◌<◌, ◌≡◌, none, some, List, ◌∷◌, arith, ◌∙◌,
}
use event_queue.Program.{
  Program, scf_yield, parent_op, get_ex_times, get_constant, trips, operand, is_async,
}
use event_queue.Memory.{ceil_div}
use event_queue.Memory.Cycles.{ceil_div_least}
use event_queue.Launcher.{LauncherTable}
use event_queue.Runner.State.{Runner, Who, table}
use event_queue.Runner.Entry.{yield_to, after_op, set_op_entry, enter, turn, sync_table}

-- The launcher at the start of the loop's body again, and behind the loop.
abbrev pub looped : Program → ℕ → LauncherTable → LauncherTable
looped p op l = record l { next_iter = (p.block (p.operation (parent_op p op)).body).operations }

abbrev pub left : Program → ℕ → LauncherTable → LauncherTable
left p op l = record l {
  block = some (p.operation (parent_op p op)).parent;
  next_iter = after_op (parent_op p op) (p.block (p.operation (parent_op p op)).parent).operations;
}

-- At the end of the body of a loop that is to run `suc k` times, counted over all runs of the loop:
-- behind each whole number of runs the next `k` ends lead back to the start of the body, and the
-- one after them leaves the loop, also where `k` is 0.
pub yield_to_rounds :
    (p : Program) (op m k : ℕ) (l : LauncherTable)
    → get_ex_times p (parent_op p op) ≡ some (suc k)
    → ((j : ℕ) → j < k → yield_to p op (m * suc k + suc j) l ≡ some (looped p op l))
      × (yield_to p op (m * suc k + suc k) l ≡ some (left p op l))
unfolding yield_to
yield_to_rounds p op m k l e =
    let last : (m * suc k + suc k) % suc k ≡ 0 =
      mul-add-mod_self_right m (suc k) (suc k) ∙ mod_self (suc k) in
    (
      λ j h.
          let inner : (m * suc k + suc j) % suc k ≡ suc j =
            mul-add-mod_self_right m (suc k) (suc j) ∙ mod-eq_of_lt (omega arith) in
          rw (e, inner) (ground arith),
      rw (e, last) (ground arith),
    )

enter_faults :
    (p : Program) (r : Runner) (w : Who) (tid op : ℕ) (rest : List ℕ)
    → turn p r w tid op rest ≡ none
    → enter p r w tid (op ∷ rest) ≡ none
unfolding enter
enter_faults p r w tid op rest e = rw (e, enter)

turn_faults :
    (p : Program) (r : Runner) (w : Who) (tid op : ℕ) (rest : List ℕ) (l : LauncherTable)
    → (p.operation op).kind ≡ scf_yield
    → get_ex_times p (parent_op p op) ≡ some 0
    → table r w ≡ some l
    → turn p r w tid op rest ≡ none
unfolding turn is_async sync_table yield_to
turn_faults p r w tid op rest l k e found = rw (k, found, e)

equal_bounds : (p : Program) (bound step : ℕ) → trips p bound bound (suc step) ≡ some 0
equal_bounds p bound step = rw (sub_self bound, no_runs) (ground arith)
  where
    no_runs : (0 + suc step - 1) / suc step ≡ 0
    no_runs = div-eq_of_lt (omega arith)

-- A loop whose bounds are equal is not passed over: its body is run, and at its end the simulator
-- divides by the loop's number of runs, which is 0.
pub empty_loop_faults :
    (p : Program) (r : Runner) (w : Who) (tid op bound step b : ℕ) (rest : List ℕ)
    (l : LauncherTable)
    → (p.operation op).kind ≡ scf_yield
    → get_ex_times p (parent_op p op) ≡ trips p bound bound (suc step)
    → table r w ≡ some l
    → l.op_entry.op ≡ none
    → l.block ≡ some b
    → l.next_iter ≡ op ∷ rest
    → set_op_entry p r w tid ≡ none
unfolding set_op_entry
empty_loop_faults p r w tid op bound step b rest l k e found idle inside here =
    rw (found, idle, inside, here)
      (enter_faults p r w tid op rest (turn_faults p r w tid op rest l k none_run found))
  where
    none_run : get_ex_times p (parent_op p op) ≡ some 0
    none_run = e ∙ equal_bounds p bound step

-- The runs of a loop with constant bounds: the least number of steps that leads from the lower
-- bound to the upper one.
pub get_ex_times_least :
    (p : Program) (op lb ub step : ℕ)
    → (let args = (p.operation op).operands in
        (get_constant p (operand args 0) ≡ some lb)
        × (get_constant p (operand args 1) ≡ some ub)
        × (get_constant p (operand args 2) ≡ some step))
    → lb ≤ ub
    → 0 < step
    → (n : ℕ) × (get_ex_times p op ≡ some n) × (ub ≤ lb + n * step) × (n * step < ub - lb + step)
unfolding get_ex_times
get_ex_times_least p op lb ub step (e0, e1, e2) h pos =
    let (covers, least) = ceil_div_least (ub - lb) step pos in
    (ceil_div (ub - lb) step, rw (e0, e1, e2) (ground arith), omega arith, omega arith)
