-- ===== src/Runner/Signals.antt =====
-- lib/EQueue/CommandProcessor.cpp: the signals of class `Runner` (`updateExecution`,
-- `updateSignalIds`, `updateIterState`, `getSignalId` and both overloads of `waitForSignal`).
pub mod Waiting
pub mod Handshake
use event_queue.Common.{
  ℕ, ◌+◌, ◌*◌, ◌≡◌, Bool, true, false, not, Option, none, some, List, [], ◌∷◌, u64, leb, ◌==◌,
  through_int, if◌then◌else◌, update,
}
use event_queue.Program.{Program, operand}
use event_queue.Runner.State.{Runner, next_count, count_of}

abbrev known_or : ℕ → Option ℕ → ℕ
known_or v none = v
known_or v (some s) = s

abbrev pub get_signal_id : Runner → ℕ → ℕ
get_signal_id r v = known_or v (r.signal_ids v)

-- `a / b >= c / d + 1 / e` for cycles that are not 0; the source compares rounded quotients.
abbrev pub lags : ℕ → ℕ → ℕ → ℕ → ℕ → Bool
lags a b c d e = leb ((c * e + d) * b) (a * d * e)

-- Reading `valueMap[init_signal]` puts a count of 0 where there is none.
abbrev pub touch : Runner → ℕ → Runner
touch r v = record r { value_map = update r.value_map v (some (count_of (r.value_map v))) }

abbrev pub has_count : Option ℕ → Bool
has_count none = false
has_count (some _) = true

abbrev pub or_later : Bool × Runner → (Runner → Bool × Runner) → Bool × Runner
or_later (true, r) later = (true, r)
or_later (false, r) later = later r

module _ (p : Program) where
  abbrev pub bump_value : Runner → ℕ → Runner
  bump_value r v = record r {
    value_map =
        update r.value_map (r.value_ids v) (some (next_count (r.value_map (r.value_ids v))));
  }

  unfoldable pub update_execution : Runner → List ℕ → Runner
  update_execution r [] = r
  update_execution r (arg ∷ args) =
      update_execution (if p.is_signal arg then bump_value r arg else r) args

  abbrev pub link : Runner → ℕ → ℕ → Runner
  link r target source = record r {
    signal_ids =
        update r.signal_ids (r.value_ids target) (some (get_signal_id r (r.value_ids source)));
  }

  -- The two ranges are walked together; the second one is as long as the first.
  unfoldable pub update_signal_ids : Runner → List ℕ → List ℕ → Runner
  update_signal_ids r [] sources = r
  update_signal_ids r (t ∷ ts) [] = r
  update_signal_ids r (t ∷ ts) (s ∷ ss) =
      update_signal_ids (if p.is_signal t then link r t s else r) ts ss

  unfoldable pub update_iter_state : Runner → List ℕ → Bool → Runner
  update_iter_state r [] yield = r
  update_iter_state r (arg ∷ args) yield =
      update_iter_state
        (if p.is_signal arg
          then record r { iter_state = update r.iter_state (r.value_ids arg) yield }
          else r)
        args yield

  -- The cycle of the block in which a signal is defined, through an `int`.
  abbrev cycle_of : Runner → Option ℕ → ℕ
  cycle_of r none = 1
  cycle_of r (some op) = through_int (r.block_exs (p.operation op).parent)

  abbrev pub block_cycle : Runner → ℕ → ℕ
  block_cycle r signal = cycle_of r (p.definer signal)

  -- The signal is there, as often as `made`, and `in` has no initial value but the signal itself.
  abbrev pub wait_plain : Runner → ℕ → ℕ → ℕ → Bool × Runner
  wait_plain r op signal made = (
    leb (u64 (r.block_exs (p.operation op).parent * made))
        (u64 (r.op_map op * block_cycle r signal)),
    r,
  )

  -- `in` carries the value of an iteration, which began with `init`.
  abbrev pub wait_iter : Runner → ℕ → ℕ → ℕ → ℕ → Bool × Runner
  wait_iter r op signal made init =
      let op_block_cycle = r.block_exs (p.operation op).parent in
      let init_cycle = block_cycle r init in
      (
        if leb (u64 (op_block_cycle * count_of (r.value_map init))) (u64 (r.op_map op * init_cycle))
            then true
            else lags (r.op_map op) op_block_cycle made (block_cycle r signal) init_cycle,
        touch r init,
      )

  abbrev pub wait_with : Runner → ℕ → ℕ → Option ℕ → Option ℕ → Bool × Runner
  wait_with r op signal none none = (true, r)
  wait_with r op signal none (some init) =
      (if init == signal then true else not (has_count (r.value_map init)), r)
  wait_with r op signal (some made) none = wait_plain r op signal made
  wait_with r op signal (some made) (some init) =
      if init == signal then wait_plain r op signal made else wait_iter r op signal made init

  -- Whether `op` has to wait for the signal `in`.
  unfoldable pub wait_for_signal : Runner → ℕ → ℕ → Bool × Runner
  wait_for_signal r op in' =
      let v = r.value_ids in' in
      let signal = get_signal_id r v in
      wait_with r op signal (r.value_map signal) (r.iter_init_value v)

  unfoldable pub wait_for_operands : Runner → ℕ → List ℕ → Bool × Runner
  unfolding wait_for_signal
  wait_for_operands r op [] = (false, r)
  wait_for_operands r op (v ∷ vs) =
      or_later (if p.is_signal v then wait_for_signal r op v else (false, r))
        (λ r'. wait_for_operands r' op vs)

  -- Whether `op` has to wait for one of its signals.
  unfoldable pub wait_for_signals : Runner → ℕ → Bool × Runner
  unfolding wait_for_operands
  wait_for_signals r op = wait_for_operands r op (p.operation op).operands
