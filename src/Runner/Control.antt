-- ===== src/Runner/Control.antt =====
-- lib/EQueue/CommandProcessor.cpp: `Runner::checkControlQueue` and `Runner::checkEventQueue`.
pub mod Fixpoint
pub mod Conjunction
use event_queue.Common.{
  ℕ, zero, suc, ◌≡◌, Bool, true, false, Option, none, some, List, [], ◌∷◌, ◌++◌, length, ◌>>=◌,
  if◌then◌else◌,
}
use event_queue.Program.{Program, Kind, launch, is_control, operand}
use event_queue.Launcher.{LauncherTable, new_entry, is_idle, set_block}
use event_queue.Runner.State.{Runner, Who, table, set_table, bump_op}
use event_queue.Runner.Signals.{wait_for_signal, wait_for_signals, update_execution}

module _ (p : Program) where
  -- A control operation that is done: it is counted, its signals are given, and it leaves the
  -- queue, which the scan then reads from the front again.
  abbrev pub fire : Runner → ℕ → List ℕ → Runner
  fire r op rest = record (update_execution p (bump_op r op) (p.operation op).results) {
    control_queue = rest;
  }

  -- The loop over the control queue, with the operations that wait so far and those to come. The
  -- fuel bounds how many operations leave the queue. The result says whether one did.
  unfoldable pub scan_control : ℕ → Bool → Runner → List ℕ → List ℕ → Option (Bool × Runner)
  unfolding wait_for_signals update_execution is_control
  scan_control fuel fired r waiting [] = some (fired, r)
  scan_control zero fired r waiting (op ∷ ops) = none
  scan_control (suc fuel) fired r waiting (op ∷ ops) = elim (is_control (p.operation op).kind) [
    | false ↦ none
    | true ↦
        let (waits, r') = wait_for_signals p r op in
        elim waits [
          | true ↦ scan_control (suc fuel) fired r' (waiting ++ op ∷ []) ops
          | false ↦ scan_control fuel true (fire r' op (waiting ++ ops)) [] (waiting ++ ops)
        ]
  ]

  unfoldable pub check_control_queue : Runner → Option (Bool × Runner)
  unfolding scan_control
  check_control_queue r = scan_control (suc (length r.control_queue)) false r [] r.control_queue

  abbrev waits_for_event : Kind → Runner → ℕ → Bool × Runner
  waits_for_event launch r op = wait_for_signal p r op (operand (p.operation op).operands 0)
  waits_for_event k r op = wait_for_signals p r op

  abbrev enter_block : Kind → LauncherTable → ℕ → LauncherTable
  enter_block launch l op = set_block p l (p.operation op).body
  enter_block k l op = l

  abbrev take_event : LauncherTable → ℕ → List ℕ → LauncherTable
  take_event l op rest =
      enter_block (p.operation op).kind (record l { op_entry = new_entry op 0; event_queue = rest })
        op

  abbrev start_event : Runner → Who → LauncherTable → ℕ → List ℕ → Bool × Runner → Runner
  start_event r w l op rest (true, r') = r'
  start_event r w l op rest (false, r') =
      if is_idle l then set_table r' w (take_event l op rest) else r'

  abbrev check_first : Runner → Who → LauncherTable → List ℕ → Runner
  check_first r w l [] = r
  check_first r w l (op ∷ rest) =
      start_event r w l op rest (waits_for_event (p.operation op).kind r op)

  -- A launcher that is idle takes up the first event of its queue, once that need not wait.
  unfoldable pub check_event_queue : Runner → Who → Option Runner
  unfolding wait_for_signal wait_for_signals is_idle set_block
  check_event_queue r w = do l ← table r w; some (check_first r w l l.event_queue)
