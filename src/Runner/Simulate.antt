-- ===== src/Runner/Simulate.antt =====
-- lib/EQueue/CommandProcessor.cpp: `Runner::simulateFunction`, without its figures on time and
-- bandwidth at the end.
pub mod Clock
use Prim.Native.String.{String}
use event_queue.Common.{
  ℕ, zero, suc, ◌+◌, ◌≡◌, Bool, true, false, Option, none, some, List, [], ◌∷◌, ◌++◌, ◌>>=◌, u64,
  min, not, ◌||◌, keys, length, if◌then◌else◌,
}
use event_queue.Program.{Program, Kind}
use event_queue.Launcher.{LauncherTable, is_idle}
use event_queue.Runner.State.{Runner, Who, host, device, table}
use event_queue.Runner.Control.{check_event_queue, check_control_queue}
use event_queue.Runner.Entry.{set_op_entry}
use event_queue.Runner.Steps.{schedule_op, finish_op, next_end_times}

-- `std::min_element` of a list that is not empty.
unfoldable pub min_element : ℕ → List ℕ → ℕ
min_element t [] = t
min_element t (u ∷ us) = min_element (min t u) us

-- The time of the next round: the earliest end of an operation at work, or one cycle later.
unfoldable pub next_time : ℕ → List ℕ → ℕ
unfolding min_element
next_time time [] = u64 (time + 1)
next_time time (t ∷ ts) = min_element t ts

unfoldable pub all_end_times : List (ℕ × LauncherTable) → List ℕ → List ℕ
unfolding next_end_times
all_end_times [] next_times = next_times
all_end_times ((v, l) ∷ ls) next_times = all_end_times ls (next_end_times l next_times)

unfoldable pub any_busy : List (ℕ × LauncherTable) → Bool → Bool
unfolding is_idle
any_busy [] running = running
any_busy ((v, l) ∷ ls) running = any_busy ls (running || not (is_idle l))

module _ (p : Program) (op_name : Kind → String) (views depth : ℕ) where
  -- The loops over the launchers. The keys are those at the start of a loop.
  unfoldable pub enter_all : Runner → ℕ → List ℕ → Option (Runner × ℕ)
  unfolding set_op_entry
  enter_all r tid [] = some (r, tid)
  enter_all r tid (k ∷ ks) = do (r', tid') ← set_op_entry p r (device k) tid; enter_all r' tid' ks

  abbrev behind_first : List ℕ → List ℕ
  behind_first [] = []
  behind_first (k ∷ ks) = ks

  -- The launchers look at their event queues. Once a control operation is done the iterator is set
  -- to the first launcher, and the loop's `iter++` moves it to the second one. The fuel bounds how
  -- often that happens.
  unfoldable pub poll : ℕ → List ℕ → Runner → List ℕ → Option Runner
  unfolding check_event_queue check_control_queue
  poll fuel all r [] = some r
  poll zero all r (k ∷ ks) = none
  poll (suc fuel) all r (k ∷ ks) = elim (check_event_queue p r (device k)) [
    | none ↦ none
    | some r1 ↦ elim (check_control_queue p r1) [
      | none ↦ none
      | some (fired, r2) ↦ elim fired [
        | true ↦ poll fuel all r2 (behind_first all)
        | false ↦ poll (suc fuel) all r2 ks
      ]
    ]
  ]

  unfoldable pub schedule_all : Runner → ℕ → ℕ → List ℕ → Option Runner
  unfolding schedule_op
  schedule_all r time row [] = some r
  schedule_all r time row (k ∷ ks) = do
    r' ← schedule_op p op_name views depth r (device k) time row
    schedule_all r' time (row + 1) ks

  unfoldable pub finish_all : Runner → ℕ → ℕ → List ℕ → Option Runner
  unfolding finish_op
  finish_all r time row [] = some r
  finish_all r time row (k ∷ ks) = do
    r' ← finish_op p op_name r (device k) time row
    finish_all r' time (row + 1) ks

  -- Steps 1 and 2 of a round.
  unfoldable pub round_queues : Runner → ℕ → Option (Runner × ℕ)
  unfolding enter_all poll
  round_queues r tid = do
    (r1, tid1) ← set_op_entry p r host tid
    (r2, tid2) ← enter_all r1 tid1 (keys r1.launch_tables)
    r3 ← check_event_queue p r2 host
    (_, r4) ← check_control_queue p r3
    let all = keys r4.launch_tables
    r5 ← poll (suc (length r4.control_queue)) all r4 all
    some (r5, tid2)

  abbrev pub is_running : Runner → Bool
  is_running r = any_busy r.launch_tables (not (is_idle r.host_table))

  -- Steps 3 and 4 of a round: the runner behind it and the new time.
  unfoldable pub round_work : Runner → ℕ → Option (Runner × ℕ)
  unfolding schedule_all finish_all next_time all_end_times
  round_work r time = do
    r1 ← schedule_op p op_name views depth r host time 0
    r2 ← schedule_all r1 time 1 (keys r1.launch_tables)
    let time' = next_time time (all_end_times r2.launch_tables (next_end_times r2.host_table []))
    r3 ← finish_op p op_name r2 host time' 0
    r4 ← finish_all r3 time' 1 (keys r3.launch_tables)
    some (r4, time')

  -- The simulation from a round on: whether it is still running after the rounds that the fuel
  -- allows, the runner and the time.
  unfoldable pub simulate : ℕ → Runner → ℕ → ℕ → Option (Bool × Runner × ℕ)
  unfolding round_queues round_work any_busy
  simulate zero r time tid = some (true, r, time)
  simulate (suc rounds) r time tid = do
    (r1, tid1) ← round_queues r tid
    elim (is_running r1) [
      | false ↦ some (false, r1, time)
      | true ↦ elim (round_work r1 time) [
        | none ↦ none
        | some (r2, time') ↦ simulate rounds r2 time' tid1
      ]
    ]
