-- ===== src/Runner/Steps/Finish.antt =====
-- Finish: what `finishOp` does to a launcher.
use Prim.Native.String.{String}
use event_queue.Common.{
  ℕ, ◌≡◌, refl, sym, ◌∙◌, subst, Bool, true, false, ◌&&◌, ◌⊎◌, inl, inr, some, none, Option,
  Bool-cases, List, [], ◌∷◌, ◌==◌, ==-refl, if◌then◌else◌, lookup-assign,
}
use event_queue.Program.{Program, Kind}
use event_queue.Launcher.{LauncherTable, OpEntry, is_started, is_done, empty_entry}
use event_queue.Runner.State.{Runner, TraceEvent, Who, host, device, table, set_table, emit}
use event_queue.Runner.Steps.Effects.{Effect, finish_effect-Effect}
use event_queue.Runner.Steps.Ends.{IsStuck, finish_effect-TakesEffect}
use event_queue.Runner.Steps.{
  finish_op, finish_started, finish_entry, mark_entry, mark_devices, mark,
}

table-set_table :
    (r : Runner) (w : Who) (l l' : LauncherTable)
    → table r w ≡ some l
    → table (set_table r w l') w ≡ some l'
table-set_table r host l l' h = refl
table-set_table r (device v) l l' h = lookup-assign v v l' r.launch_tables ∙ rw (h, ==-refl v) refl

-- An operation that has ended: it has started, and its end is not after the time.
abbrev pub has_ended : LauncherTable → ℕ → Bool
has_ended l time = is_started l.op_entry && is_done l.op_entry time

module _ (p : Program) (op_name : Kind → String) where
  -- The marks change the trace only.
  mark_devices-trace :
      (l : LauncherTable) (e : OpEntry) (op ph time : ℕ) (uids : List ℕ) (r : Runner)
      → (ts : List TraceEvent) × (mark_devices p op_name l e op ph time uids r
          ≡ record r { trace = ts })
  unfolding mark_devices
  mark_devices-trace l e op ph time [] r = (r.trace, refl)
  mark_devices-trace l e op ph time (uid ∷ uids) r =
      mark_devices-trace l e op ph time uids
        (emit (mark (op_name (p.operation op).kind) e.tid l ph time uid 1) r)

  mark_entry-trace :
      (l : LauncherTable) (e : OpEntry) (op ph time row : ℕ) (r : Runner)
      → (ts : List TraceEvent) × (mark_entry p op_name l e op ph time row r
          ≡ record r { trace = ts })
  unfolding mark_entry
  mark_entry-trace l e op ph time row r = elim (Bool-cases (e.end_time == e.start_time)) [
    | inl h ↦ rw h (mark_devices-trace l e op ph time e.mem_tids r)
    | inr h ↦ rw h (
        mark_devices-trace l e op ph time e.mem_tids
          (emit (mark (op_name (p.operation op).kind) e.tid l ph time row 0) r))
  ]

  -- The operation has had its effect, which `s` holds. Then its launcher, otherwise as it was, is emptied,
  -- events are added to the trace, and nothing else is changed.
  abbrev pub Freed : Runner → Runner → Who → ℕ → LauncherTable → Type 0
  Freed r r' w op l =
      (s : Runner) × (ts : List TraceEvent) × Effect p r s op (p.operation op).kind
      × (r' ≡ set_table (record s { trace = ts }) w (record l { op_entry = empty_entry }))
      × (table r' w ≡ some (record l { op_entry = empty_entry }))

  table-record :
      (r : Runner) (w : Who) (ts : List TraceEvent) → table (record r { trace = ts }) w ≡ table r w
  table-record r host ts = refl
  table-record r (device v) ts = refl

  -- It takes effect and empties the launcher, or it is stuck and faults.
  abbrev pub Ends : Runner → Who → ℕ → LauncherTable → Option Runner → Type 0
  Ends r w op l o =
      ((r' : Runner) × (o ≡ some r') × Freed r r' w op l)
      ⊎ (IsStuck p op (p.operation op).kind × (o ≡ none))

  finish_started-Ends :
      (r : Runner) (w : Who) (time row op : ℕ) (l : LauncherTable)
      → table r w ≡ some l
      → Ends r w op l (finish_started p op_name r w l op time row)
  finish_started-Ends r w time row op l held =
      elim (finish_effect-TakesEffect p op_name r op (p.operation op).kind) [
        | inr (stuck, fault) ↦ inr (stuck, rw fault refl)
        | inl (s, took, keeps) ↦
            let free : LauncherTable = record l { op_entry = empty_entry } in
            let there = keeps w l held in
            let (ts, marked) = mark_entry-trace l l.op_entry op 1 time row s in
            inl (
              set_table (record s { trace = ts }) w free,
              rw (took, there, marked) refl,
              (
                s,
                ts,
                finish_effect-Effect p op_name r s op (p.operation op).kind took,
                refl,
                table-set_table (record s { trace = ts }) w l free (table-record s w ts ∙ there),
              ),
            )
      ]

  -- A launcher that holds an operation: before the operation has ended nothing changes. Once it has, it
  -- has the effect of its kind, its launcher is emptied, and nothing but the trace is changed besides.
  -- Only at the end of the body of a loop of which the number of runs is not known or 0 there is no
  -- result.
  pub finish_op-Freed :
      (r : Runner) (w : Who) (time row op : ℕ) (l : LauncherTable)
      → table r w ≡ some l
      → l.op_entry.op ≡ some op
      → ((has_ended l time ≡ false) × (finish_op p op_name r w time row ≡ some r))
        ⊎ ((has_ended l time ≡ true) × Ends r w op l (finish_op p op_name r w time row))
  unfolding finish_op
  finish_op-Freed r w time row op l found held = elim (Bool-cases (has_ended l time)) [
    | inl e ↦ inr (
      e,
      subst (Ends r w op l) (sym (entered ∙ chosen true e))
          (finish_started-Ends r w time row op l found),
    )
    | inr e ↦ inl (e, entered ∙ chosen false e)
  ]
    where
      entered : finish_op p op_name r w time row ≡ finish_entry p op_name r w l time row (some op)
      entered = rw (found, held) refl

      chosen :
          (b : Bool)
          → has_ended l time ≡ b
          → finish_entry p op_name r w l time row (some op)
            ≡ (if b then finish_started p op_name r w l op time row else some r)
      chosen b e = rw e refl
