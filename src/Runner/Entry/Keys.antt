-- ===== src/Runner/Entry/Keys.antt =====
-- `setOpEntry` keeps the launchers (its `assert`), the bound of their event queues, and that the
-- control queue holds control operations only.
use event_queue.Common.{
  ℕ, ◌+◌, ◌≤◌, ◌≡◌, refl, Bool, true, false, not, Option, none, some, List, [], ◌∷◌, ◌++◌, ◌>>=◌,
  All, All-append, length, length-append, arith, Bool-cases, Option-cases, inl, inr, sym, ap, ◌∙◌,
  keys, subst, keys-assign, lookup, assign, ◌==◌, if◌then◌else◌, >>=-eq-some, u64, ◌%◌, check,
}
use event_queue.Program.{
  Program, Kind, is_control, is_async, scf_for, scf_yield, parent_op, get_ex_times,
}
use event_queue.Launcher.{LauncherTable, event_queue_size, add_event_queue, set_block, new_entry}
use event_queue.Launcher.Bounds.{add_event_queue_cases}
use event_queue.Runner.State.{Runner, Who, host, device, table, set_table, bump_op}
use event_queue.Runner.Signals.{update_execution, bump_value}
use event_queue.Runner.Control.Fixpoint.{IsControl}
use event_queue.Runner.Entry.{
  Turn, onward, stop, advance, async_turn, sync_turn, turn, enter, set_op_entry, yield_to,
  push_control, queued, launcher_operand, sync_table, yielded, enter_if_idle,
}

-- The table of a device's launcher whose event queue has not outgrown its size.
abbrev pub IsBounded : LauncherTable → Type 0
IsBounded l = (l.host ≡ false) × (length l.event_queue ≤ event_queue_size)

abbrev pub BoundedTables : List (ℕ × LauncherTable) → Type 0
BoundedTables ls = All (λ e. IsBounded e.1) ls

abbrev BoundedFor : Who → LauncherTable → Type 0
BoundedFor host l = Unit {0}
BoundedFor (device v) l = IsBounded l

assign-BoundedTables :
    (k : ℕ) (l : LauncherTable) (ls : List (ℕ × LauncherTable))
    → IsBounded l
    → BoundedTables ls
    → BoundedTables (assign k l ls)
assign-BoundedTables k l [] h a = tt
assign-BoundedTables k l ((j, m) ∷ ls) h a = elim (Bool-cases (j == k)) [
  | inl here ↦ rw here (h, a.1)
  | inr there ↦ rw there (a.0, assign-BoundedTables k l ls h a.1)
]

lookup-IsBounded :
    (k : ℕ) (l : LauncherTable) (ls : List (ℕ × LauncherTable))
    → BoundedTables ls
    → lookup k ls ≡ some l
    → IsBounded l
lookup-IsBounded k l [] a h = cc
lookup-IsBounded k l ((j, m) ∷ ls) a h = elim (Bool-cases (j == k)) [
  | inl here ↦ let same : m ≡ l = ground arith in subst IsBounded same a.0
  | inr there ↦ lookup-IsBounded k l ls a.1 (ground arith)
]

module _ (p : Program) where
  pub record Inv (r : Runner) : Type 0 where
    pub tables : BoundedTables r.launch_tables
    pub controls : All (IsControl p) r.control_queue

  -- From `r` to `s` the launchers stay, and so does the invariant.
  pub record Kept (r s : Runner) : Type 0 where
    pub same_keys : keys s.launch_tables ≡ keys r.launch_tables
    pub inv : Inv s

  Kept-trans : {r s t : Runner} → Kept r s → Kept s t → Kept r t
  Kept-trans a b = record { same_keys = b.same_keys ∙ a.same_keys; inv = b.inv }

  table-BoundedFor :
      (r : Runner) (w : Who) (l : LauncherTable) → Inv r → table r w ≡ some l → BoundedFor w l
  table-BoundedFor r host l v h = tt
  table-BoundedFor r (device k) l v h = lookup-IsBounded k l r.launch_tables v.tables h

  set_table-Kept :
      (r : Runner) (w : Who) (l : LauncherTable) → Inv r → BoundedFor w l → Kept r (set_table r w l)
  set_table-Kept r host l v b = record {
    same_keys = refl;
    inv = record { tables = v.tables; controls = v.controls };
  }
  set_table-Kept r (device k) l v b = record {
    same_keys = keys-assign k l r.launch_tables;
    inv = record {
      tables = assign-BoundedTables k l r.launch_tables b v.tables;
      controls = v.controls;
    };
  }

  -- A table that is changed in other fields is as bounded as before.
  BoundedFor-same :
      (w : Who) (l m : LauncherTable)
      → m.host ≡ l.host
      → m.event_queue ≡ l.event_queue
      → BoundedFor w l
      → BoundedFor w m
  BoundedFor-same host l m e f b = tt
  BoundedFor-same (device k) l m e f b = (e ∙ b.0, rw f b.1)

  advance-Kept :
      (r s : Runner) (w : Who) (rest : List ℕ) → Inv r → advance r w rest ≡ some s → Kept r s
  advance-Kept r s w rest v h =
      let (l, found, done) = >>=-eq-some (table r w) _ h in
      let same : set_table r w (record l { next_iter = rest }) ≡ s = ground arith in
      subst (Kept r) same (
        set_table-Kept r w _ v (
          BoundedFor-same w l (record l { next_iter = rest }) refl refl
            (table-BoundedFor r w l v found)))

  step_only :
      (r : Runner) (v : ℕ) (vs : List ℕ) (b : Bool)
      → ((s : Runner)
          → update_execution p s vs ≡ record s { value_map = (update_execution p s vs).value_map })
      → update_execution p (if b then bump_value p r v else r) vs ≡ record r {
        value_map = (update_execution p (if b then bump_value p r v else r) vs).value_map;
      }
  step_only r v vs true ih = ih (bump_value p r v)
  step_only r v vs false ih = ih r

  -- Signals that are given change the counts of values only.
  update_execution_only :
      (r : Runner) (vs : List ℕ)
      → update_execution p r vs ≡ record r { value_map = (update_execution p r vs).value_map }
  unfolding update_execution
  update_execution_only r [] = refl
  update_execution_only r (v ∷ vs) =
      step_only r v vs (p.is_signal v) (λ s. update_execution_only s vs)

  given-Kept :
      (r : Runner) (op : ℕ) (vs : List ℕ) → Inv r → Kept r (update_execution p (bump_op r op) vs)
  given-Kept r op vs v =
      subst (Kept r) (sym (update_execution_only (bump_op r op) vs))
        (record { same_keys = refl; inv = record { tables = v.tables; controls = v.controls } })

  -- What a turn of the loop leads to.
  abbrev KeptBy : Runner → Turn → Type 0
  KeptBy r (onward s) = Kept r s
  KeptBy r (stop s tid) = Kept r s

  onward-KeptBy :
      (r q : Runner) (w : Who) (rest : List ℕ) (t : Turn)
      → Kept r q
      → (advance q w rest >>= λ s. some (onward s)) ≡ some t
      → KeptBy r t
  onward-KeptBy r q w rest t k h =
      let (s, moved, done) = >>=-eq-some (advance q w rest) _ h in
      let same : onward s ≡ t = ground arith in
      subst (KeptBy r) same (Kept-trans k (advance-Kept q s w rest k.inv moved))

  push_control-Kept : (r : Runner) (op : ℕ) → IsControl p op → Inv r → Kept r (push_control r op)
  push_control-Kept r op c v = record {
    same_keys = refl;
    inv = record {
      tables = v.tables;
      controls = All-append (IsControl p) r.control_queue (op ∷ []) v.controls (c, tt);
    };
  }

  queued-KeptBy :
      (r : Runner) (w : Who) (tid launcher op : ℕ) (rest : List ℕ) (lt : LauncherTable) (t : Turn)
      → Inv r
      → IsBounded lt
      → queued p r w tid launcher rest (add_event_queue lt op) ≡ some t
      → KeptBy r t
  queued-KeptBy r w tid launcher op rest lt t v b h = elim (add_event_queue_cases lt op) [
    | inl (_, _, full) ↦
        let same : stop r tid ≡ t = ground (arith, full) in
        subst (KeptBy r) same (record { same_keys = refl; inv = v })
    | inr (why, room) ↦
        let lt' = record lt { event_queue = lt.event_queue ++ op ∷ [] } in
        let r' = set_table r (device launcher) lt' in
        let bounded : length lt'.event_queue ≤ event_queue_size =
          ground (arith, length-append lt.event_queue (op ∷ []), b.0) in
        onward-KeptBy r r' w rest t (set_table-Kept r (device launcher) lt' v (b.0, bounded))
          (rw room at h)
  ]

  async_turn-KeptBy :
      (r : Runner) (w : Who) (tid op : ℕ) (rest : List ℕ) (k : Kind) (t : Turn)
      → (p.operation op).kind ≡ k
      → Inv r
      → async_turn p r w tid op rest k ≡ some t
      → KeptBy r t
  async_turn-KeptBy r w tid op rest k t same v h = elim (Bool-cases (is_control k)) [
    | inl control ↦
        onward-KeptBy r (push_control r op) w rest t
          (push_control-Kept r op (ap is_control same ∙ control) v) (rw control at h)
    | inr other ↦
        let launcher = r.value_ids (launcher_operand k (p.operation op).operands) in
        elim (Option-cases (table r (device launcher))) [
          | inl missing ↦
              onward-KeptBy r (update_execution p (bump_op r op) (p.operation op).results) w rest t
                (given-Kept r op (p.operation op).results v) (rw (other, missing) at h)
          | inr (lt, found) ↦
              queued-KeptBy r w tid launcher op rest lt t v
                (lookup-IsBounded launcher lt r.launch_tables v.tables found)
                (rw (other, found) at h)
        ]
  ]

  yield_to-same :
      (op times : ℕ) (l m : LauncherTable)
      → yield_to p op times l ≡ some m
      → (m.host ≡ l.host) × (m.event_queue ≡ l.event_queue)
  unfolding yield_to
  yield_to-same op times l m h =
      let (n, counted, rest) = >>=-eq-some (get_ex_times p (parent_op p op)) _ h in
      let (_, divides, chosen) = >>=-eq-some (check (not (n == 0))) _ rest in
      elim (Bool-cases (times % n == 0)) [ inl left ↦ ground arith | inr again ↦ ground arith ]

  sync_table-same :
      (op times : ℕ) (l m : LauncherTable) (rest : List ℕ) (k : Kind)
      → sync_table p op times l rest k ≡ some m
      → (m.host ≡ l.host) × (m.event_queue ≡ l.event_queue)
  unfolding sync_table set_block
  sync_table-same op times l m rest scf_for h = ground arith
  sync_table-same op times l m rest scf_yield h = yield_to-same op times l m h
  sync_table-same op times l m rest k h = ground arith

  yielded-Kept : (r : Runner) (op times : ℕ) (k : Kind) → Inv r → Kept r (yielded p r op times k)
  yielded-Kept r op times scf_yield v = record {
    same_keys = refl;
    inv = record { tables = v.tables; controls = v.controls };
  }
  yielded-Kept r op times k v = record { same_keys = refl; inv = v }

  sync_turn-KeptBy :
      (r : Runner) (w : Who) (tid op : ℕ) (rest : List ℕ) (k : Kind) (t : Turn)
      → Inv r
      → sync_turn p r w tid op rest k ≡ some t
      → KeptBy r t
  sync_turn-KeptBy r w tid op rest k t v h =
      let (l, found, more) = >>=-eq-some (table r w) _ h in
      let times = u64 (r.ex_times op + 1) in
      let l0 = record l { op_entry = new_entry op tid } in
      let (m, moved, done) = >>=-eq-some (sync_table p op times l0 rest k) _ more in
      let (same_host, same_queue) = sync_table-same op times l0 m rest k moved in
      let r' = yielded p r op times k in
      let kept = yielded-Kept r op times k v in
      let bounded = BoundedFor-same w l m same_host same_queue (table-BoundedFor r w l v found) in
      let same : stop (set_table r' w m) (u64 (tid + 1)) ≡ t = ground arith in
      subst (KeptBy r) same (Kept-trans kept (set_table-Kept r' w m kept.inv bounded))

  turn-KeptBy :
      (r : Runner) (w : Who) (tid op : ℕ) (rest : List ℕ) (t : Turn)
      → Inv r
      → turn p r w tid op rest ≡ some t
      → KeptBy r t
  unfolding turn
  turn-KeptBy r w tid op rest t v h = elim (Bool-cases (is_async (p.operation op).kind)) [
    | inl async ↦ async_turn-KeptBy r w tid op rest (p.operation op).kind t refl v (rw async at h)
    | inr sync ↦ sync_turn-KeptBy r w tid op rest (p.operation op).kind t v (rw sync at h)
  ]

  enter_step :
      (r s : Runner) (w : Who) (tid tid' op : ℕ) (ops : List ℕ) (o : Option Turn)
      → turn p r w tid op ops ≡ o
      → Inv r
      → enter p r w tid (op ∷ ops) ≡ some (s, tid')
      → ((q : Runner) → Inv q → enter p q w tid ops ≡ some (s, tid') → Kept q s)
      → Kept r s
  unfolding enter
  enter_step r s w tid tid' op ops none e v h ih =
      let bad : ◌≡◌ {A = Option (Runner × ℕ)} none (some (s, tid')) = rw (e, enter) at h in cc
  enter_step r s w tid tid' op ops (some (onward q)) e v h ih =
      let k = turn-KeptBy r w tid op ops (onward q) v e in
      Kept-trans k (ih q k.inv (rw (e, enter) at h))
  enter_step r s w tid tid' op ops (some (stop q tid'')) e v h ih =
      let k = turn-KeptBy r w tid op ops (stop q tid'') v e in
      let done : ◌≡◌ {A = Option (Runner × ℕ)} (some (q, tid'')) (some (s, tid')) =
        rw (e, enter) at h in
      let same : q ≡ s = ground arith in subst (Kept r) same k

  enter_nil : (r s : Runner) (w : Who) (tid tid' : ℕ) → enter p r w tid [] ≡ some (s, tid') → r ≡ s
  unfolding enter
  enter_nil r s w tid tid' h = ground arith

  enter-Kept :
      (r s : Runner) (w : Who) (tid tid' : ℕ) (ops : List ℕ)
      → Inv r
      → enter p r w tid ops ≡ some (s, tid')
      → Kept r s
  enter-Kept r s w tid tid' [] v h =
      let same : r ≡ s = enter_nil r s w tid tid' h in
      subst (Kept r) same (record { same_keys = refl; inv = v })
  enter-Kept r s w tid tid' (op ∷ ops) v h =
      enter_step r s w tid tid' op ops (turn p r w tid op ops) refl v h
        (λ q v' h'. enter-Kept q s w tid tid' ops v' h')

  enter_if_idle-Kept :
      (r s : Runner) (w : Who) (tid tid' : ℕ) (o b : Option ℕ) (rest : List ℕ)
      → Inv r
      → enter_if_idle p r w tid o b rest ≡ some (s, tid')
      → Kept r s
  enter_if_idle-Kept r s w tid tid' (some op) b rest v h =
      let same : r ≡ s = ground arith in subst (Kept r) same (record { same_keys = refl; inv = v })
  enter_if_idle-Kept r s w tid tid' none none rest v h =
      let same : r ≡ s = ground arith in subst (Kept r) same (record { same_keys = refl; inv = v })
  enter_if_idle-Kept r s w tid tid' none (some b) rest v h = enter-Kept r s w tid tid' rest v h

  -- `setOpEntry` neither adds nor drops a launcher, so its assertion holds, and it keeps every
  -- device's event queue within its size and the control queue to control operations.
  pub set_op_entry-Kept :
      (r s : Runner) (w : Who) (tid tid' : ℕ)
      → Inv r
      → set_op_entry p r w tid ≡ some (s, tid')
      → Kept r s
  unfolding set_op_entry
  set_op_entry-Kept r s w tid tid' v h =
      let (l, found, more) = >>=-eq-some (table r w) _ h in
      enter_if_idle-Kept r s w tid tid' l.op_entry.op l.block l.next_iter v more
