-- ===== src/Runner/Steps/Trace.antt =====
-- Trace: the trace events of an operation's start and of its end.
use Prim.Native.String.{String}
use mathlib.Core.List.{append_assoc}
use event_queue.Common.{ℕ, ◌≡◌, refl, sym, ◌∙◌, ap, Bool-cases, inl, inr, List, [], ◌∷◌, ◌++◌, ◌==◌}
use event_queue.Program.{Program, Kind}
use event_queue.Launcher.{OpEntry, LauncherTable}
use event_queue.Runner.State.{Runner, TraceEvent, emit}
use event_queue.Runner.Steps.{mark, mark_devices, mark_entry}

-- An event that opens at `t` what the other closes at `t'`, on the same row of the trace.
abbrev pub IsPair : ℕ → ℕ → TraceEvent → TraceEvent → Type 0
IsPair t t' b e =
    (b.ph ≡ "B")
    × (e.ph ≡ "E")
    × (b.start_time ≡ t)
    × (e.start_time ≡ t')
    × (b.name ≡ e.name)
    × (b.number ≡ e.number)
    × (b.cat ≡ e.cat)
    × (b.tid ≡ e.tid)
    × (b.pid ≡ e.pid)

-- The two lists pair up, event by event.
abbrev pub ArePaired : ℕ → ℕ → List TraceEvent → List TraceEvent → Type 0
ArePaired t t' [] [] = Unit
ArePaired t t' (b ∷ bs) (e ∷ es) = IsPair t t' b e × ArePaired t t' bs es
ArePaired t t' _ _ = ⊥

ArePaired-append :
    (t t' : ℕ) (bs es bs' es' : List TraceEvent)
    → ArePaired t t' bs es
    → ArePaired t t' bs' es'
    → ArePaired t t' (bs ++ bs') (es ++ es')
ArePaired-append t t' [] [] bs' es' h h' = h'
ArePaired-append t t' [] (e ∷ es) bs' es' h h' = elim h [ ]
ArePaired-append t t' (b ∷ bs) [] bs' es' h h' = elim h [ ]
ArePaired-append t t' (b ∷ bs) (e ∷ es) bs' es' (q, h) h' =
    (q, ArePaired-append t t' bs es bs' es' h h')

-- The traces `xs` and `xs'` have gained events in `ys` and `ys'` that pair up.
abbrev pub Gained :
    ℕ → ℕ → List TraceEvent → List TraceEvent → List TraceEvent → List TraceEvent → Type 0
Gained t t' xs ys xs' ys' =
    (opened : List TraceEvent) × (closed : List TraceEvent) × (ys ≡ opened ++ xs)
    × (ys' ≡ closed ++ xs')
    × ArePaired t t' opened closed

Gained-trans :
    (t t' : ℕ) (xs ys zs xs' ys' zs' : List TraceEvent)
    → Gained t t' xs ys xs' ys'
    → Gained t t' ys zs ys' zs'
    → Gained t t' xs zs xs' zs'
Gained-trans t t' xs ys zs xs' ys' zs' (bs, es, e, e', h) (cs, fs, f, f', g) = (
  cs ++ bs,
  fs ++ es,
  f ∙ ap (λ z. cs ++ z) e ∙ sym (append_assoc cs bs xs),
  f' ∙ ap (λ z. fs ++ z) e' ∙ sym (append_assoc fs es xs'),
  ArePaired-append t t' cs fs bs es g h,
)

module _ (p : Program) (op_name : Kind → String) where
  emit-Gained :
      (l l' : LauncherTable) (n : String) (t t' number tid pid : ℕ) (xs xs' : List TraceEvent)
      → l.name ≡ l'.name
      → Gained t t' xs (mark n number l 0 t tid pid ∷ xs) xs' (mark n number l' 1 t' tid pid ∷ xs')
  emit-Gained l l' n t t' number tid pid xs xs' e = (
    mark n number l 0 t tid pid ∷ [],
    mark n number l' 1 t' tid pid ∷ [],
    refl,
    refl,
    ((refl, refl, refl, refl, refl, refl, e, refl, refl), tt),
  )

  mark_devices-Gained :
      (l l' : LauncherTable) (e : OpEntry) (op t t' : ℕ) (uids : List ℕ) (r r' : Runner)
      → l.name ≡ l'.name
      → Gained t t' r.trace
          (mark_devices p op_name l e op 0 t uids r).trace
          r'.trace
          (mark_devices p op_name l' e op 1 t' uids r').trace
  unfolding mark_devices
  mark_devices-Gained l l' e op t t' [] r r' q = ([], [], refl, refl, tt)
  mark_devices-Gained l l' e op t t' (uid ∷ uids) r r' q =
      let name = op_name (p.operation op).kind in
      Gained-trans t t' r.trace (mark name e.tid l 0 t uid 1 ∷ r.trace) _ r'.trace
        (mark name e.tid l' 1 t' uid 1 ∷ r'.trace) _
        (emit-Gained l l' name t t' e.tid uid 1 r.trace r'.trace q)
        (mark_devices-Gained l l' e op t t' uids (emit (mark name e.tid l 0 t uid 1) r)
          (emit (mark name e.tid l' 1 t' uid 1) r') q)

  -- What an entry adds to the trace at its start pairs up with what it adds at its end.
  pub mark_entry-Gained :
      (l l' : LauncherTable) (e : OpEntry) (op t t' row : ℕ) (r r' : Runner)
      → l.name ≡ l'.name
      → Gained t t' r.trace
          (mark_entry p op_name l e op 0 t row r).trace
          r'.trace
          (mark_entry p op_name l' e op 1 t' row r').trace
  unfolding mark_entry
  mark_entry-Gained l l' e op t t' row r r' q =
      let name = op_name (p.operation op).kind in
      elim (Bool-cases (e.end_time == e.start_time)) [
        | inl h ↦ rw h (mark_devices-Gained l l' e op t t' e.mem_tids r r' q)
        | inr h ↦ rw h (
            Gained-trans t t' r.trace (mark name e.tid l 0 t row 0 ∷ r.trace) _ r'.trace
              (mark name e.tid l' 1 t' row 0 ∷ r'.trace) _
              (emit-Gained l l' name t t' e.tid row 0 r.trace r'.trace q)
              (mark_devices-Gained l l' e op t t' e.mem_tids (emit (mark name e.tid l 0 t row 0) r)
                (emit (mark name e.tid l' 1 t' row 0) r') q))
      ]
