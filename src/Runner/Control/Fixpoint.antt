-- ===== src/Runner/Control/Fixpoint.antt =====
-- `checkControlQueue` ends, and leaves in the queue just what still has to wait.
use mathlib.Core.List.{append_assoc, append-nil}
use event_queue.Common.{
  ℕ, zero, suc, ◌+◌, ◌<◌, ◌≡◌, refl, Bool, true, false, Option, some, List, [], ◌∷◌, ◌++◌, All,
  All-append, length, length-append, arith, Bool-cases, inl, inr, sym, subst, ◌∙◌, ap,
}
use event_queue.Program.{Program, is_control}
use event_queue.Runner.State.{Runner}
use event_queue.Runner.Signals.{wait_for_signals}
use event_queue.Runner.Signals.Waiting.{wait_for_signals-Looked}
use event_queue.Runner.Control.{fire, scan_control, check_control_queue}

module _ (p : Program) where
  abbrev pub IsControl : ℕ → Type 0
  IsControl op = is_control (p.operation op).kind ≡ true

  -- Asked one after the other from the runner `r` on, all the operations wait, which leads to `r'`.
  pub data Settled : Runner → List ℕ → Runner → Type 0 where
    settled : {r : Runner} → Settled r [] r
    waits :
        {r r' : Runner} {op : ℕ} {ops : List ℕ}
        → (wait_for_signals p r op).0 ≡ true
        → Settled (wait_for_signals p r op).1 ops r'
        → Settled r (op ∷ ops) r'

  Settled-snoc :
      {r r' : Runner} {ops : List ℕ} (op : ℕ)
      → Settled r ops r'
      → (wait_for_signals p r' op).0 ≡ true
      → Settled r (ops ++ op ∷ []) (wait_for_signals p r' op).1
  Settled-snoc op settled e = waits e settled
  Settled-snoc op (waits f s) e = waits f (Settled-snoc op s e)

  Settled-queue :
      {r r' : Runner} {ops : List ℕ} → Settled r ops r' → r'.control_queue ≡ r.control_queue
  Settled-queue settled = refl
  Settled-queue {r} (waits {op = op} e s) =
      Settled-queue s
      ∙ ap (λ (x : Runner). x.control_queue) (wait_for_signals-Looked p r op).only_values

  -- What the scan leads to: all that is left in the queue waits.
  pub record Scanned (result : Option (Bool × Runner)) : Type 0 where
    pub done : Bool
    pub before : Runner
    pub after : Runner
    pub ends : result ≡ some (done, after)
    pub queue_same : before.control_queue ≡ after.control_queue
    pub all_wait : Settled before after.control_queue after
    pub controls : All IsControl after.control_queue

  scan_waits :
      (fuel : ℕ) (fired : Bool) (r : Runner) (waiting : List ℕ) (op : ℕ) (ops : List ℕ)
      → IsControl op
      → (wait_for_signals p r op).0 ≡ true
      → scan_control p (suc fuel) fired r waiting (op ∷ ops)
        ≡ scan_control p (suc fuel) fired (wait_for_signals p r op).1 (waiting ++ op ∷ []) ops
  unfolding scan_control
  scan_waits fuel fired r waiting op ops c e = rw (c, e, scan_control)

  scan_fires :
      (fuel : ℕ) (fired : Bool) (r : Runner) (waiting : List ℕ) (op : ℕ) (ops : List ℕ)
      → IsControl op
      → (wait_for_signals p r op).0 ≡ false
      → scan_control p (suc fuel) fired r waiting (op ∷ ops)
        ≡ scan_control p fuel true
            (fire p (wait_for_signals p r op).1 op (waiting ++ ops))
            []
            (waiting ++ ops)
  unfolding scan_control
  scan_fires fuel fired r waiting op ops c e = rw (c, e, scan_control)

  scan_control-Scanned :
      (fuel : ℕ) (fired : Bool) (s r : Runner) (waiting ops : List ℕ)
      → length waiting + length ops < fuel
      → All IsControl waiting
      → All IsControl ops
      → Settled s waiting r
      → s.control_queue ≡ waiting ++ ops
      → Scanned (scan_control p fuel fired r waiting ops)
  unfolding scan_control
  scan_control-Scanned fuel fired s r waiting [] h a b all same =
      let whole = same ∙ append-nil waiting in
      let here = Settled-queue all ∙ whole in
      record {
        done = fired;
        before = s;
        after = r;
        ends = refl;
        queue_same = sym (Settled-queue all);
        all_wait = subst (λ l. Settled s l r) (sym here) all;
        controls = subst (All IsControl) (sym here) a;
      }
  scan_control-Scanned zero fired s r waiting (op ∷ ops) h a b all same = absurd (omega arith)
  scan_control-Scanned (suc fuel) fired s r waiting (op ∷ ops) h a b all same =
      elim (Bool-cases (wait_for_signals p r op).0) [
        | inl still ↦
            let next =
              scan_control-Scanned (suc fuel) fired s (wait_for_signals p r op).1
                (waiting ++ op ∷ []) ops (omega (arith, length-append waiting (op ∷ [])))
                (All-append IsControl waiting (op ∷ []) a (b.0, tt)) b.1 (Settled-snoc op all still)
                (same ∙ sym (append_assoc waiting (op ∷ []) ops)) in
            rw (scan_waits fuel fired r waiting op ops b.0 still) next
        | inr goes ↦
            let r' = fire p (wait_for_signals p r op).1 op (waiting ++ ops) in
            let next =
              scan_control-Scanned fuel true r' r' [] (waiting ++ ops)
                (omega (arith, length-append waiting ops)) tt
                (All-append IsControl waiting ops a b.1) settled refl in
            rw (scan_fires fuel fired r waiting op ops b.0 goes) next
      ]

  -- On a queue of control operations `checkControlQueue` comes to an end, and nothing else than a
  -- control operation is left in the queue. Each operation that is left waits: asked in turn from
  -- a runner with that same queue on, they all wait, and that scan gives the runner which is
  -- returned.
  pub check_control_queue-Scanned :
      (r : Runner) → All IsControl r.control_queue → Scanned (check_control_queue p r)
  unfolding check_control_queue
  check_control_queue-Scanned r a =
      scan_control-Scanned (suc (length r.control_queue)) false r r [] r.control_queue (omega arith)
        tt a settled refl
