-- ===== src/Runner/Control/Conjunction.antt =====
-- A control operation goes ahead on all of its signals: `checkControlQueue` does not tell
-- `control_or` from `control_and`.
use event_queue.Common.{
  ℕ, ◌≡◌, refl, Bool, true, false, none, List, [], ◌∷◌, ◌++◌, arith, inl, inr, sym, ap, ◌∙◌,
  if◌then◌else◌, subst, Option-cases,
}
use event_queue.Program.{Program}
use event_queue.Runner.State.{Runner, count_of}
use event_queue.Runner.Signals.{
  wait_for_signal, wait_for_operands, wait_for_signals, get_signal_id, or_later,
}
use event_queue.Runner.Signals.Waiting.{Looked, wait_for_signal-Looked, Looked-refl}

-- A signal that has not been given, and carries no value of an iteration.
pub record NotGiven (p : Program) (r : Runner) (v : ℕ) : Type 0 where
  pub signal : p.is_signal v ≡ true
  pub plain : r.iter_init_value (r.value_ids v) ≡ none
  pub never : count_of (r.value_map (get_signal_id r (r.value_ids v))) ≡ 0

NotGiven-Looked :
    (p : Program) (r s : Runner) (v : ℕ) → Looked r s → NotGiven p r v → NotGiven p s v
NotGiven-Looked p r s v l n =
    subst (λ x. NotGiven p x v) (sym l.only_values)
      (record {
        signal = n.signal;
        plain = n.plain;
        never = l.counts (get_signal_id r (r.value_ids v)) ∙ n.never;
      })

NotGiven-waits :
    (p : Program) (r : Runner) (op v : ℕ) → NotGiven p r v → (wait_for_signal p r op v).0 ≡ true
unfolding wait_for_signal
NotGiven-waits p r op v n = elim (Option-cases (r.value_map (get_signal_id r (r.value_ids v)))) [
  | inl missing ↦ rw (missing, n.plain)
  | inr (made, given) ↦
      let none_made : made ≡ 0 = sym (ap count_of given) ∙ n.never in
      rw (given, n.plain, none_made) (ground arith)
]

or_later_first :
    (first : Bool × Runner) (later : Runner → Bool × Runner)
    → first.0 ≡ true
    → (or_later first later).0 ≡ true
or_later_first (true, r) later e = refl
or_later_first (false, r) later e = cc

or_later_second :
    (r : Runner) (first : Bool × Runner) (later : Runner → Bool × Runner)
    → Looked r first.1
    → ((s : Runner) → Looked r s → (later s).0 ≡ true)
    → (or_later first later).0 ≡ true
or_later_second r (true, s) later l e = refl
or_later_second r (false, s) later l e = e s l

NotGiven-operands :
    (p : Program) (r : Runner) (op v : ℕ) (before after : List ℕ)
    → NotGiven p r v
    → (wait_for_operands p r op (before ++ v ∷ after)).0 ≡ true
unfolding wait_for_operands
NotGiven-operands p r op v [] after n =
    or_later_first (if p.is_signal v then wait_for_signal p r op v else (false, r))
      (λ s. wait_for_operands p s op after) (rw n.signal (NotGiven-waits p r op v n))
NotGiven-operands p r op v (u ∷ before) after n =
    or_later_second r (if p.is_signal u then wait_for_signal p r op u else (false, r))
      (λ s. wait_for_operands p s op (before ++ v ∷ after)) (look (p.is_signal u))
      (λ s l. NotGiven-operands p s op v before after (NotGiven-Looked p r s v l n))
  where
    look : (b : Bool) → Looked r (if b then wait_for_signal p r op u else (false, r)).1
    look true = wait_for_signal-Looked p r op u
    look false = Looked-refl r

-- One signal that has not been given keeps an operation waiting, whatever its other operands are
-- and whatever kind of operation it is: a `control_or` waits for all of its signals, as a
-- `control_and` does.
pub wait_for_signals_all :
    (p : Program) (r : Runner) (op v : ℕ) (before after : List ℕ)
    → (p.operation op).operands ≡ before ++ v ∷ after
    → NotGiven p r v
    → (wait_for_signals p r op).0 ≡ true
unfolding wait_for_signals
wait_for_signals_all p r op v before after e n = rw e (NotGiven-operands p r op v before after n)
