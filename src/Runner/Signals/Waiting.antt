-- ===== src/Runner/Signals/Waiting.antt =====
-- What a look at a signal leaves alone.
use event_queue.Common.{
  ℕ, ◌≡◌, refl, Bool, true, false, Option, none, some, List, [], ◌∷◌, ◌==◌, if◌then◌else◌, arith,
  Bool-cases, inl, inr, ◌∙◌, ap, ==_iff,
}
use event_queue.Program.{Program}
use event_queue.Runner.State.{Runner, count_of}
use event_queue.Runner.Signals.{
  wait_for_signal, wait_for_operands, wait_for_signals, wait_with, touch, get_signal_id, or_later,
}

-- `r'` differs from `r` in its counts of values at most, and keeps those that are there.
pub record Looked (r r' : Runner) : Type 0 where
  pub only_values : r' ≡ record r { value_map = r'.value_map }
  pub kept : (v n : ℕ) → r.value_map v ≡ some n → r'.value_map v ≡ some n
  pub counts : (v : ℕ) → count_of (r'.value_map v) ≡ count_of (r.value_map v)

pub Looked-refl : (r : Runner) → Looked r r
Looked-refl r = record { only_values = refl; kept = λ v n e. e; counts = λ v. refl }

pub Looked-trans : {r s t : Runner} → Looked r s → Looked s t → Looked r t
Looked-trans {r} {s} {t} a b = record {
  only_values =
      b.only_values ∙ ap (λ (x : Runner). record x { value_map = t.value_map }) a.only_values;
  kept = λ v n e. b.kept v n (a.kept v n e);
  counts = λ v. b.counts v ∙ a.counts v;
}

touch_kept : (r : Runner) (v w n : ℕ) → r.value_map w ≡ some n → (touch r v).value_map w ≡ some n
touch_kept r v w n e = elim (Bool-cases (v == w)) [
  | inl same ↦ ground (arith, ap r.value_map ((==_iff v w).0 same))
  | inr other ↦ rw other e
]

touch_counts :
    (r : Runner) (v w : ℕ) → count_of ((touch r v).value_map w) ≡ count_of (r.value_map w)
touch_counts r v w = elim (Bool-cases (v == w)) [
  | inl same ↦ rw same (ap (λ x. count_of (r.value_map x)) ((==_iff v w).0 same))
  | inr other ↦ rw other
]

touch-Looked : (r : Runner) (v : ℕ) → Looked r (touch r v)
touch-Looked r v = record { only_values = refl; kept = touch_kept r v; counts = touch_counts r v }

wait_with-Looked :
    (p : Program) (r : Runner) (op signal : ℕ) (made init : Option ℕ)
    → Looked r (wait_with p r op signal made init).1
wait_with-Looked p r op signal none none = Looked-refl r
wait_with-Looked p r op signal none (some init) = Looked-refl r
wait_with-Looked p r op signal (some made) none = Looked-refl r
wait_with-Looked p r op signal (some made) (some init) = elim (Bool-cases (init == signal)) [
  | inl plain ↦ rw plain (Looked-refl r)
  | inr iter ↦ rw iter (touch-Looked r init)
]

pub wait_for_signal-Looked :
    (p : Program) (r : Runner) (op v : ℕ) → Looked r (wait_for_signal p r op v).1
unfolding wait_for_signal
wait_for_signal-Looked p r op v =
    let signal = get_signal_id r (r.value_ids v) in
    wait_with-Looked p r op signal (r.value_map signal) (r.iter_init_value (r.value_ids v))

or_later-Looked :
    (r : Runner) (first : Bool × Runner) (later : Runner → Bool × Runner)
    → Looked r first.1
    → ((s : Runner) → Looked s (later s).1)
    → Looked r (or_later first later).1
or_later-Looked r (true, s) later a b = a
or_later-Looked r (false, s) later a b = Looked-trans a (b s)

wait_for_operands-Looked :
    (p : Program) (r : Runner) (op : ℕ) (vs : List ℕ) → Looked r (wait_for_operands p r op vs).1
unfolding wait_for_operands
wait_for_operands-Looked p r op [] = Looked-refl r
wait_for_operands-Looked p r op (v ∷ vs) =
    or_later-Looked r _ _ (look (p.is_signal v)) (λ s. wait_for_operands-Looked p s op vs)
  where
    look : (b : Bool) → Looked r (if b then wait_for_signal p r op v else (false, r)).1
    look true = wait_for_signal-Looked p r op v
    look false = Looked-refl r

-- To ask whether an operation has to wait changes nothing but the counts of values, and those only
-- where a value has none yet.
pub wait_for_signals-Looked :
    (p : Program) (r : Runner) (op : ℕ) → Looked r (wait_for_signals p r op).1
unfolding wait_for_signals
wait_for_signals-Looked p r op = wait_for_operands-Looked p r op (p.operation op).operands
