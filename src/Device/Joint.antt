-- ===== src/Device/Joint.antt =====
-- `Device::scheduleEvent` for several devices: a common start behind all that is booked.
use event_queue.Common.{
  ℕ, zero, suc, ◌+◌, ◌≤◌, ◌<◌, ◌≡◌, refl, ◌&&◌, some, List, [], ◌∷◌, ◌++◌, u64, All, arith, ◌==◌,
  if◌then◌else◌, max, sym, ◌∙◌,
}
use mathlib.Core.List.{append-nil, append_assoc}
use event_queue.Device.{
  Event, Queue, Place, Store, booking, end_or, latest_end, push_event, push_all, schedule_joint,
  last_end, joint_book,
}

end_or-ge : (t : ℕ) (q : Queue) → t ≤ end_or t q
end_or-ge t [] = omega arith
end_or-ge t (e ∷ es) = omega arith

end_or_mono : (t : ℕ) (q : Queue) → end_or 0 q ≤ end_or t q
end_or_mono t [] = omega arith
end_or_mono t (e ∷ es) = omega arith

latest_end-ge : (s : Store) (t : ℕ) (ps : List Place) → t ≤ latest_end s t ps
unfolding latest_end
latest_end-ge s t [] = omega arith
latest_end-ge s t ((d, i) ∷ ps) =
    ground (arith, latest_end-ge s (end_or t (s d i)) ps, end_or-ge t (s d i))

-- The queue of a place has nothing booked behind `t`.
abbrev pub EndsBy : Store → ℕ → Place → Type 0
EndsBy s t p = end_or 0 (s p.0 p.1) ≤ t

latest_end-EndsBy : (s : Store) (t : ℕ) (ps : List Place) → All (EndsBy s (latest_end s t ps)) ps
unfolding latest_end
latest_end-EndsBy s t [] = tt
latest_end-EndsBy s t ((d, i) ∷ ps) =
    let after = end_or t (s d i) in
    (omega (arith, latest_end-ge s after ps, end_or_mono t (s d i)), latest_end-EndsBy s after ps)

-- How often a place is named.
pub mentions : Place → List Place → ℕ
mentions p [] = 0
mentions p (q ∷ ps) = if (p.0 == q.0) && (p.1 == q.1) then suc (mentions p ps) else mentions p ps

abbrev pub repeat : ℕ → Event → Queue
repeat zero e = []
repeat (suc n) e = e ∷ repeat n e

push_all-repeat :
    (s : Store) (e : Event) (ps : List Place) (d i : ℕ)
    → push_all s e ps d i ≡ s d i ++ repeat (mentions (d, i) ps) e
unfolding push_all mentions
push_all-repeat s e [] d i = sym (append-nil (s d i))
push_all-repeat s e ((c, j) ∷ ps) d i =
    push_all-repeat (push_event s (c, j) e) e ps d i
    ∙ ground (arith, append_assoc (s d i) (e ∷ []) (repeat (mentions (d, i) ps) e))

-- What a joint access does: it begins at the time asked for or later, and behind the last event of
-- the queue of each place that it uses; it ends `exec_time` cycles later; and a queue gets its
-- event once for each time that it is named, and no queue anything else.
pub record JointlyBooked (s : Store) (ps : List Place) (start_time exec_time t : ℕ) (s' : Store)
    : Type 0 where
  pub at : ℕ
  pub not_early : start_time ≤ at
  pub behind : All (EndsBy s at) ps
  pub ends : t ≡ u64 (at + exec_time)
  pub pushed : (d i : ℕ) → s' d i ≡ s d i ++ repeat (mentions (d, i) ps) (booking at exec_time)

joint_book-JointlyBooked :
    (s s' : Store) (own : Place) (st x t : ℕ) (ps : List Place) (q : Queue)
    → s own.0 own.1 ≡ q
    → joint_book s own st x ps q ≡ some (t, s')
    → JointlyBooked s (own ∷ ps) st x t s'
joint_book-JointlyBooked s s' own st x t ps [] e h = cc
joint_book-JointlyBooked s s' own st x t ps (e ∷ es) same h =
    let begin = max st (last_end e es) in
    let at = latest_end s begin ps in
    let late = latest_end-ge s begin ps in
    let stored : push_all s (booking at x) (own ∷ ps) ≡ s' = ground arith in
    record {
      at = at;
      not_early = omega arith;
      behind = (rw same (omega arith), latest_end-EndsBy s begin ps);
      ends = ground arith;
      pushed = λ d i. rw (← stored) (push_all-repeat s (booking at x) (own ∷ ps) d i);
    }

-- An access that takes time is booked jointly on its own queue and on those that are named.
pub schedule_joint-JointlyBooked :
    (s s' : Store) (own : Place) (st x t : ℕ) (ps : List Place)
    → 0 < x
    → schedule_joint s own st x ps ≡ some (t, s')
    → JointlyBooked s (own ∷ ps) st x t s'
unfolding schedule_joint
schedule_joint-JointlyBooked s s' own st x t ps pos h =
    joint_book-JointlyBooked s s' own st x t ps (s own.0 own.1) refl (ground arith)
