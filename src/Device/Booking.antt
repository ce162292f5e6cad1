-- ===== src/Device/Booking.antt =====
-- What one call of `Device::scheduleEvent` does to a queue: the clean-up and the booking.
use mathlib.Core.List.{Perm, perm_middle, append-nil}
use mathlib.Core.List.Perm
use event_queue.Common.{
  ℕ, ◌+◌, ◌≤◌, ◌<◌, ◌≡◌, refl, ap, subst, ◌⊎◌, inl, inr, Bool, ◌&&◌, some, [], ◌∷◌, ◌++◌, u64, All,
  arith, Bool-cases, Option-cases, ltb, if◌then◌else◌,
}
use event_queue.Device.{
  Event, Queue, from_live, delete_outdated, booking, insert_slot, is_slot, last_end, book,
  schedule_queue, erases,
}

-- Ended by `now`.
abbrev pub IsOver : ℕ → Event → Type 0
IsOver now e = e.second ≤ now

from_live-split :
    (now : ℕ) (prev : Event) (q r : Queue)
    → from_live now prev q ≡ some r
    → prev.second ≤ now
    → (dropped : Queue) × (prev ∷ q ≡ dropped ++ r) × All (IsOver now) dropped
unfolding from_live
from_live-split now prev [] r h over = cc
from_live-split now prev (e ∷ es) r h over = elim (Bool-cases (ltb now e.second)) [
  | inl live ↦ ([], ground arith, tt)
  | inr ended ↦
      let (dropped, same, all) = from_live-split now e es r (ground arith) (ground arith) in
      (prev ∷ dropped, ap (◌∷◌ prev) same, (over, all))
]

-- The clean-up drops a prefix of the queue, and nothing that is still running at `now`.
pub delete_outdated-split :
    (now : ℕ) (q : Queue)
    → (dropped : Queue) × (q ≡ dropped ++ delete_outdated now q) × All (IsOver now) dropped
unfolding delete_outdated
delete_outdated-split now [] = ([], refl, tt)
delete_outdated-split now (e ∷ es) = elim (Bool-cases (ltb now e.second)) [
  | inl live ↦ ([], rw live, tt)
  | inr ended ↦ elim (Option-cases (from_live now e es)) [
    | inl lost ↦ ([], rw (ended, lost), tt)
    | inr (r, found) ↦
        let (dropped, same, all) = from_live-split now e es r found (ground arith) in
        (dropped, rw (ended, found) same, all)
  ]
]

insert_slot-perm : (s x : ℕ) (q r : Queue) → insert_slot s x q ≡ some r → Perm r (booking s x ∷ q)
unfolding insert_slot
insert_slot-perm s x [] r h = cc
insert_slot-perm s x (e ∷ []) r h = cc
insert_slot-perm s x (e ∷ next ∷ es) r h = elim (Bool-cases (is_slot s x e next)) [
  | inl slot ↦
      let same : e ∷ booking s x ∷ next ∷ es ≡ r = ground arith in
      subst (λ l. Perm l (booking s x ∷ e ∷ next ∷ es)) same (Perm.swap _ e _)
  | inr taken ↦ elim (Option-cases (insert_slot s x (next ∷ es))) [
    | inl full ↦ absurd (ground arith)
    | inr (q, found) ↦
        let same : e ∷ q ≡ r = ground arith in
        subst (λ l. Perm l (booking s x ∷ e ∷ next ∷ es)) same
          (Perm.trans (Perm.cons e (insert_slot-perm s x (next ∷ es) q found)) (Perm.swap _ e _))
  ]
]

-- The access of length `exec_time` asked for at `start_time` on the queue `q` ends at `t` and
-- leaves the queue `r`.
pub record Booked (start_time exec_time : ℕ) (q r : Queue) (t : ℕ) : Type 0 where
  pub at : ℕ
  pub begins :
      (at ≡ start_time) ⊎ ((e : Event) × (es : Queue) × (q ≡ e ∷ es) × (at ≡ last_end e es))
  pub ends : t ≡ u64 (at + exec_time)
  pub kept : Perm r (booking at exec_time ∷ q)

append_booking : (b : Event) (q : Queue) → Perm (q ++ b ∷ []) (b ∷ q)
append_booking b q = rw append-nil at (perm_middle {a = b} q [])

book-Booked : (s x : ℕ) (q r : Queue) (t : ℕ) → book s x q ≡ some (t, r) → Booked s x q r t
unfolding book
book-Booked s x [] r t h =
    let same : booking s x ∷ [] ≡ r = ground arith in
    record {
      at = s;
      begins = inl refl;
      ends = ground arith;
      kept = subst (λ l. Perm l (booking s x ∷ [])) same Perm.rfl;
    }
book-Booked s x (e ∷ []) r t h =
    let same : booking s x ∷ e ∷ [] ≡ r = ground arith in
    record {
      at = s;
      begins = inl refl;
      ends = ground arith;
      kept = subst (λ l. Perm l (booking s x ∷ e ∷ [])) same Perm.rfl;
    }
book-Booked s x (e ∷ next ∷ es) r t h = elim (Option-cases (insert_slot s x (e ∷ next ∷ es))) [
  | inl full ↦
      let late = last_end next es in
      let same : (e ∷ next ∷ es) ++ booking late x ∷ [] ≡ r = ground arith in
      record {
        at = late;
        begins = inr (e, next ∷ es, refl, refl);
        ends = ground arith;
        kept =
            subst (λ l. Perm l (booking late x ∷ e ∷ next ∷ es)) same
              (append_booking (booking late x) (e ∷ next ∷ es));
      }
  | inr (q, found) ↦
      let same : q ≡ r = ground arith in
      record {
        at = s;
        begins = inl refl;
        ends = ground arith;
        kept =
            subst (λ l. Perm l (booking s x ∷ e ∷ next ∷ es)) same
              (insert_slot-perm s x (e ∷ next ∷ es) q found);
      }
]

-- The queue that an access is booked on.
abbrev pub cleaned : Bool → ℕ → Queue → Queue
cleaned clean_events start_time q = if clean_events then delete_outdated start_time q else q

-- An access that takes time adds exactly one event to the queue that the clean-up leaves, and
-- returns the end of that event. The event lasts `exec_time` and begins at the time asked for or
-- at the end of the queue's last event.
pub schedule_queue-Booked :
    (s x : ℕ) (clean_events : Bool) (q r : Queue) (t : ℕ)
    → 0 < x
    → schedule_queue s x clean_events q ≡ some (t, r)
    → Booked s x (cleaned clean_events s q) r t
unfolding schedule_queue
schedule_queue-Booked s x clean_events q r t pos h =
    elim (Bool-cases (clean_events && erases s q)) [
      | inl lost ↦ absurd (ground arith)
      | inr valid ↦ book-Booked s x (cleaned clean_events s q) r t (ground arith)
    ]
