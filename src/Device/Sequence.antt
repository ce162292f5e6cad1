-- ===== src/Device/Sequence.antt =====
-- A device that is used in sequence: its event queue then behaves as a single busy-until time.
use event_queue.Common.{
  ℕ, suc, ◌+◌, ◌≤◌, ◌<◌, ◌≡◌, refl, Bool, true, false, Option, none, some, List, [], ◌∷◌, u64_mod,
  All, length, arith,
}
use event_queue.Device.{Event, Queue, booking, book, schedule_queue, delete_outdated, from_live}

-- The event ended by `now`, and does not end before it begins.
abbrev pub IsPast : ℕ → Event → Type 0
IsPast now e = (e.second ≤ now) × (e.first ≤ e.second)

pub IsPast-mono : (t u : ℕ) (q : Queue) → t ≤ u → All (IsPast t) q → All (IsPast u) q
IsPast-mono t u [] h a = tt
IsPast-mono t u (e ∷ es) h a = ((omega arith, a.0.1), IsPast-mono t u es h a.1)

from_live-IsPast :
    (now : ℕ) (prev : Event) (q : Queue) → All (IsPast now) q → from_live now prev q ≡ none
unfolding from_live
from_live-IsPast now prev [] a = refl
from_live-IsPast now prev (e ∷ es) a = ground (arith, from_live-IsPast now e es a.1)

-- Where all events are past the clean-up keeps the queue as it is.
pub delete_outdated-IsPast : (now : ℕ) (q : Queue) → All (IsPast now) q → delete_outdated now q ≡ q
unfolding delete_outdated
delete_outdated-IsPast now [] a = refl
delete_outdated-IsPast now (e ∷ es) a = ground (arith, from_live-IsPast now e es a.1)

-- The queue behind the booking of an access that is granted at once.
pub behind_first : Event → Queue → Queue
behind_first b [] = b ∷ []
behind_first b (e ∷ []) = b ∷ e ∷ []
behind_first b (e ∷ next ∷ es) = e ∷ b ∷ next ∷ es

book-IsPast :
    (s x : ℕ) (q : Queue)
    → All (IsPast s) q
    → 0 < x
    → s + x < u64_mod
    → book s x q ≡ some (s + x, behind_first (booking s x) q)
unfolding book behind_first
book-IsPast s x [] a pos small = ground arith
book-IsPast s x (e ∷ []) a pos small = ground arith
book-IsPast s x (e ∷ next ∷ es) a pos small = ground arith

behind_first-IsPast :
    (s x : ℕ) (q : Queue)
    → All (IsPast s) q
    → s + x < u64_mod
    → All (IsPast (s + x)) (behind_first (booking s x) q)
unfolding behind_first
behind_first-IsPast s x [] a small = omega arith
behind_first-IsPast s x (e ∷ []) a small = omega arith
behind_first-IsPast s x (e ∷ next ∷ es) a small =
    (omega arith, (omega arith, (omega arith, IsPast-mono s (s + x) es (omega arith) a.1.1)))

-- An access to a queue whose events are all past is granted at the time asked for.
pub schedule_queue-IsPast :
    (s x : ℕ) (clean : Bool) (q : Queue)
    → All (IsPast s) q
    → 0 < x
    → s + x < u64_mod
    → schedule_queue s x clean q ≡ some (s + x, behind_first (booking s x) q)
unfolding schedule_queue
schedule_queue-IsPast s x true q a pos small =
    ground (arith, delete_outdated-IsPast s q a, book-IsPast s x q a pos small)
schedule_queue-IsPast s x false q a pos small = ground (arith, book-IsPast s x q a pos small)

length-behind_first : (b : Event) (q : Queue) → length (behind_first b q) ≡ suc (length q)
unfolding behind_first
length-behind_first b [] = refl
length-behind_first b (e ∷ []) = refl
length-behind_first b (e ∷ next ∷ es) = refl

-- A request: the time asked for and the cycles that the access takes.
abbrev pub Request : Type 0
Request = ℕ × ℕ

-- Requests served one after the other, with their ends.
unfoldable pub serve : Bool → List Request → Queue → Option (List ℕ × Queue)
serve clean [] q = some ([], q)
serve clean ((s, x) ∷ rs) q = elim (schedule_queue s x clean q) [
  | none ↦ none
  | some (t, q') ↦ elim (serve clean rs q') [ none ↦ none | some (ts, r) ↦ some (t ∷ ts, r) ]
]

-- Each request comes no earlier than the end of the one before, and takes some time.
abbrev pub InOrder : ℕ → List Request → Type 0
InOrder now [] = Unit
InOrder now ((s, x) ∷ rs) = (now ≤ s) × (0 < x) × (s + x < u64_mod) × InOrder (s + x) rs

abbrev pub ends : List Request → List ℕ
ends [] = []
ends ((s, x) ∷ rs) = (s + x) ∷ ends rs

-- Requests that come in order are each granted at the time asked for, and the queue grows by one
-- event for each. Once the queue's events are past, this holds whatever they are.
pub serve-InOrder :
    (clean : Bool) (now : ℕ) (rs : List Request) (q : Queue)
    → All (IsPast now) q
    → InOrder now rs
    → (r : Queue) × (serve clean rs q ≡ some (ends rs, r)) × (length r ≡ length q + length rs)
unfolding serve
serve-InOrder clean now [] q a o = (q, refl, omega arith)
serve-InOrder clean now ((s, x) ∷ rs) q a o =
    let past = IsPast-mono now s q o.0 a in
    let q' = behind_first (booking s x) q in
    let (r, served, long) =
      serve-InOrder clean (s + x) rs q' (behind_first-IsPast s x q past o.2) o.3 in
    (
      r,
      ground (arith, schedule_queue-IsPast s x clean q past o.1 o.2, served),
      omega (arith, long, length-behind_first (booking s x) q),
    )
