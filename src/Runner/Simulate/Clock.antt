-- ===== src/Runner/Simulate/Clock.antt =====
-- Clock: the time that `simulateFunction` goes on to, out of the end times of the operations at
-- work.
use event_queue.Common.{
  ℕ, ◌+◌, ◌≤◌, ◌≡◌, refl, sym, subst, ◌⊎◌, inl, inr, Bool, true, false, not, ◌&&◌, List, [], ◌∷◌,
  ◌++◌, min, u64, arith, Bool-cases, if◌then◌else◌,
}
use event_queue.Launcher.{LauncherTable, is_idle, is_started}
use event_queue.Runner.State.{Runner}
use event_queue.Runner.Simulate.{min_element, next_time, all_end_times}
use event_queue.Runner.Steps.{next_end_times}

abbrev IsIn : ℕ → List ℕ → Type 0
IsIn t [] = ⊥
IsIn t (u ∷ us) = (t ≡ u) ⊎ IsIn t us

IsIn-append : (t : ℕ) (xs ys : List ℕ) → IsIn t xs ⊎ IsIn t ys → IsIn t (xs ++ ys)
IsIn-append t [] ys (inl h) = elim h [ ]
IsIn-append t [] ys (inr h) = h
IsIn-append t (x ∷ xs) ys (inl (inl e)) = inl e
IsIn-append t (x ∷ xs) ys (inl (inr h)) = inr (IsIn-append t xs ys (inl h))
IsIn-append t (x ∷ xs) ys (inr h) = inr (IsIn-append t xs ys (inr h))

IsIn-split : (t : ℕ) (xs ys : List ℕ) → IsIn t (xs ++ ys) → IsIn t xs ⊎ IsIn t ys
IsIn-split t [] ys h = inr h
IsIn-split t (x ∷ xs) ys (inl e) = inl (inl e)
IsIn-split t (x ∷ xs) ys (inr h) = elim (IsIn-split t xs ys h) [
  | inl i ↦ inl (inr i)
  | inr i ↦ inr i
]

min_element-IsIn : (t : ℕ) (ts : List ℕ) → IsIn (min_element t ts) (t ∷ ts)
unfolding min_element
min_element-IsIn t [] = inl refl
min_element-IsIn t (u ∷ us) = elim (min_element-IsIn (min t u) us) [
  | inl e ↦ ground arith
  | inr h ↦ inr (inr h)
]

min_element-le_head : (t : ℕ) (ts : List ℕ) → min_element t ts ≤ t
unfolding min_element
min_element-le_head t [] = omega arith
min_element-le_head t (u ∷ us) = omega (arith, min_element-le_head (min t u) us)

min_element-le : (t u : ℕ) (ts : List ℕ) → IsIn u (t ∷ ts) → min_element t ts ≤ u
unfolding min_element
min_element-le t u ts (inl e) = omega (arith, min_element-le_head t ts)
min_element-le t u [] (inr h) = elim h [ ]
min_element-le t u (v ∷ ts) (inr (inl e)) = omega (arith, min_element-le_head (min t v) ts)
min_element-le t u (v ∷ ts) (inr (inr h)) = min_element-le (min t v) u ts (inr h)

-- A launcher whose operation has started.
abbrev pub IsAtWork : LauncherTable → Type 0
IsAtWork l = (is_idle l ≡ false) × (is_started l.op_entry ≡ true)

-- A launcher at work whose operation ends at the given time.
abbrev pub EndsAt : ℕ → LauncherTable → Type 0
EndsAt t l = IsAtWork l × (l.op_entry.end_time ≡ t)

-- No launcher of the list at work ends before the time.
abbrev pub NoneBefore : ℕ → List (ℕ × LauncherTable) → Type 0
NoneBefore t [] = Unit
NoneBefore t ((v, l) ∷ ls) = (IsAtWork l → t ≤ l.op_entry.end_time) × NoneBefore t ls

-- A launcher of the list at work ends at the time.
abbrev pub AnyEndsAt : ℕ → List (ℕ × LauncherTable) → Type 0
AnyEndsAt t [] = ⊥
AnyEndsAt t ((v, l) ∷ ls) = EndsAt t l ⊎ AnyEndsAt t ls

-- No launcher of the list is at work.
abbrev pub NoneAtWork : List (ℕ × LauncherTable) → Type 0
NoneAtWork [] = Unit
NoneAtWork ((v, l) ∷ ls) = (IsAtWork l → ⊥) × NoneAtWork ls

next_end_times-kept :
    (t : ℕ) (l : LauncherTable) (acc : List ℕ) → IsIn t acc → IsIn t (next_end_times l acc)
unfolding next_end_times
next_end_times-kept t l acc h = elim (Bool-cases (not (is_idle l) && is_started l.op_entry)) [
  | inl e ↦ rw e (IsIn-append t acc _ (inl h))
  | inr e ↦ rw e h
]

next_end_times-new :
    (t : ℕ) (l : LauncherTable) (acc : List ℕ) → EndsAt t l → IsIn t (next_end_times l acc)
unfolding next_end_times
next_end_times-new t l acc ((i, s), e) = rw (i, s) (IsIn-append t acc _ (inr (inl (sym e))))

collected :
    (idle started : Bool) (t e : ℕ) (acc : List ℕ)
    → IsIn t (if not idle && started then acc ++ e ∷ [] else acc)
    → IsIn t acc ⊎ (((idle ≡ false) × (started ≡ true)) × (e ≡ t))
collected true s t e acc h = inl h
collected false false t e acc h = inl h
collected false true t e acc h = elim (IsIn-split t acc (e ∷ []) h) [
  | inl i ↦ inl i
  | inr (inl q) ↦ inr ((refl, refl), sym q)
  | inr (inr q) ↦ elim q [ ]
]

next_end_times-split :
    (t : ℕ) (l : LauncherTable) (acc : List ℕ)
    → IsIn t (next_end_times l acc)
    → IsIn t acc ⊎ EndsAt t l
unfolding next_end_times
next_end_times-split t l acc h =
    collected (is_idle l) (is_started l.op_entry) t l.op_entry.end_time acc h

all_end_times-kept :
    (t : ℕ) (ls : List (ℕ × LauncherTable)) (acc : List ℕ)
    → IsIn t acc
    → IsIn t (all_end_times ls acc)
unfolding all_end_times
all_end_times-kept t [] acc h = h
all_end_times-kept t ((v, l) ∷ ls) acc h =
    all_end_times-kept t ls (next_end_times l acc) (next_end_times-kept t l acc h)

all_end_times-split :
    (t : ℕ) (ls : List (ℕ × LauncherTable)) (acc : List ℕ)
    → IsIn t (all_end_times ls acc)
    → IsIn t acc ⊎ AnyEndsAt t ls
unfolding all_end_times
all_end_times-split t [] acc h = inl h
all_end_times-split t ((v, l) ∷ ls) acc h =
    elim (all_end_times-split t ls (next_end_times l acc) h) [
      | inr a ↦ inr (inr a)
      | inl i ↦ elim (next_end_times-split t l acc i) [ inl j ↦ inl j | inr e ↦ inr (inl e) ]
    ]

-- All launchers of the list end at or after `t`, if all collected times are.
all_end_times-NoneBefore :
    (t : ℕ) (ls : List (ℕ × LauncherTable)) (acc : List ℕ)
    → ((u : ℕ) → IsIn u (all_end_times ls acc) → t ≤ u)
    → NoneBefore t ls
unfolding all_end_times
all_end_times-NoneBefore t [] acc h = tt
all_end_times-NoneBefore t ((v, l) ∷ ls) acc h = (
  λ w. h l.op_entry.end_time (
      all_end_times-kept l.op_entry.end_time ls (next_end_times l acc)
        (next_end_times-new l.op_entry.end_time l acc (w, refl))),
  all_end_times-NoneBefore t ls (next_end_times l acc) h,
)

all_end_times-NoneAtWork :
    (ls : List (ℕ × LauncherTable)) (acc : List ℕ)
    → ((u : ℕ) → IsIn u (all_end_times ls acc) → ⊥)
    → NoneAtWork ls
unfolding all_end_times
all_end_times-NoneAtWork [] acc h = tt
all_end_times-NoneAtWork ((v, l) ∷ ls) acc h = (
  λ w. h l.op_entry.end_time (
      all_end_times-kept l.op_entry.end_time ls (next_end_times l acc)
        (next_end_times-new l.op_entry.end_time l acc (w, refl))),
  all_end_times-NoneAtWork ls (next_end_times l acc) h,
)

-- The times of all launchers.
abbrev pub end_times : Runner → List ℕ
end_times r = all_end_times r.launch_tables (next_end_times r.host_table [])

-- What the end of a round finds: the host's launcher counts as one of the list.
abbrev pub launchers : Runner → List (ℕ × LauncherTable)
launchers r = (0, r.host_table) ∷ r.launch_tables

next_time-of :
    (time : ℕ) (ts : List ℕ)
    → ((ts ≡ []) × (next_time time ts ≡ u64 (time + 1)))
      ⊎ (IsIn (next_time time ts) ts × ((u : ℕ) → IsIn u ts → next_time time ts ≤ u))
unfolding next_time
next_time-of time [] = inl (refl, refl)
next_time-of time (t ∷ ts) = inr (min_element-IsIn t ts, λ u. min_element-le t u ts)

-- The new time is not after the end of any operation at work, and it is the end of one of them; if
-- none is at work it is the next cycle.
pub next_time-earliest :
    (r : Runner) (time : ℕ)
    → (let t = next_time time (end_times r) in
        (NoneBefore t (launchers r) × AnyEndsAt t (launchers r))
        ⊎ (NoneAtWork (launchers r) × (t ≡ u64 (time + 1))))
unfolding all_end_times
next_time-earliest r time = elim (next_time-of time (end_times r)) [
  | inl (e, n) ↦ inr (
    all_end_times-NoneAtWork (launchers r) []
        (subst (λ ts. (u : ℕ) → IsIn u ts → ⊥) (sym e) (λ u i. i)),
    n,
  )
  | inr (i, le) ↦ elim (all_end_times-split (next_time time (end_times r)) (launchers r) [] i) [
    | inl h ↦ elim h [ ]
    | inr a ↦ inl (all_end_times-NoneBefore (next_time time (end_times r)) (launchers r) [] le, a)
  ]
]
