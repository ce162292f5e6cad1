-- ===== src/ScopedMap/Counts.antt =====
-- Counts: what the operations of a scoped map see of each other.
use event_queue.Common.{
  ℕ, zero, suc, ◌+◌, ◌<◌, ◌≡◌, refl, inl, inr, none, some, [], ◌∷◌, u64, update, arith, true, false,
  ==-refl, subst, some_injective, Bool, if◌then◌else◌, Bool-cases,
}
use event_queue.ScopedMap.{
  ScopedMap, Scope, has, has_key, count_or_zero, size, add_scope, end_scope, add, count, at,
}

count_found : (n d : ℕ) → 0 < n → 0 < (elim n [ zero ↦ d | suc k ↦ suc k ])
count_found zero d pos = absurd (omega arith)
count_found (suc k) d pos = pos

count_own :
    (n : ℕ) (b : Bool) (k : ℕ)
    → b ≡ true
    → 0 < (elim n [ zero ↦ if b then suc k else 0 | suc j ↦ suc j ])
count_own zero b k h = rw h (omega arith)
count_own (suc j) b k h = omega arith

-- Reading a key right behind counting it gives the count in the innermost scope. What is counted in
-- a scope of its own is gone when that scope ends.
pub add_at :
    (m : Scope) (ms : ScopedMap) (key : ℕ)
    → (t : ScopedMap) × (add (m ∷ ms) key ≡ some t)
      × ((at t key).0 ≡ u64 (count_or_zero (m key) + 1))
      × ((u : ScopedMap) → add (add_scope (m ∷ ms)) key ≡ some u → end_scope u ≡ some (m ∷ ms))
unfolding add at add_scope end_scope
add_at m ms key = (
  update m key (some (u64 (count_or_zero (m key) + 1))) ∷ ms,
  refl,
  rw (==-refl key) refl,
  λ u e. subst (λ z. end_scope z ≡ some (m ∷ ms)) (some_injective e) refl,
)

count-has_key : (ms : ScopedMap) (key : ℕ) → has_key ms key ≡ true → 0 < count ms key
unfolding count
count-has_key [] key h = cc
count-has_key (m ∷ ms) key h = elim (Bool-cases (has_key ms key)) [
  | inl outer ↦ count_found (count ms key) _ (count-has_key ms key outer)
  | inr inner ↦ elim (Bool-cases (has (m key))) [
    | inl here ↦ count_own (count ms key) (has (m key)) (size ms) here
    | inr there ↦ let bad : false ≡ true = rw (there, inner) at h in cc
  ]
]

-- A key that an outer scope has, and the innermost one lacks, is read as 0, and is counted as
-- there.
pub at_shadowed :
    (m : Scope) (ms : ScopedMap) (key : ℕ)
    → m key ≡ none
    → has_key ms key ≡ true
    → ((at (m ∷ ms) key).0 ≡ 0) × (0 < count (m ∷ ms) key)
unfolding at count
at_shadowed m ms key missing outer =
    (rw (missing, outer) refl, count-has_key (m ∷ ms) key (rw (missing, outer) refl))
