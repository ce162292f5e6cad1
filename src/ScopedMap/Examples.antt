-- ===== src/ScopedMap/Examples.antt =====
-- Two scopes, of which the outer one has a key.
use event_queue.Common.{◌+◌, ◌<◌, ◌≡◌, refl, none, some, [], ◌∷◌, u64, if◌then◌else◌, ◌==◌}
use event_queue.ScopedMap.{ScopedMap, Scope, count_or_zero, add_scope, end_scope, add, count, at}
use event_queue.ScopedMap.Counts.{add_at, at_shadowed}

abbrev outer : Scope
outer key = if key == 7 then some 2 else none

abbrev inner : Scope
inner key = none

add_at_example :
    (t : ScopedMap) × (add (outer ∷ []) 7 ≡ some t)
    × ((at t 7).0 ≡ u64 (count_or_zero (outer 7) + 1))
    × ((u : ScopedMap) → add (add_scope (outer ∷ [])) 7 ≡ some u → end_scope u ≡ some (outer ∷ []))
add_at_example = add_at outer [] 7

at_shadowed_example : ((at (inner ∷ outer ∷ []) 7).0 ≡ 0) × (0 < count (inner ∷ outer ∷ []) 7)
at_shadowed_example = at_shadowed inner (outer ∷ []) 7 refl refl
