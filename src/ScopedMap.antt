-- ===== src/ScopedMap.antt =====
-- include/EQueue/CommandProcessor.h: `ScopedMap`, counters in a stack of scopes. `none` is an access
-- behind the end of an empty stack. The keys are numbers.
pub mod Counts
mod Examples
use event_queue.Common.{
  ℕ, zero, suc, ◌+◌, ◌≡◌, Bool, true, false, Option, none, some, List, [], ◌∷◌, u64, update,
  if◌then◌else◌,
}

-- A scope, and the stack with the innermost scope first, which the source keeps at the end.
abbrev pub Scope : Type 0
Scope = ℕ → Option ℕ

abbrev pub ScopedMap : Type 0
ScopedMap = List Scope

abbrev pub has : Option ℕ → Bool
has none = false
has (some n) = true

abbrev pub count_or_zero : Option ℕ → ℕ
count_or_zero none = 0
count_or_zero (some n) = n

unfoldable pub size : ScopedMap → ℕ
size [] = 0
size (m ∷ ms) = suc (size ms)

unfoldable pub add_scope : ScopedMap → ScopedMap
add_scope ms = (λ key. none) ∷ ms

unfoldable pub end_scope : ScopedMap → Option ScopedMap
end_scope [] = none
end_scope (m ∷ ms) = some ms

-- `scopedMap[size - 1][key]++`.
unfoldable pub add : ScopedMap → ℕ → Option ScopedMap
add [] key = none
add (m ∷ ms) key = some (update m key (some (u64 (count_or_zero (m key) + 1))) ∷ ms)

-- `count`: the place, counted from 1 and from the outermost scope, of the first scope that has the
-- key, or 0.
unfoldable pub count : ScopedMap → ℕ → ℕ
unfolding size
count [] key = 0
count (m ∷ ms) key =
    let outer = count ms key in
    elim outer [ zero ↦ if has (m key) then suc (size ms) else 0 | suc n ↦ suc n ]

-- `operator []`: where some scope has the key, the count of the innermost one, which is put in as 0
-- where that one lacks it.
abbrev pub has_key : ScopedMap → ℕ → Bool
has_key [] key = false
has_key (m ∷ ms) key = if has (m key) then true else has_key ms key

abbrev pub read_top : ScopedMap → ℕ → ℕ × ScopedMap
read_top [] key = (0, [])
read_top (m ∷ ms) key = (count_or_zero (m key), update m key (some (count_or_zero (m key))) ∷ ms)

unfoldable pub at : ScopedMap → ℕ → ℕ × ScopedMap
at ms key = if has_key ms key then read_top ms key else (0, ms)
