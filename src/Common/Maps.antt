-- ===== src/Common/Maps.antt =====
-- Maps as functions, and the association lists that the source iterates over.
use Prim.Native.Nat.{ℕ}
use mathlib.Core.Path.{◌≡◌, refl}
use mathlib.Core.List.{List, [], ◌∷◌}
use mathlib.Core.Option.{Option, none, some}
use native.Mathlib.Omega.{arith}
use event_queue.Common.Tests.{◌==◌, if◌then◌else◌}

module _ {ℓ} {V : Type ℓ} where
  -- `m[k] = v` on a map that is a function.
  abbrev pub update : (ℕ → V) → ℕ → V → ℕ → V
  update m k v j = if k == j then v else m j

  abbrev pub lookup : ℕ → List (ℕ × V) → Option V
  lookup k [] = none
  lookup k ((j, v) ∷ m) = if j == k then some v else lookup k m

  -- A write through a reference to the entry of `k`; a missing key changes nothing.
  abbrev pub assign : ℕ → V → List (ℕ × V) → List (ℕ × V)
  assign k v [] = []
  assign k v ((j, w) ∷ m) = if j == k then (j, v) ∷ m else (j, w) ∷ assign k v m

  abbrev pub keys : List (ℕ × V) → List ℕ
  keys [] = []
  keys ((j, v) ∷ m) = j ∷ keys m

  pub keys-assign : (k : ℕ) (v : V) (m : List (ℕ × V)) → keys (assign k v m) ≡ keys m
  keys-assign k v [] = refl
  keys-assign k v ((j, w) ∷ m) = ground (arith, keys-assign k v m)

  pub lookup-assign :
      (k j : ℕ) (v : V) (m : List (ℕ × V))
      → lookup j (assign k v m)
        ≡ (if k == j then (elim (lookup j m) [ none ↦ none | some _ ↦ some v ]) else lookup j m)
  lookup-assign k j v [] = ground arith
  lookup-assign k j v ((i, w) ∷ m) = ground (arith, lookup-assign k j v m)
