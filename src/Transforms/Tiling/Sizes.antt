-- ===== src/Transforms/Tiling/Sizes.antt =====
-- Sizes: the sizes of the tiles that `getTileSizes` settles on.
use event_queue.Common.{
  ℕ, zero, suc, ◌%◌, ◌≤◌, ◌<◌, ◌≡◌, ◌≢◌, refl, ap, ◌∙◌, sym, Option, none, some, List, [], ◌∷◌,
  arith, ◌==◌, Bool-cases, inl, inr,
}
use event_queue.Transforms.Tiling.{Loop, shrink, halved, adjust_size, adjust_to_divisors}

-- `d` is the largest divisor of `count` that is at most `size`.
abbrev pub IsLargest : ℕ → ℕ → ℕ → Type 0
IsLargest count size d =
    (0 < d) × (d ≤ size) × (count % d ≡ 0) × ((e : ℕ) → d < e → e ≤ size → count % e ≢ 0)

shrink-IsLargest :
    (count size : ℕ) → 0 < size → (d : ℕ) × (shrink count size ≡ some d) × IsLargest count size d
unfolding shrink
shrink-IsLargest count zero pos = absurd (omega arith)
shrink-IsLargest count (suc zero) pos =
    let whole : count % 1 ≡ 0 = omega arith in
    (1, rw whole refl, (omega arith, omega arith, whole, λ e above below. absurd (omega arith)))
shrink-IsLargest count (suc (suc n)) pos = elim (Bool-cases (count % suc (suc n) == 0)) [
  | inl whole ↦ (
    suc (suc n),
    rw whole refl,
    (omega arith, omega arith, ground arith, λ e above below. absurd (omega arith)),
  )
  | inr part ↦
      let (d, found, (positive, small, divides, least)) =
        shrink-IsLargest count (suc n) (omega arith) in
      (
        d,
        rw part found,
        (
          positive,
          omega arith,
          divides,
          λ e above below. elim (Bool-cases (e == suc (suc n))) [
            | inl last ↦ λ whole.
                let is : e ≡ suc (suc n) = ground arith in
                let bad : count % suc (suc n) ≡ 0 = ap (λ z. count % z) (sym is) ∙ whole in
                ground arith
            | inr earlier ↦ least e above (ground arith)
          ],
        ),
      )
]

-- The size that a loop of the given trip count gets: the largest divisor of the trip count that is
-- at most the size asked for and, for more than one iteration, at most half of the trip count.
abbrev pub IsAdjusted : Option ℕ → ℕ → ℕ → Type 0
IsAdjusted none size d = d ≡ size
IsAdjusted (some count) size d = IsLargest count (halved count size) d

abbrev pub AreAdjusted : List Loop → List ℕ → List ℕ → Type 0
AreAdjusted (l ∷ ls) (size ∷ sizes) (d ∷ ds) =
    IsAdjusted l.trip_count size d × AreAdjusted ls sizes ds
AreAdjusted [] [] [] = Unit
AreAdjusted _ _ _ = ⊥

-- One positive size for each loop.
abbrev pub AreSizes : List Loop → List ℕ → Type 0
AreSizes (l ∷ ls) (size ∷ sizes) = (0 < size) × AreSizes ls sizes
AreSizes [] [] = Unit
AreSizes _ _ = ⊥

halved-positive : (count size : ℕ) → 0 < size → 0 < halved count size
halved-positive count size pos = ground arith

adjust_size-IsAdjusted :
    (trip : Option ℕ) (size : ℕ)
    → 0 < size
    → (d : ℕ) × (adjust_size trip size ≡ some d) × IsAdjusted trip size d
adjust_size-IsAdjusted none size pos = (size, refl, refl)
adjust_size-IsAdjusted (some count) size pos =
    shrink-IsLargest count (halved count size) (halved-positive count size pos)

-- Every loop that the sizes are adjusted to gets one: the largest divisor of its trip count within
-- the limits, or the size asked for where the trip count is not known. No division is by zero, as
-- long as the sizes asked for are positive.
pub adjust_to_divisors-AreAdjusted :
    (ls : List Loop) (sizes : List ℕ)
    → AreSizes ls sizes
    → (ds : List ℕ) × (adjust_to_divisors ls sizes ≡ some ds) × AreAdjusted ls sizes ds
unfolding adjust_to_divisors
adjust_to_divisors-AreAdjusted [] [] h = ([], refl, tt)
adjust_to_divisors-AreAdjusted [] (size ∷ sizes) h = elim h [ ]
adjust_to_divisors-AreAdjusted (l ∷ ls) [] h = elim h [ ]
adjust_to_divisors-AreAdjusted (l ∷ ls) (size ∷ sizes) (pos, h) =
    let (d, first, fits) = adjust_size-IsAdjusted l.trip_count size pos in
    let (ds, others, fit) = adjust_to_divisors-AreAdjusted ls sizes h in
    (d ∷ ds, rw (first, others) refl, (fits, fit))
