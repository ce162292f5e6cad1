-- ===== src/Transforms/Tiling/Cover.antt =====
-- Cover: the loops of a tiled loop run over the iterations of the loop itself.
use mathlib.Core.List.{append-nil}
use native.Mathlib.Nat.{suc-mul, div-add-mod, mul_assoc, mul_comm, zero-mul}
use event_queue.Common.{
  ℕ, zero, suc, ◌+◌, ◌-◌, ◌*◌, ◌/◌, ◌%◌, ◌≤◌, ◌<◌, ◌≡◌, refl, sym, ap, ◌∙◌, subst, ◌⊎◌, inl, inr,
  false, Option, none, some, List, [], ◌∷◌, ◌++◌, arith, ltb, ◌==◌, if◌then◌else◌, min, Bool-cases,
  some_injective,
}
use event_queue.Transforms.Tiling.{
  Loop, UpperBound, shifted, capped, TiledLoop, point_bound, tiled_loop, tile_loop, is_short,
}

-- The values of a loop's variable: from `i` on, below `upper`, by `step`. The fuel bounds their
-- number.
abbrev pub iterations : ℕ → ℕ → ℕ → ℕ → List ℕ
iterations zero i upper step = []
iterations (suc fuel) i upper step =
    let rest = iterations fuel (i + step) upper step in if ltb i upper then i ∷ rest else []

abbrev pub visits : Loop → List ℕ
visits l = iterations (l.upper - l.lower) l.lower l.upper l.step

abbrev pub bound_at : UpperBound → ℕ → ℕ
bound_at (shifted n) i = i + n
bound_at (capped n upper) i = min (i + n) upper

-- The variable of the intra-tile loop, over all iterations of the tile-space loop.
abbrev pub point_visits : UpperBound → ℕ → List ℕ → List ℕ
point_visits b step [] = []
point_visits b step (i ∷ is) =
    iterations (bound_at b i - i) i (bound_at b i) step ++ point_visits b step is

abbrev pub tiled_visits : TiledLoop → List ℕ
tiled_visits t =
    point_visits t.point_upper t.point_step (iterations (t.upper - t.lower) t.lower t.upper t.step)

-- `n` numbers from `i` on.
count_up : ℕ → ℕ → List ℕ
count_up i zero = []
count_up i (suc n) = i ∷ count_up (i + 1) n

count_up-append : (i a b : ℕ) → count_up i a ++ count_up (i + a) b ≡ count_up i (a + b)
unfolding count_up
count_up-append i zero b =
    let start : i + 0 ≡ i = omega arith in
    let none_more : b ≡ 0 + b = omega arith in
    ap (λ k. count_up k b) start ∙ ap (count_up i) none_more
count_up-append i (suc a) b =
    let start : i + suc a ≡ i + 1 + a = omega arith in
    let more : suc (a + b) ≡ suc a + b = omega arith in
    ap (λ k. i ∷ count_up (i + 1) a ++ count_up k b) start
    ∙ ap (λ xs. i ∷ xs) (count_up-append (i + 1) a b)
    ∙ ap (count_up i) more

count_up_none : (i upper : ℕ) → upper ≤ i → [] ≡ count_up i (upper - i)
unfolding count_up
count_up_none i upper h = let empty : 0 ≡ upper - i = omega arith in ap (count_up i) empty

count_up_next :
    (i upper : ℕ) → i < upper → i ∷ count_up (i + 1) (upper - (i + 1)) ≡ count_up i (upper - i)
unfolding count_up
count_up_next i upper h =
    let more : suc (upper - (i + 1)) ≡ upper - i = omega arith in ap (count_up i) more

iterations-count_up :
    (fuel i upper : ℕ) → upper ≤ i + fuel → iterations fuel i upper 1 ≡ count_up i (upper - i)
iterations-count_up zero i upper h = count_up_none i upper (omega arith)
iterations-count_up (suc fuel) i upper h = elim (Bool-cases (ltb i upper)) [
  | inl below ↦ rw below (
      ap (λ xs. i ∷ xs) (iterations-count_up fuel (i + 1) upper (omega arith))
      ∙ count_up_next i upper (ground arith))
  | inr above ↦ rw above (count_up_none i upper (ground arith))
]

-- A tile and what is behind it.
tile_then_rest :
    (i upper size : ℕ)
    → i < upper
    → count_up i (min (i + size) upper - i) ++ count_up (i + size) (upper - (i + size))
      ≡ count_up i (upper - i)
tile_then_rest i upper size h = elim (Bool-cases (ltb upper (i + size))) [
  | inl last ↦
      let whole : min (i + size) upper - i ≡ upper - i = ground arith in
      ap (λ n. count_up i n ++ count_up (i + size) (upper - (i + size))) whole
      ∙ ap (λ xs. count_up i (upper - i) ++ xs)
          (sym (count_up_none (i + size) upper (ground arith)))
      ∙ append-nil (count_up i (upper - i))
  | inr inner ↦
      let full : min (i + size) upper - i ≡ size = ground arith in
      let sum : size + (upper - (i + size)) ≡ upper - i = ground arith in
      ap (λ n. count_up i n ++ count_up (i + size) (upper - (i + size))) full
      ∙ count_up-append i size (upper - (i + size))
      ∙ ap (count_up i) sum
]

-- What the bounds of the intra-tile loops have to be, from a start at which `P` holds.
record Fits (b : UpperBound) (upper size : ℕ) (P : ℕ → Type 0) : Type 0 where
  bound : (i : ℕ) → P i → i < upper → bound_at b i ≡ min (i + size) upper
  next : (i : ℕ) → P i → i < upper → P (i + size)

point_visits-count_up :
    (b : UpperBound) (upper size : ℕ) (P : ℕ → Type 0) (fuel i : ℕ)
    → Fits b upper size P
    → P i
    → 0 < size
    → upper ≤ i + fuel
    → point_visits b 1 (iterations fuel i upper size) ≡ count_up i (upper - i)
point_visits-count_up b upper size P zero i fits here pos h = count_up_none i upper (omega arith)
point_visits-count_up b upper size P (suc fuel) i fits here pos h =
    elim (Bool-cases (ltb i upper)) [
      | inl below ↦
          let inside : i < upper = ground arith in
          let rest =
            point_visits-count_up b upper size P fuel (i + size) fits (fits.next i here inside) pos
              (omega arith) in
          let tile =
            iterations-count_up (min (i + size) upper - i) i (min (i + size) upper) (omega arith) in
          rw below (
            ap
              (λ u.
                iterations (u - i) i u 1
                ++ point_visits b 1 (iterations fuel (i + size) upper size))
              (fits.bound i here inside)
            ∙ ap (λ xs. xs ++ point_visits b 1 (iterations fuel (i + size) upper size)) tile
            ∙ ap (λ xs. count_up i (min (i + size) upper - i) ++ xs) rest
            ∙ tile_then_rest i upper size inside)
      | inr above ↦ rw above (count_up_none i upper (ground arith))
    ]

-- What MLIR's analyses promise of a loop of step 1: a known trip count is the number of its
-- iterations, and the divisor divides that number.
pub record IsAnalysed (l : Loop) : Type 0 where
  pub unit_step : l.step ≡ 1
  pub ordered : l.lower ≤ l.upper
  pub counted : (n : ℕ) → l.trip_count ≡ some n → n ≡ l.upper - l.lower
  pub divided : (q : ℕ) × (l.upper - l.lower ≡ q * l.largest_divisor)

-- The three kinds of bounds.
Fits_short :
    (l : Loop) (size n : ℕ)
    → n ≡ l.upper - l.lower
    → n < size
    → Fits (shifted n) l.upper size (λ i. i < l.upper → i ≡ l.lower)
Fits_short l size n e h = record {
  bound = λ i at inside. let here = at inside in ground arith;
  next = λ i at inside later. let here = at inside in absurd (omega arith);
}

Fits_capped : (upper size : ℕ) → Fits (capped size upper) upper size (λ i. Unit {0})
Fits_capped upper size = record { bound = λ i at inside. refl; next = λ i at inside. tt }

-- A whole number of tiles is left, or none is.
abbrev Whole : ℕ → ℕ → ℕ → Type 0
Whole upper size i = ((k : ℕ) × (upper ≡ i + k * size)) ⊎ (upper ≤ i)

one_less :
    (upper size i k : ℕ)
    → upper ≡ i + k * size
    → i < upper
    → (j : ℕ) × (upper ≡ i + size + j * size)
one_less upper size i zero e inside = absurd (omega (arith, zero-mul size))
one_less upper size i (suc k) e inside = (k, omega (arith, suc-mul k size))

Whole-bound : (upper size i : ℕ) → Whole upper size i → i < upper → i + size ≡ min (i + size) upper
Whole-bound upper size i (inl (k, e)) inside =
    let (j, f) = one_less upper size i k e inside in ground arith
Whole-bound upper size i (inr over) inside = absurd (omega arith)

Whole-next : (upper size i : ℕ) → Whole upper size i → i < upper → Whole upper size (i + size)
Whole-next upper size i (inl (k, e)) inside = inl (one_less upper size i k e inside)
Whole-next upper size i (inr over) inside = inr (omega arith)

Whole-fits : (upper size : ℕ) → Fits (shifted size) upper size (Whole upper size)
Whole-fits upper size = record { bound = Whole-bound upper size; next = Whole-next upper size }

-- The tile divides what divides the number of iterations.
tiles_whole :
    (l : Loop) (size q : ℕ)
    → l.lower ≤ l.upper
    → l.upper - l.lower ≡ q * l.largest_divisor
    → l.largest_divisor % size ≡ 0
    → l.upper ≡ l.lower + q * (l.largest_divisor / size) * size
tiles_whole l size q ordered e h =
    let d = l.largest_divisor in
    let whole : d ≡ d / size * size = omega (arith, div-add-mod d size, mul_comm size (d / size)) in
    let sum : q * d ≡ q * (d / size) * size =
      ap (λ z. q * z) whole ∙ sym (mul_assoc q (d / size) size) in
    let parts : l.upper ≡ l.lower + q * d = omega arith in parts ∙ ap (λ z. l.lower + z) sum

short_or_not :
    (trip : Option ℕ) (size : ℕ)
    → ((n : ℕ) × (trip ≡ some n) × (n < size)) ⊎ (is_short trip size ≡ false)
short_or_not none size = inr refl
short_or_not (some n) size = elim (Bool-cases (ltb n size)) [
  | inl less ↦ inl (n, refl, ground arith)
  | inr more ↦ inr more
]

short_bound :
    (l : Loop) (size n : ℕ) → l.trip_count ≡ some n → n < size → point_bound l size ≡ shifted n
short_bound l size n e less = rw e (ground arith)

covers :
    (l : Loop) (size : ℕ) (b : UpperBound) (P : ℕ → Type 0)
    → l.step ≡ 1
    → 0 < size
    → Fits b l.upper size P
    → P l.lower
    → point_bound l size ≡ b
    → point_visits (point_bound l size) 1 (iterations (l.upper - l.lower) l.lower l.upper size)
      ≡ visits l
covers l size b P unit pos fits here is =
    ap (λ z. point_visits z 1 (iterations (l.upper - l.lower) l.lower l.upper size)) is
    ∙ point_visits-count_up b l.upper size P (l.upper - l.lower) l.lower fits here pos (omega arith)
    ∙ sym (iterations-count_up (l.upper - l.lower) l.lower l.upper (omega arith))
    ∙ ap (iterations (l.upper - l.lower) l.lower l.upper) (sym unit)

point_bound-covers :
    (l : Loop) (size : ℕ)
    → IsAnalysed l
    → 0 < size
    → point_visits (point_bound l size) 1 (iterations (l.upper - l.lower) l.lower l.upper size)
      ≡ visits l
point_bound-covers l size a pos = elim (short_or_not l.trip_count size) [
  | inl (n, e, less) ↦
      covers l size (shifted n) (λ i. i < l.upper → i ≡ l.lower) a.unit_step pos
        (Fits_short l size n (a.counted n e) less) (λ inside. refl) (short_bound l size n e less)
  | inr long ↦ elim (Bool-cases (l.largest_divisor % size == 0)) [
    | inl whole ↦
        let (q, e) = a.divided in
        covers l size (shifted size) (Whole l.upper size) a.unit_step pos (Whole-fits l.upper size)
          (inl (q * (l.largest_divisor / size), tiles_whole l size q a.ordered e (ground arith)))
          (rw (long, whole) refl)
    | inr part ↦
        covers l size (capped size l.upper) (λ i. Unit {0}) a.unit_step pos
          (Fits_capped l.upper size) tt (rw (long, part) refl)
  ]
]

-- A loop of step 1 that is tiled runs over the same iterations in the same order, whatever the
-- size of the tiles is: shorter than a tile, cut off at the end, or a whole number of tiles.
pub tile_loop-visits :
    (l : Loop) (size : ℕ) (t : TiledLoop)
    → IsAnalysed l
    → tile_loop l size ≡ some t
    → tiled_visits t ≡ visits l
tile_loop-visits l size t a h = elim (Bool-cases (size == 0)) [
  | inl no_size ↦ let bad : ◌≡◌ {A = Option TiledLoop} none (some t) = rw no_size at h in cc
  | inr sized ↦
      let made : some (tiled_loop l size) ≡ some t = rw sized at h in
      subst (λ (z : TiledLoop). tiled_visits z ≡ visits l) (some_injective made)
        (point_bound-covers l size a (ground arith))
]
