-- ===== src/Transforms/Tiling.antt =====
-- lib/Transforms/MyLoopTiling.cpp: the sizes of the tiles and the bounds of the loops that a band of
-- loops is tiled into. `none` is a division by zero. What MLIR's analyses say of a loop stands with
-- the loop.
pub mod Cover
pub mod Sizes
mod Examples
use event_queue.Common.{
  ℕ, zero, suc, ◌+◌, ◌-◌, ◌*◌, ◌/◌, ◌%◌, ◌^◌, ◌≡◌, Bool, true, false, not, ◌&&◌, Option, none, some,
  List, [], ◌∷◌, ◌>>=◌, ◌>>◌, check, ltb, leb, ◌==◌, if◌then◌else◌, max, length,
}

-- A loop of constant bounds. `trip_count` is `getConstantTripCount` and `largest_divisor` is
-- `getLargestDivisorOfTripCount` of the loop.
pub record Loop : Type 0 where
  pub lower : ℕ
  pub upper : ℕ
  pub step : ℕ
  pub trip_count : Option ℕ
  pub largest_divisor : ℕ

-- The upper bound of an intra-tile loop, on the variable `i` of the tile-space loop: `i + n`, or
-- the smaller one of `i + n` and the bound of the original loop.
pub data UpperBound : Type 0 where
  shifted : ℕ → UpperBound
  capped : ℕ → ℕ → UpperBound

-- A tile-space loop and the intra-tile loop in it, which begins at the variable of the former.
pub record TiledLoop : Type 0 where
  pub lower : ℕ
  pub upper : ℕ
  pub step : ℕ
  pub point_upper : UpperBound
  pub point_step : ℕ

-- The trip count is known and smaller than the tile.
abbrev pub is_short : Option ℕ → ℕ → Bool
is_short none size = false
is_short (some n) size = ltb n size

abbrev pub count_or : ℕ → Option ℕ → ℕ
count_or d none = d
count_or d (some n) = n

abbrev pub point_bound : Loop → ℕ → UpperBound
point_bound l size =
    if is_short l.trip_count size
    then shifted (count_or 0 l.trip_count)
    else (if not (l.largest_divisor % size == 0) then capped size l.upper else shifted size)

-- The loops are made with a step of 1; only that of the tile-space loop is set.
abbrev pub tiled_loop : Loop → ℕ → TiledLoop
tiled_loop l size = record {
  lower = l.lower;
  upper = l.upper;
  step = size;
  point_upper = point_bound l size;
  point_step = 1;
}

abbrev pub tile_loop : Loop → ℕ → Option TiledLoop
tile_loop l size = if size == 0 then none else some (tiled_loop l size)

-- `constructTiledIndexSetHyperRect`.
unfoldable pub construct_tiled : List Loop → List ℕ → Option (List TiledLoop)
construct_tiled [] [] = some []
construct_tiled (l ∷ ls) (size ∷ sizes) = do
  t ← tile_loop l size
  ts ← construct_tiled ls sizes
  some (t ∷ ts)
construct_tiled _ _ = none

-- `while (constTripCount % tSizeAdjusted != 0) tSizeAdjusted--`.
unfoldable pub shrink : ℕ → ℕ → Option ℕ
shrink count zero = none
shrink count (suc size) =
    let rest = shrink count size in if count % suc size == 0 then some (suc size) else rest

-- Half of the trip count, where the size is more than that.
abbrev pub halved : ℕ → ℕ → ℕ
halved count size = if ltb 1 count && ltb (count / 2) size then count / 2 else size

abbrev pub adjust_size : Option ℕ → ℕ → Option ℕ
adjust_size none size = some size
adjust_size (some count) size = shrink count (halved count size)

-- `adjustToDivisorsOfTripCounts`.
unfoldable pub adjust_to_divisors : List Loop → List ℕ → Option (List ℕ)
unfolding shrink
adjust_to_divisors [] [] = some []
adjust_to_divisors (l ∷ ls) (size ∷ sizes) = do
  size' ← adjust_size l.trip_count size
  sizes' ← adjust_to_divisors ls sizes
  some (size' ∷ sizes')
adjust_to_divisors _ _ = none

abbrev pub default_tile_size : ℕ
default_tile_size = 4

-- `assign(n, v)`, and `resize(n, v)` of a list.
abbrev pub fill : ℕ → ℕ → List ℕ
fill zero v = []
fill (suc n) v = v ∷ fill n v

unfoldable pub resize : List ℕ → ℕ → ℕ → List ℕ
resize sizes zero v = []
resize [] (suc n) v = v ∷ resize [] n v
resize (size ∷ sizes) (suc n) v = size ∷ resize sizes n v

-- The loop that gives each loop of the band but the last one the size `t_size`, and the last one
-- the balance. Sizes are words of 32 bits.
unfoldable pub balance : ℕ → ℕ → ℕ → ℕ → Option (List ℕ)
balance t_size excess product zero = some []
balance t_size excess product (suc zero) = do
  check (not (product == 0))
  some (max 1 ((excess / product) % 2 ^ 32) ∷ [])
balance t_size excess product (suc (suc n)) = do
  sizes ← balance t_size excess ((product * t_size) % 2 ^ 32) (suc n)
  some (t_size ∷ sizes)

-- The options of the pass, and what is called from it: the root is
-- `floorl(std::pow(excessFactor, 1.0 / n))`.
pub record Options : Type 0 where
  pub tile_size : ℕ
  pub tile_sizes : List ℕ
  pub cache_size_in_kib : ℕ
  pub root : ℕ → ℕ → ℕ

abbrev pub sizes_for : Options → List Loop → ℕ → Option (List ℕ)
sizes_for o band excess = if leb excess 1 then some (fill (length band) 1) else (do
  sizes ← balance (o.root excess (length band)) excess 1 (length band)
  adjust_to_divisors band sizes)

-- By the memory footprint of the band, where that is known.
abbrev pub footprint_sizes : Options → List Loop → Option ℕ → Option (List ℕ)
footprint_sizes o band none = adjust_to_divisors band (fill (length band) default_tile_size)
footprint_sizes o band (some bytes) = do
  let cache = o.cache_size_in_kib * 1024
  check (not (cache == 0))
  sizes_for o band ((bytes + (cache - 1)) / cache)

abbrev pub listed_sizes : Options → List Loop → Option ℕ → List ℕ → Option (List ℕ)
listed_sizes o band footprint [] = footprint_sizes o band footprint
listed_sizes o band footprint (size ∷ sizes) =
    some (resize (size ∷ sizes) (length band) default_tile_size)

-- `getTileSizes`; `footprint` is `getMemoryFootprintBytes` of the band's first loop.
unfoldable pub get_tile_sizes : Options → List Loop → Option ℕ → Option (List ℕ)
unfolding adjust_to_divisors resize balance
get_tile_sizes o [] footprint = some []
get_tile_sizes o (l ∷ ls) footprint =
    if o.tile_size == 0
    then listed_sizes o (l ∷ ls) footprint o.tile_sizes
    else some (fill (length (l ∷ ls)) o.tile_size)

-- The pass on a band: the sizes, and the loops that take the place of the band's.
unfoldable pub tile_band : Options → List Loop → Option ℕ → Option (List TiledLoop)
unfolding get_tile_sizes construct_tiled
tile_band o band footprint = do sizes ← get_tile_sizes o band footprint; construct_tiled band sizes
