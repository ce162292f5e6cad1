-- ===== src/Transforms/Tiling/Examples.antt =====
-- Loops of 10 and of 12 iterations, and what the tiling pass makes of them.
use event_queue.Common.{ℕ, ◌≡◌, refl, some, List, [], ◌∷◌, arith}
use event_queue.Transforms.Tiling.{
  Loop, tiled_loop, construct_tiled, shrink, adjust_to_divisors, resize, balance, Options,
  get_tile_sizes, tile_band,
}
use event_queue.Transforms.Tiling.Cover.{visits, tiled_visits, tile_loop-visits}
use event_queue.Transforms.Tiling.Sizes.{AreAdjusted, adjust_to_divisors-AreAdjusted}

abbrev ten : Loop
ten = record { lower = 2; upper = 12; step = 1; trip_count = some 10; largest_divisor = 10 }

abbrev twelve : Loop
twelve = record { lower = 0; upper = 12; step = 1; trip_count = some 12; largest_divisor = 12 }

-- Every other number below 4.
abbrev stepped : Loop
stepped = record { lower = 0; upper = 4; step = 2; trip_count = some 2; largest_divisor = 2 }

abbrev options : Options
options = record { tile_size = 0; tile_sizes = []; cache_size_in_kib = 1; root = λ e n. 2 }

program : Unit {0}
unfolding construct_tiled shrink adjust_to_divisors resize balance get_tile_sizes tile_band
program = tt

get_tile_sizes-two : get_tile_sizes options (ten ∷ twelve ∷ []) (some 8192) ≡ some (2 ∷ 4 ∷ [])
unfolding program
get_tile_sizes-two = refl

tiled_visits-ten : tiled_visits (tiled_loop ten 4) ≡ 2 ∷ 3 ∷ 4 ∷ 5 ∷ 6 ∷ 7 ∷ 8 ∷ 9 ∷ 10 ∷ 11 ∷ []
tiled_visits-ten = refl

-- A tiled loop of another step runs over numbers that the loop passes over.
visits-stepped : visits stepped ≡ 0 ∷ 2 ∷ []
visits-stepped = refl

tiled_visits-stepped : tiled_visits (tiled_loop stepped 2) ≡ 0 ∷ 1 ∷ 2 ∷ 3 ∷ []
tiled_visits-stepped = refl

tile_loop-visits_example : tiled_visits (tiled_loop ten 4) ≡ visits ten
tile_loop-visits_example =
    tile_loop-visits ten 4 (tiled_loop ten 4)
      (record {
        unit_step = refl;
        ordered = omega arith;
        counted = λ n e. ground arith;
        divided = (1, refl);
      })
      refl

adjust_to_divisors-AreAdjusted_example :
    (ds : List ℕ) × (adjust_to_divisors (ten ∷ twelve ∷ []) (4 ∷ 5 ∷ []) ≡ some ds)
    × AreAdjusted (ten ∷ twelve ∷ []) (4 ∷ 5 ∷ []) ds
adjust_to_divisors-AreAdjusted_example =
    adjust_to_divisors-AreAdjusted (ten ∷ twelve ∷ []) (4 ∷ 5 ∷ []) (omega arith, (omega arith, tt))
