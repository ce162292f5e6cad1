-- ===== src/Transforms/Extraction/Examples.antt =====
-- A vector of two processing elements in an accelerator, beside a DMA engine.
use event_queue.Common.{
  ℕ, ◌≡◌, refl, List, [], ◌∷◌, some, update, true, false, arith, ◌++◌, get_elem?,
}
use event_queue.Names.{Name}
use event_queue.Names.Decimal.{to_string}
use event_queue.Transforms.Tuples.{rank}
use event_queue.Transforms.Extraction.{
  Values, Definer, node, get_comp, launch, constant_index, create_comp, add_comp, splat_user,
  get_permutation, element_name, lower_extract, constant_indices, returned_value,
}
use event_queue.Transforms.Extraction.Elements.{element_name-injective}
use event_queue.Transforms.Extraction.Bindings.{extract_finds}
use event_queue.Transforms.Extraction.Launches.{prune_launch, prune_one, prune_two}

-- "pe" and "dma".
abbrev pe : Name
pe = b'p' ∷ b'e' ∷ []

abbrev dma : Name
dma = b'd' ∷ b'm' ∷ b'a' ∷ []

-- 3 is the DMA engine, 5 the element, 6 the vector; 10 looks the vector up, a launch with the result
-- 12 returns it, and 20 and 21 are constants.
abbrev definers : ℕ → Definer
definers =
    update
      (update
        (update (update (update (λ v. node []) 6 (node (5 ∷ []))) 10 (get_comp 9 pe)) 12
          (launch 11 (12 ∷ []) (10 ∷ [])))
        20 (constant_index 1))
      21 (constant_index 0)

abbrev sample : Values
sample = record { definer = definers; next = 30 }

abbrev behind : Values
behind = record {
  definer = update (update (update definers 30 (node (5 ∷ 3 ∷ []))) 31 (node [])) 31 (node []);
  next = 32;
}

-- "_0" and "_1".
lines : get_permutation (2 ∷ []) [] ≡ (b'_' ∷ b'0' ∷ []) ∷ (b'_' ∷ b'1' ∷ []) ∷ []
unfolding get_permutation to_string
lines = refl

splat_two :
    splat_user 2 sample 5 6 (2 ∷ []) (pe ∷ dma ∷ []) (6 ∷ 3 ∷ [])
    ≡ some (
      create_comp ((element_name pe (0 ∷ []), 5) ∷ (dma, 3) ∷ [])
          ∷ add_comp 30 ((element_name pe (1 ∷ []), 31) ∷ (dma, 3) ∷ [])
          ∷ [],
      behind,
    )
unfolding splat_user element_name to_string
splat_two = refl

extract_finds_example :
    (line : Name) × (get_elem? (get_permutation (2 ∷ []) []) (rank (1 ∷ []) (2 ∷ [])) ≡ some line)
    × (lower_extract 3 sample 12 (20 ∷ []) ≡ some (some (9, pe ++ line)))
unfolding constant_indices returned_value
extract_finds_example =
    extract_finds 3 sample 12 10 9 pe (20 ∷ []) (1 ∷ []) (2 ∷ []) refl refl refl (omega arith)

element_name-injective_example : ◌≡◌ {A = List ℕ} (12 ∷ 3 ∷ []) (12 ∷ 3 ∷ [])
element_name-injective_example = element_name-injective pe (12 ∷ 3 ∷ []) (12 ∷ 3 ∷ []) refl

prune_one_example : prune_launch (true ∷ false ∷ true ∷ []) (1 ∷ 2 ∷ 3 ∷ []) ≡ some (1 ∷ 3 ∷ [])
prune_one_example = prune_one (1 ∷ []) 2 (3 ∷ [])

-- Of the values 1, 2 and 3 only the third one is used, and the second one stays.
prune_two_example : prune_launch (false ∷ false ∷ true ∷ []) (1 ∷ 2 ∷ 3 ∷ []) ≡ some (2 ∷ [])
prune_two_example = prune_two [] 1 [] 2 3 []
