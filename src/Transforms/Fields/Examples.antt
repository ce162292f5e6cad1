-- ===== src/Transforms/Fields/Examples.antt =====
-- A vector of two elements with a component of its own.
use event_queue.Common.{
  ℕ, zero, suc, true, ◌≡◌, refl, some, none, [], ◌∷◌, ◌==◌, if◌then◌else◌, arith,
}
use event_queue.Names.{Name, split, split_loop, break_at}
use event_queue.Transforms.Fields.{
  Structure, Inserted, get_comp, affine_apply, extract_element, affine_for, other, descend,
  get_field, get_original,
}
use event_queue.Transforms.Fields.Agree.{get_field-stands, ids_of}

abbrev tree : ℕ → Name → ℕ
tree zero name = 5
tree (suc v) name = 7

abbrev sample : Structure
sample = record {
  comps_tree = tree;
  vector_shape = λ v. if v == 5 then some (2 ∷ []) else none;
  splat_operand = λ v. 6;
}

abbrev before : Inserted
before = record { next = 100; operations = [] }

-- The text is `pe[+1]`.
abbrev shifted : Name
shifted = b'p' ∷ b'e' ∷ b'[' ∷ b'+' ∷ b'1' ∷ b']' ∷ []

abbrev inserted : Inserted
inserted = record {
  next = 104;
  operations =
      get_comp 103 102 (b'm' ∷ [])
      ∷ extract_element 102 100 (101 ∷ [])
      ∷ affine_apply 101 30 true 1
      ∷ get_comp 100 50 (b'p' ∷ b'e' ∷ [])
      ∷ [];
}

get_field-shifted :
    get_field sample (other ∷ affine_for 30 ∷ []) before (shifted ∷ (b'm' ∷ []) ∷ []) 50 0
    ≡ some (103, inserted)
unfolding get_field descend split split_loop break_at
get_field-shifted = refl

get_original-shifted : get_original sample (shifted ∷ (b'm' ∷ []) ∷ []) 0 ≡ some 7
unfolding get_original
get_original-shifted = refl

-- A loop is missing.
get_field-outside : get_field sample (other ∷ []) before (shifted ∷ []) 50 0 ≡ none
unfolding get_field descend
get_field-outside = refl

-- Without the closing bracket.
get_original-open : get_original sample ((b'p' ∷ b'[' ∷ []) ∷ []) 0 ≡ none
unfolding get_original
get_original-open = refl

get_field-stands_example : ids_of sample (λ v. if v == 50 then 0 else v) inserted.operations 103 ≡ 7
get_field-stands_example =
    get_field-stands sample (λ v. if v == 50 then 0 else v) (other ∷ affine_for 30 ∷ []) before
      (shifted ∷ (b'm' ∷ []) ∷ []) 50 0 103 inserted 7 (omega arith) refl get_field-shifted
      get_original-shifted
