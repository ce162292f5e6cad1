-- ===== src/Runner/Build/Examples.antt =====
-- Two nested loops, of 3 and of 2 runs, and what `buildExMap` counts for them.
use event_queue.Common.{
  ℕ, zero, suc, ◌-◌, ◌≡◌, refl, sym, subst, inl, inr, true, false, Option, none, some, List, [],
  ◌∷◌, get_elem?,
}
use event_queue.Program.{
  Program, Kind, Operation, Block, constant, scf_for, other, get_constant, get_ex_times,
}
use event_queue.Runner.Build.{has_region, walk_operations, walk_regions, build_ex_map}
use event_queue.Runner.Build.Runs.{
  IsNested, IsOuter, Bounded, Runs, Within, itself, deeper, build_ex_map-Runs,
}

abbrev an_operation : Kind → List ℕ → List ℕ → ℕ → ℕ → Operation
an_operation k args results parent body = record {
  kind = k;
  operands = args;
  results = results;
  parent = parent;
  body = body;
}

abbrev a_block : List ℕ → ℕ → Block
a_block ops parent = record { operations = ops; arguments = []; parent_op = parent }

abbrev an_op : ℕ → Operation
an_op zero = an_operation (constant 0) [] (11 ∷ []) 0 0
an_op (suc zero) = an_operation (constant 3) [] (12 ∷ []) 0 0
an_op (suc (suc zero)) = an_operation (constant 2) [] (13 ∷ []) 0 0
an_op (suc (suc (suc zero))) = an_operation (constant 1) [] (14 ∷ []) 0 0
an_op (suc (suc (suc (suc zero)))) = an_operation scf_for (11 ∷ 12 ∷ 14 ∷ []) [] 0 1
an_op (suc (suc (suc (suc (suc zero))))) = an_operation scf_for (11 ∷ 13 ∷ 14 ∷ []) [] 1 2
an_op (suc (suc (suc (suc (suc (suc n)))))) = an_operation (other "module") [] [] 99 0

abbrev the_block : ℕ → Block
the_block zero = a_block (0 ∷ 1 ∷ 2 ∷ 3 ∷ 4 ∷ []) 9
the_block (suc zero) = a_block (5 ∷ []) 4
the_block (suc (suc zero)) = a_block [] 5
the_block (suc (suc (suc n))) = a_block [] 9

abbrev nest : Program
nest = record {
  operation = an_op;
  block = the_block;
  definer = λ v. get_elem? (0 ∷ 1 ∷ 2 ∷ 3 ∷ []) (v - 11);
  is_signal = λ v. false;
}

abbrev Fits : ℕ → ℕ → Type 0
Fits b op =
    has_region (an_op op).kind ≡ true
    → ((the_block (an_op op).body).parent_op ≡ op) × ((an_op op).parent ≡ b)

nest-IsNested : IsNested nest
unfolding has_region
nest-IsNested zero op (inl is, r) = subst (Fits 0) (sym is) (λ e. cc) r
nest-IsNested zero op (inr (inl is), r) = subst (Fits 0) (sym is) (λ e. cc) r
nest-IsNested zero op (inr (inr (inl is)), r) = subst (Fits 0) (sym is) (λ e. cc) r
nest-IsNested zero op (inr (inr (inr (inl is))), r) = subst (Fits 0) (sym is) (λ e. cc) r
nest-IsNested zero op (inr (inr (inr (inr (inl is)))), r) =
    subst (Fits 0) (sym is) (λ e. (refl, refl)) r
nest-IsNested zero op (inr (inr (inr (inr (inr i)))), r) = elim i [ ]
nest-IsNested (suc zero) op (inl is, r) = subst (Fits 1) (sym is) (λ e. (refl, refl)) r
nest-IsNested (suc zero) op (inr i, r) = elim i [ ]
nest-IsNested (suc (suc zero)) op (i, r) = elim i [ ]
nest-IsNested (suc (suc (suc n))) op (i, r) = elim i [ ]

inner-Within : Within nest 0 2
unfolding has_region
inner-Within =
    deeper {op = 4} (inr (inr (inr (inr (inl refl)))), refl)
      (deeper {op = 5} (inl refl, refl) itself)

program : Unit {0}
unfolding has_region walk_operations walk_regions build_ex_map get_constant get_ex_times
program = tt

abbrev known : Option (ℕ → Option ℕ) → ℕ → Option ℕ
known none b = none
known (some m) b = m b

abbrev ex_map : ℕ → Option ℕ
unfolding has_region walk_operations walk_regions build_ex_map get_constant get_ex_times
ex_map = known (build_ex_map nest 3 0)

build_ex_map-nest : ex_map 2 ≡ some 6
unfolding program ex_map
build_ex_map-nest = refl

abbrev IsLoop : ℕ → Type 0
IsLoop n = has_region (an_op n).kind ≡ true → n ≡ 4

outer_ops : (op : ℕ) → IsOuter nest 0 op → op ≡ 4
unfolding has_region
outer_ops op (inl is, r) = subst IsLoop (sym is) (λ e. cc) r
outer_ops op (inr (inl is), r) = subst IsLoop (sym is) (λ e. cc) r
outer_ops op (inr (inr (inl is)), r) = subst IsLoop (sym is) (λ e. cc) r
outer_ops op (inr (inr (inr (inl is))), r) = subst IsLoop (sym is) (λ e. cc) r
outer_ops op (inr (inr (inr (inr (inl is)))), r) = is
outer_ops op (inr (inr (inr (inr (inr i)))), r) = elim i [ ]

inner_ops : (op : ℕ) → IsOuter nest 1 op → op ≡ 5
inner_ops op (inl is, r) = is
inner_ops op (inr i, r) = elim i [ ]

nest-Bounded : Bounded nest 3 0
unfolding get_constant get_ex_times
nest-Bounded = (
  (1, refl),
  λ op o.
      subst (λ n. Bounded nest 2 (an_op n).body) (sym (outer_ops op o))
        (
          (3, refl),
          λ op o.
              subst (λ n. Bounded nest 1 (an_op n).body) (sym (inner_ops op o))
                ((2, refl), λ op o. elim o.0 [ ]),
        ),
)

build_ex_map-Runs_example :
    (m : ℕ → Option ℕ) × (build_ex_map nest 3 0 ≡ some m)
    × ((b : ℕ) → Within nest 0 b → (n : ℕ) × (m b ≡ some n) × Runs nest 0 b n)
build_ex_map-Runs_example = build_ex_map-Runs nest 3 0 nest-IsNested nest-Bounded
