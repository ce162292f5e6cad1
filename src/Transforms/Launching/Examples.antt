-- ===== src/Transforms/Launching/Examples.antt =====
-- A block of four operations, of which two become a launch.
use event_queue.Common.{◌≡◌, refl, inl, inr, some, none, [], ◌∷◌, ◌++◌, ◌+◌, arith}
use event_queue.Transforms.Launching.{
  Ops, end, op, users, live_outs, launch_range, split_launch, split_point, match_range,
  match_structure,
}
use event_queue.Transforms.Launching.Scopes.{Scoped}
use event_queue.Transforms.Launching.Users.{ids}
use event_queue.Transforms.Launching.Passes.{match_structure-Scoped, split_launch-Scoped}
use event_queue.Transforms.Launching.Order.{match_structure-ids}
use event_queue.Transforms.Launching.Dangling.{launch_range_dangling}

abbrev first : Ops → Ops
first rest = op 1 [] [] end (10 ∷ []) rest

abbrev middle : Ops → Ops
middle rest = op 2 (10 ∷ []) [] end (11 ∷ []) (op 3 (11 ∷ []) [] end (12 ∷ []) rest)

abbrev last : Ops
last = op 4 (12 ∷ 10 ∷ []) [] end [] end

abbrev block : Ops
block = first (middle last)

-- Only the value of the second moved operation is used outside.
live_outs-middle : live_outs (middle last) (middle end) ≡ 12 ∷ []
unfolding live_outs users
live_outs-middle = refl

abbrev matched : Ops
matched = first (
    op 100 [] [] end (100 ∷ []) (
      op 101 (100 ∷ 9 ∷ []) [] (middle (op 102 (12 ∷ []) [] end [] end)) (101 ∷ 102 ∷ [])
        (op 4 (102 ∷ 10 ∷ []) [] end [] end)))

match_middle : match_structure 100 (1 ∷ []) (3 ∷ []) 0 end 9 block ≡ some matched
unfolding match_structure match_range live_outs users launch_range
match_middle = refl

range_middle : match_range (1 ∷ []) (3 ∷ []) 0 block ≡ some (first end, middle end, last)
unfolding match_range
range_middle = refl

-- Past the end of the block.
match_past : match_structure 100 (1 ∷ []) (7 ∷ []) 0 end 9 block ≡ none
unfolding match_structure match_range
match_past = refl

-- Without a range the operations in front of the terminator are moved.
match_all : match_range [] [] 0 block ≡ some (end, first (middle end), last)
unfolding match_range
match_all = refl

match_structure-Scoped_example :
    (block' : Ops) × (match_structure 100 (1 ∷ []) (3 ∷ []) 0 end 9 block ≡ some block')
    × Scoped (9 ∷ []) block'
match_structure-Scoped_example =
    match_structure-Scoped 100 (1 ∷ []) (3 ∷ []) 0 9 (9 ∷ []) end block (first end) (middle end)
      last range_middle
      (
        tt,
        tt,
        (
          (inl refl, tt),
          tt,
          ((inl refl, tt), tt, ((inl refl, (inr (inr (inl refl)), tt)), tt, tt)),
        ),
      )
      tt (inr (inl refl)) ((λ i. ground arith), ((λ i. ground arith), tt))
      ((λ u. ground arith), ((λ u. ground arith), tt))

match_structure-ids_example :
    (ids block ≡ ids (first end) ++ (ids (middle end) ++ ids last))
    × (ids matched
        ≡ ids (first end)
          ++ (ids end ++ 100 ∷ (100 + 1) ∷ (ids (middle end) ++ (100 + 2) ∷ ids last)))
match_structure-ids_example =
    match_structure-ids 100 (1 ∷ []) (3 ∷ []) 0 9 end block (first end) (middle end) last matched
      range_middle match_middle

split_body :
    split_point (2 ∷ []) 0 block
    ≡ some (first (op 2 (10 ∷ []) [] end (11 ∷ []) end), op 3 (11 ∷ []) [] end (12 ∷ []) last)
unfolding split_point
split_body = refl

split_launch-Scoped_example :
    (ops : Ops) × (split_launch 100 (2 ∷ []) 0 (op 20 (8 ∷ 9 ∷ []) (30 ∷ []) block (13 ∷ []) end)
      ≡ some ops)
    × Scoped (8 ∷ 9 ∷ []) ops
split_launch-Scoped_example =
    split_launch-Scoped 100 (2 ∷ []) 0 20 9 (8 ∷ 9 ∷ []) (30 ∷ []) (13 ∷ []) (8 ∷ 9 ∷ []) block end
      (first (op 2 (10 ∷ []) [] end (11 ∷ []) end)) (op 3 (11 ∷ []) [] end (12 ∷ []) last)
      split_body refl
      (
        (inl refl, (inr (inl refl), tt)),
        (
          tt,
          tt,
          (
            (inl refl, tt),
            tt,
            ((inl refl, tt), tt, ((inl refl, (inr (inr (inl refl)), tt)), tt, tt)),
          ),
        ),
        tt,
      )
      (λ x i u. ground arith) ((λ i. ground arith), ((λ i. ground arith), tt))
      ((λ u. ground arith), ((λ u. ground arith), tt))

-- A loop that uses the value of the operation in front of it, and is moved with it.
abbrev with_loop : Ops
with_loop = op 1 [] [] end (10 ∷ []) (op 2 [] (5 ∷ []) (op 3 (10 ∷ []) [] end [] end) [] end)

live_outs_loop : live_outs with_loop with_loop ≡ 10 ∷ []
unfolding live_outs users
live_outs_loop = refl

launch_range_dangling_example : ¬ (Scoped (9 ∷ []) (launch_range 100 9 (10 ∷ []) with_loop end))
launch_range_dangling_example =
    launch_range_dangling 100 9 10 (9 ∷ []) with_loop end (inr (inl (inl (inl refl))))
      (λ i. ground arith) (λ i. ground arith)
