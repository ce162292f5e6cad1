-- ===== src/Transforms/Extraction/Launches.antt =====
-- lib/Transforms/LowerExtraction.cpp, the end of `runOnFunction`: results of launches that nothing uses
-- are taken off, with the values that the terminator returns for them.
use event_queue.Common.{
  ℕ, zero, suc, ◌+◌, ◌-◌, ◌≡◌, refl, ap, ◌∙◌, Bool, true, false, Option, none, some, List, [], ◌∷◌,
  ◌++◌, map, length, length-append, ◌>>=◌, arith,
}
use mathlib.Core.List.{append_assoc}

-- The results that nothing uses, by their numbers; the result 0 is the signal and stays. The list says
-- of each result from the number `idx` on whether it is used.
unfoldable pub unused_results : ℕ → List Bool → List ℕ
unused_results idx [] = []
unused_results idx (true ∷ used) = unused_results (suc idx) used
unused_results idx (false ∷ used) = idx ∷ unused_results (suc idx) used

-- `eraseOperand`; `none` is an index out of range.
abbrev pub erase_operand : ℕ → List ℕ → Option (List ℕ)
erase_operand i [] = none
erase_operand zero (v ∷ vs) = some vs
erase_operand (suc i) (v ∷ vs) = do ws ← erase_operand i vs; some (v ∷ ws)

unfoldable pub erase_operands : List ℕ → List ℕ → Option (List ℕ)
erase_operands [] yielded = some yielded
erase_operands (i ∷ indices) yielded = do
  rest ← erase_operand (i - 1) yielded
  erase_operands indices rest

-- The values that the new launch returns.
unfoldable pub prune_launch : List Bool → List ℕ → Option (List ℕ)
unfolding unused_results erase_operands
prune_launch used yielded = erase_operands (unused_results 1 used) yielded

-- Results that are used, one for each value.
abbrev pub all_used : List ℕ → List Bool
all_used vs = map (λ (v : ℕ). true) vs

unused_results-used :
    (idx : ℕ) (xs : List ℕ) (used : List Bool)
    → unused_results idx (all_used xs ++ used) ≡ unused_results (length xs + idx) used
unfolding unused_results
unused_results-used idx [] used = ap (λ (i : ℕ). unused_results i used) (omega arith)
unused_results-used idx (x ∷ xs) used =
    unused_results-used (suc idx) xs used ∙ ap (λ (i : ℕ). unused_results i used) (omega arith)

unused_results-all : (idx : ℕ) (xs : List ℕ) → unused_results idx (all_used xs) ≡ []
unfolding unused_results
unused_results-all idx [] = refl
unused_results-all idx (x ∷ xs) = unused_results-all (suc idx) xs

erase_operand-at :
    (i : ℕ) (xs : List ℕ) (v : ℕ) (ys : List ℕ)
    → i ≡ length xs
    → erase_operand i (xs ++ v ∷ ys) ≡ some (xs ++ ys)
erase_operand-at zero [] v ys e = refl
erase_operand-at (suc i) [] v ys e = absurd (omega arith)
erase_operand-at zero (x ∷ xs) v ys e = absurd (omega arith)
erase_operand-at (suc i) (x ∷ xs) v ys e = rw (erase_operand-at i xs v ys (omega arith))

-- One result without a use: its value is taken off, and the others stay in order.
pub prune_one :
    (xs : List ℕ) (v : ℕ) (ys : List ℕ)
    → prune_launch (all_used xs ++ false ∷ all_used ys) (xs ++ v ∷ ys) ≡ some (xs ++ ys)
unfolding prune_launch
prune_one xs v ys =
    ap (λ (is : List ℕ). erase_operands is (xs ++ v ∷ ys))
      (unused_results-used 1 xs (false ∷ all_used ys)
        ∙ ap (λ (is : List ℕ). (length xs + 1) ∷ is) (unused_results-all (suc (length xs + 1)) ys))
    ∙ rw (erase_operand-at (length xs + 1 - 1) xs v ys (omega arith), erase_operands)

-- The second removal, behind the first one.
second_erased :
    (xs ys : List ℕ) (v w : ℕ) (zs : List ℕ) (i : ℕ)
    → i ≡ length xs + length ys + 1
    → erase_operand i (xs ++ (ys ++ v ∷ w ∷ zs)) ≡ some (xs ++ ys ++ v ∷ zs)
second_erased xs ys v w zs i e =
    let front = xs ++ ys ++ v ∷ [] in
    let grouped : xs ++ (ys ++ v ∷ w ∷ zs) ≡ front ++ w ∷ zs = simp append_assoc in
    ap (erase_operand i) grouped
    ∙ erase_operand-at i front w zs
        (omega (arith, length-append xs ys, length-append (xs ++ ys) (v ∷ [])))
    ∙ ap (λ (l : List ℕ). some l) (append_assoc (xs ++ ys) (v ∷ []) zs)

-- The first two results without a use, with used results behind them: behind the first removal the
-- second index names the value after the one that is meant, so the value `w`, which is used, is taken
-- off, and `v`, which nothing uses, stays.
pub prune_two :
    (xs : List ℕ) (u : ℕ) (ys : List ℕ) (v w : ℕ) (zs : List ℕ)
    → prune_launch
        (all_used xs ++ false ∷ (all_used ys ++ false ∷ all_used (w ∷ zs)))
        (xs ++ u ∷ (ys ++ v ∷ w ∷ zs))
      ≡ some (xs ++ ys ++ v ∷ zs)
unfolding prune_launch
prune_two xs u ys v w zs =
    ap (λ (is : List ℕ). erase_operands is (xs ++ u ∷ (ys ++ v ∷ w ∷ zs)))
      (unused_results-used 1 xs (false ∷ (all_used ys ++ false ∷ all_used (w ∷ zs)))
        ∙ ap (λ (is : List ℕ). (length xs + 1) ∷ is)
            (unused_results-used (suc (length xs + 1)) ys (false ∷ all_used (w ∷ zs))
              ∙ ap (λ (is : List ℕ). (length ys + suc (length xs + 1)) ∷ is)
                  (unused_results-all (suc (length ys + suc (length xs + 1))) (w ∷ zs))))
    ∙ rw
        (erase_operand-at (length xs + 1 - 1) xs u (ys ++ v ∷ w ∷ zs) (omega arith), erase_operands)
        (ap (λ (o : Option (List ℕ)). o >>= λ rest. some rest)
          (second_erased xs ys v w zs (length ys + suc (length xs + 1) - 1) (omega arith)))
