-- ===== src/Transforms/Launching/Order.antt =====
-- The operations stand behind StructureMatching in the order in which they stood.
use event_queue.Common.{
  ℕ, ◌+◌, ◌≡◌, refl, sym, ap, subst, ◌∙◌, List, [], ◌∷◌, ◌++◌, some, some_injective,
}
use event_queue.Transforms.Launching.{
  Ops, end, op, append, live_outs, replace, replace_inside, replace_each, launch_range, match_range,
  match_structure,
}
use event_queue.Transforms.Launching.Users.{ids}
use event_queue.Transforms.Launching.Moves.{match_range-append}

++_assoc : (a b c : List ℕ) → (a ++ b) ++ c ≡ a ++ (b ++ c)
++_assoc [] b c = refl
++_assoc (x ∷ a) b c = ap (λ (l : List ℕ). x ∷ l) (++_assoc a b c)

ids-append : (a b : Ops) → ids (append a b) ≡ ids a ++ ids b
ids-append end b = refl
ids-append (op id vs args body rs rest) b =
    rw (ids-append rest b, ++_assoc (ids body) (ids rest) (ids b)) refl

ids-replace : (v w : ℕ) (ops : Ops) → ids (replace v w ops) ≡ ids ops
ids-replace v w end = refl
ids-replace v w (op id vs args body rs rest) = rw (ids-replace v w body, ids-replace v w rest) refl

ids-replace_inside : (v w : ℕ) (ops : Ops) → ids (replace_inside v w ops) ≡ ids ops
ids-replace_inside v w end = refl
ids-replace_inside v w (op id vs args body rs rest) =
    rw (ids-replace v w body, ids-replace_inside v w rest) refl

ids-replace_each :
    (replaced : ℕ → ℕ → Ops → Ops)
    → ((v w : ℕ) (ops : Ops) → ids (replaced v w ops) ≡ ids ops)
    → (vs : List ℕ) (w : ℕ) (ops : Ops) → ids (replace_each replaced vs w ops) ≡ ids ops
ids-replace_each replaced h [] w ops = refl
ids-replace_each replaced h (v ∷ vs) w ops =
    ids-replace_each replaced h vs (w + 1) (replaced v w ops) ∙ h v w ops

ids-launch_range :
    (fresh proc : ℕ) (results : List ℕ) (range later : Ops)
    → ids (launch_range fresh proc results range later)
      ≡ fresh ∷ (fresh + 1) ∷ (ids range ++ (fresh + 2) ∷ ids later)
unfolding launch_range
ids-launch_range fresh proc results range later =
    rw
      (
        ids-append (replace_each replace_inside results (fresh + 2) range)
            (op (fresh + 2) results [] end [] end),
        ids-replace_each replace_inside ids-replace_inside results (fresh + 2) range,
        ++_assoc (ids range) ((fresh + 2) ∷ []) (ids later),
      )
      refl

-- StructureMatching keeps all operations of the block, inside of regions too, in their order, and adds
-- what getField inserts, the start operation, the launch and its return.
pub match_structure-ids :
    (fresh : ℕ) (froms tos : List ℕ) (i proc : ℕ) (field block before range others block' : Ops)
    → match_range froms tos i block ≡ some (before, range, others)
    → match_structure fresh froms tos i field proc block ≡ some block'
    → (ids block ≡ ids before ++ (ids range ++ ids others))
      × (ids block'
          ≡ ids before
            ++ (ids field ++ fresh ∷ (fresh + 1) ∷ (ids range ++ (fresh + 2) ∷ ids others)))
unfolding match_structure
match_structure-ids fresh froms tos i proc field block before range others block' e m =
    let results = live_outs (append range others) range in
    let others' = replace_each replace results (fresh + 2) others in
    let launch = launch_range fresh proc results range others' in
    let whole : append before (append field launch) ≡ block' =
      some_injective (sym (rw e refl) ∙ m) in
    (
      subst (λ (b : Ops). ids b ≡ ids before ++ (ids range ++ ids others))
          (match_range-append froms tos i block before range others e)
          (rw (ids-append before (append range others), ids-append range others) refl),
      subst
          (λ (b : Ops).
            ids b
            ≡ ids before
              ++ (ids field ++ fresh ∷ (fresh + 1) ∷ (ids range ++ (fresh + 2) ∷ ids others)))
          whole
          (rw
            (
              ids-append before (append field launch),
              ids-append field launch,
              ids-launch_range fresh proc results range others',
              ids-replace_each replace ids-replace results (fresh + 2) others,
            )
            refl),
    )
