-- ===== src/Transforms/Launching/Passes.antt =====
-- Both passes keep every value in scope, and the operations keep their order.
use event_queue.Common.{
  ℕ, zero, suc, ◌+◌, ◌≡◌, refl, sym, subst, inl, inr, List, [], ◌∷◌, ◌++◌, length, get_elem?, In,
  In-right, In-left, All, All-of, All-In, some, In-append, some_injective,
}
use event_queue.Transforms.Launching.{
  Ops, op, append, members, values, live_outs, replace, replace_each, count_from, launch_range,
  split_point, split_launch, match_range, match_structure,
}
use event_queue.Transforms.Launching.Scopes.{
  Scoped, Uses, behind, Scoped-narrow, Scoped-append, In-behind, In-cons_append,
}
use event_queue.Transforms.Launching.Users.{ids, UsesInside, In-keep_live}
use event_queue.Transforms.Launching.Moves.{
  launch_range-Scoped, others-Scoped, split_point-append, match_range-append,
}

get_elem?-In : (xs : List ℕ) (i x : ℕ) → get_elem? xs i ≡ some x → In x xs
get_elem?-In [] i x e = cc
get_elem?-In (y ∷ xs) zero x e = inl (sym (some_injective e))
get_elem?-In (y ∷ xs) (suc i) x e = inr (get_elem?-In xs i x e)

live_outs-values : (whole range : Ops) (v : ℕ) → In v (live_outs whole range) → In v (values range)
unfolding live_outs
live_outs-values whole range v i = In-keep_live whole (members range) (values range) v i

live_outs-inside :
    (whole range : Ops)
    → All (λ (v : ℕ). UsesInside v range → ⊥) (values range)
    → All (λ (v : ℕ). UsesInside v range → ⊥) (live_outs whole range)
live_outs-inside whole range h =
    All-of (λ (v : ℕ). UsesInside v range → ⊥) (live_outs whole range)
      (λ v i.
        All-In (λ (n : ℕ). UsesInside n range → ⊥) v (values range) h
          (live_outs-values whole range v i))

-- StructureMatching succeeds when the range can be taken, and every value of the block is then in scope
-- as before, provided that what getField inserts is in scope itself and defines the processor, that
-- the numbers of the moved operations are not numbers of later ones, and that no value of the range
-- is used inside a region of the range.
pub match_structure-Scoped :
    (fresh : ℕ) (froms tos : List ℕ) (i proc : ℕ) (env : List ℕ)
    (field block before range others : Ops)
    → match_range froms tos i block ≡ some (before, range, others)
    → Scoped env block
    → Scoped (behind env before) field
    → In proc (behind (behind env before) field)
    → All (λ (k : ℕ). In k (ids others) → ⊥) (members range)
    → All (λ (v : ℕ). UsesInside v range → ⊥) (values range)
    → (block' : Ops) × (match_structure fresh froms tos i field proc block ≡ some block')
      × Scoped env block'
unfolding match_structure
match_structure-Scoped fresh froms tos i proc env field block before range others e s sf ip apart
      inside =
    let whole = append range others in
    let results = live_outs whole range in
    let others' = replace_each replace results (fresh + 2) others in
    let e1 = behind env before in
    let e2 = behind e1 field in
    let g = (fresh + 1) ∷ (count_from (fresh + 2) (length results) ++ fresh ∷ e2) in
    let parts =
      (Scoped-append env before whole).0
        (subst (Scoped env) (sym (match_range-append froms tos i block before range others e)) s) in
    let (sr, so) = (Scoped-append e1 range others).0 parts.1 in
    let up : (x : ℕ) → In x e1 → In x e2 = λ x j. (In-behind x e1 field).1 (inr j) in
    let later =
      others-Scoped (fresh + 2) e1 [] g range others so apart
        (λ x j.
          inr (In-right x (count_from (fresh + 2) (length results)) (fresh ∷ e2) (inr (up x j))))
        (λ x j. inr (In-left x (count_from (fresh + 2) (length results)) (fresh ∷ e2) j)) in
    let launch =
      launch_range-Scoped fresh proc e2 results range others' ip
        (Scoped-narrow e1 e2 range (λ x j u. up x j) sr) (live_outs-values whole range)
        (live_outs-inside whole range inside) later in
    (
      append before (append field (launch_range fresh proc results range others')),
      rw e refl,
      (Scoped-append env before _).1 (parts.0, (Scoped-append e1 field _).1 (sf, launch)),
    )

-- SplitLaunch succeeds at a launch that can be cut and that has a processor as its second operand, and
-- every value of the block is then in scope as before, provided that the range uses no argument of
-- the launch, that the numbers of the moved operations are not numbers of later ones, and that no
-- value of the range is used inside a region of the range.
pub split_launch-Scoped :
    (fresh : ℕ) (ats : List ℕ) (i id proc : ℕ) (vs args rs env : List ℕ)
    (body rest range others : Ops)
    → split_point ats i body ≡ some (range, others)
    → get_elem? vs 1 ≡ some proc
    → Scoped env (op id vs args body rs rest)
    → ((x : ℕ) → In x args → Uses x range → ⊥)
    → All (λ (k : ℕ). In k (ids others) → ⊥) (members range)
    → All (λ (v : ℕ). UsesInside v range → ⊥) (values range)
    → (ops : Ops) × (split_launch fresh ats i (op id vs args body rs rest) ≡ some ops)
      × Scoped env ops
unfolding split_launch
split_launch-Scoped fresh ats i id proc vs args rs env body rest range others e ep s unused apart
      inside =
    let whole = append range others in
    let results = live_outs whole range in
    let others' = replace_each replace results (fresh + 2) others in
    let outs = count_from (fresh + 2) (length results) in
    let g = (fresh + 1) ∷ (outs ++ fresh ∷ env) in
    let (sr, so) =
      (Scoped-append (args ++ env) range others).0
        (subst (Scoped (args ++ env)) (sym (split_point-append ats i body range others e)) s.1) in
    let up : (x : ℕ) → In x env → In x g = λ x j. inr (In-right x outs (fresh ∷ env) (inr j)) in
    let later =
      others-Scoped (fresh + 2) env args g range others so apart up
        (λ x j. inr (In-left x outs (fresh ∷ env) j)) in
    let old : Scoped g (op id vs args others' rs rest) = (
      All-of (λ (v : ℕ). In v g) vs (λ v j. up v (All-In (λ (v : ℕ). In v env) v vs s.0 j)),
      later,
      Scoped-narrow (rs ++ env) (rs ++ g) rest (λ x j u. In-cons_append x rs env g (up x) j) s.2,
    ) in
    let range_in_env =
      Scoped-narrow (args ++ env) env range
        (λ x j u. elim (In-append x args env j) [ inl a ↦ elim (unused x a u) [ ] | inr b ↦ b ])
        sr in
    let ip = All-In (λ (v : ℕ). In v env) proc vs s.0 (get_elem?-In vs 1 proc ep) in
    (
      launch_range fresh proc results range (op id vs args others' rs rest),
      rw (e, ep) refl,
      launch_range-Scoped fresh proc env results range (op id vs args others' rs rest) ip
          range_in_env (live_outs-values whole range) (live_outs-inside whole range inside) old,
    )
