-- ===== src/Transforms/Launching/Dangling.antt =====
-- A use inside a region of the range itself is made a use of the launch's result.
use event_queue.Common.{
  ℕ, ◌+◌, ◌≡◌, refl, subst, ◌⊎◌, inl, inr, List, [], ◌∷◌, ◌++◌, In, In-left, In-right, In-append,
  All-In, ◌==◌, Bool-cases, arith,
}
use event_queue.Transforms.Launching.{
  Ops, end, op, append, replace_operands, replace, replace_inside, launch_range,
}
use event_queue.Transforms.Launching.Scopes.{Scoped, Uses}
use event_queue.Transforms.Launching.Users.{UsesInside}

-- All values that the operations bind: their results, and the arguments of their regions.
abbrev pub bound_values : Ops → List ℕ
bound_values end = []
bound_values (op id vs args body rs rest) = (args ++ bound_values body) ++ (rs ++ bound_values rest)

-- In scope is what the environment has and what is bound.
Scoped-bound :
    (env : List ℕ) (ops : Ops) (w : ℕ)
    → Scoped env ops
    → Uses w ops
    → In w env ⊎ In w (bound_values ops)
Scoped-bound env end w s u = elim u [ ]
Scoped-bound env (op id vs args body rs rest) w s (inl i) =
    inl (All-In (λ (v : ℕ). In v env) w vs s.0 i)
Scoped-bound env (op id vs args body rs rest) w s (inr (inl u)) =
    let bs = args ++ bound_values body in
    let ts = rs ++ bound_values rest in
    elim (Scoped-bound (args ++ env) body w s.1 u) [
      | inl i ↦ elim (In-append w args env i) [
        | inl a ↦ inr (In-left w bs ts (In-left w args (bound_values body) a))
        | inr b ↦ inl b
      ]
      | inr j ↦ inr (In-left w bs ts (In-right w args (bound_values body) j))
    ]
Scoped-bound env (op id vs args body rs rest) w s (inr (inr u)) =
    let bs = args ++ bound_values body in
    let ts = rs ++ bound_values rest in
    elim (Scoped-bound (rs ++ env) rest w s.2 u) [
      | inl i ↦ elim (In-append w rs env i) [
        | inl a ↦ inr (In-right w bs ts (In-left w rs (bound_values rest) a))
        | inr b ↦ inl b
      ]
      | inr j ↦ inr (In-right w bs ts (In-right w rs (bound_values rest) j))
    ]

bound_values-replace : (v w : ℕ) (ops : Ops) → bound_values (replace v w ops) ≡ bound_values ops
bound_values-replace v w end = refl
bound_values-replace v w (op id vs args body rs rest) =
    rw (bound_values-replace v w body, bound_values-replace v w rest) refl

bound_values-replace_inside :
    (v w : ℕ) (ops : Ops) → bound_values (replace_inside v w ops) ≡ bound_values ops
bound_values-replace_inside v w end = refl
bound_values-replace_inside v w (op id vs args body rs rest) =
    rw (bound_values-replace v w body, bound_values-replace_inside v w rest) refl

In-replace_operands : (v w : ℕ) (vs : List ℕ) → In v vs → In w (replace_operands v w vs)
In-replace_operands v w [] i = elim i [ ]
In-replace_operands v w (x ∷ vs) (inl e) = elim (Bool-cases (x == v)) [
  | inl h ↦ rw h (inl refl)
  | inr h ↦ ground arith
]
In-replace_operands v w (x ∷ vs) (inr i) = inr (In-replace_operands v w vs i)

Uses-replace : (v w : ℕ) (ops : Ops) → Uses v ops → Uses w (replace v w ops)
Uses-replace v w end u = elim u [ ]
Uses-replace v w (op id vs args body rs rest) u = elim u [
  | inl i ↦ inl (In-replace_operands v w vs i)
  | inr (inl b) ↦ inr (inl (Uses-replace v w body b))
  | inr (inr r) ↦ inr (inr (Uses-replace v w rest r))
]

-- With something behind, as the return of the launch.
Uses-replace_inside :
    (v w : ℕ) (ops later : Ops) → UsesInside v ops → Uses w (append (replace_inside v w ops) later)
Uses-replace_inside v w end later u = elim u [ ]
Uses-replace_inside v w (op id vs args body rs rest) later u = elim u [
  | inl b ↦ inr (inl (Uses-replace v w body b))
  | inr r ↦ inr (inr (Uses-replace_inside v w rest later r))
]

bound_values-append :
    (x : ℕ) (a b : Ops)
    → In x (bound_values (append a b))
    → In x (bound_values a) ⊎ In x (bound_values b)
bound_values-append x end b i = inr i
bound_values-append x (op id vs args body rs rest) b i =
    let bs = args ++ bound_values body in
    let ts = rs ++ bound_values rest in
    elim (In-append x bs (rs ++ bound_values (append rest b)) i) [
      | inl j ↦ inl (In-left x bs ts j)
      | inr j ↦ elim (In-append x rs (bound_values (append rest b)) j) [
        | inl k ↦ inl (In-right x bs ts (In-left x rs (bound_values rest) k))
        | inr k ↦ elim (bound_values-append x rest b k) [
          | inl l ↦ inl (In-right x bs ts (In-right x rs (bound_values rest) l))
          | inr l ↦ inr l
        ]
      ]
    ]

-- A launch that returns one value, which is used inside a region of the range, is not in scope: that
-- use has become a use of the launch's own result, where the number of the result is neither in the
-- environment nor bound in the range.
pub launch_range_dangling :
    (fresh proc v : ℕ) (env : List ℕ) (range later : Ops)
    → UsesInside v range
    → (In (fresh + 2) env → ⊥)
    → (In (fresh + 2) (bound_values range) → ⊥)
    → ¬ (Scoped env (launch_range fresh proc (v ∷ []) range later))
unfolding launch_range
launch_range_dangling fresh proc v env range later u ne nb s =
    let return_op = op (fresh + 2) (v ∷ []) [] end [] end in
    let moved = replace_inside v (fresh + 2) range in
    elim (Scoped-bound (fresh ∷ env) (append moved return_op) (fresh + 2) s.2.1
      (Uses-replace_inside v (fresh + 2) range return_op u)) [
        | inl (inl e) ↦ ground arith
        | inl (inr i) ↦ ne i
        | inr b ↦ elim (bound_values-append (fresh + 2) moved return_op b) [
          | inl j ↦ nb (subst (In (fresh + 2)) (bound_values-replace_inside v (fresh + 2) range) j)
          | inr j ↦ j
        ]
      ]
