-- ===== src/Transforms/Launching/Scopes.antt =====
-- Values that are in scope, and what the moves of a range do to them.
use event_queue.Common.{
  ℕ, ◌+◌, ◌≡◌, ◌≢◌, refl, ◌⊎◌, inl, inr, List, [], ◌∷◌, ◌++◌, length, arith, In, In-left, In-right,
  In-append, All, ◌==◌, Bool-cases, ◌↔◌,
}
use event_queue.Transforms.Launching.{
  Ops, end, op, append, values, replace_operands, replace, replace_each, count_from,
}

-- Every operand is in the environment or is defined above, where the operations of a region do not
-- see the results of their own operation.
abbrev pub Scoped : List ℕ → Ops → Type 0
Scoped env end = Unit
Scoped env (op id vs args body rs rest) =
    All (λ (v : ℕ). In v env) vs × Scoped (args ++ env) body × Scoped (rs ++ env) rest

-- The value is an operand of one of the operations, or of one inside of them.
abbrev pub Uses : ℕ → Ops → Type 0
Uses v end = ⊥
Uses v (op id vs args body rs rest) = In v vs ⊎ Uses v body ⊎ Uses v rest

-- The environment behind the operations.
abbrev pub behind : List ℕ → Ops → List ℕ
behind env end = env
behind env (op id vs args body rs rest) = behind (rs ++ env) rest

pub In-cons_append :
    (x : ℕ) (xs env env' : List ℕ) → (In x env → In x env') → In x (xs ++ env) → In x (xs ++ env')
In-cons_append x xs env env' h i = elim (In-append x xs env i) [
  | inl a ↦ In-left x xs env' a
  | inr b ↦ In-right x xs env' (h b)
]

All-narrow :
    (env env' vs : List ℕ)
    → ((x : ℕ) → In x env → In x vs → In x env')
    → All (λ (v : ℕ). In v env) vs
    → All (λ (v : ℕ). In v env') vs
All-narrow env env' [] h a = tt
All-narrow env env' (v ∷ vs) h a =
    (h v a.0 (inl refl), All-narrow env env' vs (λ x i u. h x i (inr u)) a.1)

-- Only what is used has to stay in the environment.
pub Scoped-narrow :
    (env env' : List ℕ) (ops : Ops)
    → ((x : ℕ) → In x env → Uses x ops → In x env')
    → Scoped env ops
    → Scoped env' ops
Scoped-narrow env env' end h s = tt
Scoped-narrow env env' (op id vs args body rs rest) h s = (
  All-narrow env env' vs (λ x i u. h x i (inl u)) s.0,
  Scoped-narrow (args ++ env) (args ++ env') body
      (λ x i u. In-cons_append x args env env' (λ j. h x j (inr (inl u))) i) s.1,
  Scoped-narrow (rs ++ env) (rs ++ env') rest
      (λ x i u. In-cons_append x rs env env' (λ j. h x j (inr (inr u))) i) s.2,
)

-- A replacement by a value in scope: the value that is replaced may leave.
All-replace :
    (v w : ℕ) (env env' vs : List ℕ)
    → In w env'
    → ((x : ℕ) → x ≢ v → In x env → In x env')
    → All (λ (x : ℕ). In x env) vs
    → All (λ (x : ℕ). In x env') (replace_operands v w vs)
All-replace v w env env' [] iw h a = tt
All-replace v w env env' (x ∷ vs) iw h a = (
  elim (Bool-cases (x == v)) [ inl e ↦ rw e iw | inr e ↦ rw e (h x (λ q. ground arith) a.0) ],
  All-replace v w env env' vs iw h a.1,
)

Scoped-replace :
    (v w : ℕ) (env env' : List ℕ) (ops : Ops)
    → In w env'
    → ((x : ℕ) → x ≢ v → In x env → In x env')
    → Scoped env ops
    → Scoped env' (replace v w ops)
Scoped-replace v w env env' end iw h s = tt
Scoped-replace v w env env' (op id vs args body rs rest) iw h s = (
  All-replace v w env env' vs iw h s.0,
  Scoped-replace v w (args ++ env) (args ++ env') body (In-right w args env' iw)
      (λ x n. In-cons_append x args env env' (h x n)) s.1,
  Scoped-replace v w (rs ++ env) (rs ++ env') rest (In-right w rs env' iw)
      (λ x n. In-cons_append x rs env env' (h x n)) s.2,
)

-- Values that are replaced one by one by values in scope may all leave.
pub Scoped-replace_each :
    (vs env : List ℕ) (w : ℕ) (ops : Ops)
    → ((x : ℕ) → In x (count_from w (length vs)) → In x env)
    → Scoped (vs ++ env) ops
    → Scoped env (replace_each replace vs w ops)
Scoped-replace_each [] env w ops h s = s
Scoped-replace_each (v ∷ vs) env w ops h s =
    Scoped-replace_each vs env (w + 1) (replace v w ops) (λ x i. h x (inr i))
      (Scoped-replace v w (v ∷ (vs ++ env)) (vs ++ env) ops (In-right w vs env (h w (inl refl)))
        (λ x n i. elim i [ inl e ↦ elim (n e) [ ] | inr j ↦ j ]) s)

pub Scoped-append :
    (env : List ℕ) (a b : Ops) → Scoped env (append a b) ↔ (Scoped env a × Scoped (behind env a) b)
Scoped-append env end b = ((λ s. (tt, s)), (λ s. s.1))
Scoped-append env (op id vs args body rs rest) b =
    let ih = Scoped-append (rs ++ env) rest b in
    ((λ s. let t = ih.0 s.2 in ((s.0, s.1, t.0), t.1)), (λ s. (s.0.0, s.0.1, ih.1 (s.0.2, s.1))))

pub append_assoc : (a b c : Ops) → append (append a b) c ≡ append a (append b c)
append_assoc end b c = refl
append_assoc (op id vs args body rs rest) b c = rw (append_assoc rest b c) refl

pub In-behind :
    (x : ℕ) (env : List ℕ) (ops : Ops) → In x (behind env ops) ↔ (In x (values ops) ⊎ In x env)
In-behind x env end = ((λ i. inr i), (λ i. elim i [ inl e ↦ elim e [ ] | inr j ↦ j ]))
In-behind x env (op id vs args body rs rest) =
    let ih = In-behind x (rs ++ env) rest in
    (
      (λ i. elim (ih.0 i) [
        | inl a ↦ inl (In-right x rs (values rest) a)
        | inr b ↦ elim (In-append x rs env b) [
          | inl c ↦ inl (In-left x rs (values rest) c)
          | inr d ↦ inr d
        ]
      ]),
      (λ i. ih.1 (elim i [
        | inl a ↦ elim (In-append x rs (values rest) a) [
          | inl c ↦ inr (In-left x rs env c)
          | inr d ↦ inl d
        ]
        | inr b ↦ inr (In-right x rs env b)
      ])),
    )
