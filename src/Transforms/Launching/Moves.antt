-- ===== src/Transforms/Launching/Moves.antt =====
-- A range that is moved into a launch, and what stands behind it, keep their values in scope; the
-- pieces into which a block is cut make up the block.
use event_queue.Common.{
  ℕ, zero, suc, ◌+◌, ◌≡◌, refl, sym, ap, subst, ◌∙◌, inl, inr, List, [], ◌∷◌, ◌++◌, length,
  get_elem?, arith, In, In-left, In-right, All, All-In, All-of, some, >>=-elim, some_injective, min,
  Bool-cases, Option-cases,
}
use event_queue.Transforms.Launching.{
  Ops, end, op, append, members, values, keep_live, live_outs, replace, replace_each, count_from,
  launch_range, split_at, split_last, is_end, split_point, match_range,
}
use event_queue.Transforms.Launching.Scopes.{
  Scoped, behind, Scoped-narrow, Scoped-replace_each, Scoped-append, In-behind, In-cons_append,
  append_assoc,
}
use event_queue.Transforms.Launching.Users.{
  ids, UsesInside, Uses-users, keep_live-In, users-append, replace_each-unused,
}

-- The launch: the range is in scope in it, and its results are behind it.
pub launch_range-Scoped :
    (fresh proc : ℕ) (env results : List ℕ) (range later : Ops)
    → In proc env
    → Scoped env range
    → ((v : ℕ) → In v results → In v (values range))
    → All (λ (v : ℕ). UsesInside v range → ⊥) results
    → Scoped ((fresh + 1) ∷ (count_from (fresh + 2) (length results) ++ fresh ∷ env)) later
    → Scoped env (launch_range fresh proc results range later)
unfolding launch_range
launch_range-Scoped fresh proc env results range later ip sr defined inside sl =
    let sr' = Scoped-narrow env (fresh ∷ env) range (λ x i u. inr i) sr in
    let whole = (Scoped-append (fresh ∷ env) range (op (fresh + 2) results [] end [] end)).1 (
      sr',
      (
        All-of (λ (v : ℕ). In v (behind (fresh ∷ env) range)) results
            (λ v i. (In-behind v (fresh ∷ env) range).1 (inl (defined v i))),
        tt,
        tt,
      ),
    ) in
    rw (replace_each-unused results (fresh + 2) range inside)
      (tt, tt, ((inl refl, (inr ip, tt)), whole, sl))

-- The operations behind the range see the results of the launch for the values that were moved.
pub others-Scoped :
    (w : ℕ) (env args g : List ℕ) (range others : Ops)
    → Scoped (behind (args ++ env) range) others
    → All (λ (k : ℕ). In k (ids others) → ⊥) (members range)
    → ((x : ℕ) → In x env → In x g)
    → ((x : ℕ) → In x (count_from w (length (live_outs (append range others) range))) → In x g)
    → Scoped (args ++ g) (replace_each replace (live_outs (append range others) range) w others)
unfolding live_outs
others-Scoped w env args g range others so apart he hc =
    let results = keep_live (append range others) (members range) (values range) in
    Scoped-replace_each results (args ++ g) w others (λ x i. In-right x args g (hc x i))
      (Scoped-narrow (behind (args ++ env) range) (results ++ (args ++ g)) others
        (λ x i u. elim ((In-behind x (args ++ env) range).0 i) [
          | inl defined ↦
              let (k, user, at) = Uses-users x others u in
              In-left x results (args ++ g) (
                keep_live-In (append range others) (members range) (values range) x k defined
                  (users-append x k range others user)
                  (λ m. All-In (λ (n : ℕ). In n (ids others) → ⊥) k (members range) apart m at))
          | inr j ↦ In-right x results (args ++ g) (In-cons_append x args env g (he x) j)
        ])
        so)

split_at-append :
    (n : ℕ) (ops first others : Ops)
    → split_at n ops ≡ some (first, others)
    → append first others ≡ ops
split_at-append zero ops first others e =
    let q = some_injective e in subst (λ (t : Ops × Ops). append t.0 t.1 ≡ ops) q refl
split_at-append (suc n) end first others e = cc
split_at-append (suc n) (op id vs args body rs rest) first others e =
    >>=-elim (split_at n rest) _ e λ t p q.
      subst (λ (u : Ops × Ops). append u.0 u.1 ≡ op id vs args body rs rest) (some_injective q)
        (ap (op id vs args body rs) (split_at-append n rest t.0 t.1 p))

split_last-append :
    (ops first terminator : Ops)
    → split_last ops ≡ some (first, terminator)
    → append first terminator ≡ ops
split_last-append end first terminator e = cc
split_last-append (op id vs args body rs rest) first terminator e =
    elim (Bool-cases (is_end rest)) [
      | inl h ↦
          let q : some (end, op id vs args body rs rest) ≡ some (first, terminator) =
            ground arith in
          subst (λ (t : Ops × Ops). append t.0 t.1 ≡ op id vs args body rs rest) (some_injective q)
            refl
      | inr h ↦ elim (Option-cases (split_last rest)) [
        | inl n ↦ ground arith
        | inr (t, p) ↦
            let q : some (op id vs args body rs t.0, t.1) ≡ some (first, terminator) =
              ground arith in
            subst (λ (u : Ops × Ops). append u.0 u.1 ≡ op id vs args body rs rest)
              (some_injective q) (ap (op id vs args body rs) (split_last-append rest t.0 t.1 p))
      ]
    ]

pub split_point-append :
    (ats : List ℕ) (i : ℕ) (body range others : Ops)
    → split_point ats i body ≡ some (range, others)
    → append range others ≡ body
unfolding split_point
split_point-append [] i body range others e = split_last-append body range others e
split_point-append (a ∷ ats) i body range others e =
    >>=-elim (get_elem? (a ∷ ats) i) _ e λ n p q. split_at-append n body range others q

pub match_range-append :
    (froms tos : List ℕ) (i : ℕ) (block before range others : Ops)
    → match_range froms tos i block ≡ some (before, range, others)
    → append before (append range others) ≡ block
unfolding match_range
match_range-append [] tos i block before range others e = >>=-elim (split_last block) _ e λ t p q.
    subst (λ (u : Ops × Ops × Ops). append u.0 (append u.1 u.2) ≡ block) (some_injective q)
      (split_last-append block t.0 t.1 p)
match_range-append (f ∷ froms) tos i block before range others e =
    >>=-elim (get_elem? tos i) _ e λ to p1 e1. >>=-elim (get_elem? (f ∷ froms) i) _ e1 λ from p2 e2.
      >>=-elim (split_at to block) _ e2 λ t p3 e3.
        >>=-elim (split_at (min from to) t.0) _ e3 λ u p4 e4.
          subst (λ (v : Ops × Ops × Ops). append v.0 (append v.1 v.2) ≡ block) (some_injective e4)
            (sym (append_assoc u.0 u.1 t.1)
              ∙ ap (λ (first : Ops). append first t.1)
                  (split_at-append (min from to) t.0 u.0 u.1 p4)
              ∙ split_at-append to block t.0 t.1 p3)
