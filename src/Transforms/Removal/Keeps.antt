-- ===== src/Transforms/Removal/Keeps.antt =====
-- The pass keeps what the program does, where no loop is empty.
use event_queue.Common.{
  ℕ, zero, suc, ◌+◌, ◌-◌, ◌*◌, ◌<◌, ◌≤◌, ◌≡◌, refl, sym, ap, subst, ◌∙◌, false, Option, none, some,
  List, [], ◌∷◌, ◌++◌, update, arith, ◌>>=◌, >>=-elim, some_injective, Option-cases, Bool-cases,
  inl, inr, ltb, map,
}
use native.Mathlib.Nat.{div-eq_of_lt}
use mathlib.Core.Path.{fun_ext}
use mathlib.Core.List.{append-nil}
use event_queue.Memory.{ceil_div}
use event_queue.Memory.Cycles.{ceil_div_least}
use event_queue.Transforms.Removal.{
  Bound, known, mapped, Operand, variable, constant_index, Ops, end, op, nest, affine_for, append,
  fold_bound, WalkEnd, nothing, next_band, stop, keep, visit, walk_on, walk_end, walk,
  replace_all_uses,
}
use event_queue.Transforms.Removal.Meaning.{
  Env, bound_value, operand_value, Action, turns, trace, NotBound, WellFormed, AllRun, trace-append,
  trace-replace_all_uses, AllRun-replace_all_uses, AllRun-append, WellFormed-replace_all_uses,
  WellFormed-append,
}

-- What a walk of the operations gives, if it gives something, does what they do.
abbrev pub KeepsTrace : Ops → Option (Ops × WalkEnd) → Type 0
KeepsTrace ops r =
    (ops' : Ops) (e : WalkEnd) (env : Env)
    → r ≡ some (ops', e)
    → AllRun env ops
    → trace env ops' ≡ trace env ops

fold_bound-value : (b : Bound) (n : ℕ) (env : Env) → fold_bound b ≡ some n → bound_value env b ≡ n
fold_bound-value (known m) n env h = some_injective h
fold_bound-value (mapped (variable v) f) n env h = cc
fold_bound-value (mapped (constant_index m) f) n env h = some_injective h

one_quotient : (q n d : ℕ) → 0 < n → n ≤ d → n ≤ q * d → q * d < n + d → q ≡ 1
one_quotient zero n d pos le least most = absurd (omega arith)
one_quotient (suc zero) n d pos le least most = refl
one_quotient (suc (suc q)) n d pos le least most =
    let twice : suc (suc q) * d ≡ d + d + q * d = grind arith in absurd (omega arith)

-- A loop whose range is not empty, and not above one step, turns once.
one_turn :
    (body : ℕ → List Action) (step lb ub : ℕ)
    → lb < ub
    → ltb step (ub - lb) ≡ false
    → turns body step (ceil_div (ub - lb) step) lb ≡ body lb
one_turn body step lb ub lt le =
    let once : ceil_div (ub - lb) step ≡ suc zero =
      let (least, most) = ceil_div_least (ub - lb) step (ground arith) in
      one_quotient (ceil_div (ub - lb) step) (ub - lb) step (omega arith) (ground arith) least
        most in
    rw once (append-nil (body lb))

module _ (l u : Bound) (s iv : ℕ) (body rest : Ops) where
  loop_once :
      (lb ub : ℕ) (env : Env)
      → bound_value env l ≡ lb
      → bound_value env u ≡ ub
      → ltb s (ub - lb) ≡ false
      → bound_value env l < bound_value env u
      → trace env (affine_for l u s iv body rest) ≡ trace (update env iv lb) body ++ trace env rest
  unfolding trace
  loop_once lb ub env vl vu le lt =
      rw (vl, vu)
        (ap (λ (t : List Action). t ++ trace env rest)
          (one_turn (λ i. trace (update env iv i) body) s lb ub
            (subst (λ (n : ℕ). n < ub) vl (subst (λ (n : ℕ). bound_value env l < n) vu lt)) le))

  keep-KeepsTrace :
      (e : WalkEnd) (inside : Option (Ops × WalkEnd))
      → KeepsTrace body inside
      → KeepsTrace (affine_for l u s iv body rest) (keep (λ b. affine_for l u s iv b rest) e inside)
  unfolding trace
  keep-KeepsTrace e inside h ops' e' env p run = >>=-elim inside _ p λ r q p'.
      let same : affine_for l u s iv r.0 rest ≡ ops' =
        ap (λ (t : Ops × WalkEnd). t.0) (some_injective p') in
      subst (λ (o : Ops). trace env o ≡ trace env (affine_for l u s iv body rest)) same
        (ap
          (λ (f : ℕ → List Action).
            turns f s (ceil_div (bound_value env u - bound_value env l) s) (bound_value env l)
            ++ trace env rest)
          (fun_ext λ i. h r.0 r.1 (update env iv i) q (run.1 i)))

  removed-KeepsTrace :
      (lb ub : ℕ) (r : Option (Ops × WalkEnd))
      → fold_bound u ≡ some ub
      → fold_bound l ≡ some lb
      → ltb s (ub - lb) ≡ false
      → NotBound iv body
      → KeepsTrace (append (replace_all_uses iv lb body) rest) r
      → KeepsTrace (affine_for l u s iv body rest) (keep (λ ops. ops) stop r)
  removed-KeepsTrace lb ub r eu el le free h ops' e' env p run = >>=-elim r _ p λ w q p'.
      let same : w.0 ≡ ops' = ap (λ (t : Ops × WalkEnd). t.0) (some_injective p') in
      let vl = fold_bound-value l lb env el in
      let vu = fold_bound-value u ub env eu in
      let runs =
        AllRun-append env (replace_all_uses iv lb body) rest
          (AllRun-replace_all_uses env iv lb body free (run.1 lb)) run.2 in
      ap (trace env) (sym same)
      ∙ h w.0 w.1 env q runs
      ∙ trace-append env (replace_all_uses iv lb body) rest
      ∙ ap (λ (t : List Action). t ++ trace env rest) (trace-replace_all_uses env iv lb body free)
      ∙ sym (loop_once lb ub env vl vu le run.0)

  visit-KeepsTrace :
      (inside : Option (Ops × WalkEnd)) (removed : ℕ → Option (Ops × WalkEnd))
      → NotBound iv body
      → KeepsTrace body inside
      → ((lb : ℕ) → KeepsTrace (append (replace_all_uses iv lb body) rest) (removed lb))
      → KeepsTrace
          (affine_for l u s iv body rest)
          (visit l u s (λ b. affine_for l u s iv b rest) inside removed)
  visit-KeepsTrace inside removed free hin hout = elim (Option-cases (fold_bound u)) [
    | inl nu ↦ rw (nu, visit) (keep-KeepsTrace stop inside hin)
    | inr (ub, eu) ↦ elim (Option-cases (fold_bound l)) [
      | inl nl ↦ rw (eu, visit) (rw nl (keep-KeepsTrace stop inside hin))
      | inr (lb, el) ↦ elim (Bool-cases (ltb s (ub - lb))) [
        | inl more ↦ rw (eu, visit) (rw el (rw more (keep-KeepsTrace next_band inside hin)))
        | inr le ↦
            rw (eu, visit)
              (rw el (rw le (removed-KeepsTrace lb ub (removed lb) eu el le free (hout lb))))
      ]
    ]
  ]

op-KeepsTrace :
    (id : ℕ) (args : List Operand) (rest : Ops) (r : Option (Ops × WalkEnd))
    → KeepsTrace rest r
    → KeepsTrace (op id args rest) (r >>= λ t. some (op id args t.0, t.1))
unfolding trace
op-KeepsTrace id args rest r h ops' e env p run = >>=-elim r _ p λ t q p'.
    let same : op id args t.0 ≡ ops' = ap (λ (t : Ops × WalkEnd). t.0) (some_injective p') in
    subst (λ (o : Ops). trace env o ≡ trace env (op id args rest)) same
      (ap
        (λ (es : List Action).
          record { id = id; values = map (λ o. operand_value env o) args } ∷ es)
        (h t.0 t.1 env q run))

-- A nested body that keeps its trace, in front of what keeps its own.
nest_parts :
    (id : ℕ) (body rest body' rest' : Ops) (env : Env)
    → trace env body' ≡ trace env body
    → trace env rest' ≡ trace env rest
    → trace env (nest id body' rest') ≡ trace env (nest id body rest)
unfolding trace
nest_parts id body rest body' rest' env hb hr = rw (hb, hr)

nest-KeepsTrace :
    (id : ℕ) (body rest : Ops) (inner outer : Option (Ops × WalkEnd))
    → KeepsTrace body inner
    → KeepsTrace rest outer
    → KeepsTrace (nest id body rest) (walk_on (nest id) rest inner outer)
nest-KeepsTrace id body rest inner outer hb hr ops' e env p run =
    >>=-elim inner _ p λ t q p'. found t.0 t.1 q p'
  where
    found :
        (body' : Ops) (e' : WalkEnd)
        → inner ≡ some (body', e')
        → walk_end (nest id) rest outer body' e' ≡ some (ops', e)
        → trace env ops' ≡ trace env (nest id body rest)
    found body' nothing q p' = >>=-elim outer _ p' λ w qw pw.
        subst (λ (o : Ops). trace env o ≡ trace env (nest id body rest))
          (ap (λ (t : Ops × WalkEnd). t.0) (some_injective pw))
          (nest_parts id body rest body' w.0 env (hb body' nothing env q run.0)
            (hr w.0 w.1 env qw run.1))
    found body' next_band q p' =
        subst (λ (o : Ops). trace env o ≡ trace env (nest id body rest))
          (ap (λ (t : Ops × WalkEnd). t.0) (some_injective p'))
          (nest_parts id body rest body' rest env (hb body' next_band env q run.0) refl)
    found body' stop q p' =
        subst (λ (o : Ops). trace env o ≡ trace env (nest id body rest))
          (ap (λ (t : Ops × WalkEnd). t.0) (some_injective p'))
          (nest_parts id body rest body' rest env (hb body' stop env q run.0) refl)

-- A walk keeps what the operations do, if no loop is empty and no two nested loops share a variable.
pub walk-KeepsTrace : (fuel : ℕ) (ops : Ops) → WellFormed ops → KeepsTrace ops (walk fuel ops)
unfolding walk
walk-KeepsTrace fuel end wf =
    λ ops' e env p run. ap (λ (t : Ops × WalkEnd). trace env t.0) (sym (some_injective p))
walk-KeepsTrace fuel (op id args rest) wf =
    op-KeepsTrace id args rest (walk fuel rest) (walk-KeepsTrace fuel rest wf)
walk-KeepsTrace fuel (nest id body rest) wf =
    nest-KeepsTrace id body rest (walk fuel body) (walk fuel rest) (walk-KeepsTrace fuel body wf.0)
      (walk-KeepsTrace fuel rest wf.1)
walk-KeepsTrace zero (affine_for l u s iv body rest) wf =
    visit-KeepsTrace l u s iv body rest (walk zero body) (λ lb. none) wf.0
      (walk-KeepsTrace zero body wf.1) (λ lb ops' e env p run. cc)
walk-KeepsTrace (suc fuel) (affine_for l u s iv body rest) wf =
    visit-KeepsTrace l u s iv body rest (walk (suc fuel) body)
      (λ lb. walk fuel (append (replace_all_uses iv lb body) rest)) wf.0
      (walk-KeepsTrace (suc fuel) body wf.1)
      (λ lb. walk-KeepsTrace fuel (append (replace_all_uses iv lb body) rest) (
        WellFormed-append (replace_all_uses iv lb body) rest
          (WellFormed-replace_all_uses iv lb body wf.1) wf.2))

visit_removed :
    (l u : Bound) (s lb ub : ℕ) (rebuild : Ops → Ops) (inside : Option (Ops × WalkEnd))
    (removed : ℕ → Option (Ops × WalkEnd))
    → fold_bound u ≡ some ub
    → fold_bound l ≡ some lb
    → ltb s (ub - lb) ≡ false
    → visit l u s rebuild inside removed ≡ keep (λ ops. ops) stop (removed lb)
visit_removed l u s lb ub rebuild inside removed eu el le =
    rw (eu, visit) (rw (el, visit) (rw (le, visit)))

ceil_div-zero : (d : ℕ) → ceil_div 0 d ≡ 0
ceil_div-zero zero = refl
ceil_div-zero (suc d) = let small : 0 + suc d - 1 < suc d = omega arith in div-eq_of_lt small

-- An empty loop is replaced by its body as one that turns once: its body does nothing before the walk,
-- and behind it the body is executed with the lower bound.
pub walk-empty_loop :
    (fuel lb ub step iv id : ℕ) (args : List Operand) (env : Env)
    → ub ≤ lb
    → (trace env (affine_for (known lb) (known ub) step iv (op id args end) end) ≡ [])
      × (walk (suc fuel) (affine_for (known lb) (known ub) step iv (op id args end) end)
          ≡ some (replace_all_uses iv lb (op id args end), stop))
      × (trace env (replace_all_uses iv lb (op id args end))
          ≡ record {
            id = id;
            values = map (λ (o : Operand). operand_value (update env iv lb) o) args;
          }
            ∷ [])
unfolding trace walk
walk-empty_loop fuel lb ub step iv id args env h =
    let none_left : ub - lb ≡ 0 = omega arith in
    let not_more : ltb step (ub - lb) ≡ false = ground arith in
    (
      rw (none_left, ceil_div-zero step),
      visit_removed (known lb) (known ub) step lb ub
          (λ b. affine_for (known lb) (known ub) step iv b end) (walk (suc fuel) (op id args end))
          (λ n. walk fuel (append (replace_all_uses iv n (op id args end)) end)) refl refl not_more,
      trace-replace_all_uses env iv lb (op id args end) tt,
    )
