-- ===== src/Transforms/Removal/Meaning.antt =====
-- What the operations of a block do: the trace of the operations with the numbers of their operands.
use event_queue.Common.{
  ℕ, zero, suc, ◌+◌, ◌-◌, ◌<◌, ◌≡◌, ◌≢◌, refl, sym, ap, subst, ◌∙◌, List, [], ◌∷◌, ◌++◌, map,
  update, arith, ◌==◌, Bool-cases, inl, inr,
}
use mathlib.Core.Path.{fun_ext}
use mathlib.Core.List.{append_assoc}
use event_queue.Memory.{ceil_div}
use event_queue.Transforms.Removal.{
  Operand, variable, constant_index, Bound, known, mapped, Ops, end, op, nest, affine_for, append,
  replace_operand, replace_bound, replace_all_uses,
}

abbrev pub Env : Type 0
Env = ℕ → ℕ

abbrev pub operand_value : Env → Operand → ℕ
operand_value env (variable v) = env v
operand_value env (constant_index n) = n

abbrev pub bound_value : Env → Bound → ℕ
bound_value env (known n) = n
bound_value env (mapped o f) = f (operand_value env o)

-- The operation that is executed, and the numbers of its operands.
pub record Action : Type 0 where
  pub id : ℕ
  pub values : List ℕ

-- A loop of `n` turns from `i` on.
abbrev pub turns : (ℕ → List Action) → ℕ → ℕ → ℕ → List Action
turns body step zero i = []
turns body step (suc n) i = body i ++ turns body step n (i + step)

unfoldable pub trace : Env → Ops → List Action
trace env end = []
trace env (op id args rest) =
    record { id = id; values = map (λ (o : Operand). operand_value env o) args } ∷ trace env rest
trace env (nest id body rest) = record { id = id; values = [] } ∷ (trace env body ++ trace env rest)
trace env (affine_for l u s iv body rest) =
    turns (λ i. trace (update env iv i) body) s (ceil_div (bound_value env u - bound_value env l) s)
      (bound_value env l)
    ++ trace env rest

-- No loop has the variable.
abbrev pub NotBound : ℕ → Ops → Type 0
NotBound v end = Unit
NotBound v (op id args rest) = NotBound v rest
NotBound v (nest id body rest) = NotBound v body × NotBound v rest
NotBound v (affine_for l u s iv body rest) = (iv ≢ v) × NotBound v body × NotBound v rest

-- A loop's variable is not that of a loop inside it.
abbrev pub WellFormed : Ops → Type 0
WellFormed end = Unit
WellFormed (op id args rest) = WellFormed rest
WellFormed (nest id body rest) = WellFormed body × WellFormed rest
WellFormed (affine_for l u s iv body rest) = NotBound iv body × WellFormed body × WellFormed rest

-- Every loop runs at least once, whatever the numbers of the variables around it.
abbrev pub AllRun : Env → Ops → Type 0
AllRun env end = Unit
AllRun env (op id args rest) = AllRun env rest
AllRun env (nest id body rest) = AllRun env body × AllRun env rest
AllRun env (affine_for l u s iv body rest) =
    (bound_value env l < bound_value env u)
    × ((i : ℕ) → AllRun (update env iv i) body)
    × AllRun env rest

pub trace-append : (env : Env) (a b : Ops) → trace env (append a b) ≡ trace env a ++ trace env b
unfolding trace
trace-append env end b = refl
trace-append env (op id args rest) b = rw (trace-append env rest b)
trace-append env (nest id body rest) b = simp (trace-append env rest b, append_assoc)
trace-append env (affine_for l u s iv body rest) b = simp (trace-append env rest b, append_assoc)

pub operand_value-replace :
    (env : Env) (v c : ℕ) (o : Operand)
    → operand_value env (replace_operand v c o) ≡ operand_value (update env v c) o
operand_value-replace env v c (variable w) = elim (Bool-cases (w == v)) [
  | inl e ↦ ground arith
  | inr e ↦ ground arith
]
operand_value-replace env v c (constant_index n) = refl

pub bound_value-replace :
    (env : Env) (v c : ℕ) (b : Bound)
    → bound_value env (replace_bound v c b) ≡ bound_value (update env v c) b
bound_value-replace env v c (known n) = refl
bound_value-replace env v c (mapped o f) = ap f (operand_value-replace env v c o)

pub update_comm :
    (env : Env) (v c w i : ℕ) → w ≢ v → update (update env w i) v c ≡ update (update env v c) w i
update_comm env v c w i ne = fun_ext λ j. ground arith

operands-replace :
    (env : Env) (v c : ℕ) (args : List Operand)
    → map (λ (o : Operand). operand_value env o) (map (λ (o : Operand). replace_operand v c o) args)
      ≡ map (λ (o : Operand). operand_value (update env v c) o) args
operands-replace env v c [] = refl
operands-replace env v c (o ∷ args) =
    rw (operand_value-replace env v c o, operands-replace env v c args)

-- Replacing a variable by a constant is executing with that constant for the variable.
pub trace-replace_all_uses :
    (env : Env) (v c : ℕ) (ops : Ops)
    → NotBound v ops
    → trace env (replace_all_uses v c ops) ≡ trace (update env v c) ops
unfolding trace replace_all_uses
trace-replace_all_uses env v c end h = refl
trace-replace_all_uses env v c (op id args rest) h =
    rw (operands-replace env v c args, trace-replace_all_uses env v c rest h)
trace-replace_all_uses env v c (nest id body rest) h =
    rw (trace-replace_all_uses env v c body h.0, trace-replace_all_uses env v c rest h.1)
trace-replace_all_uses env v c (affine_for l u s iv body rest) h =
    rw
      (
        bound_value-replace env v c l,
        bound_value-replace env v c u,
        trace-replace_all_uses env v c rest h.2,
      )
      (ap
        (λ (f : ℕ → List Action).
          turns f s (ceil_div (bound_value (update env v c) u - bound_value (update env v c) l) s)
            (bound_value (update env v c) l)
          ++ trace (update env v c) rest)
        (fun_ext λ i.
          trace-replace_all_uses (update env iv i) v c body h.1
          ∙ ap (λ (e : Env). trace e body) (update_comm env v c iv i h.0)))

pub AllRun-replace_all_uses :
    (env : Env) (v c : ℕ) (ops : Ops)
    → NotBound v ops
    → AllRun (update env v c) ops
    → AllRun env (replace_all_uses v c ops)
unfolding replace_all_uses
AllRun-replace_all_uses env v c end h r = tt
AllRun-replace_all_uses env v c (op id args rest) h r = AllRun-replace_all_uses env v c rest h r
AllRun-replace_all_uses env v c (nest id body rest) h r =
    (AllRun-replace_all_uses env v c body h.0 r.0, AllRun-replace_all_uses env v c rest h.1 r.1)
AllRun-replace_all_uses env v c (affine_for l u s iv body rest) h r = (
  rw (bound_value-replace env v c l, bound_value-replace env v c u) r.0,
  (λ i.
      AllRun-replace_all_uses (update env iv i) v c body h.1
        (subst (λ (e : Env). AllRun e body) (sym (update_comm env v c iv i h.0)) (r.1 i))),
  AllRun-replace_all_uses env v c rest h.2 r.2,
)

pub AllRun-append : (env : Env) (a b : Ops) → AllRun env a → AllRun env b → AllRun env (append a b)
AllRun-append env end b ha hb = hb
AllRun-append env (op id args rest) b ha hb = AllRun-append env rest b ha hb
AllRun-append env (nest id body rest) b ha hb = (ha.0, AllRun-append env rest b ha.1 hb)
AllRun-append env (affine_for l u s iv body rest) b ha hb =
    (ha.0, ha.1, AllRun-append env rest b ha.2 hb)

NotBound-replace_all_uses :
    (w v c : ℕ) (ops : Ops) → NotBound w ops → NotBound w (replace_all_uses v c ops)
unfolding replace_all_uses
NotBound-replace_all_uses w v c end h = tt
NotBound-replace_all_uses w v c (op id args rest) h = NotBound-replace_all_uses w v c rest h
NotBound-replace_all_uses w v c (nest id body rest) h =
    (NotBound-replace_all_uses w v c body h.0, NotBound-replace_all_uses w v c rest h.1)
NotBound-replace_all_uses w v c (affine_for l u s iv body rest) h =
    (h.0, NotBound-replace_all_uses w v c body h.1, NotBound-replace_all_uses w v c rest h.2)

pub NotBound-append : (w : ℕ) (a b : Ops) → NotBound w a → NotBound w b → NotBound w (append a b)
NotBound-append w end b ha hb = hb
NotBound-append w (op id args rest) b ha hb = NotBound-append w rest b ha hb
NotBound-append w (nest id body rest) b ha hb = (ha.0, NotBound-append w rest b ha.1 hb)
NotBound-append w (affine_for l u s iv body rest) b ha hb =
    (ha.0, ha.1, NotBound-append w rest b ha.2 hb)

pub WellFormed-replace_all_uses :
    (v c : ℕ) (ops : Ops) → WellFormed ops → WellFormed (replace_all_uses v c ops)
unfolding replace_all_uses
WellFormed-replace_all_uses v c end h = tt
WellFormed-replace_all_uses v c (op id args rest) h = WellFormed-replace_all_uses v c rest h
WellFormed-replace_all_uses v c (nest id body rest) h =
    (WellFormed-replace_all_uses v c body h.0, WellFormed-replace_all_uses v c rest h.1)
WellFormed-replace_all_uses v c (affine_for l u s iv body rest) h = (
  NotBound-replace_all_uses iv v c body h.0,
  WellFormed-replace_all_uses v c body h.1,
  WellFormed-replace_all_uses v c rest h.2,
)

pub WellFormed-append : (a b : Ops) → WellFormed a → WellFormed b → WellFormed (append a b)
WellFormed-append end b ha hb = hb
WellFormed-append (op id args rest) b ha hb = WellFormed-append rest b ha hb
WellFormed-append (nest id body rest) b ha hb = (ha.0, WellFormed-append rest b ha.1 hb)
WellFormed-append (affine_for l u s iv body rest) b ha hb =
    (ha.0, ha.1, WellFormed-append rest b ha.2 hb)
