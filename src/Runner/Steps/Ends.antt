-- ===== src/Runner/Steps/Ends.antt =====
-- What ends an operation in `finishOp` takes effect on every launcher there is, or faults.
use Prim.Native.String.{String}
use event_queue.Common.{
  ℕ, zero, suc, ◌≡◌, refl, ◌∙◌, ap, ◌⊎◌, inl, inr, Bool, true, false, none, some, List, [], ◌∷◌,
  Bool-cases, Option-cases, if◌then◌else◌, lookup, ◌==◌, ◌%◌, update, ==-of-ne, arith,
}
use event_queue.Program.{
  Program, Kind, constant, create_mem, create_dma, create_proc, connection, create_comp, add_comp,
  get_comp, unknown_spec, mem_alloc, mem_dealloc, mem_read, mem_write, mem_copy, launch, return_op,
  await, control_start, control_and, control_or, scf_for, scf_yield, generic, reshape, sub_view,
  splat, extract_element, linalg_yield, func_return, unknown, other, operand, parent_op,
  get_ex_times, drop_front,
}
use event_queue.Launcher.{LauncherTable}
use event_queue.Runner.State.{Runner, Who, host, device, table}
use event_queue.Runner.Signals.{
  update_execution, update_signal_ids, update_iter_state, bump_value, link,
}
use event_queue.Runner.Steps.{finish_effect, new_table}
use event_queue.Runner.Steps.Effects.{new_table-Created}

-- Every launcher is as it was.
abbrev pub Keeps : Runner → Runner → Type 0
Keeps r s = (w : Who) (l : LauncherTable) → table r w ≡ some l → table s w ≡ some l

abbrev SameTables : Runner → Runner → Type 0
SameTables r s = (s.host_table ≡ r.host_table) × (s.launch_tables ≡ r.launch_tables)

SameTables-trans : (r s t : Runner) → SameTables r s → SameTables s t → SameTables r t
SameTables-trans r s t a b = (b.0 ∙ a.0, b.1 ∙ a.1)

SameTables-if : (b : Bool) (r s : Runner) → SameTables r s → SameTables r (if b then s else r)
SameTables-if true r s a = a
SameTables-if false r s a = (refl, refl)

SameTables-Keeps : (r s : Runner) → SameTables r s → Keeps r s
SameTables-Keeps r s a host l e = ap some a.0 ∙ e
SameTables-Keeps r s a (device v) l e = ap (λ m. lookup v m) a.1 ∙ e

module _ (p : Program) where
  update_execution-SameTables : (r : Runner) (vs : List ℕ) → SameTables r (update_execution p r vs)
  unfolding update_execution
  update_execution-SameTables r [] = (refl, refl)
  update_execution-SameTables r (v ∷ vs) =
      let s = if p.is_signal v then bump_value p r v else r in
      SameTables-trans r s (update_execution p s vs)
        (SameTables-if (p.is_signal v) r (bump_value p r v) (refl, refl))
        (update_execution-SameTables s vs)

  update_signal_ids-SameTables :
      (r : Runner) (ts ss : List ℕ) → SameTables r (update_signal_ids p r ts ss)
  unfolding update_signal_ids
  update_signal_ids-SameTables r [] ss = (refl, refl)
  update_signal_ids-SameTables r (t ∷ ts) [] = (refl, refl)
  update_signal_ids-SameTables r (t ∷ ts) (x ∷ xs) =
      let s = if p.is_signal t then link p r t x else r in
      SameTables-trans r s (update_signal_ids p s ts xs)
        (SameTables-if (p.is_signal t) r (link p r t x) (refl, refl))
        (update_signal_ids-SameTables s ts xs)

  update_iter_state-SameTables :
      (r : Runner) (vs : List ℕ) (b : Bool) → SameTables r (update_iter_state p r vs b)
  unfolding update_iter_state
  update_iter_state-SameTables r [] b = (refl, refl)
  update_iter_state-SameTables r (v ∷ vs) b =
      let t = record r { iter_state = update r.iter_state (r.value_ids v) b } in
      let s = if p.is_signal v then t else r in
      SameTables-trans r s (update_iter_state p s vs b)
        (SameTables-if (p.is_signal v) r t (refl, refl)) (update_iter_state-SameTables s vs b)

  -- The end of a loop's body where the loop has no number of runs that one can divide by.
  abbrev pub IsStuck : ℕ → Kind → Type 0
  IsStuck op k =
      (k ≡ scf_yield)
      × ((get_ex_times p (parent_op p op) ≡ none) ⊎ (get_ex_times p (parent_op p op) ≡ some 0))

module _ (p : Program) (op_name : Kind → String) where
  abbrev pub TakesEffect : Runner → ℕ → Kind → Type 0
  TakesEffect r op k =
      ((s : Runner) × (finish_effect p op_name r op k ≡ some s) × Keeps r s)
      ⊎ (IsStuck p op k × (finish_effect p op_name r op k ≡ none))

  new_table-Keeps :
      (r : Runner) (key : ℕ) (name : String) → Keeps r (new_table p op_name r key name)
  new_table-Keeps r key name host l e =
      ap (λ (t : Runner). some t.host_table) (new_table-Created p op_name r key name).0 ∙ e
  new_table-Keeps r key name (device v) l e = (new_table-Created p op_name r key name).1 v l e

  finish_yield-TakesEffect : (r : Runner) (op : ℕ) → TakesEffect r op scf_yield
  unfolding finish_effect
  finish_yield-TakesEffect r op =
      let loop = parent_op p op in
      let args = drop_front (p.block (p.operation loop).body).arguments in
      let vs = (p.operation op).operands in
      elim (Option-cases (get_ex_times p loop)) [
        | inl e ↦ inr ((refl, inl e), rw e refl)
        | inr (zero, e) ↦ inr ((refl, inr e), rw e refl)
        | inr (suc n, e) ↦ elim (Bool-cases (r.ex_times op % suc n == 0)) [
          | inl z ↦
              let s = update_signal_ids p r (p.operation loop).results vs in
              inl (
                s,
                rw (e, ==-of-ne (suc n) 0 (omega arith)) (rw z refl),
                SameTables-Keeps r s
                    (update_signal_ids-SameTables p r (p.operation loop).results vs),
              )
          | inr nz ↦
              let s = update_signal_ids p r args vs in
              let t = update_iter_state p s args true in
              inl (
                t,
                rw (e, ==-of-ne (suc n) 0 (omega arith)) (rw nz refl),
                SameTables-Keeps r t (
                    SameTables-trans r s t (update_signal_ids-SameTables p r args vs)
                      (update_iter_state-SameTables p s args true)),
              )
        ]
      ]

  pub finish_effect-TakesEffect : (r : Runner) (op : ℕ) (k : Kind) → TakesEffect r op k
  unfolding finish_effect
  finish_effect-TakesEffect r op (constant n) = inl (r, refl, λ w l e. e)
  finish_effect-TakesEffect r op (create_mem a b c d) = inl (r, refl, λ w l e. e)
  finish_effect-TakesEffect r op (connection b) = inl (r, refl, λ w l e. e)
  finish_effect-TakesEffect r op (create_comp ns) = inl (r, refl, λ w l e. e)
  finish_effect-TakesEffect r op (add_comp ns) = inl (r, refl, λ w l e. e)
  finish_effect-TakesEffect r op (get_comp n) = inl (r, refl, λ w l e. e)
  finish_effect-TakesEffect r op unknown_spec = inl (r, refl, λ w l e. e)
  finish_effect-TakesEffect r op (mem_alloc a b) = inl (r, refl, λ w l e. e)
  finish_effect-TakesEffect r op mem_dealloc = inl (r, refl, λ w l e. e)
  finish_effect-TakesEffect r op (mem_read a b) = inl (r, refl, λ w l e. e)
  finish_effect-TakesEffect r op (mem_write a b) = inl (r, refl, λ w l e. e)
  finish_effect-TakesEffect r op await = inl (r, refl, λ w l e. e)
  finish_effect-TakesEffect r op control_start = inl (r, refl, λ w l e. e)
  finish_effect-TakesEffect r op control_and = inl (r, refl, λ w l e. e)
  finish_effect-TakesEffect r op control_or = inl (r, refl, λ w l e. e)
  finish_effect-TakesEffect r op (generic a b) = inl (r, refl, λ w l e. e)
  finish_effect-TakesEffect r op reshape = inl (r, refl, λ w l e. e)
  finish_effect-TakesEffect r op sub_view = inl (r, refl, λ w l e. e)
  finish_effect-TakesEffect r op splat = inl (r, refl, λ w l e. e)
  finish_effect-TakesEffect r op extract_element = inl (r, refl, λ w l e. e)
  finish_effect-TakesEffect r op linalg_yield = inl (r, refl, λ w l e. e)
  finish_effect-TakesEffect r op func_return = inl (r, refl, λ w l e. e)
  finish_effect-TakesEffect r op (unknown n) = inl (r, refl, λ w l e. e)
  finish_effect-TakesEffect r op (other n) = inl (r, refl, λ w l e. e)
  finish_effect-TakesEffect r op create_dma =
      let key = operand (p.operation op).results 0 in
      inl (new_table p op_name r key "dma", refl, new_table-Keeps r key "dma")
  finish_effect-TakesEffect r op create_proc =
      let key = operand (p.operation op).results 0 in
      inl (new_table p op_name r key "", refl, new_table-Keeps r key "")
  finish_effect-TakesEffect r op (mem_copy a b c) =
      let vs = (p.operation op).results in
      let s = update_execution p r vs in
      inl (s, refl, SameTables-Keeps r s (update_execution-SameTables p r vs))
  finish_effect-TakesEffect r op launch =
      let args = (p.block (p.operation op).body).arguments in
      let vs = drop_front (drop_front (p.operation op).operands) in
      let s = update_signal_ids p r args vs in
      inl (s, refl, SameTables-Keeps r s (update_signal_ids-SameTables p r args vs))
  finish_effect-TakesEffect r op return_op =
      let results = (p.operation (parent_op p op)).results in
      let vs = (p.operation op).operands in
      let s = update_execution p r (operand results 0 ∷ []) in
      let t = update_signal_ids p s (drop_front results) vs in
      inl (
        t,
        refl,
        SameTables-Keeps r t (
            SameTables-trans r s t (update_execution-SameTables p r (operand results 0 ∷ []))
              (update_signal_ids-SameTables p s (drop_front results) vs)),
      )
  finish_effect-TakesEffect r op scf_for =
      let args = drop_front (p.block (p.operation op).body).arguments in
      let vs = drop_front (drop_front (drop_front (p.operation op).operands)) in
      let s = update_signal_ids p r args vs in
      let t = update_iter_state p s args false in
      inl (
        t,
        refl,
        SameTables-Keeps r t (
            SameTables-trans r s t (update_signal_ids-SameTables p r args vs)
              (update_iter_state-SameTables p s args false)),
      )
  finish_effect-TakesEffect r op scf_yield = finish_yield-TakesEffect r op
