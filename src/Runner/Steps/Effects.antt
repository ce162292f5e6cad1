-- ===== src/Runner/Steps/Effects.antt =====
-- Effects: what the operations do when they end, in `finishOp`.
use Prim.Native.String.{String}
use native.Mathlib.Nat.{div-add-mod, mod-lt, mul_comm}
use event_queue.Common.{
  ℕ, zero, suc, ◌+◌, ◌*◌, ◌/◌, ◌%◌, ◌<◌, ◌≡◌, ◌≢◌, refl, sym, subst, ◌∙◌, ◌⊎◌, inl, inr, true,
  false, not, none, some, List, [], ◌∷◌, ◌++◌, ◌==◌, ==-refl, ==-of-ne, if◌then◌else◌, lookup,
  >>=-elim, some_injective, Bool-cases, Option-cases, check, arith, ==_iff,
}
use event_queue.Program.{
  Program, Kind, constant, create_mem, create_dma, create_proc, connection, create_comp, add_comp,
  get_comp, unknown_spec, mem_alloc, mem_dealloc, mem_read, mem_write, mem_copy, launch, return_op,
  await, control_start, control_and, control_or, scf_for, scf_yield, generic, reshape, sub_view,
  splat, extract_element, linalg_yield, func_return, unknown, other, operand, parent_op,
  get_ex_times, drop_front,
}
use event_queue.Launcher.{LauncherTable, new_launcher}
use event_queue.Runner.State.{Runner}
use event_queue.Runner.Signals.{update_execution, update_signal_ids, update_iter_state}
use event_queue.Runner.Steps.{finish_effect, new_table}

-- Nothing but the table of launchers has changed, and it only by a new launcher for the component, if it
-- has had none.
abbrev pub Created : Runner → Runner → ℕ → String → Type 0
Created r s key name =
    (s ≡ record r { launch_tables = s.launch_tables })
    × ((k : ℕ) (l : LauncherTable)
        → lookup k r.launch_tables ≡ some l
        → lookup k s.launch_tables ≡ some l)
    × ((k : ℕ) → k ≢ key → lookup k s.launch_tables ≡ lookup k r.launch_tables)
    × (lookup key r.launch_tables ≡ none → lookup key s.launch_tables ≡ some (new_launcher name))

lookup-append :
    (k j : ℕ) (l : LauncherTable) (m : List (ℕ × LauncherTable))
    → lookup k (m ++ (j, l) ∷ [])
      ≡ elim (lookup k m) [ none ↦ if j == k then some l else none | some x ↦ some x ]
lookup-append k j l [] = refl
lookup-append k j l ((i, x) ∷ m) = elim (Bool-cases (i == k)) [
  | inl e ↦ rw e refl
  | inr e ↦ rw e (lookup-append k j l m)
]

pub new_table-Created :
    (p : Program) (op_name : Kind → String) (r : Runner) (key : ℕ) (name : String)
    → Created r (new_table p op_name r key name) key name
new_table-Created p op_name r key name = elim (Option-cases (lookup key r.launch_tables)) [
  | inr (l, there) ↦
      let is : new_table p op_name r key name ≡ r = rw (there, new_table) refl in
      let found : Created r r key name =
        (refl, (λ k l e. e), (λ k ne. refl), (λ missing. absurd (ground arith))) in
      subst (λ (s : Runner). Created r s key name) (sym is) found
  | inl missing ↦
      let made : Runner = record r {
        launch_tables = r.launch_tables ++ (key, new_launcher name) ∷ [];
      } in
      let is : new_table p op_name r key name ≡ made = rw (missing, new_table) refl in
      subst (λ (s : Runner). Created r s key name) (sym is)
        (
          refl,
          (λ k l e. grown k ∙ rw e refl),
          (λ k ne. grown k ∙ unmoved k ne),
          (λ e. grown key ∙ rw missing (rw (==-refl key) refl)),
        )
]
  where
    grown :
        (k : ℕ)
        → lookup k (r.launch_tables ++ (key, new_launcher name) ∷ [])
          ≡ elim (lookup k r.launch_tables) [
            | none ↦ if key == k then some (new_launcher name) else none
            | some x ↦ some x
          ]
    grown k = lookup-append k key (new_launcher name) r.launch_tables

    unmoved :
        (k : ℕ)
        → k ≢ key
        → elim (lookup k r.launch_tables) [
          | none ↦ if key == k then some (new_launcher name) else none
          | some x ↦ some x
        ]
          ≡ lookup k r.launch_tables
    unmoved k ne = elim (Option-cases (lookup k r.launch_tables)) [
      | inl e ↦ rw (e, ==-of-ne key k (λ q. ne (sym q))) refl
      | inr (x, e) ↦ rw e refl
    ]

module _ (p : Program) where
  -- The block of the operation's region, and its arguments behind the variable of a loop.
  abbrev arguments_of : ℕ → List ℕ
  arguments_of op = (p.block (p.operation op).body).arguments

  -- The end of a loop's body. Behind a whole number of the loop's runs its results stand for what is
  -- yielded; else the arguments of the next run do, as values of an iteration.
  abbrev pub Yielded : Runner → Runner → ℕ → Type 0
  Yielded r s op =
      let loop = parent_op p op in
      let args = drop_front (arguments_of loop) in
      (n : ℕ) × (get_ex_times p loop ≡ some n)
      × (0 < n)
      × (((m : ℕ) × (r.ex_times op ≡ m * n)
            × (s ≡ update_signal_ids p r (p.operation loop).results (p.operation op).operands))
          ⊎ ((m j : ℕ) × (0 < j)
              × (j < n)
              × (r.ex_times op ≡ m * n + j)
              × (s
                  ≡ update_iter_state p (update_signal_ids p r args (p.operation op).operands) args
                      true)))

  -- What an operation does when it ends.
  abbrev pub Effect : Runner → Runner → ℕ → Kind → Type 0
  Effect r s op (mem_copy size a b) = s ≡ update_execution p r (p.operation op).results
  Effect r s op launch =
      s
      ≡ update_signal_ids p r (arguments_of op) (drop_front (drop_front (p.operation op).operands))
  Effect r s op return_op =
      let results = (p.operation (parent_op p op)).results in
      s
      ≡ update_signal_ids p (update_execution p r (operand results 0 ∷ [])) (drop_front results)
          (p.operation op).operands
  Effect r s op scf_for =
      let args = drop_front (arguments_of op) in
      s
      ≡ update_iter_state p
          (update_signal_ids p r args
            (drop_front (drop_front (drop_front (p.operation op).operands))))
          args false
  Effect r s op scf_yield = Yielded r s op
  Effect r s op create_dma = Created r s (operand (p.operation op).results 0) "dma"
  Effect r s op create_proc = Created r s (operand (p.operation op).results 0) ""
  Effect r s op k = s ≡ r

module _ (p : Program) (op_name : Kind → String) where
  positive : (n : ℕ) (u : Unit {0}) → check (not (n == 0)) ≡ some u → 0 < n
  positive zero u e = cc
  positive (suc n) u e = omega arith

  finish_effect-Yielded :
      (r s : Runner) (op : ℕ) → finish_effect p op_name r op scf_yield ≡ some s → Yielded p r s op
  unfolding finish_effect
  finish_effect-Yielded r s op e =
      let loop = parent_op p op in
      let args = drop_front (arguments_of p loop) in
      >>=-elim (get_ex_times p loop) _ e λ n counted e1.
        >>=-elim (check (not (n == 0))) _ e1 λ u checked e2.
          let pos = positive n u checked in
          let whole = div-add-mod (r.ex_times op) n in
          let swap = mul_comm n (r.ex_times op / n) in
          (
            n,
            counted,
            pos,
            elim (Bool-cases (r.ex_times op % n == 0)) [
              | inl z ↦
                  let zero_rest = (==_iff (r.ex_times op % n) 0).0 z in
                  inl (r.ex_times op / n, omega arith, some_injective (sym e2 ∙ rw z refl))
              | inr nz ↦ inr (
                r.ex_times op / n,
                r.ex_times op % n,
                ground arith,
                mod-lt (r.ex_times op) pos,
                omega arith,
                some_injective (sym e2 ∙ rw nz refl),
              )
            ],
          )

  created :
      (r s : Runner) (key : ℕ) (name : String)
      → new_table p op_name r key name ≡ s
      → Created r s key name
  created r s key name e =
      subst (λ (t : Runner). Created r t key name) e (new_table-Created p op_name r key name)

  pub finish_effect-Effect :
      (r s : Runner) (op : ℕ) (k : Kind)
      → finish_effect p op_name r op k ≡ some s
      → Effect p r s op k
  unfolding finish_effect
  finish_effect-Effect r s op (constant n) e = sym (some_injective e)
  finish_effect-Effect r s op (create_mem a b c d) e = sym (some_injective e)
  finish_effect-Effect r s op create_dma e = created r s _ "dma" (some_injective e)
  finish_effect-Effect r s op create_proc e = created r s _ "" (some_injective e)
  finish_effect-Effect r s op (connection b) e = sym (some_injective e)
  finish_effect-Effect r s op (create_comp ns) e = sym (some_injective e)
  finish_effect-Effect r s op (add_comp ns) e = sym (some_injective e)
  finish_effect-Effect r s op (get_comp n) e = sym (some_injective e)
  finish_effect-Effect r s op unknown_spec e = sym (some_injective e)
  finish_effect-Effect r s op (mem_alloc a b) e = sym (some_injective e)
  finish_effect-Effect r s op mem_dealloc e = sym (some_injective e)
  finish_effect-Effect r s op (mem_read a b) e = sym (some_injective e)
  finish_effect-Effect r s op (mem_write a b) e = sym (some_injective e)
  finish_effect-Effect r s op (mem_copy a b c) e = sym (some_injective e)
  finish_effect-Effect r s op launch e = sym (some_injective e)
  finish_effect-Effect r s op return_op e = sym (some_injective e)
  finish_effect-Effect r s op await e = sym (some_injective e)
  finish_effect-Effect r s op control_start e = sym (some_injective e)
  finish_effect-Effect r s op control_and e = sym (some_injective e)
  finish_effect-Effect r s op control_or e = sym (some_injective e)
  finish_effect-Effect r s op scf_for e = sym (some_injective e)
  finish_effect-Effect r s op scf_yield e = finish_effect-Yielded r s op e
  finish_effect-Effect r s op (generic a b) e = sym (some_injective e)
  finish_effect-Effect r s op reshape e = sym (some_injective e)
  finish_effect-Effect r s op sub_view e = sym (some_injective e)
  finish_effect-Effect r s op splat e = sym (some_injective e)
  finish_effect-Effect r s op extract_element e = sym (some_injective e)
  finish_effect-Effect r s op linalg_yield e = sym (some_injective e)
  finish_effect-Effect r s op func_return e = sym (some_injective e)
  finish_effect-Effect r s op (unknown n) e = sym (some_injective e)
  finish_effect-Effect r s op (other n) e = sym (some_injective e)
