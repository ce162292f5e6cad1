-- ===== src/Runner/Build/Runs.antt =====
-- Runs: what `buildExMap` counts.
use event_queue.Common.{
  ℕ, zero, suc, ◌*◌, ◌≡◌, refl, sym, ap, ◌∙◌, subst, ◌⊎◌, inl, inr, true, false, Option, none, some,
  List, [], ◌∷◌, u64, >>=-eq-some, some_injective, arith, Bool-cases, Option-cases,
}
use event_queue.Program.{Program}
use event_queue.Runner.Build.{
  has_region, insert_if_new, walk_operations, walk_regions, ex_times, around, times_outer,
  count_block, skip_operation, build_ex_map,
}

abbrev pub IsIn : ℕ → List ℕ → Type 0
IsIn x [] = ⊥
IsIn x (y ∷ ys) = (x ≡ y) ⊎ IsIn x ys

module _ (p : Program) where
  -- The operation stands in the block and has a region.
  abbrev pub IsOuter : ℕ → ℕ → Type 0
  IsOuter b op = IsIn op (p.block b).operations × (has_region (p.operation op).kind ≡ true)

  -- The pointers to the operation and the block around a block are those of the program's text.
  abbrev pub IsNested : Type 0
  IsNested =
      (b op : ℕ)
      → IsOuter b op
      → ((p.block (p.operation op).body).parent_op ≡ op) × ((p.operation op).parent ≡ b)

  -- The block `b` lies in `top`, and runs `n` times, in words: the loops around it multiply.
  pub data Runs (top : ℕ) : ℕ → ℕ → Type 0 where
    outermost : {n : ℕ} → ex_times p top ≡ some n → Runs top top n
    inside :
        {b op m n : ℕ}
        → Runs top b m
        → IsOuter b op
        → ex_times p (p.operation op).body ≡ some n
        → Runs top (p.operation op).body (u64 (m * n))

  -- A block lies in another one.
  pub data Within : ℕ → ℕ → Type 0 where
    itself : {b : ℕ} → Within b b
    deeper : {b op c : ℕ} → IsOuter b op → Within (p.operation op).body c → Within b c

  abbrev Map : Type 0
  Map = ℕ → Option ℕ

  abbrev Kept : Map → Map → Type 0
  Kept m m' = (b n : ℕ) → m b ≡ some n → m' b ≡ some n

  abbrev Sound : ℕ → Map → Type 0
  Sound top m = (b n : ℕ) → m b ≡ some n → Runs top b n

  insert_if_new-Kept : (m : Map) (k v : ℕ) → Kept m (insert_if_new m k v)
  insert_if_new-Kept m k v b n e = elim (Option-cases (m k)) [
    | inl missing ↦ ground arith
    | inr (w, there) ↦ ground arith
  ]

  insert_if_new_there : (m : Map) (k v : ℕ) → (n : ℕ) × (insert_if_new m k v k ≡ some n)
  insert_if_new_there m k v = elim (Option-cases (m k)) [
    | inl missing ↦ (v, ground arith)
    | inr (w, there) ↦ (w, ground arith)
  ]

  insert_if_new_cases :
      (m : Map) (k v b n : ℕ)
      → insert_if_new m k v b ≡ some n
      → (m b ≡ some n) ⊎ ((b ≡ k) × (n ≡ v))
  insert_if_new_cases m k v b n e = elim (Option-cases (m k)) [
    | inl missing ↦ ground arith
    | inr (w, there) ↦ ground arith
  ]

  -- What the visit of a block is given: the block is the outermost one and nothing is known of what
  -- is around it, or the block around it has been counted.
  abbrev Entered : ℕ → Map → ℕ → Type 0
  Entered top m b =
      ((b ≡ top) × (m (around p b) ≡ none))
      ⊎ ((c op n : ℕ) × IsOuter c op × (b ≡ (p.operation op).body) × (m c ≡ some n))

  count_block-Runs :
      (top b n : ℕ) (m : Map)
      → IsNested
      → Sound top m
      → Entered top m b
      → ex_times p b ≡ some n
      → Runs top b (times_outer (m (around p b)) n)
  count_block-Runs top b n m nested sound (inl (is, missing)) e =
      rw missing
        (subst (λ z. Runs top z n) (sym is) (outermost (subst (λ z. ex_times p z ≡ some n) is e)))
  count_block-Runs top b n m nested sound (inr (c, op, k, outer, is, there)) e =
      let (same_op, same_block) = nested c op outer in
      let same : around p (p.operation op).body ≡ c =
        ap (λ o. (p.operation o).parent) same_op ∙ same_block in
      let counted : m (around p b) ≡ some k = ap (λ z. m (around p z)) is ∙ ap m same ∙ there in
      rw counted (
        subst (λ z. Runs top z (u64 (k * n))) (sym is)
          (inside (sound c k there) outer (subst (λ z. ex_times p z ≡ some n) is e)))

  count_block-Sound :
      (top b : ℕ) (m m' : Map)
      → IsNested
      → Sound top m
      → Entered top m b
      → count_block p m b ≡ some m'
      → Kept m m' × Sound top m' × ((n : ℕ) × (m' b ≡ some n))
  count_block-Sound top b m m' nested sound entered h =
      let (n, counted, done) =
        >>=-eq-some (ex_times p b) (λ n. some (insert_if_new m b (times_outer (m (around p b)) n)))
          h in
      let is : insert_if_new m b (times_outer (m (around p b)) n) ≡ m' = some_injective done in
      let runs = count_block-Runs top b n m nested sound entered counted in
      subst (λ z. Kept m z × Sound top z × ((n : ℕ) × (z b ≡ some n))) is
        (
          insert_if_new-Kept m b _,
          λ c k e. elim (insert_if_new_cases m b _ c k e) [
            | inl old ↦ sound c k old
            | inr (here, is) ↦
                subst (λ z. Runs top z k) (sym here) (subst (λ z. Runs top b z) (sym is) runs)
          ],
          insert_if_new_there m b _,
        )

  abbrev Full : ℕ → Map → Type 0
  Full b m = (c : ℕ) → Within b c → (n : ℕ) × (m c ≡ some n)

  -- What a visit of the block `b` does.
  abbrev Visits : (Map → ℕ → Option Map) → ℕ → ℕ → Type 0
  Visits walk top b =
      (m m' : Map)
      → Sound top m
      → Entered top m b
      → walk m b ≡ some m'
      → Kept m m' × Sound top m' × Full b m'

  walk_operations-Sound :
      (walk : Map → ℕ → Option Map) (top b n : ℕ) (ops : List ℕ) (m m' : Map)
      → ((c : ℕ) → Visits walk top c)
      → ((op : ℕ) → IsIn op ops → IsIn op (p.block b).operations)
      → m b ≡ some n
      → Sound top m
      → walk_operations p (count_block p) (skip_operation p) walk m ops ≡ some m'
      → Kept m m'
        × Sound top m'
        × ((op : ℕ)
            → IsIn op ops
            → has_region (p.operation op).kind ≡ true
            → Full (p.operation op).body m')
  unfolding walk_operations
  walk_operations-Sound walk top b n [] m m' visits part there sound h =
      let is : m ≡ m' = some_injective h in
      subst
        (λ z.
          Kept m z
          × Sound top z
          × ((op : ℕ) → ⊥ → has_region (p.operation op).kind ≡ true → Full (p.operation op).body z))
        is (λ c k e. e, sound, λ op i. elim i [ ])
  walk_operations-Sound walk top b n (op ∷ ops) m m' visits part there sound h =
      elim (Bool-cases (has_region (p.operation op).kind)) [
        | inl region ↦
            let (m1, visited, rest) =
              >>=-eq-some (walk m (p.operation op).body)
                (λ s. walk_operations p (count_block p) (skip_operation p) walk s ops)
                (rw region at h) in
            let (kept1, sound1, full1) =
              visits (p.operation op).body m m1 sound
                (inr (b, op, n, (part op (inl refl), region), refl, there)) visited in
            let (kept2, sound2, full2) =
              walk_operations-Sound walk top b n ops m1 m' visits (λ o i. part o (inr i))
                (kept1 b n there) sound1 rest in
            (
              λ c k e. kept2 c k (kept1 c k e),
              sound2,
              λ o i r. elim i [
                | inl is ↦
                    subst (λ z. Full (p.operation z).body m') (sym is)
                      (λ c w. let (k, e) = full1 c w in (k, kept2 c k e))
                | inr later ↦ full2 o later r
              ],
            )
        | inr plain ↦
            let (kept2, sound2, full2) =
              walk_operations-Sound walk top b n ops m m' visits (λ o i. part o (inr i)) there sound
                (rw plain at h) in
            (
              kept2,
              sound2,
              λ o i r. elim i [
                | inl is ↦
                    let bad : true ≡ false =
                      sym r ∙ ap (λ z. has_region (p.operation z).kind) is ∙ plain in
                    cc
                | inr later ↦ full2 o later r
              ],
            )
      ]

  Within-cases :
      (b c : ℕ) → Within b c → (b ≡ c) ⊎ ((op : ℕ) × IsOuter b op × Within (p.operation op).body c)
  Within-cases b c itself = inl refl
  Within-cases b c (deeper {op = op} o w) = inr (op, o, w)

  walk_regions-Sound :
      (depth top : ℕ)
      → IsNested
      → (b : ℕ) → Visits (walk_regions p (count_block p) (skip_operation p) depth) top b
  unfolding walk_regions
  walk_regions-Sound zero top nested b m m' sound entered h = cc
  walk_regions-Sound (suc depth) top nested b m m' sound entered h =
      let (m1, counted, rest) =
        >>=-eq-some (count_block p m b)
          (λ s.
            walk_operations p (count_block p) (skip_operation p)
              (walk_regions p (count_block p) (skip_operation p) depth) s (p.block b).operations)
          h in
      let (kept1, sound1, (n, there)) = count_block-Sound top b m m1 nested sound entered counted in
      let (kept2, sound2, full2) =
        walk_operations-Sound (walk_regions p (count_block p) (skip_operation p) depth) top b n
          (p.block b).operations m1 m' (walk_regions-Sound depth top nested) (λ o i. i) there sound1
          rest in
      (
        λ c k e. kept2 c k (kept1 c k e),
        sound2,
        λ c w. elim (Within-cases b c w) [
          | inl is ↦ subst (λ z. (k : ℕ) × (m' z ≡ some k)) is (n, kept2 b n there)
          | inr (op, (i, r), w') ↦ full2 op i r c w'
        ],
      )

  -- Regions are nested less than `depth` deep in the block, and each loop in it has a known number of
  -- runs.
  abbrev pub Bounded : ℕ → ℕ → Type 0
  Bounded zero b = ⊥
  Bounded (suc depth) b =
      ((n : ℕ) × (ex_times p b ≡ some n))
      × ((op : ℕ) → IsOuter b op → Bounded depth (p.operation op).body)

  walk_operations_total :
      (walk : Map → ℕ → Option Map) (ops : List ℕ) (m : Map)
      → ((op : ℕ)
          → IsIn op ops
          → has_region (p.operation op).kind ≡ true
          → (s : Map) → (t : Map) × (walk s (p.operation op).body ≡ some t))
      → (t : Map) × (walk_operations p (count_block p) (skip_operation p) walk m ops ≡ some t)
  unfolding walk_operations
  walk_operations_total walk [] m walks = (m, refl)
  walk_operations_total walk (op ∷ ops) m walks =
      elim (Bool-cases (has_region (p.operation op).kind)) [
        | inl region ↦
            let (s, e) = walks op (inl refl) region m in
            let (t, e') = walk_operations_total walk ops s (λ o i. walks o (inr i)) in
            (t, rw region (rw e e'))
        | inr plain ↦
            let (t, e') = walk_operations_total walk ops m (λ o i. walks o (inr i)) in
            (t, rw plain e')
      ]

  walk_regions_total :
      (depth b : ℕ) (m : Map)
      → Bounded depth b
      → (t : Map) × (walk_regions p (count_block p) (skip_operation p) depth m b ≡ some t)
  unfolding walk_regions
  walk_regions_total zero b m h = elim h [ ]
  walk_regions_total (suc depth) b m ((n, counted), h) =
      let (t, e) =
        walk_operations_total (walk_regions p (count_block p) (skip_operation p) depth)
          (p.block b).operations (insert_if_new m b (times_outer (m (around p b)) n))
          (λ op i r s. walk_regions_total depth (p.operation op).body s (h op (i, r))) in
      (t, rw counted e)

  -- Where the depth bounds how deep regions are nested and each loop's number of runs is known, the map
  -- is built. Each block in `top` is then given a count, and the count is the product of the runs of
  -- the loops around the block, in 64-bit words.
  pub build_ex_map-Runs :
      (depth top : ℕ)
      → IsNested
      → Bounded depth top
      → (m : ℕ → Option ℕ) × (build_ex_map p depth top ≡ some m)
        × ((b : ℕ) → Within top b → (n : ℕ) × (m b ≡ some n) × Runs top b n)
  unfolding build_ex_map
  build_ex_map-Runs depth top nested bounded =
      let (m, h) = walk_regions_total depth top (λ b. none) bounded in
      let (_, sound, full) =
        walk_regions-Sound depth top nested top (λ c. none) m (λ c k e. cc) (inl (refl, refl)) h in
      (m, h, λ b w. let (n, e) = full b w in (n, e, sound b n e))
