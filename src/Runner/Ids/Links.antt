-- ===== src/Runner/Ids/Links.antt =====
-- Links: what the arguments of a launch's region stand for.
use event_queue.Common.{
  ℕ, ◌≡◌, ◌≢◌, sym, ap, ◌∙◌, subst, Option, none, some, List, [], ◌∷◌, ==-refl, arith, All, inl,
  inr, Option-cases,
}
use event_queue.Runner.Build.{insert_if_new}
use event_queue.Runner.Ids.{Ids, id_of, seen, insert_id, value_or_null, link_arguments}

-- The value has an id.
abbrev pub HasId : Ids → ℕ → Type 0
HasId s v = (i : ℕ) × (s.value_ids v ≡ some i)

-- The values have no ids yet, and none is named twice.
abbrev pub AreFresh : Ids → List ℕ → Type 0
AreFresh s [] = Unit
AreFresh s (a ∷ args) = (s.value_ids a ≡ none) × All (λ b. b ≢ a) args × AreFresh s args

-- In `t` each argument has the id that its operand has in `s`.
abbrev pub AreLinked : Ids → Ids → List ℕ → List ℕ → Type 0
AreLinked s t (a ∷ args) (v ∷ vs) = (t.value_ids a ≡ some (id_of s v)) × AreLinked s t args vs
AreLinked s t _ _ = Unit

-- From `s` to `t` every id stays.
abbrev pub KeepsIds : Ids → Ids → Type 0
KeepsIds s t = (v i : ℕ) → s.value_ids v ≡ some i → t.value_ids v ≡ some i

pub insert_if_new-kept :
    (m : ℕ → Option ℕ) (k v j i : ℕ) → m j ≡ some i → insert_if_new m k v j ≡ some i
insert_if_new-kept m k v j i e = elim (Option-cases (m k)) [
  | inl missing ↦ ground arith
  | inr (w, there) ↦ ground arith
]

pub insert_if_new-there : (m : ℕ → Option ℕ) (k v i : ℕ) → m k ≡ some i → insert_if_new m k v ≡ m
insert_if_new-there m k v i e = ground arith

pub insert_if_new-missing :
    (m : ℕ → Option ℕ) (k v : ℕ) → m k ≡ none → insert_if_new m k v k ≡ some v
insert_if_new-missing m k v e = ground (arith, ==-refl k)

pub insert_if_new-other : (m : ℕ → Option ℕ) (k v j : ℕ) → j ≢ k → insert_if_new m k v j ≡ m j
insert_if_new-other m k v j ne = elim (Option-cases (m k)) [
  | inl missing ↦ ground arith
  | inr (w, there) ↦ ground arith
]

pub link_arguments-KeepsIds : (s : Ids) (args vs : List ℕ) → KeepsIds s (link_arguments s args vs)
unfolding link_arguments
link_arguments-KeepsIds s args [] v i e = e
link_arguments-KeepsIds s [] (w ∷ ws) v i e = e
link_arguments-KeepsIds s (a ∷ args) (w ∷ ws) v i e =
    link_arguments-KeepsIds (insert_id (seen s w) a (id_of s w)) args ws v i (
      insert_if_new-kept (seen s w).value_ids a (id_of s w) v i
        (insert_if_new-kept s.value_ids w 0 v i e))

AreLinked-step :
    (s s' t : Ids) (args vs : List ℕ)
    → KeepsIds s s'
    → All (HasId s) vs
    → AreLinked s' t args vs
    → AreLinked s t args vs
AreLinked-step s s' t [] vs keeps known h = tt
AreLinked-step s s' t (a ∷ args) [] keeps known h = tt
AreLinked-step s s' t (a ∷ args) (v ∷ vs) keeps ((i, e), known) (h, hs) = (
  rw e (h ∙ ap (λ o. some (value_or_null o)) (keeps v i e)),
  AreLinked-step s s' t args vs keeps known hs,
)

fresh_behind :
    (s : Ids) (a id : ℕ) (args : List ℕ)
    → All (λ b. b ≢ a) args
    → AreFresh s args
    → AreFresh (insert_id s a id) args
fresh_behind s a id [] apart fresh = tt
fresh_behind s a id (b ∷ args) (ne, apart) (missing, others, fresh) = (
  insert_if_new-other s.value_ids a id b ne ∙ missing,
  others,
  fresh_behind s a id args apart fresh,
)

HasId-mono : (s t : Ids) (vs : List ℕ) → KeepsIds s t → All (HasId s) vs → All (HasId t) vs
HasId-mono s t [] keeps known = tt
HasId-mono s t (v ∷ vs) keeps ((i, e), known) = ((i, keeps v i e), HasId-mono s t vs keeps known)

link_arguments-linked :
    (s : Ids) (args vs : List ℕ)
    → AreFresh s args
    → All (HasId s) vs
    → AreLinked s (link_arguments s args vs) args vs
unfolding link_arguments
link_arguments-linked s [] vs fresh known = tt
link_arguments-linked s (a ∷ args) [] fresh known = tt
link_arguments-linked s (a ∷ args) (v ∷ vs) (missing, apart, fresh) ((i, e), known) =
    let same : insert_if_new s.value_ids v 0 ≡ s.value_ids =
      insert_if_new-there s.value_ids v 0 i e in
    let read : seen s v ≡ s = ap (λ m. record s { value_ids = m }) same in
    let next = insert_id s a (id_of s v) in
    let keeps : KeepsIds s next = λ w j h. insert_if_new-kept s.value_ids a (id_of s v) w j h in
    let rest =
      link_arguments-linked next args vs (fresh_behind s a (id_of s v) args apart fresh)
        (HasId-mono s next vs keeps known) in
    subst
      (λ z. AreLinked s (link_arguments (insert_id z a (id_of s v)) args vs) (a ∷ args) (v ∷ vs))
      (sym read)
      (
        link_arguments-KeepsIds next args vs a (id_of s v)
            (insert_if_new-missing s.value_ids a (id_of s v) missing),
        AreLinked-step s next (link_arguments next args vs) args vs keeps known rest,
      )

-- Each argument of a launch's region, in a program in which values are defined before they are
-- used and only once, stands for the launch operand at its place; ids that are there stay.
pub link_arguments-AreLinked :
    (s : Ids) (args vs : List ℕ)
    → AreFresh s args
    → All (HasId s) vs
    → AreLinked s (link_arguments s args vs) args vs × KeepsIds s (link_arguments s args vs)
link_arguments-AreLinked s args vs fresh known =
    (link_arguments-linked s args vs fresh known, link_arguments-KeepsIds s args vs)
