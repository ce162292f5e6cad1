-- ===== src/Runner/Ids/Components.antt =====
-- Components: a component that is looked up by name is the one that was put there.
use Prim.Native.String.{String}
use text.Mathlib.Text.{◌==◌ as str_eq}
use text.Mathlib.TextEquality.{eq_iff}
use event_queue.Common.{
  ℕ, ◌≡◌, ◌≢◌, refl, sym, ap, ◌∙◌, subst, Bool, Option, none, some, List, [], ◌∷◌, ◌++◌, update,
  ==-refl, arith, if◌then◌else◌, true, false, Bool-cases, inl, inr, Option-cases, some_injective,
}
use event_queue.Program.{Program, create_comp, get_comp}
use event_queue.Runner.Ids.{
  Ids, NameMap, id_of, seen, insert_id, find_name, insert_name, name_operands, add_component,
  look_up, insert_own, visit_operation,
}
use event_queue.Runner.Ids.Links.{
  HasId, insert_if_new-there, insert_if_new-missing, insert_if_new-kept, insert_if_new-other,
}

abbrev or_else : Option ℕ → Option ℕ → Option ℕ
or_else none o = o
or_else (some v) o = some v

-- The operand at the first place at which the name stands.
abbrev pub named : String → List String → List ℕ → Option ℕ
named name [] vs = none
named name (n ∷ names) [] = none
named name (n ∷ names) (v ∷ vs) = if str_eq n name then some v else named name names vs

-- Each name has an operand, and the operands have ids.
abbrev pub AreKnown : Ids → List String → List ℕ → Type 0
AreKnown s [] vs = Unit
AreKnown s (n ∷ names) [] = ⊥
AreKnown s (n ∷ names) (v ∷ vs) = HasId s v × AreKnown s names vs

abbrev id_if_any : Ids → Option ℕ → Option ℕ
id_if_any s none = none
id_if_any s (some v) = some (id_of s v)

find_name-append :
    (name n : String) (v : ℕ) (m : NameMap)
    → find_name name (m ++ (n, v) ∷ [])
      ≡ or_else (find_name name m) (if str_eq n name then some v else none)
find_name-append name n v [] = refl
find_name-append name n v ((k, w) ∷ m) = elim (Bool-cases (str_eq k name)) [
  | inl here ↦ rw here refl
  | inr there ↦ rw there (find_name-append name n v m)
]

or_else-none : (o : Option ℕ) → or_else o none ≡ o
or_else-none none = refl
or_else-none (some v) = refl

or_else_assoc : (o q r : Option ℕ) → or_else (or_else o q) r ≡ or_else o (or_else q r)
or_else_assoc none q r = refl
or_else_assoc (some v) q r = refl

insert_name-missing :
    (m : NameMap) (n : String) (v : ℕ) → find_name n m ≡ none → insert_name m n v ≡ m ++ (n, v) ∷ []
insert_name-missing m n v e = ground arith

insert_name-there :
    (m : NameMap) (n : String) (v w : ℕ) → find_name n m ≡ some w → insert_name m n v ≡ m
insert_name-there m n v w e = ground arith

find_name-insert_name :
    (name n : String) (v : ℕ) (m : NameMap)
    → find_name name (insert_name m n v)
      ≡ or_else (find_name name m) (if str_eq n name then some v else none)
find_name-insert_name name n v m = elim (Option-cases (find_name n m)) [
  | inl missing ↦
      ap (find_name name) (insert_name-missing m n v missing) ∙ find_name-append name n v m
  | inr (w, there) ↦
      ap (find_name name) (insert_name-there m n v w there) ∙ elim (Bool-cases (str_eq n name)) [
        | inl same ↦
            let found : find_name name m ≡ some w =
              subst (λ k. find_name k m ≡ some w) ((eq_iff n name).0 same) there in
            rw (same, found) refl
        | inr other ↦ rw other (sym (or_else-none (find_name name m)))
      ]
]

seen-HasId : (s : Ids) (v : ℕ) → HasId s v → seen s v ≡ s
seen-HasId s v (i, e) =
    ap (λ m. record s { value_ids = m }) (insert_if_new-there s.value_ids v 0 i e)

first_or_later :
    (s : Ids) (v : ℕ) (here : Bool) (later : Option ℕ)
    → or_else (if here then some (id_of s v) else none) (id_if_any s later)
      ≡ id_if_any s (if here then some v else later)
first_or_later s v true later = refl
first_or_later s v false later = refl

name_operands-find :
    (s : Ids) (m : NameMap) (name : String) (names : List String) (vs : List ℕ)
    → AreKnown s names vs
    → ((name_operands s m names vs).0 ≡ s)
      × (find_name name (name_operands s m names vs).1
          ≡ or_else (find_name name m) (id_if_any s (named name names vs)))
unfolding name_operands
name_operands-find s m name [] vs known = (refl, sym (or_else-none (find_name name m)))
name_operands-find s m name (n ∷ names) [] known = elim known [ ]
name_operands-find s m name (n ∷ names) (v ∷ vs) (has, known) =
    let id = id_of s v in
    let (same, found) = name_operands-find s (insert_name m n id) name names vs known in
    let read = seen-HasId s v has in
    let found' : find_name name (name_operands s (insert_name m n id) names vs).1
        ≡ or_else (find_name name m)
            (id_if_any s (if str_eq n name then some v else named name names vs)) =
      found
      ∙ ap (λ o. or_else o (id_if_any s (named name names vs))) (find_name-insert_name name n id m)
      ∙ or_else_assoc (find_name name m) _ _
      ∙ ap (or_else (find_name name m))
          (first_or_later s v (str_eq n name) (named name names vs)) in
    subst
      (λ z.
        ((name_operands z (insert_name m n id) names vs).0 ≡ s)
        × (find_name name (name_operands z (insert_name m n id) names vs).1
            ≡ or_else (find_name name m)
                (id_if_any s (if str_eq n name then some v else named name names vs))))
      (sym read) (same, found')

module _ (p : Program) where
  look_up-found :
      (t : Ids) (handler c q comp i : ℕ) (name : String) (names : NameMap)
      → t.value_ids handler ≡ some c
      → t.comp_map c ≡ some names
      → find_name name names ≡ some comp
      → t.value_ids comp ≡ some i
      → t.value_ids q ≡ none
      → (look_up p t handler q name).value_ids q ≡ some i
  look_up-found t handler c q comp i name names handled there found known missing =
      let read = insert_if_new-there t.value_ids handler 0 c handled in
      let read' = insert_if_new-there t.value_ids comp 0 i known in
      rw (handled, there, found, read, read', known) (insert_if_new-missing t.value_ids q i missing)

  add_component-new :
      (s : Ids) (names : NameMap) (r : ℕ)
      → s.comp_map r ≡ none
      → add_component p (s, names) r ≡ record s { comp_map = update s.comp_map r (some names) }
  add_component-new s names r e = ground arith

  -- The ids behind a new component.
  abbrev with_component : Ids → ℕ → NameMap → Ids
  with_component s r names =
      insert_id (record s { comp_map = update s.comp_map r (some names) }) r r

  create_comp-visit :
      (s : Ids) (op r : ℕ) (names : List String) (args : List ℕ)
      → (p.operation op).kind ≡ create_comp names
      → (p.operation op).operands ≡ args
      → (p.operation op).results ≡ r ∷ []
      → AreKnown s names args
      → s.comp_map r ≡ none
      → visit_operation p s op ≡ some (with_component s r (name_operands s [] names args).1)
  unfolding visit_operation insert_own
  create_comp-visit s op r names args made given gives known new =
      let (same, _) = name_operands-find s [] "" names args known in
      let found = (name_operands s [] names args).1 in
      rw (made, given, gives)
        (ap (λ z. some (insert_id (add_component p (z, found) r) r r)) same
          ∙ ap (λ z. some (insert_id z r r)) (add_component-new s found r new))

  get_comp-visit :
      (t : Ids) (get r q : ℕ) (name : String)
      → (p.operation get).kind ≡ get_comp name
      → (p.operation get).operands ≡ r ∷ []
      → (p.operation get).results ≡ q ∷ []
      → visit_operation p t get ≡ some (look_up p t r q name)
  unfolding visit_operation
  get_comp-visit t get r q name made given gives = rw (made, given, gives) refl

  -- A component that is made of operands under names, and then looked into: the result of the
  -- look-up stands for what the first operand with the name stands for. The operands have ids, and
  -- the two results are new.
  pub create_get :
      (s t u : Ids) (op get r q v i : ℕ) (name : String) (names : List String) (args : List ℕ)
      → (p.operation op).kind ≡ create_comp names
      → (p.operation op).operands ≡ args
      → (p.operation op).results ≡ r ∷ []
      → (p.operation get).kind ≡ get_comp name
      → (p.operation get).operands ≡ r ∷ []
      → (p.operation get).results ≡ q ∷ []
      → AreKnown s names args
      → named name names args ≡ some v
      → s.value_ids (id_of s v) ≡ some i
      → s.comp_map r ≡ none
      → s.value_ids r ≡ none
      → s.value_ids q ≡ none
      → q ≢ r
      → visit_operation p s op ≡ some t
      → visit_operation p t get ≡ some u
      → u.value_ids q ≡ some i
  create_get s t u op get r q v i name names args made given gives asked where' result known place
        id new new' new'' apart h h' =
      let found = (name_operands s [] names args).1 in
      let (_, finds) = name_operands-find s [] name names args known in
      let is : with_component s r found ≡ t =
        some_injective (sym (create_comp-visit s op r names args made given gives known new) ∙ h) in
      let is' : look_up p t r q name ≡ u =
        some_injective (sym (get_comp-visit t get r q name asked where' result) ∙ h') in
      let there : (with_component s r found).comp_map r ≡ some found = rw (==-refl r) refl in
      subst (λ (z : Ids). z.value_ids q ≡ some i) is'
        (subst (λ z. (look_up p z r q name).value_ids q ≡ some i) is
          (look_up-found (with_component s r found) r r q (id_of s v) i name found
            (insert_if_new-missing s.value_ids r r new') there (finds ∙ rw place refl)
            (insert_if_new-kept s.value_ids r r (id_of s v) i id)
            (insert_if_new-other s.value_ids r r q apart ∙ new'')))
