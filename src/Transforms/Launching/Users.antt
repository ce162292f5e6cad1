-- ===== src/Transforms/Launching/Users.antt =====
-- The users of values, and which values a range has to return.
use event_queue.Common.{
  ℕ, ◌+◌, ◌≡◌, refl, sym, subst, ◌⊎◌, inl, inr, Bool, true, false, List, [], ◌∷◌, ◌++◌, arith, In,
  In-left, In-right, All, ◌==◌, Bool-cases, if◌then◌else◌,
}
use event_queue.Transforms.Reorder.{is_in}
use event_queue.Transforms.Launching.{
  Ops, end, op, append, user_here, users, all_in, keep_live, replace_operands, replace,
  replace_inside, replace_each,
}
use event_queue.Transforms.Launching.Scopes.{Uses}

-- All operations, in the order in which they stand in the text.
abbrev pub ids : Ops → List ℕ
ids end = []
ids (op id vs args body rs rest) = id ∷ ids body ++ ids rest

-- The value is an operand inside of a region of one of the operations.
abbrev pub UsesInside : ℕ → Ops → Type 0
UsesInside v end = ⊥
UsesInside v (op id vs args body rs rest) = Uses v body ⊎ UsesInside v rest

is_in-of-In : (x : ℕ) (xs : List ℕ) → In x xs → is_in x xs ≡ true
is_in-of-In x [] h = elim h [ ]
is_in-of-In x (y ∷ xs) h = elim (Bool-cases (x == y)) [
  | inl e ↦ rw e refl
  | inr e ↦ elim h [ inl q ↦ ground arith | inr i ↦ rw e (is_in-of-In x xs i) ]
]

In-of-is_in : (x : ℕ) (xs : List ℕ) → is_in x xs ≡ true → In x xs
In-of-is_in x [] h = cc
In-of-is_in x (y ∷ xs) h = elim (Bool-cases (x == y)) [
  | inl e ↦ inl (ground arith)
  | inr e ↦ inr (In-of-is_in x xs (ground arith))
]

-- A use has a user, which is one of the operations.
pub Uses-users : (v : ℕ) (ops : Ops) → Uses v ops → (k : ℕ) × In k (users v ops) × In k (ids ops)
unfolding users
Uses-users v end u = elim u [ ]
Uses-users v (op id vs args body rs rest) (inl i) =
    (id, rw (is_in-of-In v vs i) (inl refl), inl refl)
Uses-users v (op id vs args body rs rest) (inr (inl u)) =
    let (k, a, b) = Uses-users v body u in
    (
      k,
      In-left k (user_here v id vs ++ users v body) (users v rest)
          (In-right k (user_here v id vs) (users v body) a),
      inr (In-left k (ids body) (ids rest) b),
    )
Uses-users v (op id vs args body rs rest) (inr (inr u)) =
    let (k, a, b) = Uses-users v rest u in
    (
      k,
      In-right k (user_here v id vs ++ users v body) (users v rest) a,
      inr (In-right k (ids body) (ids rest) b),
    )

pub users-append : (v k : ℕ) (a b : Ops) → In k (users v b) → In k (users v (append a b))
unfolding users
users-append v k end b i = i
users-append v k (op id vs args body rs rest) b i =
    In-right k (user_here v id vs ++ users v body) (users v (append rest b))
      (users-append v k rest b i)

all_in_missed : (k : ℕ) (xs ys : List ℕ) → In k xs → (In k ys → ⊥) → all_in xs ys ≡ false
all_in_missed k [] ys i n = elim i [ ]
all_in_missed k (x ∷ xs) ys (inl e) n = elim (Bool-cases (is_in x ys)) [
  | inl h ↦ elim (n (subst (λ (z : ℕ). In z ys) (sym e) (In-of-is_in x ys h))) [ ]
  | inr h ↦ rw h refl
]
all_in_missed k (x ∷ xs) ys (inr i) n = elim (Bool-cases (is_in x ys)) [
  | inl h ↦ rw h (all_in_missed k xs ys i n)
  | inr h ↦ rw h refl
]

pub keep_live-In :
    (whole : Ops) (range vs : List ℕ) (v k : ℕ)
    → In v vs
    → In k (users v whole)
    → (In k range → ⊥)
    → In v (keep_live whole range vs)
keep_live-In whole range [] v k i u n = elim i [ ]
keep_live-In whole range (w ∷ vs) v k (inl e) u n =
    let missed =
      all_in_missed k (users w whole) range (subst (λ (z : ℕ). In k (users z whole)) e u) n in
    rw missed (inl e)
keep_live-In whole range (w ∷ vs) v k (inr i) u n =
    let ih = keep_live-In whole range vs v k i u n in
    elim (Bool-cases (all_in (users w whole) range)) [ inl h ↦ rw h ih | inr h ↦ rw h (inr ih) ]

pub In-keep_live :
    (whole : Ops) (range vs : List ℕ) (v : ℕ) → In v (keep_live whole range vs) → In v vs
In-keep_live whole range [] v i = i
In-keep_live whole range (w ∷ vs) v i = elim (Bool-cases (all_in (users w whole) range)) [
  | inl h ↦ inr (
      In-keep_live whole range vs v (
        subst
          (λ (b : Bool).
            In v (if b then keep_live whole range vs else w ∷ keep_live whole range vs))
          h i))
  | inr h ↦
      elim (subst
        (λ (b : Bool). In v (if b then keep_live whole range vs else w ∷ keep_live whole range vs))
        h i) [ inl e ↦ inl e | inr j ↦ inr (In-keep_live whole range vs v j) ]
]

pub Uses-append : (v : ℕ) (a b : Ops) → Uses v a → Uses v (append a b)
Uses-append v end b u = elim u [ ]
Uses-append v (op id vs args body rs rest) b u = elim u [
  | inl i ↦ inl i
  | inr (inl w) ↦ inr (inl w)
  | inr (inr w) ↦ inr (inr (Uses-append v rest b w))
]

replace_operands-unused : (v w : ℕ) (vs : List ℕ) → (In v vs → ⊥) → replace_operands v w vs ≡ vs
replace_operands-unused v w [] n = refl
replace_operands-unused v w (x ∷ vs) n = elim (Bool-cases (x == v)) [
  | inl e ↦ elim (n (inl (ground arith))) [ ]
  | inr e ↦ rw (e, replace_operands-unused v w vs (λ i. n (inr i))) refl
]

replace-unused : (v w : ℕ) (ops : Ops) → (Uses v ops → ⊥) → replace v w ops ≡ ops
replace-unused v w end n = refl
replace-unused v w (op id vs args body rs rest) n =
    rw (replace_operands-unused v w vs (λ i. n (inl i))) (
      rw (replace-unused v w body (λ u. n (inr (inl u))))
        (rw (replace-unused v w rest (λ u. n (inr (inr u)))) refl))

replace_inside-unused :
    (v w : ℕ) (ops : Ops) → (UsesInside v ops → ⊥) → replace_inside v w ops ≡ ops
replace_inside-unused v w end n = refl
replace_inside-unused v w (op id vs args body rs rest) n =
    rw (replace-unused v w body (λ u. n (inl u)))
      (rw (replace_inside-unused v w rest (λ u. n (inr u))) refl)

pub replace_each-unused :
    (vs : List ℕ) (w : ℕ) (ops : Ops)
    → All (λ (v : ℕ). UsesInside v ops → ⊥) vs
    → replace_each replace_inside vs w ops ≡ ops
replace_each-unused [] w ops n = refl
replace_each-unused (v ∷ vs) w ops n =
    rw (replace_inside-unused v w ops n.0) (replace_each-unused vs (w + 1) ops n.1)
