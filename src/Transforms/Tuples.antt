-- ===== src/Transforms/Tuples.antt =====
-- The indices of the elements of a vector of the given shape, in lexicographic order: what the two
-- functions `getPermutation` of lib/Transforms enumerate.
use event_queue.Common.{
  ℕ, zero, suc, ◌+◌, ◌*◌, ◌<◌, ◌≤◌, ◌≡◌, refl, ap, ◌∙◌, sym, List, [], ◌∷◌, ◌++◌, map, length,
  length-append, product, All, All-append, arith, get_elem?, some,
}

-- `n` numbers from `j` on, each before every tuple.
abbrev pub each_first : ℕ → ℕ → List (List ℕ) → List (List ℕ)
each_first zero j ts = []
each_first (suc n) j ts = map (λ (t : List ℕ). j ∷ t) ts ++ each_first n (suc j) ts

unfoldable pub tuples : List ℕ → List (List ℕ)
tuples [] = [] ∷ []
tuples (u ∷ us) = each_first u 0 (tuples us)

-- An index for each dimension, below its size.
abbrev pub InBounds : List ℕ → List ℕ → Type 0
InBounds [] [] = Unit
InBounds [] (u ∷ us) = ⊥
InBounds (i ∷ t) [] = ⊥
InBounds (i ∷ t) (u ∷ us) = (i < u) × InBounds t us

-- The place of a tuple in the order.
abbrev pub rank : List ℕ → List ℕ → ℕ
rank [] us = 0
rank (i ∷ t) [] = 0
rank (i ∷ t) (u ∷ us) = i * product us + rank t us

module _ {ℓ κ} {A : Type ℓ} {B : Type κ} where
  pub length-map : (f : A → B) (xs : List A) → length (map f xs) ≡ length xs
  length-map f [] = refl
  length-map f (x ∷ xs) = omega (arith, length-map f xs)

  pub get_elem?-map :
      (f : A → B) (xs : List A) (k : ℕ) (x : A)
      → get_elem? xs k ≡ some x
      → get_elem? (map f xs) k ≡ some (f x)
  get_elem?-map f [] k x e = cc
  get_elem?-map f (y ∷ xs) zero x e = cc
  get_elem?-map f (y ∷ xs) (suc k) x e = get_elem?-map f xs k x e

module _ {ℓ} {A : Type ℓ} where
  pub get_elem?-append_left :
      (xs ys : List A) (k : ℕ) (x : A) → get_elem? xs k ≡ some x → get_elem? (xs ++ ys) k ≡ some x
  get_elem?-append_left [] ys k x e = cc
  get_elem?-append_left (y ∷ xs) ys zero x e = e
  get_elem?-append_left (y ∷ xs) ys (suc k) x e = get_elem?-append_left xs ys k x e

  pub get_elem?-append_right :
      (xs ys : List A) (k : ℕ) → get_elem? (xs ++ ys) (length xs + k) ≡ get_elem? ys k
  get_elem?-append_right [] ys k = let e : 0 + k ≡ k = omega arith in ap (get_elem? ys) e
  get_elem?-append_right (x ∷ xs) ys k =
      let e : suc (length xs) + k ≡ suc (length xs + k) = omega arith in
      ap (get_elem? (x ∷ xs ++ ys)) e ∙ get_elem?-append_right xs ys k

length-each_first : (n j : ℕ) (ts : List (List ℕ)) → length (each_first n j ts) ≡ n * length ts
length-each_first zero j ts = omega arith
length-each_first (suc n) j ts = grind (
  arith,
  length-append (map (λ (t : List ℕ). j ∷ t) ts) (each_first n (suc j) ts),
  length-map (λ (t : List ℕ). j ∷ t) ts,
  length-each_first n (suc j) ts,
)

-- There are as many tuples as the vector has elements.
pub length-tuples : (us : List ℕ) → length (tuples us) ≡ product us
unfolding tuples
length-tuples [] = refl
length-tuples (u ∷ us) =
    length-each_first u 0 (tuples us) ∙ ap (λ (n : ℕ). u * n) (length-tuples us)

get_elem?-each_first :
    (n j : ℕ) (ts : List (List ℕ)) (i k : ℕ) (t : List ℕ)
    → i < n
    → get_elem? ts k ≡ some t
    → get_elem? (each_first n j ts) (i * length ts + k) ≡ some ((j + i) ∷ t)
get_elem?-each_first zero j ts i k t lt e = elim lt [ ]
get_elem?-each_first (suc n) j ts zero k t lt e =
    ap (get_elem? (each_first (suc n) j ts)) (omega arith)
    ∙ get_elem?-append_left (map (λ (s : List ℕ). j ∷ s) ts) (each_first n (suc j) ts) k (j ∷ t)
        (get_elem?-map (λ (s : List ℕ). j ∷ s) ts k t e)
    ∙ ap (λ (h : ℕ). some (h ∷ t)) (omega arith)
get_elem?-each_first (suc n) j ts (suc i) k t lt e =
    ap (get_elem? (each_first (suc n) j ts)) (
      let l = length-map (λ (s : List ℕ). j ∷ s) ts in
      let goal : suc i * length ts + k
          ≡ length (map (λ (s : List ℕ). j ∷ s) ts) + (i * length ts + k) =
        grind arith in
      goal)
    ∙ get_elem?-append_right (map (λ (s : List ℕ). j ∷ s) ts) (each_first n (suc j) ts)
        (i * length ts + k)
    ∙ get_elem?-each_first n (suc j) ts i k t (omega arith) e
    ∙ ap (λ (h : ℕ). some (h ∷ t)) (omega arith)

-- A tuple in bounds stands at its rank.
pub tuples-rank : (us t : List ℕ) → InBounds t us → get_elem? (tuples us) (rank t us) ≡ some t
unfolding tuples
tuples-rank [] [] h = refl
tuples-rank [] (i ∷ t) h = absurd h
tuples-rank (u ∷ us) [] h = absurd h
tuples-rank (u ∷ us) (i ∷ t) h =
    ap (λ (n : ℕ). get_elem? (tuples (u ∷ us)) (i * n + rank t us)) (sym (length-tuples us))
    ∙ get_elem?-each_first u 0 (tuples us) i (rank t us) t h.0 (tuples-rank us t h.1)
    ∙ ap (λ (n : ℕ). some (n ∷ t)) (omega arith)

each_first-All :
    (n j u : ℕ) (ts : List (List ℕ)) (us : List ℕ)
    → j + n ≤ u
    → All (λ t. InBounds t us) ts
    → All (λ t. InBounds t (u ∷ us)) (each_first n j ts)
each_first-All zero j u ts us h all = tt
each_first-All (suc n) j u ts us h all =
    All-append (λ t. InBounds t (u ∷ us)) (map (λ (t : List ℕ). j ∷ t) ts) (each_first n (suc j) ts)
      (front ts all) (each_first-All n (suc j) u ts us (omega arith) all)
  where
    front :
        (ts : List (List ℕ))
        → All (λ t. InBounds t us) ts
        → All (λ t. InBounds t (u ∷ us)) (map (λ (t : List ℕ). j ∷ t) ts)
    front [] all = tt
    front (t ∷ ts) all = ((omega arith, all.0), front ts all.1)

-- Every tuple is in bounds.
pub tuples-All : (us : List ℕ) → All (λ t. InBounds t us) (tuples us)
unfolding tuples
tuples-All [] = (tt, tt)
tuples-All (u ∷ us) = each_first-All u 0 u (tuples us) us (omega arith) (tuples-All us)
