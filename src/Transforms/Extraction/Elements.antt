-- ===== src/Transforms/Extraction/Elements.antt =====
-- The names of the elements of a vector: those that the lowering gives them, and those that an
-- extraction looks up.
use event_queue.Common.{
  ℕ, zero, suc, ◌-◌, ◌≡◌, refl, sym, ap, ◌∙◌, List, [], ◌∷◌, ◌++◌, map, length, length-append, take,
  All, arith, get_elem?, some,
}
use mathlib.Core.List.{append_assoc, append-nil}
use event_queue.Names.{Name}
use event_queue.Names.Decimal.{to_string, to_string-injective, to_string-All, IsDigit}
use event_queue.Transforms.Tuples.{tuples, each_first, InBounds, rank, tuples-rank, get_elem?-map}
use event_queue.Transforms.Extraction.{each_line, get_permutation, element_name}

-- What the indices of an element add to a name.
abbrev pub suffix : List ℕ → Name
suffix [] = []
suffix (j ∷ t) = b'_' ∷ (to_string j ++ suffix t)

take-append : (xs ys : Name) (n : ℕ) → n ≡ length xs → take n (xs ++ ys) ≡ xs
take-append [] ys zero e = refl
take-append [] ys (suc n) e = absurd (omega arith)
take-append (x ∷ xs) ys zero e = absurd (omega arith)
take-append (x ∷ xs) ys (suc n) e = ap (λ (s : Name). x ∷ s) (take-append xs ys n (omega arith))

-- The digits are taken off the line again.
line_back :
    (line : Name) (j : ℕ)
    → take
        (length (line ++ b'_' ∷ to_string j) - 1 - length (to_string j))
        (line ++ b'_' ∷ to_string j)
      ≡ line
line_back line j =
    take-append line (b'_' ∷ to_string j) _ (omega (arith, length-append line (b'_' ∷ to_string j)))

map-append : (f : List ℕ → Name) (xs ys : List (List ℕ)) → map f (xs ++ ys) ≡ map f xs ++ map f ys
map-append f [] ys = refl
map-append f (x ∷ xs) ys = ap (λ (s : List Name). f x ∷ s) (map-append f xs ys)

map-first :
    (line : Name) (j : ℕ) (ts : List (List ℕ))
    → map (λ (t : List ℕ). (line ++ b'_' ∷ to_string j) ++ suffix t) ts
      ≡ map (λ (t : List ℕ). line ++ suffix t) (map (λ (t : List ℕ). j ∷ t) ts)
map-first line j [] = refl
map-first line j (t ∷ ts) = simp (map-first line j ts, append_assoc)

each_line-eq :
    (rest : Name → List Name) (ts : List (List ℕ))
    → ((line : Name) → rest line ≡ map (λ (t : List ℕ). line ++ suffix t) ts)
    → (n j : ℕ) (line : Name)
    → each_line rest n j line ≡ map (λ (t : List ℕ). line ++ suffix t) (each_first n j ts)
each_line-eq rest ts h zero j line = refl
each_line-eq rest ts h (suc n) j line = rw (line_back line j) (
    rw (h (line ++ b'_' ∷ to_string j), map-first line j ts, each_line-eq rest ts h n (suc j) line)
      (sym (
        map-append (λ (t : List ℕ). line ++ suffix t) (map (λ (t : List ℕ). j ∷ t) ts)
          (each_first n (suc j) ts))))

-- The lines are those of all tuples of indices, in lexicographic order.
pub get_permutation-eq :
    (ubs : List ℕ) (line : Name)
    → get_permutation ubs line ≡ map (λ (t : List ℕ). line ++ suffix t) (tuples ubs)
unfolding get_permutation tuples
get_permutation-eq [] line = ap (λ (s : Name). s ∷ []) (sym (append-nil line))
get_permutation-eq (u ∷ ubs) line =
    each_line-eq (get_permutation ubs) (tuples ubs) (get_permutation-eq ubs) u 0 line

pub element_name-eq : (name : Name) (t : List ℕ) → element_name name t ≡ name ++ suffix t
unfolding element_name
element_name-eq name [] = sym (append-nil name)
element_name-eq name (j ∷ t) =
    element_name-eq (name ++ b'_' ∷ to_string j) t
    ∙ append_assoc name (b'_' ∷ to_string j) (suffix t)

-- Digits in front of two suffixes are told from what follows.
digits_apart :
    (d e : Name) (t u : List ℕ)
    → All IsDigit d
    → All IsDigit e
    → d ++ suffix t ≡ e ++ suffix u
    → (d ≡ e) × (suffix t ≡ suffix u)
digits_apart [] [] t u hd he p = (refl, p)
digits_apart [] (c ∷ e) [] u hd he p = cc
digits_apart [] (c ∷ e) (j ∷ t) u hd he p = ground arith
digits_apart (c ∷ d) [] t [] hd he p = cc
digits_apart (c ∷ d) [] t (j ∷ u) hd he p = ground arith
digits_apart (c ∷ d) (c' ∷ e) t u hd he p = ground (arith, digits_apart d e t u)

pub suffix-injective : (t u : List ℕ) → suffix t ≡ suffix u → t ≡ u
suffix-injective [] [] p = refl
suffix-injective [] (j ∷ u) p = cc
suffix-injective (i ∷ t) [] p = cc
suffix-injective (i ∷ t) (j ∷ u) p =
    let parts =
      digits_apart (to_string i) (to_string j) t u (to_string-All i) (to_string-All j) (cc) in
    let first : i ≡ j = to_string-injective i j parts.0 in
    let rest : t ≡ u = suffix-injective t u parts.1 in cc

append-injective : (n : Name) (s t : Name) → n ++ s ≡ n ++ t → s ≡ t
append-injective [] s t p = p
append-injective (c ∷ n) s t p = append-injective n s t (cc)

-- Two elements of a vector never have the same name.
pub element_name-injective :
    (name : Name) (t u : List ℕ) → element_name name t ≡ element_name name u → t ≡ u
element_name-injective name t u p = suffix-injective t u (
    append-injective name (suffix t) (suffix u)
      (sym (element_name-eq name t) ∙ p ∙ element_name-eq name u))

-- The name that an extraction looks up is the one that the lowering gives the element at the same
-- indices: the line at the element's rank, behind the name of the vector.
pub element_name-line :
    (name : Name) (shape t : List ℕ)
    → InBounds t shape
    → (line : Name) × (get_elem? (get_permutation shape []) (rank t shape) ≡ some line)
      × (element_name name t ≡ name ++ line)
element_name-line name shape t h = (
  suffix t,
  ap (λ (ls : List Name). get_elem? ls (rank t shape)) (get_permutation-eq shape [])
      ∙ get_elem?-map (λ (u : List ℕ). [] ++ suffix u) (tuples shape) (rank t shape) t
          (tuples-rank shape t h),
  element_name-eq name t,
)
