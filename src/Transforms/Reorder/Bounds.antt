-- ===== src/Transforms/Reorder/Bounds.antt =====
-- Bounds: each variable ranges over what it ranged over before the loops were reordered.
use event_queue.Common.{
  ℕ, zero, suc, ◌≡◌, refl, sym, ap, ◌∙◌, subst, some, List, [], ◌∷◌, ◌>>=◌, >>=-eq-some,
  some_injective, check, get_elem?, All,
}
use event_queue.Transforms.Reorder.{
  AffineLoop, pick_bounds, set_bounds, replace_uses, reorder, all_distinct,
}

-- The loop at `position` has the bounds of `l`.
abbrev pub HasBounds : List AffineLoop → ℕ → AffineLoop → Type 0
HasBounds nest position l =
    (m : AffineLoop) × (get_elem? nest position ≡ some m)
    × (m.lower ≡ l.lower)
    × (m.upper ≡ l.upper)

pick_bounds-get_elem? :
    (loops bounds : List AffineLoop) (orders : List ℕ) (k order : ℕ)
    → pick_bounds loops orders ≡ some bounds
    → get_elem? orders k ≡ some order
    → get_elem? bounds k ≡ get_elem? loops order
unfolding pick_bounds
pick_bounds-get_elem? loops bounds [] k order h e = cc
pick_bounds-get_elem? loops bounds (o ∷ orders) zero order h e =
    let (l, first, more) =
      >>=-eq-some (get_elem? loops o) (λ l. pick_bounds loops orders >>= λ ls. some (l ∷ ls)) h in
    let (ls, rest, done) = >>=-eq-some (pick_bounds loops orders) (λ ls. some (l ∷ ls)) more in
    subst (λ z. get_elem? z 0 ≡ get_elem? loops order) (some_injective done)
      (sym first ∙ ap (get_elem? loops) (some_injective e))
pick_bounds-get_elem? loops bounds (o ∷ orders) (suc k) order h e =
    let (l, first, more) =
      >>=-eq-some (get_elem? loops o) (λ l. pick_bounds loops orders >>= λ ls. some (l ∷ ls)) h in
    let (ls, rest, done) = >>=-eq-some (pick_bounds loops orders) (λ ls. some (l ∷ ls)) more in
    subst (λ z. get_elem? z (suc k) ≡ get_elem? loops order) (some_injective done)
      (pick_bounds-get_elem? loops ls orders k order rest e)

set_bounds-HasBounds :
    (loops bounds nest : List AffineLoop) (k : ℕ) (b : AffineLoop)
    → set_bounds loops bounds ≡ some nest
    → get_elem? bounds k ≡ some b
    → HasBounds nest k b
unfolding set_bounds
set_bounds-HasBounds loops [] nest k b h e = cc
set_bounds-HasBounds [] (c ∷ bs) nest k b h e = cc
set_bounds-HasBounds (l ∷ loops) (c ∷ bs) nest zero b h e =
    let (rest, set, done) =
      >>=-eq-some (set_bounds loops bs)
        (λ rest. some (record l { lower = c.lower; upper = c.upper } ∷ rest)) h in
    let is : c ≡ b = some_injective e in
    subst (λ z. HasBounds z 0 b) (some_injective done)
      (
        record l { lower = c.lower; upper = c.upper },
        refl,
        ap (λ (z : AffineLoop). z.lower) is,
        ap (λ (z : AffineLoop). z.upper) is,
      )
set_bounds-HasBounds (l ∷ loops) (c ∷ bs) nest (suc k) b h e =
    let (rest, set, done) =
      >>=-eq-some (set_bounds loops bs)
        (λ rest. some (record l { lower = c.lower; upper = c.upper } ∷ rest)) h in
    subst (λ z. HasBounds z (suc k) b) (some_injective done)
      (set_bounds-HasBounds loops bs rest k b set e)

-- The uses that are replaced, each by a variable with the bounds of the loop that they named.
abbrev pub AllRangeAlike : List AffineLoop → List AffineLoop → List (ℕ × ℕ) → Type 0
AllRangeAlike loops nest uses =
    All (λ u. (l : AffineLoop) → get_elem? loops u.0 ≡ some l → HasBounds nest u.1 l) uses

replace_uses-RangeAlike :
    (loops bounds nest : List AffineLoop) (orders ks : List ℕ) (uses : List (ℕ × ℕ))
    → pick_bounds loops orders ≡ some bounds
    → set_bounds loops bounds ≡ some nest
    → replace_uses orders ks ≡ some uses
    → AllRangeAlike loops nest uses
unfolding replace_uses
replace_uses-RangeAlike loops bounds nest orders [] uses picked set h =
    subst (AllRangeAlike loops nest) (some_injective h) tt
replace_uses-RangeAlike loops bounds nest orders (k ∷ ks) uses picked set h =
    let (loop, named, more) =
      >>=-eq-some (get_elem? orders k)
        (λ loop. replace_uses orders ks >>= λ rest. some ((loop, k) ∷ rest)) h in
    let (rest, others, done) =
      >>=-eq-some (replace_uses orders ks) (λ rest. some ((loop, k) ∷ rest)) more in
    subst (AllRangeAlike loops nest) (some_injective done) (
      λ l there.
          set_bounds-HasBounds loops bounds nest k l set
            (pick_bounds-get_elem? loops bounds orders k loop picked named ∙ there),
      replace_uses-RangeAlike loops bounds nest orders ks rest picked set others,
    )

-- Behind the pass, the variable that stands for a loop's variable is that of a loop with the bounds
-- that the loop had.
pub reorder-RangeAlike :
    (loops nest : List AffineLoop) (orders : List ℕ) (uses : List (ℕ × ℕ))
    → reorder loops orders ≡ some (nest, uses)
    → AllRangeAlike loops nest uses
unfolding reorder
reorder-RangeAlike loops nest orders uses h =
    let (bounds, picked, more) = >>=-eq-some (pick_bounds loops orders) _ h in
    let (nest', set, more') = >>=-eq-some (set_bounds loops bounds) _ more in
    let (_, _, more'') = >>=-eq-some (check (all_distinct orders)) _ more' in
    let (uses', replaced, done) = >>=-eq-some (replace_uses orders orders) _ more'' in
    let is : (nest', uses') ≡ (nest, uses) = some_injective done in
    subst (λ z. AllRangeAlike loops z.0 z.1) is
      (replace_uses-RangeAlike loops bounds nest' orders orders uses' picked set replaced)
