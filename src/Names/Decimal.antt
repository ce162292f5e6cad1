-- ===== src/Names/Decimal.antt =====
-- `std::to_string` on numbers that are not negative, and how its digits read.
use event_queue.Common.{
  ℕ, zero, suc, ◌+◌, ◌-◌, ◌*◌, ◌/◌, ◌%◌, ◌≤◌, ◌<◌, ◌≡◌, sym, ap, ◌∙◌, List, [], ◌∷◌, arith, ltb,
  if◌then◌else◌, All,
}

-- Each round takes the last digit; `n + 1` rounds are enough for `n`.
unfoldable pub digits : ℕ → ℕ → List ℕ → List ℕ
digits zero n out = out
digits (suc fuel) n out =
    let rest = digits fuel (n / 10) ((b'0' + n % 10) ∷ out) in
    if ltb n 10 then (b'0' + n) ∷ out else rest

unfoldable pub to_string : ℕ → List ℕ
unfolding digits
to_string n = digits (suc n) n []

abbrev pub IsDigit : ℕ → Type 0
IsDigit c = (b'0' ≤ c) × (c ≤ b'9')

digits-All : (fuel n : ℕ) (out : List ℕ) → All IsDigit out → All IsDigit (digits fuel n out)
unfolding digits
digits-All zero n out h = h
digits-All (suc fuel) n out h = ground (arith, digits-All fuel (n / 10) ((b'0' + n % 10) ∷ out))

pub to_string-All : (n : ℕ) → All IsDigit (to_string n)
unfolding to_string
to_string-All n = digits-All (suc n) n [] tt

read_on : ℕ → List ℕ → ℕ
read_on a [] = a
read_on a (c ∷ cs) = read_on (a * 10 + (c - b'0')) cs

read_on-digits :
    (fuel n : ℕ) (out : List ℕ) → n < fuel → read_on 0 (digits fuel n out) ≡ read_on n out
unfolding digits read_on
read_on-digits zero n out h = elim h [ ]
read_on-digits (suc fuel) n out h =
    ground (arith, read_on-digits fuel (n / 10) ((b'0' + n % 10) ∷ out))

-- Different numbers have different digits.
pub to_string-injective : (m n : ℕ) → to_string m ≡ to_string n → m ≡ n
unfolding to_string read_on
to_string-injective m n e =
    sym (read_on-digits (suc m) m [] (omega arith))
    ∙ ap (read_on 0) e
    ∙ read_on-digits (suc n) n [] (omega arith)
