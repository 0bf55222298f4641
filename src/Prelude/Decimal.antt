-- ===== src/Prelude/Decimal.antt =====
-- `str(n)` of a natural number, and joining texts with a separator.
use Prim.Native.Nat.{ℕ, zero, suc, ◌+◌, ◌-◌, ◌*◌, ◌/◌, ◌%◌, ◌≤◌, ◌<◌}
use mathlib.Core.List.{List, [], ◌∷◌, ◌++◌}
use mathlib.Core.Logic.{◌≢◌, inl, inr}
use mathlib.Core.Path.{◌≡◌, refl, sym, ap, ap₂, ◌∙◌}
use native.Mathlib.Omega.{arith}
use haetae.Prelude.Lists.{All, cons-injective}
use haetae.Prelude.Tests.{ltb, if◌then◌else◌, Bool-cases}

-- One digit more than the tenth has. The fuel exceeds the number of digits.
unfoldable pub digits : ℕ → ℕ → List ℕ
digits zero n = []
digits (suc fuel) n =
    let front = digits fuel (n / 10) in
    if ltb n 10 then (48 + n) ∷ [] else front ++ (48 + n % 10) ∷ []

unfoldable pub decimal : ℕ → List ℕ
unfolding digits
decimal n = digits (n + 1) n

value : ℕ → List ℕ → ℕ
value acc [] = acc
value acc (c ∷ cs) = value (acc * 10 + (c - 48)) cs

value-append :
    (acc : ℕ) (cs : List ℕ) (d : ℕ) → value acc (cs ++ (48 + d) ∷ []) ≡ value acc cs * 10 + d
unfolding value
value-append acc [] d = omega arith
value-append acc (c ∷ cs) d = value-append (acc * 10 + (c - 48)) cs d

value-digits : (fuel n : ℕ) → n < fuel → value 0 (digits fuel n) ≡ n
unfolding digits value
value-digits zero n h = elim h [ ]
value-digits (suc fuel) n h = elim (Bool-cases (ltb n 10)) [
  | inl small ↦ rw small (omega arith)
  | inr big ↦
      rw (big, value-append 0 (digits fuel (n / 10)) (n % 10))
        (ground (arith, value-digits fuel (n / 10)))
]

pub decimal-injective : (m n : ℕ) → decimal m ≡ decimal n → m ≡ n
unfolding decimal
decimal-injective m n e =
    sym (value-digits (m + 1) m (omega arith))
    ∙ ap (value 0) e
    ∙ value-digits (n + 1) n (omega arith)

All-append-one : (P : ℕ → Type 0) (xs : List ℕ) (x : ℕ) → All P xs → P x → All P (xs ++ x ∷ [])
All-append-one P [] x h p = (p, tt)
All-append-one P (y ∷ ys) x h p = (h.0, All-append-one P ys x h.1 p)

abbrev pub Digit : ℕ → Type 0
Digit c = (48 ≤ c) × (c ≤ 57)

All-digits : (fuel n : ℕ) → All Digit (digits fuel n)
unfolding digits
All-digits zero n = tt
All-digits (suc fuel) n = elim (Bool-cases (ltb n 10)) [
  | inl small ↦ rw small (ground arith)
  | inr big ↦ rw big (All-append-one Digit _ _ (All-digits fuel (n / 10)) (omega arith))
]

-- Every byte of a decimal number is a digit.
pub decimal-Digit : (n : ℕ) → All Digit (decimal n)
unfolding decimal
decimal-Digit n = All-digits (n + 1) n

-- `sep.join(fields)` of at least one field.
unfoldable pub join : ℕ → List (List ℕ) → List ℕ
join sep [] = []
join sep (x ∷ []) = x
join sep (x ∷ y ∷ ys) = x ++ sep ∷ join sep (y ∷ ys)

abbrev pub Free : ℕ → List ℕ → Type 0
Free sep xs = All (λ c. c ≢ sep) xs

-- A separator that no field holds splits the text in one way.
pub split-injective :
    (sep : ℕ) (x x' : List ℕ) {r r' : List ℕ}
    → Free sep x
    → Free sep x'
    → x ++ sep ∷ r ≡ x' ++ sep ∷ r'
    → (x ≡ x') × (r ≡ r')
split-injective sep [] [] f f' e = (refl, (cons-injective e).1)
split-injective sep [] (y ∷ ys) f f' e = absurd (f'.0 (sym (cons-injective e).0))
split-injective sep (x ∷ xs) [] f f' e = absurd (f.0 (cons-injective e).0)
split-injective sep (x ∷ xs) (y ∷ ys) f f' e =
    let both = split-injective sep xs ys f.1 f'.1 (cons-injective e).1 in
    (ap₂ ◌∷◌ (cons-injective e).0 both.0, both.1)
