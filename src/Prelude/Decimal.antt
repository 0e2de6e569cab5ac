-- ===== src/Prelude/Decimal.antt =====
-- fmt.Sprintf("%d", n) for a number that is not negative, and that different numbers print apart.
use Prim.Native.Nat.{ℕ, zero, suc, ◌+◌, ◌-◌, ◌*◌, ◌/◌, ◌%◌, ◌<◌}
use mathlib.Core.Path.{◌≡◌, refl, sym, ap, ◌∙◌}
use mathlib.Core.List.{[], ◌∷◌, ◌++◌}
use native.Mathlib.Omega.{arith}
use gotasks.Prelude.Tests.{ltb, if◌then◌else◌, Bool-cases}
use gotasks.Prelude.Text.{Text}
use mathlib.Core.Logic.{inl, inr}

-- Digits from the back; a number has fewer digits than its value plus two, so `suc n` is fuel enough.
digits : ℕ → ℕ → Text
digits zero n = []
digits (suc f) n =
    let front = digits f (n / 10) in if ltb n 10 then (48 + n) ∷ [] else front ++ (48 + n % 10) ∷ []

unfoldable pub decimal : ℕ → Text
unfolding digits
decimal n = digits (suc n) n

-- The number that a list of digits stands for, after those already read.
value : ℕ → Text → ℕ
value acc [] = acc
value acc (c ∷ cs) = value (acc * 10 + (c - 48)) cs

value-append : (acc : ℕ) (xs ys : Text) → value acc (xs ++ ys) ≡ value (value acc xs) ys
unfolding value
value-append acc [] ys = refl
value-append acc (x ∷ xs) ys = value-append (acc * 10 + (x - 48)) xs ys

value-digits : (f n : ℕ) → n < f → value 0 (digits f n) ≡ n
unfolding value digits
value-digits zero n h = absurd (omega arith)
value-digits (suc f) n h = elim (Bool-cases (ltb n 10)) [
  | inl small ↦ rw small (omega arith)
  | inr large ↦
      let smaller : n / 10 < f = ground arith in
      rw (large, value-append 0 (digits f (n / 10)) ((48 + n % 10) ∷ []))
        (omega (arith, value-digits f (n / 10) smaller))
]

-- Printing loses nothing.
value-decimal : (n : ℕ) → value 0 (decimal n) ≡ n
unfolding decimal
value-decimal n = value-digits (suc n) n (omega arith)

pub decimal-injective : (m n : ℕ) → decimal m ≡ decimal n → m ≡ n
decimal-injective m n e = sym (value-decimal m) ∙ ap (value 0) e ∙ value-decimal n

decimal_runs : decimal 2048 ≡ 50 ∷ 48 ∷ 52 ∷ 56 ∷ []
unfolding decimal
decimal_runs = refl
