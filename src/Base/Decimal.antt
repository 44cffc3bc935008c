-- ===== src/Base/Decimal.antt =====
-- `String(n)` of a natural number: its decimal digits, without leading zeros.
use Prim.Native.Nat.{ℕ, zero, suc, ◌+◌, ◌-◌, ◌*◌, ◌/◌, ◌%◌, ◌<◌}
use mathlib.Core.Path.{◌≡◌, refl, sym, ap, ◌∙◌}
use mathlib.Core.List.{[], ◌∷◌, ◌++◌}
use native.Mathlib.Omega.{arith}
use gokapiplus.Base.Tests.{ltb, if◌then◌else◌, Bool-cases, leb}
use mathlib.Core.Bool.{true, ◌&&◌}
use gokapiplus.Base.Lists.{All, All-append}
use mathlib.Core.Logic.{inl, inr}
use gokapiplus.Base.Text.{Text}

-- On fuel; `n + 1` rounds are enough for `n`.
digits : ℕ → ℕ → Text
digits zero n = []
digits (suc fuel) n =
    let more = digits fuel (n / 10) ++ (48 + n % 10) ∷ [] in
    if ltb n 10 then (48 + n) ∷ [] else more

unfoldable pub decimal : ℕ → Text
unfolding digits
decimal n = digits (suc n) n

-- The number that a digit string stands for.
value_from : ℕ → Text → ℕ
value_from acc [] = acc
value_from acc (d ∷ ds) = value_from (acc * 10 + (d - 48)) ds

value_from-append :
    (acc : ℕ) (s t : Text) → value_from acc (s ++ t) ≡ value_from (value_from acc s) t
unfolding value_from
value_from-append acc [] t = refl
value_from-append acc (d ∷ s) t = value_from-append (acc * 10 + (d - 48)) s t

value-digits : (fuel n : ℕ) → n < fuel → value_from 0 (digits fuel n) ≡ n
unfolding digits value_from
value-digits zero n h = elim h [ ]
value-digits (suc fuel) n h = elim (Bool-cases (ltb n 10)) [
  | inl small ↦ rw small (omega arith)
  | inr large ↦ rw large (
      rw (value_from-append 0 (digits fuel (n / 10)) _, value-digits fuel (n / 10) (ground arith))
        (omega arith))
]

-- Two numbers with one decimal form are equal.
pub decimal_injective : (m n : ℕ) → decimal m ≡ decimal n → m ≡ n
unfolding decimal
decimal_injective m n h =
    let left : value_from 0 (digits (suc m) m) ≡ m = value-digits (suc m) m (omega arith) in
    let right : value_from 0 (digits (suc n) n) ≡ n = value-digits (suc n) n (omega arith) in
    sym left ∙ (ap (value_from 0) h ∙ right)

digits-All : (fuel n : ℕ) → All (λ c. leb 48 c && leb c 57 ≡ true) (digits fuel n)
unfolding digits
digits-All zero n = tt
digits-All (suc fuel) n = elim (Bool-cases (ltb n 10)) [
  | inl small ↦ rw small (ground arith, tt)
  | inr large ↦ rw large (
      All-append (λ c. leb 48 c && leb c 57 ≡ true) (digits fuel (n / 10)) ((48 + n % 10) ∷ [])
        (digits-All fuel (n / 10)) (ground arith, tt))
]

-- A number is written with digits only.
pub decimal-All : (n : ℕ) → All (λ c. leb 48 c && leb c 57 ≡ true) (decimal n)
unfolding decimal
decimal-All n = digits-All (suc n) n

digits-cons : (fuel n : ℕ) → n < fuel → (c : ℕ) × (t : Text) × (digits fuel n ≡ c ∷ t)
unfolding digits
digits-cons zero n h = elim h [ ]
digits-cons (suc fuel) n h = elim (Bool-cases (ltb n 10)) [
  | inl small ↦ rw small (48 + n, [], refl)
  | inr large ↦
      let (c, t, e) = digits-cons fuel (n / 10) (ground arith) in
      rw large (c, t ++ (48 + n % 10) ∷ [], ap (λ s. s ++ (48 + n % 10) ∷ []) e)
]

-- It has a first digit.
pub decimal-cons : (n : ℕ) → (c : ℕ) × (t : Text) × (decimal n ≡ c ∷ t)
unfolding decimal
decimal-cons n = digits-cons (suc n) n (omega arith)
