-- ===== src/Users/Bits.antt =====
-- The permissions of a user as bits of a number: `PermissionDefinitions` and `hasPermission`
-- (admin_ui_users.js).
use gokapiplus.Base.{
  ℕ, zero, suc, ◌+◌, ◌*◌, ◌/◌, ◌%◌, ◌^◌, Bool, true, not, ◌==◌, ◌≡◌, refl, ap, ◌∙◌, arith, ltb,
}

-- `&` on the lowest bits of two numbers.
unfoldable pub bit_and : ℕ → ℕ → ℕ → ℕ
bit_and zero a b = 0
bit_and (suc width) a b = a % 2 * (b % 2) + 2 * bit_and width (a / 2) (b / 2)

-- `&` works on 32 bits.
unfoldable pub has_permission : ℕ → ℕ → Bool
unfolding bit_and
has_permission user_perm permission_bit = not (bit_and 32 user_perm permission_bit == 0)

-- The binary digit at a place.
unfoldable pub digit_at : ℕ → ℕ → Bool
digit_at zero a = a % 2 == 1
digit_at (suc place) a = digit_at place (a / 2)

bit_and-zero : (width a : ℕ) → bit_and width a 0 ≡ 0
unfolding bit_and
bit_and-zero zero a = refl
bit_and-zero (suc width) a = rw (bit_and-zero width (a / 2)) (omega arith)

double_zero : (n : ℕ) → (0 + 2 * n == 0) ≡ (n == 0)
double_zero n = ground arith

even : (t : ℕ) → 2 * t % 2 ≡ 0
even t = omega arith

half : (t : ℕ) → 2 * t / 2 ≡ t
half t = omega arith

smaller : (m n : ℕ) → ltb (suc m) (suc n) ≡ true → ltb m n ≡ true
smaller m n h = ground arith

bit_and-power :
    (width place a : ℕ)
    → ltb place width ≡ true
    → not (bit_and width a (2 ^ place) == 0) ≡ digit_at place a
unfolding bit_and digit_at
bit_and-power zero place a h = ground arith
bit_and-power (suc width) zero a h = rw (bit_and-zero width (a / 2)) (ground arith)
bit_and-power (suc width) (suc place) a h =
    let t : ℕ = 2 ^ place in
    let power : 2 ^ suc place ≡ 2 * t = omega arith in
    let low : a % 2 * (2 ^ suc place % 2) ≡ 0 = rw (power, even t) (omega arith) in
    let high : 2 ^ suc place / 2 ≡ t = rw power (half t) in
    rw (low, high)
      (ap not (double_zero (bit_and width (a / 2) t))
        ∙ bit_and-power width place (a / 2) (smaller place width h))

pub has_permission-digit_at :
    (place perm : ℕ) → ltb place 32 ≡ true → has_permission perm (2 ^ place) ≡ digit_at place perm
unfolding has_permission
has_permission-digit_at place perm h = bit_and-power 32 place perm h
