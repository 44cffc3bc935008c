-- ===== src/Sizes/Tenths.antt =====
-- The tenths that a size is rounded to: `toFixed(1)` and `Math.round`.
use native.Mathlib.Omega.{div_any}
use native.Mathlib.Nat.{mod-lt}
use gokapiplus.Base.{ℕ, ◌+◌, ◌*◌, ◌%◌, ◌≤◌, ◌<◌, arith}
use gokapiplus.Sizes.{tenths}

-- The tenths are the nearest to the exact quotient, and of two the larger: they miss it by at most
-- half a tenth.
pub record IsNearest (bytes div t : ℕ) : Type 0 where
  pub low : 2 * div * t ≤ 20 * bytes + div
  pub high : 20 * bytes + div < 2 * div * t + 2 * div

pub tenths-IsNearest : (bytes div : ℕ) → 0 < div → IsNearest bytes div (tenths bytes div)
unfolding tenths
tenths-IsNearest bytes div positive =
    let whole = div_any (20 * bytes + div) (2 * div) in
    let less : (20 * bytes + div) % (2 * div) < 2 * div = mod-lt (20 * bytes + div) (omega arith) in
    record { low = omega arith; high = omega arith }
