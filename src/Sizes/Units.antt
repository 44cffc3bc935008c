-- ===== src/Sizes/Units.antt =====
-- The unit that a size is shown in: the loops of `formatSize`, `zipFormatSize` and `getReadableSize`.
use native.Mathlib.Nat.{pow-succ'}
use gokapiplus.Base.{
  ℕ, zero, suc, ◌+◌, ◌*◌, ◌^◌, ◌≤◌, ◌<◌, ◌≡◌, refl, sym, ap, ◌∙◌, ◌⊎◌, inl, inr, leb, leb→le,
  leb→gt, Bool-cases, arith,
}
use gokapiplus.Sizes.{scale}

-- The power of 1024 is that of the index; the number is at least one of the unit, unless the unit
-- is the first; and it is less than one of
-- the next, unless the unit is the last.
pub record IsUnit (last bytes : ℕ) (r : ℕ × ℕ) : Type 0 where
  pub power : r.1 ≡ 1024 ^ r.0
  pub reached : (r.0 ≡ 0) ⊎ (r.1 ≤ bytes)
  pub positive : 0 < r.1
  pub next : (r.0 ≡ last) ⊎ (bytes < 1024 * r.1)

scale-IsUnit_from :
    (last left i bytes div : ℕ)
    → left + i ≡ last
    → div ≡ 1024 ^ i
    → 0 < div
    → (i ≡ 0) ⊎ (div ≤ bytes)
    → IsUnit last bytes (scale left i bytes div)
unfolding scale
scale-IsUnit_from last zero i bytes div e h pos k = record {
  power = h;
  reached = k;
  positive = pos;
  next = inl (omega arith);
}
scale-IsUnit_from last (suc left) i bytes div e h pos k =
    elim (Bool-cases (leb (1024 * div) bytes)) [
      | inl more ↦
          let within = leb→le (1024 * div) bytes more in
          let p : 1024 * div ≡ 1024 ^ suc i = ap (λ n. 1024 * n) h ∙ sym (pow-succ' 1024 i) in
          rw more (
            scale-IsUnit_from last left (suc i) bytes (1024 * div) (omega arith) p (omega arith)
              (inr within))
      | inr less ↦
          rw less (record { power = h; reached = k; positive = pos; next = inr (leb→gt _ _ less) })
    ]

-- The loop stops at the largest of the units that the number reaches.
pub scale-IsUnit : (last bytes : ℕ) → IsUnit last bytes (scale last 0 bytes 1)
scale-IsUnit last bytes =
    scale-IsUnit_from last last 0 bytes 1 (omega arith) refl (omega arith) (inl refl)
