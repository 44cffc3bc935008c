-- ===== src/Sizes/Rounds.antt =====
-- The loop of `formatStatBytes` (admin_ui_stats.js) beside that of `getReadableSize` (all_public.js).
use native.Mathlib.Nat.{mul-le-mul_right, mul_assoc}
use gokapiplus.Base.{
  ℕ, zero, suc, ◌+◌, ◌*◌, ◌/◌, ◌^◌, ◌≤◌, ◌<◌, ◌≡◌, refl, ap, ◌∙◌, ◌++◌, inl, inr, true, false, ltb,
  leb, ◌==◌, leb→le, leb→gt, Bool-cases, arith,
}
use gokapiplus.Base.Text.{codes}
use gokapiplus.Sizes.{
  scale, rounds, unit_at, five_units, stat_units, format_stat_bytes, get_readable_size,
}
use gokapiplus.Sizes.Units.{scale-IsUnit}

-- `n` is the whole part of `bytes / div`.
pub record IsWhole (bytes div n : ℕ) : Type 0 where
  pub low : n * div ≤ bytes
  pub high : bytes < suc n * div

more-low : (bytes div n : ℕ) → IsWhole bytes div n → 1024 ≤ n → 1024 * div ≤ bytes
more-low bytes div n h more =
    let m : 1024 * div ≤ n * div = mul-le-mul_right div more in omega (arith, h.low)

less-high : (bytes div n : ℕ) → IsWhole bytes div n → n < 1024 → bytes < 1024 * div
less-high bytes div n h less =
    let m : suc n * div ≤ 1024 * div = mul-le-mul_right div less in omega (arith, h.high)

IsWhole-next : (bytes div n : ℕ) → IsWhole bytes div n → IsWhole bytes (1024 * div) (n / 1024)
IsWhole-next bytes div n h =
    let low : n / 1024 * 1024 * div ≤ n * div = mul-le-mul_right div (omega arith) in
    let high : suc n * div ≤ suc (n / 1024) * 1024 * div = mul-le-mul_right div (omega arith) in
    let e : n / 1024 * 1024 * div ≡ n / 1024 * (1024 * div) = mul_assoc (n / 1024) 1024 div in
    let e' : suc (n / 1024) * 1024 * div ≡ suc (n / 1024) * (1024 * div) =
      mul_assoc (suc (n / 1024)) 1024 div in
    record { low = omega (arith, h.low, e, low); high = omega (arith, h.high, e', high) }

-- `bytes` is less than one of the unit behind the last that is left.
Below : ℕ → ℕ → ℕ → Type 0
Below zero bytes div = bytes < 1024 * div
Below (suc left) bytes div = Below left bytes (1024 * div)

rounds_small : (fuel n : ℕ) → n < 1024 → rounds fuel n ≡ 0
unfolding rounds
rounds_small zero n h = refl
rounds_small (suc fuel) n h = let less : leb 1024 n ≡ false = ground arith in rw less refl

rounds_big :
    (fuel n : ℕ)
    → 1024 ≤ n
    → n ≤ fuel
    → (f : ℕ) × (n / 1024 ≤ f) × (rounds fuel n ≡ suc (rounds f (n / 1024)))
unfolding rounds
rounds_big zero n big enough = absurd (omega arith)
rounds_big (suc fuel) n big enough =
    let more : leb 1024 n ≡ true = ground arith in (fuel, omega arith, rw more refl)

scale-rounds :
    (left fuel i n bytes div : ℕ)
    → IsWhole bytes div n
    → n ≤ fuel
    → Below left bytes div
    → (scale left i bytes div).0 ≡ i + rounds fuel n
unfolding scale Below
scale-rounds zero fuel i n bytes div h enough below = elim (Bool-cases (leb 1024 n)) [
  | inr less ↦ omega (arith, rounds_small fuel n (leb→gt 1024 n less))
  | inl more ↦ absurd (omega (arith, more-low bytes div n h (leb→le 1024 n more)))
]
scale-rounds (suc left) fuel i n bytes div h enough below = elim (Bool-cases (leb 1024 n)) [
  | inr less ↦
      let high = less-high bytes div n h (leb→gt 1024 n less) in
      let stop : leb (1024 * div) bytes ≡ false = ground arith in
      rw stop (omega (arith, rounds_small fuel n (leb→gt 1024 n less)))
  | inl more ↦
      let big = leb→le 1024 n more in
      let low = more-low bytes div n h big in
      let on : leb (1024 * div) bytes ≡ true = ground arith in
      let (f, room, rest) = rounds_big fuel n big enough in
      let ih =
        scale-rounds left f (suc i) (n / 1024) bytes (1024 * div) (IsWhole-next bytes div n h) room
          below in
      rw on (omega (arith, ih, rest))
]

scale_bound : (left i bytes div : ℕ) → (scale left i bytes div).0 ≤ left + i
unfolding scale
scale_bound zero i bytes div = omega arith
scale_bound (suc left) i bytes div = elim (Bool-cases (leb (1024 * div) bytes)) [
  | inl more ↦ rw more (omega (arith, scale_bound left (suc i) bytes (1024 * div)))
  | inr less ↦ rw less (omega arith)
]

-- The units are written in two ways.
unit_same : (e : ℕ) → e ≤ 3 → unit_at (suc e) five_units ≡ unit_at e stat_units ++ codes "o"
unit_same zero h = refl
unit_same (suc zero) h = refl
unit_same (suc (suc zero)) h = refl
unit_same (suc (suc (suc zero))) h = refl
unit_same (suc (suc (suc (suc e)))) h = absurd (omega arith)

scale-rounds_all :
    (bytes : ℕ)
    → 1024 ≤ bytes
    → bytes < 1125899906842624
    → (scale 4 0 bytes 1).0 ≡ suc (rounds bytes (bytes / 1024))
unfolding Below
scale-rounds_all bytes large small =
    let on : leb 1024 bytes ≡ true = ground arith in
    let whole : IsWhole bytes 1024 (bytes / 1024) = record {
      low = omega arith;
      high = omega arith;
    } in
    let e : 1 + rounds bytes (bytes / 1024) ≡ suc (rounds bytes (bytes / 1024)) = omega arith in
    unfold scale in
    rw on (scale-rounds 3 bytes 1 (bytes / 1024) bytes 1024 whole (omega arith) small ∙ e)

-- From 1024 bytes on and below 1024 To, formatStatBytes gives the same text as getReadableSize.
pub format_stat_bytes_same :
    (bytes : ℕ)
    → 1024 ≤ bytes
    → bytes < 1125899906842624
    → format_stat_bytes bytes ≡ get_readable_size bytes
unfolding format_stat_bytes get_readable_size
format_stat_bytes_same bytes large small =
    let e = rounds bytes (bytes / 1024) in
    let first : (scale 4 0 bytes 1).0 ≡ suc e = scale-rounds_all bytes large small in
    let bound = scale_bound 4 0 bytes 1 in
    let unit = scale-IsUnit 4 bytes in
    let p : (scale 4 0 bytes 1).1 ≡ 1024 ^ suc e = unit.power ∙ ap (λ i. 1024 ^ i) first in
    let not_less : ltb bytes 1024 ≡ false = ground arith in
    let not_zero : (bytes == 0) ≡ false = ground arith in
    rw (not_less, not_zero, p, first, unit_same e (omega arith)) refl
