-- ===== src/Sizes/Shown.antt =====
-- What `formatSize`, `zipFormatSize` and `getReadableSize` show.
use gokapiplus.Base.{ℕ, ◌<◌, ◌≡◌, refl, false, ◌++◌, ◌==◌, arith}
use gokapiplus.Base.Text.{codes}
use gokapiplus.Sizes.{
  scale, fixed, shortest, unit_at, four_units, five_units, format_size, zip_format_size,
  get_readable_size,
}
use gokapiplus.Sizes.Units.{IsUnit, scale-IsUnit}
use gokapiplus.Sizes.Tenths.{IsNearest, tenths-IsNearest}

-- The upload page shows a size as the nearest tenths of the largest unit up to Go that it reaches.
pub format_size_shows :
    (bytes : ℕ)
    → (r : ℕ × ℕ) × (t : ℕ) × (format_size bytes ≡ fixed t ++ (codes " " ++ unit_at r.0 four_units))
      × IsUnit 3 bytes r
      × IsNearest bytes r.1 t
unfolding format_size
format_size_shows bytes =
    let unit = scale-IsUnit 3 bytes in
    (scale 3 0 bytes 1, _, refl, unit, tenths-IsNearest bytes _ unit.positive)

-- The zip dialog shows a size as the nearest tenths of the largest unit up to Go that it reaches,
-- without a zero behind the comma.
pub zip_format_size_shows :
    (bytes : ℕ)
    → (r : ℕ × ℕ) × (t : ℕ) × (zip_format_size bytes
        ≡ shortest t ++ (codes " " ++ unit_at r.0 four_units))
      × IsUnit 3 bytes r
      × IsNearest bytes r.1 t
unfolding zip_format_size
zip_format_size_shows bytes =
    let unit = scale-IsUnit 3 bytes in
    (scale 3 0 bytes 1, _, refl, unit, tenths-IsNearest bytes _ unit.positive)

-- The lists of the administration show every size but 0 as the nearest tenths of the largest unit
-- up to To that it reaches.
pub get_readable_size_shows :
    (bytes : ℕ)
    → 0 < bytes
    → (r : ℕ × ℕ) × (t : ℕ) × (get_readable_size bytes
        ≡ fixed t ++ (codes " " ++ unit_at r.0 five_units))
      × IsUnit 4 bytes r
      × IsNearest bytes r.1 t
unfolding get_readable_size
get_readable_size_shows bytes positive =
    let unit = scale-IsUnit 4 bytes in
    let some_bytes : (bytes == 0) ≡ false = ground arith in
    (scale 4 0 bytes 1, _, rw some_bytes refl, unit, tenths-IsNearest bytes _ unit.positive)
