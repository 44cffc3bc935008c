-- ===== src/Sizes.antt =====
-- Sizes for display: `getReadableSize` and its variants in
-- internal/webserver/web/static/js/all_public.js, `formatSize` of public_upload.js,
-- `zipFormatSize` of admin_ui_zip.js and `formatStatBytes` of admin_ui_stats.js, on whole numbers of
-- bytes. Divisions by 1024 are exact in binary floating point, and so are the tenths of a size
-- below 2 ^ 49 bytes, so a size is kept as the number of bytes over a power of 1024.
pub mod Tenths
pub mod Units
pub mod Shown
pub mod Rounds
mod Examples
use gokapiplus.Base.{
  ℕ, zero, suc, ◌+◌, ◌-◌, ◌*◌, ◌/◌, ◌%◌, ◌^◌, ◌≡◌, refl, Bool, true, false, ◌||◌, not, ◌&&◌, List,
  [], ◌∷◌, ◌++◌, ltb, leb, ◌==◌, if◌then◌else◌, length, take, drop,
}
use gokapiplus.Base.Text.{Text, codes, same_text}
use gokapiplus.Base.Decimal.{decimal}

-- `bytes / div`, in tenths, halves upwards, which is what `toFixed(1)` and
-- `Math.round(size * 10)` give for an exact quotient.
unfoldable pub tenths : ℕ → ℕ → ℕ
tenths bytes div = (20 * bytes + div) / (2 * div)

-- A number of tenths with its decimal comma, as `toFixed(1)` writes it.
abbrev pub fixed : ℕ → Text
fixed t = decimal (t / 10) ++ (codes "," ++ decimal (t % 10))

-- The same without ",0", as `String` writes a number.
unfoldable pub shortest : ℕ → Text
shortest t = if t % 10 == 0 then decimal (t / 10) else fixed t

-- The loop `while (bytes >= 1024 && i < units.length - 1)`: the index of the unit and the power of
-- 1024 that the number has been divided by. `left` is the number of units that are left.
unfoldable pub scale : ℕ → ℕ → ℕ → ℕ → ℕ × ℕ
scale zero i bytes div = (i, div)
scale (suc left) i bytes div =
    let rest = scale left (suc i) bytes (1024 * div) in
    if leb (1024 * div) bytes then rest else (i, div)

abbrev pub unit_at : ℕ → List Text → Text
unit_at n [] = []
unit_at zero (unit ∷ units) = unit
unit_at (suc n) (unit ∷ units) = unit_at n units

abbrev pub four_units : List Text
four_units = codes "o" ∷ codes "ko" ∷ codes "Mo" ∷ codes "Go" ∷ []

abbrev pub five_units : List Text
five_units = codes "o" ∷ codes "ko" ∷ codes "Mo" ∷ codes "Go" ∷ codes "To" ∷ []

unfoldable pub format_size : ℕ → Text
unfolding scale tenths
format_size bytes =
    let (i, div) = scale 3 0 bytes 1 in
    fixed (tenths bytes div) ++ (codes " " ++ unit_at i four_units)

unfoldable pub zip_format_size : ℕ → Text
unfolding scale tenths shortest
zip_format_size bytes =
    let (i, div) = scale 3 0 bytes 1 in
    shortest (tenths bytes div) ++ (codes " " ++ unit_at i four_units)

unfoldable pub get_readable_size : ℕ → Text
unfolding scale tenths
get_readable_size bytes =
    let (i, div) = scale 4 0 bytes 1 in
    if bytes == 0
    then codes "0 o"
    else fixed (tenths bytes div) ++ (codes " " ++ unit_at i five_units)

-- `while (units[i] != unit && i < units.length - 1)`.
unfoldable pub index_of_unit : Text → List Text → ℕ
unfolding same_text
index_of_unit unit [] = 0
index_of_unit unit (u ∷ []) = 0
index_of_unit unit (u ∷ v ∷ units) =
    let rest = index_of_unit unit (v ∷ units) in if same_text u unit then 0 else suc rest

unfoldable pub get_readable_size_in_unit : ℕ → Text → Text
unfolding tenths index_of_unit
get_readable_size_in_unit bytes unit =
    if bytes == 0 then codes "0 o" else fixed (tenths bytes (1024 ^ index_of_unit unit five_units))

-- `slice(-n)`.
abbrev pub last_part : ℕ → Text → Text
last_part n s = drop (length s - n) s

-- The number and the unit that `insertReadableSizeTwoOutputs` writes.
unfoldable pub two_outputs : ℕ → Text × Text
unfolding get_readable_size
two_outputs bytes =
    let result = get_readable_size bytes in
    if ltb bytes 1024
    then (decimal bytes, codes "o")
    else (take (length result - 3) result, last_part 2 result)

-- The loop of `formatStatBytes`, on `n`: how often it goes round. On fuel.
unfoldable pub rounds : ℕ → ℕ → ℕ
rounds zero n = 0
rounds (suc fuel) n = let rest = rounds fuel (n / 1024) in if leb 1024 n then suc rest else 0

abbrev pub stat_units : List Text
stat_units = codes "k" ∷ codes "M" ∷ codes "G" ∷ codes "T" ∷ codes "P" ∷ codes "E" ∷ []

unfoldable pub format_stat_bytes : ℕ → Text
unfolding rounds tenths
format_stat_bytes bytes =
    let exp = rounds bytes (bytes / 1024) in
    if ltb bytes 1024
    then decimal bytes ++ codes " o"
    else fixed (tenths bytes (1024 ^ suc exp))
      ++ (codes " " ++ (unit_at exp stat_units ++ codes "o"))

size_runs :
    (format_size 1536 ≡ codes "1,5 ko")
    × (zip_format_size 2097152 ≡ codes "2 Mo")
    × (get_readable_size 1023 ≡ codes "1023,0 o")
    × (format_stat_bytes 1536 ≡ codes "1,5 ko")
    × (two_outputs 1536 ≡ (codes "1,5", codes "ko"))
unfolding format_size zip_format_size get_readable_size format_stat_bytes two_outputs decimal
size_runs = (refl, refl, refl, refl, refl)
