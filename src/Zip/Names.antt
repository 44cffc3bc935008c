-- ===== src/Zip/Names.antt =====
-- The archive's filename: trimming, the byte limit, the port of the server's SanitiseFilename and
-- the resolution of what the user typed (admin_ui_zip.js). Strings are lists of code points.
pub mod Trim
pub mod Limit
pub mod Clean
pub mod Resolve
use gokapiplus.Base.{
  ℕ, ◌+◌, ◌-◌, ◌≡◌, refl, Bool, true, false, not, ◌&&◌, ◌||◌, List, [], ◌∷◌, ◌++◌, leb, ltb, ◌==◌,
  if◌then◌else◌, length, take,
}
use gokapiplus.Base.Text.{Text, codes, ends_with, same_text}

abbrev pub zip_filename_max_bytes : ℕ
zip_filename_max_bytes = 400

abbrev pub zip_extension : Text
zip_extension = codes ".zip"

abbrev pub dots : Text
dots = codes "..."

-- ZIP_GO_SPACE_PATTERN; every character of it is one UTF-16 unit.
unfoldable pub is_go_space : ℕ → Bool
is_go_space c =
    (leb 9 c && leb c 13)
    || c == 0x20
    || c == 0x85
    || c == 0xA0
    || c == 0x1680
    || (leb 0x2000 c && leb c 0x200A)
    || c == 0x2028
    || c == 0x2029
    || c == 0x202F
    || c == 0x205F
    || c == 0x3000

-- The loop that moves `start`.
unfoldable pub trim_start : Text → Text
trim_start [] = []
trim_start (c ∷ s) = if is_go_space c then trim_start s else c ∷ s

abbrev pub is_empty : Text → Bool
is_empty [] = true
is_empty (c ∷ s) = false

-- The loop that moves `end`: a space goes when nothing but spaces stands behind it.
unfoldable pub trim_end : Text → Text
trim_end [] = []
trim_end (c ∷ s) = let rest = trim_end s in if is_go_space c && is_empty rest then [] else c ∷ rest

pub zip_trim_go_space : Text → Text
zip_trim_go_space value = trim_end (trim_start value)

-- `encoder.encode(character).length`.
unfoldable pub utf8_size : ℕ → ℕ
utf8_size c = if ltb c 0x80 then 1 else if ltb c 0x800 then 2 else if ltb c 0x10000 then 3 else 4

unfoldable pub zip_utf8_byte_length : Text → ℕ
zip_utf8_byte_length [] = 0
zip_utf8_byte_length (c ∷ s) = utf8_size c + zip_utf8_byte_length s

-- The loop of `zipLimitUtf8Bytes`; `used` counts the bytes kept so far.
unfoldable pub limit_from : ℕ → ℕ → Text → Text
limit_from used max_bytes [] = []
limit_from used max_bytes (c ∷ s) =
    if ltb max_bytes (used + utf8_size c)
    then []
    else c ∷ limit_from (used + utf8_size c) max_bytes s

unfoldable pub zip_limit_utf8_bytes : Text → ℕ → Text
unfolding limit_from
zip_limit_utf8_bytes value max_bytes = limit_from 0 max_bytes value

-- What a decoder makes of the first `room` bytes of an encoded text: a code point cut in two
-- reads as one U+FFFD.
unfoldable pub decode_prefix : ℕ → Text → Text
decode_prefix room [] = []
decode_prefix room (c ∷ s) =
    if leb (utf8_size c) room
    then c ∷ decode_prefix (room - utf8_size c) s
    else if room == 0
    then []
    else 0xFFFD ∷ []

-- `new TextDecoder().decode` drops a byte order mark in front.
abbrev pub drop_mark : Text → Text
drop_mark [] = []
drop_mark (c ∷ s) = if c == 0xFEFF then s else c ∷ s

unfoldable pub truncate : Text → Text
unfolding decode_prefix
truncate name =
    if ltb zip_filename_max_bytes (zip_utf8_byte_length name)
    then drop_mark (decode_prefix zip_filename_max_bytes name) ++ dots
    else name

unfoldable pub is_control : ℕ → Bool
is_control c = leb c 0x1F || c == 0x7F

unfoldable pub remove_controls : Text → Text
remove_controls [] = []
remove_controls (c ∷ s) = if is_control c then remove_controls s else c ∷ remove_controls s

-- /[/\\:*?"<>|\r\n]/
unfoldable pub is_reserved : ℕ → Bool
is_reserved c =
    c == b'/'
    || c == b'\\'
    || c == b':'
    || c == b'*'
    || c == b'?'
    || c == b'"'
    || c == b'<'
    || c == b'>'
    || c == b'|'
    || c == 13
    || c == 10

unfoldable pub replace_reserved : Text → Text
replace_reserved [] = []
replace_reserved (c ∷ s) = (if is_reserved c then b'_' else c) ∷ replace_reserved s

-- /^\.+/
unfoldable pub strip_dots : Text → Text
strip_dots [] = []
strip_dots (c ∷ s) = if c == b'.' then strip_dots s else c ∷ s

unfoldable pub zip_sanitise_filename : Text → Text
zip_sanitise_filename name =
    zip_trim_go_space (strip_dots (replace_reserved (remove_controls (truncate name))))

-- `toLowerCase`, as far as a suffix in ASCII can show: no code point but A to Z has one of the
-- characters of ".zip" at the end of its lower case.
abbrev pub lower_code : ℕ → ℕ
lower_code c = if leb b'A' c && leb c b'Z' then c + 32 else c

unfoldable pub to_lower : Text → Text
to_lower [] = []
to_lower (c ∷ s) = lower_code c ∷ to_lower s

unfoldable pub zip_has_zip_extension : Text → Bool
unfolding ends_with to_lower
zip_has_zip_extension name = ends_with (to_lower name) zip_extension

-- `slice(0, -n)`.
abbrev pub cut_end : ℕ → Text → Text
cut_end n s = take (length s - n) s

unfoldable pub zip_archive_stem : Text → Text
unfolding zip_has_zip_extension
zip_archive_stem name =
    let stem = if ends_with name dots then cut_end 3 name else name in
    if zip_has_zip_extension stem then cut_end 4 stem else stem

-- The test on both results that are handed out.
unfoldable pub fits : Text → Bool
fits name = zip_has_zip_extension name && leb (zip_utf8_byte_length name) zip_filename_max_bytes

-- The second half: the extension is put behind a stem that leaves room for it.
unfoldable pub rebuild_archive_name : Text → Text → Text
rebuild_archive_name sanitised generated_name =
    let stem = zip_trim_go_space (
      zip_limit_utf8_bytes (zip_archive_stem sanitised)
        (zip_filename_max_bytes - length zip_extension)) in
    let rebuilt = if is_empty stem then [] else zip_sanitise_filename (stem ++ zip_extension) in
    if fits rebuilt then rebuilt else generated_name

unfoldable pub zip_resolve_archive_name : Text → Text → Text
zip_resolve_archive_name raw_name generated_name =
    let trimmed = zip_trim_go_space raw_name in
    let with_extension =
      if zip_has_zip_extension trimmed then trimmed else trimmed ++ zip_extension in
    let sanitised = zip_sanitise_filename with_extension in
    if is_empty trimmed
    then generated_name
    else if fits sanitised
    then sanitised
    else rebuild_archive_name sanitised generated_name

tests :
    (zip_trim_go_space (codes " a b ") ≡ codes "a b")
    × (zip_sanitise_filename (codes "..a/b?.zip ") ≡ codes "a_b_.zip")
    × (zip_has_zip_extension (codes "x.ZiP") ≡ true)
    × (zip_archive_stem (codes "x.zip...") ≡ codes "x")
unfolding zip_trim_go_space zip_sanitise_filename zip_has_zip_extension zip_archive_stem is_go_space
    trim_start trim_end strip_dots replace_reserved remove_controls truncate zip_utf8_byte_length
    utf8_size is_control is_reserved
tests = (refl, refl, refl, refl)

resolve_tests :
    (zip_resolve_archive_name (codes "  ") (codes "g.zip") ≡ codes "g.zip")
    × (zip_resolve_archive_name (codes " photos ") (codes "g.zip") ≡ codes "photos.zip")
    × (zip_resolve_archive_name (codes ". .a") (codes "g.zip") ≡ codes ".a.zip")
unfolding zip_resolve_archive_name zip_trim_go_space zip_sanitise_filename zip_has_zip_extension
    zip_archive_stem is_go_space trim_start trim_end strip_dots replace_reserved remove_controls
    truncate zip_utf8_byte_length utf8_size is_control is_reserved fits rebuild_archive_name
resolve_tests = (refl, refl, refl)
