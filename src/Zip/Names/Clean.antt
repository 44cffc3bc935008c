-- ===== src/Zip/Names/Clean.antt =====
-- What `zipSanitiseFilename` removes, and the names that it leaves alone (admin_ui_zip.js).
use gokapiplus.Base.{ℕ, ◌≤◌, ◌≡◌, ◌≢◌, refl, ap, ◌∙◌, false, if◌then◌else◌, [], ◌∷◌, arith, All}
use gokapiplus.Base.Text.{Text}
use gokapiplus.Zip.Names.{
  is_go_space, zip_filename_max_bytes, zip_utf8_byte_length, truncate, is_control, remove_controls,
  is_reserved, replace_reserved, strip_dots, zip_sanitise_filename,
}
use gokapiplus.Zip.Names.Trim.{
  IsTrimmed, zip_trim_go_space_split, zip_trim_go_space_of_IsTrimmed, zip_trim_go_space-cons,
  All-zip_trim_go_space,
}

-- A character that may stand in a stored filename.
pub record IsAllowed (c : ℕ) : Type 0 where
  pub printable : is_control c ≡ false
  pub usable : is_reserved c ≡ false

abbrev pub NoDotInFront : Text → Type 0
NoDotInFront [] = Unit
NoDotInFront (c ∷ s) = c ≢ b'.'

All-remove_controls : (s : Text) → All (λ c. is_control c ≡ false) (remove_controls s)
unfolding remove_controls
All-remove_controls [] = tt
All-remove_controls (c ∷ s) = ground (arith, All-remove_controls s)

IsAllowed-replaced : (c : ℕ) → is_control c ≡ false → IsAllowed (if is_reserved c then b'_' else c)
unfolding is_control is_reserved
IsAllowed-replaced c h = ground arith

All-replace_reserved :
    (s : Text) → All (λ c. is_control c ≡ false) s → All IsAllowed (replace_reserved s)
unfolding replace_reserved
All-replace_reserved [] h = tt
All-replace_reserved (c ∷ s) h = (IsAllowed-replaced c h.0, All-replace_reserved s h.1)

All-strip_dots : (s : Text) → All IsAllowed s → All IsAllowed (strip_dots s)
unfolding strip_dots
All-strip_dots [] h = tt
All-strip_dots (c ∷ s) h = ground (arith, All-strip_dots s h.1)

-- A sanitised name has no control character and no reserved one.
pub zip_sanitise_filename-IsAllowed : (name : Text) → All IsAllowed (zip_sanitise_filename name)
unfolding zip_sanitise_filename
zip_sanitise_filename-IsAllowed name =
    All-zip_trim_go_space IsAllowed _
      (All-strip_dots _ (All-replace_reserved _ (All-remove_controls (truncate name))))

-- Whatever the name, the result has no space at either end.
pub zip_sanitise_filename-IsTrimmed : (name : Text) → IsTrimmed (zip_sanitise_filename name)
unfolding zip_sanitise_filename
zip_sanitise_filename-IsTrimmed name = (zip_trim_go_space_split _).5

remove_controls_of_IsAllowed : (s : Text) → All IsAllowed s → remove_controls s ≡ s
unfolding remove_controls
remove_controls_of_IsAllowed [] h = refl
remove_controls_of_IsAllowed (c ∷ s) h =
    rw (h.0.printable) (ap (λ t. c ∷ t) (remove_controls_of_IsAllowed s h.1))

replace_reserved_of_IsAllowed : (s : Text) → All IsAllowed s → replace_reserved s ≡ s
unfolding replace_reserved
replace_reserved_of_IsAllowed [] h = refl
replace_reserved_of_IsAllowed (c ∷ s) h =
    rw (h.0.usable) (ap (λ t. c ∷ t) (replace_reserved_of_IsAllowed s h.1))

strip_dots_of_NoDotInFront : (s : Text) → NoDotInFront s → strip_dots s ≡ s
unfolding strip_dots
strip_dots_of_NoDotInFront [] h = refl
strip_dots_of_NoDotInFront (c ∷ s) h = ground arith

truncate_of_le : (s : Text) → zip_utf8_byte_length s ≤ zip_filename_max_bytes → truncate s ≡ s
unfolding truncate
truncate_of_le s h = ground arith

-- A name of at most 400 bytes, of allowed characters, with no dot in front and no space at either
-- end is left as it is.
pub zip_sanitise_filename_stable :
    (s : Text)
    → zip_utf8_byte_length s ≤ zip_filename_max_bytes
    → All IsAllowed s
    → NoDotInFront s
    → IsTrimmed s
    → zip_sanitise_filename s ≡ s
unfolding zip_sanitise_filename
zip_sanitise_filename_stable s within allowed dotless trimmed =
    rw
      (
        truncate_of_le s within,
        remove_controls_of_IsAllowed s allowed,
        replace_reserved_of_IsAllowed s allowed,
        strip_dots_of_NoDotInFront s dotless,
      )
      (zip_trim_go_space_of_IsTrimmed s trimmed)

-- Leading dots go before the spaces behind them: of an allowed name behind a dot and a space, the
-- dot and the space go, and a second dot stays.
pub zip_sanitise_filename_dot_space :
    (s : Text)
    → zip_utf8_byte_length (b'.' ∷ 0x20 ∷ s) ≤ zip_filename_max_bytes
    → All IsAllowed s
    → IsTrimmed s
    → zip_sanitise_filename (b'.' ∷ 0x20 ∷ s) ≡ s
unfolding zip_sanitise_filename is_control is_reserved remove_controls replace_reserved strip_dots
zip_sanitise_filename_dot_space s within allowed trimmed =
    rw
      (
        truncate_of_le (b'.' ∷ 0x20 ∷ s) within,
        remove_controls_of_IsAllowed s allowed,
        replace_reserved_of_IsAllowed s allowed,
      )
      (zip_trim_go_space-cons 0x20 s (unfold is_go_space in refl)
        ∙ zip_trim_go_space_of_IsTrimmed s trimmed)

-- One dot in front of an allowed name goes.
pub zip_sanitise_filename-dot :
    (s : Text)
    → zip_utf8_byte_length (b'.' ∷ s) ≤ zip_filename_max_bytes
    → All IsAllowed s
    → NoDotInFront s
    → IsTrimmed s
    → zip_sanitise_filename (b'.' ∷ s) ≡ s
unfolding zip_sanitise_filename is_control is_reserved remove_controls replace_reserved strip_dots
zip_sanitise_filename-dot s within allowed dotless trimmed =
    rw
      (
        truncate_of_le (b'.' ∷ s) within,
        remove_controls_of_IsAllowed s allowed,
        replace_reserved_of_IsAllowed s allowed,
        strip_dots_of_NoDotInFront s dotless,
      )
      (zip_trim_go_space_of_IsTrimmed s trimmed)
