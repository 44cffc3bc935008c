-- ===== src/Zip/Names/Resolve.antt =====
-- What `zipResolveArchiveName` returns, branch by branch (admin_ui_zip.js).
use gokapiplus.Base.{
  ℕ, ◌+◌, ◌-◌, ◌≤◌, ◌≡◌, refl, ◌⊎◌, Bool, if◌then◌else◌, inl, inr, true, false, [], ◌∷◌, ◌++◌,
  arith, and_true, All, length, leb→le, le→leb,
}
use gokapiplus.Base.Text.{Text, codes, ends_with-cons}
use gokapiplus.Zip.Names.{
  is_empty, fits, zip_extension, zip_archive_stem, zip_limit_utf8_bytes, zip_filename_max_bytes,
  zip_utf8_byte_length, utf8_size, zip_sanitise_filename, zip_has_zip_extension, to_lower,
  zip_trim_go_space, rebuild_archive_name, zip_resolve_archive_name, is_go_space, is_control,
  is_reserved,
}
use gokapiplus.Zip.Names.Trim.{
  EndsPlain, IsTrimmed, IsBlank, zip_trim_go_space_of_IsTrimmed, zip_trim_go_space_of_IsBlank,
}
use gokapiplus.Zip.Names.Clean.{
  IsAllowed, NoDotInFront, zip_sanitise_filename-IsAllowed, zip_sanitise_filename-IsTrimmed,
  zip_sanitise_filename_stable, zip_sanitise_filename_dot_space, zip_sanitise_filename-dot,
}

-- A name that the archive may be stored under.
pub record IsArchiveName (s : Text) : Type 0 where
  pub extension : zip_has_zip_extension s ≡ true
  pub within : zip_utf8_byte_length s ≤ zip_filename_max_bytes
  pub allowed : All IsAllowed s
  pub trimmed : IsTrimmed s

sanitised-IsArchiveName :
    (name : Text)
    → fits (zip_sanitise_filename name) ≡ true
    → IsArchiveName (zip_sanitise_filename name)
unfolding fits
sanitised-IsArchiveName name h =
    let (extension, within) = and_true _ _ h in
    record {
      extension = extension;
      within = leb→le _ _ within;
      allowed = zip_sanitise_filename-IsAllowed name;
      trimmed = zip_sanitise_filename-IsTrimmed name;
    }

not_fits-nil : fits [] ≡ false
unfolding fits zip_has_zip_extension
not_fits-nil = refl

abbrev Outcome : Text → Text → Type 0
Outcome generated result = (result ≡ generated) ⊎ IsArchiveName result

Outcome-if :
    (generated x y : Text) (b : Bool)
    → (b ≡ true → Outcome generated x)
    → Outcome generated y
    → Outcome generated (if b then x else y)
Outcome-if generated x y true hx hy = hx refl
Outcome-if generated x y false hx hy = hy

abbrev rebuilt : Text → Text
rebuilt stem = if is_empty stem then [] else zip_sanitise_filename (stem ++ zip_extension)

rebuilt-IsArchiveName : (stem : Text) → fits (rebuilt stem) ≡ true → IsArchiveName (rebuilt stem)
rebuilt-IsArchiveName [] h = cc not_fits-nil
rebuilt-IsArchiveName (c ∷ s) h = sanitised-IsArchiveName _ h

rebuild_outcome :
    (sanitised generated : Text) → Outcome generated (rebuild_archive_name sanitised generated)
unfolding rebuild_archive_name
rebuild_outcome sanitised generated =
    let stem = zip_trim_go_space (
      zip_limit_utf8_bytes (zip_archive_stem sanitised)
        (zip_filename_max_bytes - length zip_extension)) in
    Outcome-if generated (rebuilt stem) generated (fits (rebuilt stem))
      (λ h. inr (rebuilt-IsArchiveName stem h)) (inl refl)

sanitised_outcome :
    (name generated : Text)
    → Outcome generated (
        if fits (zip_sanitise_filename name)
        then zip_sanitise_filename name
        else rebuild_archive_name (zip_sanitise_filename name) generated)
sanitised_outcome name generated =
    Outcome-if generated (zip_sanitise_filename name) _ (fits (zip_sanitise_filename name))
      (λ h. inr (sanitised-IsArchiveName name h)) (rebuild_outcome _ generated)

-- The resolved archive name is the generated name, or has the extension, at most 400 bytes,
-- allowed characters only, and no space at either end.
pub zip_resolve_archive_name_outcome :
    (raw generated : Text)
    → (zip_resolve_archive_name raw generated ≡ generated)
      ⊎ IsArchiveName (zip_resolve_archive_name raw generated)
unfolding zip_resolve_archive_name
zip_resolve_archive_name_outcome raw generated =
    let trimmed = zip_trim_go_space raw in
    Outcome-if generated generated _ (is_empty trimmed) (λ h. inl refl)
      (sanitised_outcome
        (if zip_has_zip_extension trimmed then trimmed else trimmed ++ zip_extension) generated)

-- If the generated name passes the sanitiser unchanged and the resolved name does not begin with a
-- dot, the resolved name passes it unchanged.
pub zip_resolve_archive_name_stable :
    (raw generated : Text)
    → zip_sanitise_filename generated ≡ generated
    → NoDotInFront (zip_resolve_archive_name raw generated)
    → zip_sanitise_filename (zip_resolve_archive_name raw generated)
      ≡ zip_resolve_archive_name raw generated
zip_resolve_archive_name_stable raw generated h dotless =
    elim (zip_resolve_archive_name_outcome raw generated) [
      | inl same ↦ rw same h
      | inr good ↦ zip_sanitise_filename_stable _ good.within good.allowed dotless good.trimmed
    ]

-- A blank name keeps the generated one.
pub zip_resolve_archive_name_of_IsBlank :
    (raw generated : Text) → IsBlank raw → zip_resolve_archive_name raw generated ≡ generated
unfolding zip_resolve_archive_name
zip_resolve_archive_name_of_IsBlank raw generated h = rw (zip_trim_go_space_of_IsBlank raw h)

fits_of_IsArchiveName : (s : Text) → IsArchiveName s → fits s ≡ true
unfolding fits
fits_of_IsArchiveName s h = rw (h.extension, le→leb _ _ h.within)

is_empty_of_extension : (s : Text) → zip_has_zip_extension s ≡ true → is_empty s ≡ false
unfolding zip_has_zip_extension
is_empty_of_extension [] h = cc
is_empty_of_extension (c ∷ s) h = refl

-- A name that is fit to be stored and does not begin with a dot is kept as it was typed.
pub zip_resolve_archive_name_keeps :
    (s generated : Text)
    → IsArchiveName s
    → NoDotInFront s
    → zip_resolve_archive_name s generated ≡ s
unfolding zip_resolve_archive_name
zip_resolve_archive_name_keeps s generated h dotless = rw (
  zip_trim_go_space_of_IsTrimmed s h.trimmed,
  h.extension,
  zip_sanitise_filename_stable s h.within h.allowed dotless h.trimmed,
  fits_of_IsArchiveName s h,
  is_empty_of_extension s h.extension,
)

has_extension-cons :
    (c : ℕ) (s : Text) → zip_has_zip_extension s ≡ true → zip_has_zip_extension (c ∷ s) ≡ true
unfolding zip_has_zip_extension
has_extension-cons c s h = ends_with-cons _ (to_lower s) zip_extension h

EndsPlain-cons : (c : ℕ) (s : Text) → is_go_space c ≡ false → EndsPlain s → EndsPlain (c ∷ s)
EndsPlain-cons c [] p h = p
EndsPlain-cons c (d ∷ s) p h = h

dotted-IsTrimmed : (s : Text) → IsTrimmed s → IsTrimmed (b'.' ∷ s)
unfolding is_go_space
dotted-IsTrimmed s h = record { front = refl; back = EndsPlain-cons b'.' s refl h.back }

dotted-IsAllowed : (s : Text) → All IsAllowed s → All IsAllowed (b'.' ∷ s)
unfolding is_control is_reserved
dotted-IsAllowed s h = (record { printable = refl; usable = refl }, h)

dot_space_dot-IsTrimmed : (s : Text) → IsTrimmed s → IsTrimmed (b'.' ∷ 0x20 ∷ b'.' ∷ s)
unfolding is_go_space
dot_space_dot-IsTrimmed s h = record { front = refl; back = EndsPlain-cons b'.' s refl h.back }

-- Typed behind ". .", a name that is fit to be stored, does not begin with a dot and has three
-- bytes to spare comes back with one dot in front, which a further pass of the sanitiser takes
-- away.
pub zip_resolve_archive_name_dotted :
    (s generated : Text)
    → IsArchiveName s
    → NoDotInFront s
    → zip_utf8_byte_length s + 3 ≤ zip_filename_max_bytes
    → (zip_resolve_archive_name (codes ". ." ++ s) generated ≡ b'.' ∷ s)
      × (zip_sanitise_filename (b'.' ∷ s) ≡ s)
unfolding zip_resolve_archive_name
zip_resolve_archive_name_dotted s generated h dotless room =
    let dot = dotted-IsTrimmed s h.trimmed in
    let all = dotted-IsAllowed s h.allowed in
    let typed = dot_space_dot-IsTrimmed s h.trimmed in
    let kept =
      zip_sanitise_filename_dot_space (b'.' ∷ s)
        (unfold utf8_size zip_utf8_byte_length in omega arith) all dot in
    let extension = has_extension-cons b'.' s h.extension in
    let good : IsArchiveName (b'.' ∷ s) = record {
      extension = extension;
      within = unfold utf8_size zip_utf8_byte_length in omega arith;
      allowed = all;
      trimmed = dot;
    } in
    (
      rw (
        zip_trim_go_space_of_IsTrimmed _ typed,
        has_extension-cons b'.' _ (has_extension-cons 0x20 _ extension),
        kept,
        fits_of_IsArchiveName (b'.' ∷ s) good,
      ),
      zip_sanitise_filename-dot s good.within h.allowed dotless h.trimmed,
    )
