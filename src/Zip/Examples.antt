-- ===== src/Zip/Examples.antt =====
-- Runs of the archive's name and items (admin_ui_zip.js).
use gokapiplus.Base.{
  ◌+◌, ◌≤◌, ◌≡◌, ◌≢◌, refl, sym, subst, false, none, List, [], ◌∷◌, ◌++◌, ◌⊎◌, arith,
}
use gokapiplus.Base.Text.{Text, codes}
use gokapiplus.Zip.Names.{
  zip_limit_utf8_bytes, zip_utf8_byte_length, zip_sanitise_filename, zip_resolve_archive_name,
  zip_filename_max_bytes, utf8_size, zip_has_zip_extension, is_control, is_reserved, is_go_space,
}
use gokapiplus.Zip.Names.Limit.{zip_limit_utf8_bytes_lem, Overflows}
use gokapiplus.Zip.Names.Clean.{NoDotInFront, zip_sanitise_filename_stable}
use gokapiplus.Zip.Names.Resolve.{
  IsArchiveName, zip_resolve_archive_name_of_IsBlank, zip_resolve_archive_name_outcome,
  zip_resolve_archive_name_keeps, zip_resolve_archive_name_dotted,
}
use gokapiplus.Zip.Items.{Item, paths, zip_deduplicate_names}
use gokapiplus.Zip.Items.Distinct.{IsDistinct, zip_deduplicate_names-IsDistinct}

abbrev plain_name : Text
plain_name = codes "a.zip"

plain_name-IsArchiveName : IsArchiveName plain_name
unfolding zip_has_zip_extension zip_utf8_byte_length utf8_size is_control is_reserved is_go_space
plain_name-IsArchiveName = record {
  extension = refl;
  within = omega arith;
  allowed = (
    record { printable = refl; usable = refl },
    (
      record { printable = refl; usable = refl },
      (
        record { printable = refl; usable = refl },
        (
          record { printable = refl; usable = refl },
          (record { printable = refl; usable = refl }, tt),
        ),
      ),
    ),
  );
  trimmed = record { front = refl; back = refl };
}

plain_name-NoDotInFront : NoDotInFront plain_name
plain_name-NoDotInFront e = absurd (omega arith)

plain_name-short : zip_utf8_byte_length plain_name + 3 ≤ zip_filename_max_bytes
unfolding zip_utf8_byte_length utf8_size
plain_name-short = omega arith

zip_resolve_archive_name_outcome_example :
    (zip_resolve_archive_name (codes " Bilder 2024? ") plain_name ≡ plain_name)
    ⊎ IsArchiveName (zip_resolve_archive_name (codes " Bilder 2024? ") plain_name)
zip_resolve_archive_name_outcome_example =
    zip_resolve_archive_name_outcome (codes " Bilder 2024? ") plain_name

plain_name-stable : zip_sanitise_filename plain_name ≡ plain_name
plain_name-stable =
    zip_sanitise_filename_stable plain_name plain_name-IsArchiveName.within
      plain_name-IsArchiveName.allowed plain_name-NoDotInFront plain_name-IsArchiveName.trimmed

blank-NoDotInFront : NoDotInFront (zip_resolve_archive_name (codes " ") plain_name)
blank-NoDotInFront =
    subst NoDotInFront
      (sym (
        zip_resolve_archive_name_of_IsBlank (codes " ") plain_name
          (unfold is_go_space in (refl, tt))))
      plain_name-NoDotInFront

zip_resolve_archive_name_keeps_example :
    zip_resolve_archive_name plain_name (codes "b.zip") ≡ plain_name
zip_resolve_archive_name_keeps_example =
    zip_resolve_archive_name_keeps plain_name (codes "b.zip") plain_name-IsArchiveName
      plain_name-NoDotInFront

zip_resolve_archive_name_dotted_example :
    (zip_resolve_archive_name (codes ". ." ++ plain_name) (codes "b.zip") ≡ codes ".a.zip")
    × (zip_sanitise_filename (codes ".a.zip") ≡ plain_name)
zip_resolve_archive_name_dotted_example =
    zip_resolve_archive_name_dotted plain_name (codes "b.zip") plain_name-IsArchiveName
      plain_name-NoDotInFront plain_name-short

zip_limit_utf8_bytes_lem_example :
    (rest : Text) × (0xe9 ∷ 0x20ac ∷ 0x61 ∷ []
      ≡ zip_limit_utf8_bytes (0xe9 ∷ 0x20ac ∷ 0x61 ∷ []) 4 ++ rest)
    × (zip_utf8_byte_length (zip_limit_utf8_bytes (0xe9 ∷ 0x20ac ∷ 0x61 ∷ []) 4) ≤ 4)
    × Overflows (zip_utf8_byte_length (zip_limit_utf8_bytes (0xe9 ∷ 0x20ac ∷ 0x61 ∷ []) 4)) 4 rest
zip_limit_utf8_bytes_lem_example = zip_limit_utf8_bytes_lem (0xe9 ∷ 0x20ac ∷ 0x61 ∷ []) 4

abbrev item_at : Text → Item
item_at path = record { file = none; path = path; is_directory = false }

abbrev three_items : List Item
three_items = item_at (codes "d/a.b") ∷ item_at (codes "d/a.b") ∷ item_at (codes "x") ∷ []

zip_deduplicate_names-IsDistinct_example : IsDistinct (paths (zip_deduplicate_names three_items))
zip_deduplicate_names-IsDistinct_example = zip_deduplicate_names-IsDistinct three_items

a_apart_b : codes "a" ≢ codes "b"
a_apart_b e = ground (arith, e)
