-- ===== src/Zip/Dialog/Named.antt =====
-- Which archive is uploaded, and under which name (admin_ui_zip.js).
use gokapiplus.Base.Text.{Text}
use gokapiplus.Zip.Names.{zip_resolve_archive_name}
use gokapiplus.Zip.Names.Resolve.{IsArchiveName}
use gokapiplus.Zip.Items.{Item, zip_get_total_size}
use gokapiplus.Zip.Dialog.{
  Input, typed, confirmed, entered, hidden, zip_max_total_size_bytes, Act, file_added, Ended,
}
use gokapiplus.Base.{◌≤◌, ◌≡◌, ◌⊎◌, true, false, Option, none, some, List, [], ◌∷◌}

-- The text of the box when the dialog was confirmed, or `null` when it was closed first.
abbrev pub answer : Text → Text → List Input → Option (Option Text)
answer generated value [] = none
answer generated value (typed next ∷ inputs) = answer generated next inputs
answer generated value (confirmed ∷ inputs) = some (some (zip_resolve_archive_name value generated))
answer generated value (entered ∷ inputs) = some (some (zip_resolve_archive_name value generated))
answer generated value (hidden ∷ inputs) = some none

-- The name that an answer gives.
abbrev pub IsName : Text → Option (Option Text) → Type 0
IsName generated none = Unit
IsName generated (some none) = Unit
IsName generated (some (some name)) = (name ≡ generated) ⊎ IsArchiveName name

-- Every archive among some acts has these items, which are not too large, and such a name.
abbrev pub Uploads : Text → List Item → List Act → Type 0
Uploads generated items [] = Unit
Uploads generated items (file_added name packed ∷ acts) =
    (packed ≡ items)
    × (zip_get_total_size items ≤ zip_max_total_size_bytes)
    × ((name ≡ generated) ⊎ IsArchiveName name)
    × Uploads generated items acts
Uploads generated items (act ∷ acts) = Uploads generated items acts

-- The flags behind the acts: the name is still being chosen only while the dialog is open.
abbrev pub Settles : Text → List Item → Option (Option Text) → Ended → Type 0
Settles generated items o e =
    Uploads generated items e.acts
    × (e.compressing ≡ false)
    × (e.choosing ≡ true → (o ≡ none) × (e.acts ≡ []))
