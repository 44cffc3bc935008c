-- ===== src/FileRequests/Download.antt =====
-- The download button of a file request, and what is left of it when one of its files is deleted:
-- `removeDownloadFileReference` and `changeFileCountFr` (admin_ui_filerequest.js).
pub mod Remaining
use gokapiplus.Base.Text.{Text, codes, same_text}
use gokapiplus.Base.Split.{split, join}
use gokapiplus.Base.{
  ℕ, Bool, true, false, not, Option, none, some, List, [], ◌∷◌, if◌then◌else◌, ◌≡◌, refl,
}

-- The `onclick` attribute of the button, as the two patterns take it apart: the id of one file, or
-- the ids of several as one text and the name of the archive.
pub data Onclick : Type 0 where
  nothing : Onclick
  single : Text → Onclick
  zip : Text → Text → Onclick

-- `record_name` is the attribute `data-record-name`.
pub record Button : Type 0 where
  pub onclick : Onclick
  pub disabled : Bool
  pub record_name : Option Text

abbrev pub comma : ℕ
comma = 44

-- `list.filter(id => id !== fileId)`.
unfoldable pub without : Text → List Text → List Text
without id [] = []
without id (x ∷ xs) = let rest = without id xs in if same_text x id then rest else x ∷ rest

abbrev pub or_empty : Option Text → Text
or_empty none = []
or_empty (some t) = t

-- `fileIds` and `recordName` before the removal.
unfoldable pub files_of : Button → Onclick → List Text × Text
unfolding without split
files_of b nothing = ([], [])
files_of b (single id) = (id ∷ [], or_empty b.record_name)
files_of b (zip ids name) = (without [] (split comma ids), name)

unfoldable pub write_onclick : Button → Text → List Text → Button
unfolding join
write_onclick b name [] = record b { onclick = nothing; disabled = true }
write_onclick b name (id ∷ []) = record b { onclick = single id; disabled = false }
write_onclick b name (id ∷ next ∷ rest) = record b {
  onclick = zip (join comma (id ∷ next ∷ rest)) name;
  disabled = false;
}

-- `none` is no button of that id on the page.
unfoldable pub remove_download_file_reference : Text → Option Button → Option Button
unfolding files_of write_onclick without
remove_download_file_reference id none = none
remove_download_file_reference id (some b) =
    let (ids, name) = files_of b b.onclick in some (write_onclick b name (without id ids))

abbrev of_two : Button
of_two = record { onclick = zip (codes "a,b") (codes "n"); disabled = false; record_name = none }

runs :
    remove_download_file_reference (codes "a") (some of_two)
    ≡ some (record of_two { onclick = single (codes "b") })
unfolding remove_download_file_reference same_text
runs = refl
