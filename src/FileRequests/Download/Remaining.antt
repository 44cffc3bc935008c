-- ===== src/FileRequests/Download/Remaining.antt =====
-- The download button as a list of file ids (admin_ui_filerequest.js).
use gokapiplus.Base.Text.{Text, same_text}
use gokapiplus.Base.Split.{join, Lacks, split-join}
use gokapiplus.FileRequests.Download.{
  nothing, single, zip, Button, comma, without, files_of, write_onclick,
  remove_download_file_reference,
}
use gokapiplus.Base.{
  true, false, Option, none, some, List, [], ◌∷◌, ◌≡◌, refl, ap, All, Bool-cases, inl, inr,
}

-- A file id has a character and no comma.
abbrev pub FileId : Text → Type 0
FileId [] = ⊥
FileId (c ∷ id) = Lacks comma (c ∷ id)

-- The button that stands for a list of files.
abbrev pub draw : Text → List Text → Button
draw name [] = record { onclick = nothing; disabled = true; record_name = none }
draw name (id ∷ []) = record { onclick = single id; disabled = false; record_name = none }
draw name (id ∷ next ∷ rest) = record {
  onclick = zip (join comma (id ∷ next ∷ rest)) name;
  disabled = false;
  record_name = none;
}

-- The files are deleted one after another.
abbrev pub remove_all : List Text → Option Button → Option Button
remove_all [] b = b
remove_all (id ∷ ids) b = remove_all ids (remove_download_file_reference id b)

abbrev pub without_all : List Text → List Text → List Text
without_all [] files = files
without_all (id ∷ ids) files = without_all ids (without id files)

lacks : (id : Text) → FileId id → Lacks comma id
lacks [] h = absurd h
lacks (c ∷ id) h = h

All-Lacks : (ids : List Text) → All FileId ids → All (Lacks comma) ids
All-Lacks [] h = tt
All-Lacks (id ∷ ids) (h, hs) = (lacks id h, All-Lacks ids hs)

none_empty : (ids : List Text) → All FileId ids → without [] ids ≡ ids
unfolding without same_text
none_empty [] h = refl
none_empty ([] ∷ ids) (h, hs) = absurd h
none_empty ((c ∷ id) ∷ ids) (h, hs) = rw (none_empty ids hs) refl

without-All : (id : Text) (ids : List Text) → All FileId ids → All FileId (without id ids)
unfolding without
without-All id [] h = tt
without-All id (x ∷ ids) (h, hs) = elim (Bool-cases (same_text x id)) [
  | inl same ↦ rw same (without-All id ids hs)
  | inr other ↦ rw other (h, without-All id ids hs)
]

write_onclick-draw :
    (b : Button) (name : Text) (ids : List Text)
    → b.record_name ≡ none
    → write_onclick b name ids ≡ draw name ids
unfolding write_onclick
write_onclick-draw b name [] h = rw h refl
write_onclick-draw b name (id ∷ []) h = rw h refl
write_onclick-draw b name (id ∷ next ∷ rest) h = rw h refl

remove-draw :
    (id name : Text) (ids : List Text)
    → All FileId ids
    → remove_download_file_reference id (some (draw name ids)) ≡ some (draw name (without id ids))
unfolding remove_download_file_reference files_of
remove-draw id name [] h = ap some (write_onclick-draw (draw name []) [] [] refl)
remove-draw id name (x ∷ []) h = elim (Bool-cases (same_text x id)) [
  | inl same ↦ rw same (ap some (write_onclick-draw (draw name (x ∷ [])) [] [] refl))
  | inr other ↦ rw other (ap some (write_onclick-draw (draw name (x ∷ [])) [] (x ∷ []) refl))
]
remove-draw id name (x ∷ y ∷ ids) h =
    let lack = All-Lacks (x ∷ y ∷ ids) h in
    rw (split-join comma x (y ∷ ids) lack.0 lack.1, none_empty (x ∷ y ∷ ids) h)
      (ap some (write_onclick-draw (draw name (x ∷ y ∷ ids)) name _ refl))

-- Deleting files one after another turns the button of a list of files, whose ids are not empty
-- and have no comma, into the button of the files that are left: none, one, or an archive under
-- the same name.
pub remove_all-draw :
    (deleted : List Text) (name : Text) (ids : List Text)
    → All FileId ids
    → remove_all deleted (some (draw name ids)) ≡ some (draw name (without_all deleted ids))
remove_all-draw [] name ids h = refl
remove_all-draw (id ∷ deleted) name ids h =
    rw (remove-draw id name ids h)
      (remove_all-draw deleted name (without id ids) (without-All id ids h))
