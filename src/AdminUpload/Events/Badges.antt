-- ===== src/AdminUpload/Events/Badges.antt =====
-- What a download that the server tells of changes in the list.
use mathlib.Core.Option
use gokapiplus.Stats.{get_file_status}
use gokapiplus.Base.Text.{Text, same_text}
use gokapiplus.Base.Int.{ℤ, pos, negsuc}
use gokapiplus.AdminUpload.Table.{FileRow, row_of}
use gokapiplus.AdminUpload.Events.{
  set_new_download_count, show_count, in_remaining_cell, with_remaining, with_downloads,
}
use gokapiplus.Base.{
  ℕ, zero, suc, Bool, true, false, List, [], ◌∷◌, map, ◌≡◌, refl, ap, Bool-cases, inl, inr, ◌∙◌,
}

-- The badges that a refresh would give the rows.
abbrev pub badges : ℕ → List FileRow → List Text
badges now = map (λ (row : FileRow). get_file_status now row.stats)

in_remaining_cell-stats :
    (b : Bool) (t : Text) (row : FileRow) → (in_remaining_cell b t row).stats ≡ row.stats
in_remaining_cell-stats true t row = refl
in_remaining_cell-stats false t row = refl

with_remaining-stats : (z : ℤ) (row : FileRow) → (with_remaining z row).stats ≡ row.stats
with_remaining-stats (pos n) row = in_remaining_cell-stats row.has_remaining_id _ row
with_remaining-stats (negsuc zero) row = refl
with_remaining-stats (negsuc (suc n)) row = in_remaining_cell-stats row.has_remaining_id _ row

show_count-badge :
    (now count : ℕ) (z : ℤ) (row : FileRow)
    → get_file_status now (show_count count z row).stats ≡ get_file_status now row.stats
unfolding get_file_status
show_count-badge now count z row =
    ap (get_file_status now) (with_remaining-stats z (with_downloads count row))

in_remaining_cell-id :
    (b : Bool) (t : Text) (row : FileRow) → (in_remaining_cell b t row).id ≡ row.id
in_remaining_cell-id true t row = refl
in_remaining_cell-id false t row = refl

show_count-id : (count : ℕ) (z : ℤ) (row : FileRow) → (show_count count z row).id ≡ row.id
show_count-id count (pos n) row =
    in_remaining_cell-id row.has_remaining_id _ (with_downloads count row)
show_count-id count (negsuc zero) row = refl
show_count-id count (negsuc (suc n)) row =
    in_remaining_cell-id row.has_remaining_id _ (with_downloads count row)

badges-same :
    (now : ℕ) (id : Text) (count : ℕ) (z : ℤ) (rows : List FileRow)
    → badges now (set_new_download_count id count z rows) ≡ badges now rows
unfolding set_new_download_count
badges-same now id count z [] = refl
badges-same now id count z (row ∷ rows) = elim (Bool-cases (same_text row.id id)) [
  | inl here ↦ rw here (ap (λ b. b ∷ badges now rows) (show_count-badge now count z row))
  | inr other ↦
      rw other (ap (λ bs. get_file_status now row.stats ∷ bs) (badges-same now id count z rows))
]

row_of-changed :
    (id : Text) (count : ℕ) (z : ℤ) (rows : List FileRow)
    → row_of id (set_new_download_count id count z rows)
      ≡ Option.map (show_count count z) (row_of id rows)
unfolding row_of set_new_download_count
row_of-changed id count z [] = refl
row_of-changed id count z (row ∷ rows) = elim (Bool-cases (same_text row.id id)) [
  | inl here ↦
      let still : same_text (show_count count z row).id id ≡ true =
        ap (λ i. same_text i id) (show_count-id count z row) ∙ here in
      rw (here, still) refl
  | inr other ↦ rw (other, other) (row_of-changed id count z rows)
]

-- A download that the server reports changes the counts in the row of its file and nothing else of
-- what the tab finds under that id, and the badges that a refresh gives to the rows stay the same,
-- whatever number of downloads remains.
pub set_new_download_count-badges :
    (now : ℕ) (id : Text) (count : ℕ) (remaining : ℤ) (rows : List FileRow)
    → (row_of id (set_new_download_count id count remaining rows)
        ≡ Option.map (show_count count remaining) (row_of id rows))
      × (badges now (set_new_download_count id count remaining rows) ≡ badges now rows)
set_new_download_count-badges now id count remaining rows =
    (row_of-changed id count remaining rows, badges-same now id count remaining rows)
