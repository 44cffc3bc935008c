-- ===== src/Zip/Drop/Handled.antt =====
-- When a drop or a selection becomes an archive.
use gokapiplus.Zip.Items.{File}
use gokapiplus.Zip.Walk.{Dropped, plain}
use gokapiplus.Zip.Drop.{
  Page, Handling, passed_on, blocked, collected, Read, TransferItem, collect, read_transfer,
  zip_on_drop, zip_on_file_input_change, zip_is_upload_possible,
}
use gokapiplus.Base.{
  ◌≤◌, Bool, true, false, not, ◌&&◌, some, List, map, length, ltb, ◌≡◌, refl, ◌⊎◌, inl, inr, arith,
  if◌then◌else◌, Bool-cases,
}

-- An archive is worth making of a folder or of two things.
abbrev pub Worthwhile : Bool → List Dropped → Type 0
Worthwhile contains_directory ds = (contains_directory ≡ true) ⊎ (2 ≤ length ds)

decided :
    (d small : Bool) (es ds : List Dropped)
    → (if not d && small then passed_on else collected es) ≡ collected ds
    → (ds ≡ es) × ((d ≡ true) ⊎ (small ≡ false))
decided true small es ds h = (cc, inl refl)
decided false false es ds h = (cc, inr refl)
decided false true es ds h = absurd cc

two_of : (ds : List Dropped) → ltb (length ds) 2 ≡ false → 2 ≤ length ds
two_of ds h = ground arith

collect-Worthwhile :
    (r : Read) (ds : List Dropped)
    → collect r ≡ collected ds
    → (ds ≡ r.entries) × Worthwhile r.contains_directory ds
collect-Worthwhile r ds h =
    let (same, why) = decided r.contains_directory (ltb (length r.entries) 2) r.entries ds h in
    (same, elim why [ inl folder ↦ inl folder | inr many ↦ inr (rw same (two_of r.entries many)) ])

guarded :
    (choosing possible here : Bool) (h : Handling) (ds : List Dropped)
    → (if choosing
        then blocked
        else if not possible
        then passed_on
        else if not here
        then passed_on
        else h)
      ≡ collected ds
    → (choosing ≡ false) × (possible ≡ true) × (here ≡ true) × (h ≡ collected ds)
guarded false true true h ds e = (refl, refl, refl, e)
guarded true possible here h ds e = absurd cc
guarded false false here h ds e = absurd cc
guarded false true false h ds e = absurd cc

few_not_collected :
    (few : Bool) (es ds : List Dropped)
    → few ≡ true
    → (if few then passed_on else collected es) ≡ collected ds
    → ⊥
few_not_collected true es ds h e = cc
few_not_collected false es ds h e = cc

taken :
    (few : Bool) (es ds : List Dropped)
    → few ≡ false
    → (if few then passed_on else collected es) ≡ collected ds
    → ds ≡ es
taken false es ds h e = cc
taken true es ds h e = cc

-- A drop becomes an archive only on the usable box while no name is being chosen.
pub zip_on_drop-Worthwhile :
    (p : Page) (on_box : Bool) (items : List TransferItem) (files : List File) (ds : List Dropped)
    → zip_on_drop p on_box (some (items, files)) ≡ collected ds
    → ((p.is_choosing_zip_name && p.has_dropzone && p.has_element && on_box) ≡ false)
      × (zip_is_upload_possible p ≡ true)
      × ((p.has_element && on_box) ≡ true)
      × (ds ≡ (read_transfer items files).entries)
      × Worthwhile (read_transfer items files).contains_directory ds
unfolding zip_on_drop
zip_on_drop-Worthwhile p on_box items files ds h =
    let (free, usable, here, e) =
      guarded (p.is_choosing_zip_name && p.has_dropzone && p.has_element && on_box)
        (zip_is_upload_possible p) (p.has_element && on_box) (collect (read_transfer items files))
        ds h in
    let (same, why) = collect-Worthwhile (read_transfer items files) ds e in
    (free, usable, here, same, why)

-- So does a selection, of two files at least, all of them in the order of the selection.
pub zip_on_file_input_change-length :
    (p : Page) (of_box : Bool) (files : List File) (ds : List Dropped)
    → zip_on_file_input_change p of_box files ≡ collected ds
    → (zip_is_upload_possible p ≡ true) × (ds ≡ map plain files) × (2 ≤ length files)
unfolding zip_on_file_input_change
zip_on_file_input_change-length p of_box files ds h =
    let (free, usable, here, e) =
      guarded (p.is_choosing_zip_name && p.has_dropzone && of_box) (zip_is_upload_possible p) of_box
        (if ltb (length files) 2 then passed_on else collected (map plain files)) ds h in
    elim (Bool-cases (ltb (length files) 2)) [
      | inl few ↦ absurd (few_not_collected (ltb (length files) 2) (map plain files) ds few e)
      | inr many ↦
          (usable, taken (ltb (length files) 2) (map plain files) ds many e, ground (arith, many))
    ]
