-- ===== src/Zip/Drop.antt =====
-- Which drops and selections are packed into an archive: `zipIsUploadPossible`, `zipOnDrop` and
-- `zipOnFileInputChange` (admin_ui_zip.js).
pub mod Handled
use gokapiplus.Zip.Items.{File}
use gokapiplus.Zip.Walk
use gokapiplus.Zip.Walk.{Entry, file_entry, directory, neither, Dropped, plain}
use gokapiplus.Base.{
  ℕ, zero, suc, Bool, true, false, not, ◌&&◌, ◌||◌, Option, none, some, List, [], ◌∷◌, ◌++◌, map,
  length, ltb, if◌then◌else◌,
}

-- What the handlers know: whether JSZip was loaded, the box and its element are there, the box is
-- disabled, an archive is being packed, and its name is being chosen.
pub record Page : Type 0 where
  pub has_jszip : Bool
  pub has_dropzone : Bool
  pub has_element : Bool
  pub disabled : Bool
  pub is_compressing : Bool
  pub is_choosing_zip_name : Bool

-- Dropzone's own handler runs, nobody handles the event, or these are collected for an archive.
pub data Handling : Type 0 where
  passed_on blocked : Handling
  collected : List Dropped → Handling

unfoldable pub zip_is_upload_possible : Page → Bool
zip_is_upload_possible p = p.has_jszip && p.has_dropzone && not (p.disabled || p.is_compressing)

-- An item of a `DataTransfer`: whether its kind is a file, what `webkitGetAsEntry` gives, if it is
-- there, and what `getAsFile` gives.
pub record TransferItem : Type 0 where
  pub is_file_kind : Bool
  pub its_entry : Option Entry
  pub file : Option File

abbrev pub is_directory : Entry → Bool
is_directory (directory name batches) = true
is_directory _ = false

-- What the loop has read: the entries, and whether one of them is a folder.
pub record Read : Type 0 where
  pub entries : List Dropped
  pub contains_directory : Bool

abbrev pub read_file : Option File → Read → Read
read_file none r = r
read_file (some file) r = record r { entries = plain file ∷ r.entries }

abbrev pub read_entry : Option Entry → Option File → Read → Read
read_entry none file r = read_file file r
read_entry (some e) file r = record {
  entries = Walk.entry e ∷ r.entries;
  contains_directory = is_directory e || r.contains_directory;
}

abbrev pub read_item : Bool → TransferItem → Read → Read
read_item false item r = r
read_item true item r = read_entry item.its_entry item.file r

unfoldable pub read_items : List TransferItem → Read
read_items [] = record { entries = []; contains_directory = false }
read_items (item ∷ items) = read_item item.is_file_kind item (read_items items)

-- A `DataTransfer` with its items, or with its files where the browser gives no items.
unfoldable pub read_transfer : List TransferItem → List File → Read
unfolding read_items
read_transfer [] files = record { entries = map plain files; contains_directory = false }
read_transfer (item ∷ items) files = read_items (item ∷ items)

-- A single file is uploaded as it is.
abbrev pub collect : Read → Handling
collect r =
    if not r.contains_directory && ltb (length r.entries) 2 then passed_on else collected r.entries

-- A drop, if it has data, and whether it is on the box.
unfoldable pub zip_on_drop : Page → Bool → Option (List TransferItem × List File) → Handling
unfolding zip_is_upload_possible read_transfer
zip_on_drop p on_box none =
    if p.is_choosing_zip_name && p.has_dropzone && p.has_element && on_box
    then blocked
    else passed_on
zip_on_drop p on_box (some (items, files)) =
    if p.is_choosing_zip_name && p.has_dropzone && p.has_element && on_box
    then blocked
    else if not (zip_is_upload_possible p)
    then passed_on
    else if not (p.has_element && on_box)
    then passed_on
    else collect (read_transfer items files)

-- A selection in the dialog for files, and whether it is of the hidden input of the box.
unfoldable pub zip_on_file_input_change : Page → Bool → List File → Handling
unfolding zip_is_upload_possible
zip_on_file_input_change p of_box files =
    if p.is_choosing_zip_name && p.has_dropzone && of_box
    then blocked
    else if not (zip_is_upload_possible p)
    then passed_on
    else if not of_box
    then passed_on
    else if ltb (length files) 2
    then passed_on
    else collected (map plain files)
