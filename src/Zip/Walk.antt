-- ===== src/Zip/Walk.antt =====
-- The walk over dropped files and folders: `zipReadAllDirectoryEntries`, `zipEntryToFile` and
-- `zipWalkEntry` (admin_ui_zip.js). An entry carries what its reader will deliver.
pub mod Files
mod Examples
use gokapiplus.Base.{
  ◌≡◌, refl, Bool, true, false, ◌&&◌, not, Option, none, some, List, [], ◌∷◌, ◌++◌, if◌then◌else◌,
}
use gokapiplus.Base.Text.{Text, codes}
use gokapiplus.Zip.Items.{File, Item}

-- The file of a file entry, or its refusal; a folder with the batches that its reader delivers; an
-- entry that is neither.
mutual
  pub data Entry : Type 0 where
    file_entry : Text → Option File → Entry
    directory : Text → Batches → Entry
    neither : Entry

  -- A reader refuses, or delivers no more, or a batch that is not empty.
  pub data Batches : Type 0 where
    refused finished : Batches
    batch : Entry → Entries → Batches → Batches

  pub data Entries : Type 0 where
    nil : Entries
    cons : Entry → Entries → Entries

-- Whether `zipReadAllDirectoryEntries` resolves.
abbrev pub is_readable : Batches → Bool
is_readable refused = false
is_readable finished = true
is_readable (batch e es rest) = is_readable rest

-- `childEntries.length === 0`.
abbrev pub is_empty_folder : Batches → Bool
is_empty_folder (batch e es rest) = false
is_empty_folder _ = true

-- `await`: what comes next is done unless an error was thrown.
abbrev pub and_then : Option (List Item) → (List Item → Option (List Item)) → Option (List Item)
and_then none next = none
and_then (some items) next = next items

abbrev pub folder_item : Text → Item
folder_item path = record { file = none; path = path ++ codes "/"; is_directory = true }

abbrev pub file_item : Text → File → Item
file_item path file = record { file = some file; path = path; is_directory = false }

-- All entries of a folder are read before the first of them is walked.
unfoldable mutual
  pub zip_walk_entry : Entry → Text → List Item → Option (List Item)
  zip_walk_entry (file_entry name none) parent_path result = none
  zip_walk_entry (file_entry name (some file)) parent_path result =
      some (result ++ file_item (parent_path ++ name) file ∷ [])
  zip_walk_entry neither parent_path result = some result
  zip_walk_entry (directory name batches) parent_path result =
      let children = walk_batches batches (parent_path ++ (name ++ codes "/")) result in
      if not (is_readable batches)
      then none
      else if is_empty_folder batches
      then some (result ++ folder_item (parent_path ++ name) ∷ [])
      else children

  walk_batches : Batches → Text → List Item → Option (List Item)
  walk_batches (batch e es rest) parent_path result =
      and_then (zip_walk_entry e parent_path result)
        (λ r. and_then (walk_entries es parent_path r) (walk_batches rest parent_path))
  walk_batches _ parent_path result = some result

  walk_entries : Entries → Text → List Item → Option (List Item)
  walk_entries nil parent_path result = some result
  walk_entries (cons e es) parent_path result =
      and_then (zip_walk_entry e parent_path result) (walk_entries es parent_path)

-- What was dropped or chosen: a file, or an entry.
pub data Dropped : Type 0 where
  plain : File → Dropped
  entry : Entry → Dropped

-- `webkitRelativePath` where it is set, else the name.
abbrev pub chosen_path : Text → Text → Text
chosen_path [] name = name
chosen_path (c ∷ cs) name = c ∷ cs

-- The loop of `zipCollectItems`.
unfoldable pub collect_from : List Dropped → List Item → Option (List Item)
unfolding zip_walk_entry
collect_from [] items = some items
collect_from (plain file ∷ rest) items =
    collect_from rest
      (items ++ file_item (chosen_path file.webkit_relative_path file.name) file ∷ [])
collect_from (entry e ∷ rest) items = and_then (zip_walk_entry e [] items) (collect_from rest)

unfoldable pub zip_collect_items : List Dropped → Option (List Item)
unfolding collect_from
zip_collect_items entries = collect_from entries []
