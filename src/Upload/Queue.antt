-- ===== src/Upload/Queue.antt =====
-- The list of selected files and its upload: `startUpload`, the removal of a file and the state of
-- the button (public_upload.js). The map of entries is a list, oldest first.
pub mod Limit
pub mod Start
use mathlib.Core.Option
use gokapiplus.Base.{
  ℕ, zero, suc, ◌+◌, ◌≡◌, refl, Bool, true, false, not, ◌&&◌, ◌||◌, Option, none, some, List, [],
  ◌∷◌, ◌++◌, ltb, ◌==◌, if◌then◌else◌, length,
}
use gokapiplus.Base.Text.{Text, codes, same_text}
use gokapiplus.Base.Int.{ℤ, pos, decrement, is_below, is_number}
use gokapiplus.Upload.Retry.{Error, Reply, ok, thrown}
use gokapiplus.Upload.Chunks.{
  Bytes, Network, Sending, Ending, all_sent, stopped, failed, send_chunks,
}

pub data Status : Type 0 where
  pending uploading completed error removed : Status

abbrev pub is_pending : Status → Bool
is_pending pending = true
is_pending _ = false

pub record Entry : Type 0 where
  pub uuid : Text
  pub file : Bytes
  pub removed : Bool
  pub status : Status
  pub server_uuid : Option Text

pub data Modal : Type 0 where
  all_uploaded max_files : Modal

-- What the upload of one entry meets: the replies of `reserveChunk`, of the chunk requests and of
-- `finaliseUpload`, and whether the user has clicked the entry away by the end of it.
pub record Session : Type 0 where
  pub reserve : Reply Text
  pub network : Network
  pub finalise : Reply (Unit {0})
  pub clicked : Bool

-- The click on the cross: the entry's part in it.
unfoldable pub remove_entry : Entry → Entry
remove_entry entry = record entry { removed = true; status = Status.removed }

abbrev pub after_click : Bool → Entry → Entry
after_click clicked entry = if clicked then remove_entry entry else entry

-- How the loop over the entries goes on after one of them.
pub data Course : Type 0 where
  finished next_entry return : Course

-- The `catch` block.
unfoldable pub catch_error : Bool → Error → Entry → Entry × Course
catch_error clicked e entry =
    if same_text e.message (codes "Cancelled") || clicked
    then (record entry { status = pending }, return)
    else (record entry { status = error }, next_entry)

-- After the last request of an entry.
unfoldable pub after_finalise : Session → Entry → Reply (Unit {0}) → Entry × Course
unfolding catch_error remove_entry
after_finalise session entry (thrown e) =
    catch_error session.clicked e (after_click session.clicked entry)
after_finalise session entry (ok _) =
    (record entry { status = completed; removed = true }, finished)

-- After the loop over the chunks.
unfoldable pub after_sending : Session → Entry → Ending → Entry × Course
unfolding after_finalise catch_error remove_entry
after_sending session entry stopped = (after_click session.clicked entry, return)
after_sending session entry (failed e) =
    catch_error session.clicked e (after_click session.clicked entry)
after_sending session entry all_sent = after_finalise session entry session.finalise

-- With a slot, or without one; `none` is out of fuel.
unfoldable pub after_reserve : ℕ → Session → Entry → Reply Text → Option (Entry × Course)
unfolding after_sending catch_error remove_entry
after_reserve chunk_size session entry (thrown e) =
    some (catch_error session.clicked e (after_click session.clicked entry))
after_reserve chunk_size session entry (ok uuid) =
    Option.map
      (λ (sending : Sending).
        after_sending session (record entry { server_uuid = some uuid }) sending.ending)
      (send_chunks session.network chunk_size entry.file)

unfoldable pub upload_entry : ℕ → Session → Entry → Option (Entry × Course)
unfolding after_reserve
upload_entry chunk_size session entry =
    after_reserve chunk_size session (record entry { status = uploading }) session.reserve

abbrev pub is_queued : Entry → Bool
is_queued entry = not entry.removed && is_pending entry.status

pub record Queue : Type 0 where
  pub entries : List Entry
  pub max_files_remaining : ℤ
  pub modals : List Modal

abbrev pub with_entry : Entry → Queue → Queue
with_entry entry q = record q { entries = entry ∷ q.entries }

-- `if (maxFilesRemaining === 0) showModal("alluploaded")`.
abbrev pub told : ℤ → List Modal → List Modal
told left modals = if is_number left 0 then modals ++ all_uploaded ∷ [] else modals

-- `getQueuedFileCount`.
unfoldable pub get_queued_file_count : List Entry → ℕ
get_queued_file_count [] = 0
get_queued_file_count (entry ∷ rest) =
    if entry.removed then get_queued_file_count rest else suc (get_queued_file_count rest)

module _ (chunk_size : ℕ) (sessions : Text → Session) where
  -- The loop over the entries; `remaining` and `modals` are the page's.
  unfoldable pub upload_from : List Entry → ℤ → List Modal → Option Queue
  upload_from [] remaining modals =
      some (record { entries = []; max_files_remaining = remaining; modals = modals })
  upload_from (entry ∷ rest) remaining modals =
      let skipped = Option.map (with_entry entry) (upload_from rest remaining modals) in
      if is_queued entry
      then elim (upload_entry chunk_size (sessions entry.uuid) entry) [
        | none ↦ none
        | some (entry', course) ↦ elim course [
          | return ↦
              some (record {
                entries = entry' ∷ rest;
                max_files_remaining = remaining;
                modals = modals;
              })
          | next_entry ↦ Option.map (with_entry entry') (upload_from rest remaining modals)
          | finished ↦
              Option.map (with_entry entry')
                (upload_from rest (decrement remaining) (told (decrement remaining) modals))
        ]
      ]
      else skipped

  unfoldable pub start_upload : Bool → Queue → Option Queue
  start_upload is_unlimited_files q =
      if not is_unlimited_files && is_below q.max_files_remaining (get_queued_file_count q.entries)
      then some (record q { modals = q.modals ++ max_files ∷ [] })
      else upload_from q.entries q.max_files_remaining q.modals

-- `updateUploadButtonState`: whether the button is disabled.
unfoldable pub pending_files : List Entry → List Entry
pending_files [] = []
pending_files (entry ∷ rest) =
    if is_queued entry then entry ∷ pending_files rest else pending_files rest

abbrev is_nil : List Entry → Bool
is_nil [] = true
is_nil (entry ∷ rest) = false

unfoldable pub button_disabled : Bool → List Entry → Bool
unfolding pending_files
button_disabled is_upload_in_progress entries =
    is_upload_in_progress || is_nil (pending_files entries)
