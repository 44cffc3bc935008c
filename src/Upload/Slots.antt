-- ===== src/Upload/Slots.antt =====
-- The slots that the server reserves for the files of an upload page: the list of files with its
-- crosses, `unreserve` and what happens when the page is left (public_upload.js). For each entry
-- the model also keeps the slots that were reserved, given back and used for it.
pub mod Accounted
use gokapiplus.Base.Text.{Text, codes, same_text}
use gokapiplus.Sizes.{format_size}
use gokapiplus.Base.{
  ℕ, zero, suc, Bool, true, false, not, ◌&&◌, ◌||◌, Option, none, some, List, [], ◌∷◌, ◌++◌, map,
  ltb, if◌then◌else◌,
}

-- A file of the list. `pending` is the status of that name, `reserving` tells whether
-- `reserveChunk` is under way, `has_button` whether the cross is still there.
pub record Entry : Type 0 where
  pub uuid : Text
  pub progress_max : ℕ
  pub removed : Bool
  pub pending : Bool
  pub reserving : Bool
  pub has_button : Bool
  pub server_uuid : Option Text
  pub reserved : List Text
  pub released : List Text
  pub completed : List Text

-- The list, oldest first, and the messages of the error dialog.
pub record Page : Type 0 where
  pub entries : List Entry
  pub modal_errors : List Text

-- ---- the change of the file input
abbrev pub progress_max_of : ℕ → ℕ
progress_max_of zero = 1
progress_max_of (suc size) = suc size

abbrev pub new_entry : Text → ℕ → Entry
new_entry uuid size = record {
  uuid = uuid;
  progress_max = progress_max_of size;
  removed = false;
  pending = true;
  reserving = false;
  has_button = true;
  server_uuid = none;
  reserved = [];
  released = [];
  completed = [];
}

abbrev pub too_large : Text → Text → Text
too_large name limit =
    codes "Le fichier « "
    ++ name
    ++ codes " » dépasse la taille maximale autorisée de "
    ++ limit
    ++ codes "."

unfoldable pub add_file : ℕ → Text → Text → ℕ → Page → Page
unfolding format_size
add_file max_file_size uuid name size p =
    if ltb max_file_size size
    then record p {
      modal_errors = p.modal_errors ++ too_large name (format_size max_file_size) ∷ [];
    }
    else record p { entries = p.entries ++ new_entry uuid size ∷ [] }

-- ---- one entry
-- `unreserve`, which does nothing without a slot.
unfoldable pub unreserve : Option Text → Entry → Entry
unreserve none e = e
unreserve (some s) e = record e { released = s ∷ e.released }

-- The click on the cross, while it is there.
abbrev pub clicked : Bool → Option Text → Entry → Entry
clicked false slot e = e
clicked true slot e = unreserve slot (record e { removed = true; pending = false })

unfoldable pub remove_clicked : Entry → Entry
unfolding unreserve
remove_clicked e = clicked e.has_button e.server_uuid e

-- The loop of `startUpload` comes to the entry, and skips it if it was removed or is not pending.
abbrev pub started : Bool → Bool → Entry → Entry
started false true e = record e { pending = false; reserving = true }
started _ _ e = e

unfoldable pub start_reserving : Entry → Entry
start_reserving e = started e.removed e.pending e

-- `reserveChunk`, if it is under way, returns a slot.
abbrev pub with_slot : Bool → Text → Entry → Entry
with_slot false s e = e
with_slot true s e = record e { reserving = false; server_uuid = some s; reserved = s ∷ e.reserved }

unfoldable pub reserve_answered : Text → Entry → Entry
reserve_answered s e = with_slot e.reserving s e

-- `reserveChunk` fails.
unfoldable pub reserve_failed : Entry → Entry
reserve_failed e = record e { reserving = false }

-- `finaliseUpload` has succeeded for the slot of the entry.
abbrev pub finish : Option Text → Entry → Entry
finish none e = e
finish (some s) e = record e { completed = s ∷ e.completed; has_button = false; removed = true }

unfoldable pub upload_completed : Entry → Entry
upload_completed e = finish e.server_uuid e

-- The handler of `unload`.
abbrev pub left : Bool → Option Text → Entry → Entry
left true slot e = e
left false slot e = unreserve slot e

unfoldable pub unload_entry : Entry → Entry
unfolding unreserve
unload_entry e = left e.removed e.server_uuid e

-- ---- the page
pub data Event : Type 0 where
  file_chosen : Text → Text → ℕ → Event
  cross_clicked reserving_started reserving_failed completed : Text → Event
  slot_reserved : Text → Text → Event

abbrev pub at : Text → (Entry → Entry) → Entry → Entry
at uuid f e = if same_text e.uuid uuid then f e else e

unfoldable pub handle : ℕ → Page → Event → Page
unfolding add_file remove_clicked start_reserving reserve_answered reserve_failed upload_completed
    same_text
handle max p (file_chosen uuid name size) = add_file max uuid name size p
handle max p (cross_clicked uuid) = record p { entries = map (at uuid remove_clicked) p.entries }
handle max p (reserving_started uuid) = record p {
  entries = map (at uuid start_reserving) p.entries;
}
handle max p (reserving_failed uuid) = record p { entries = map (at uuid reserve_failed) p.entries }
handle max p (completed uuid) = record p { entries = map (at uuid upload_completed) p.entries }
handle max p (slot_reserved uuid s) = record p {
  entries = map (at uuid (reserve_answered s)) p.entries;
}

unfoldable pub run : ℕ → Page → List Event → Page
unfolding handle
run max p [] = p
run max p (e ∷ es) = run max (handle max p e) es

abbrev pub opened : Page
opened = record { entries = []; modal_errors = [] }

-- `beforeunload` asks whether the page may be left.
unfoldable pub asks_before_leaving : List Entry → Bool
asks_before_leaving [] = false
asks_before_leaving (e ∷ es) = let rest = asks_before_leaving es in not e.removed || rest

-- `unload`.
unfoldable pub unload : Page → Page
unfolding unload_entry
unload p = record p { entries = map unload_entry p.entries }
