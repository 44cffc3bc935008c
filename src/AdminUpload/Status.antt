-- ===== src/AdminUpload/Status.antt =====
-- The boxes of the uploads under way and what the server tells about them: `addFileStatus`,
-- `removeFileStatus`, `parseProgressStatus`, `showError` and the part of `updateProgressbar` that
-- is no speed (admin_ui_upload.js).
pub mod Shown
use gokapiplus.Base.Text.{Text, codes, same_text}
use gokapiplus.Base.Int.{ℤ, pos, negsuc, decrement, is_below}
use gokapiplus.Base.Decimal.{decimal}
use gokapiplus.Base.{
  ℕ, zero, suc, ◌+◌, Bool, true, false, not, ◌&&◌, Option, none, some, List, [], ◌∷◌, ◌++◌, ltb,
  if◌then◌else◌, ◌≡◌, refl,
}

-- A box: `data-complete`, the width of its bar in percent, its text and whether it is marked red.
pub record Box : Type 0 where
  pub id : Text
  pub filename : Text
  pub complete : Bool
  pub width : ℕ
  pub info : Text
  pub red : Bool

-- `count` is `statusItemCount`, `visible` the element around the boxes.
pub record Status : Type 0 where
  pub boxes : List Box
  pub count : ℤ
  pub visible : Bool

abbrev pub increment : ℤ → ℤ
increment (pos n) = pos (suc n)
increment (negsuc zero) = pos 0
increment (negsuc (suc n)) = negsuc n

unfoldable pub add_file_status : Text → Text → Status → Status
add_file_status id filename s = record {
  boxes =
      s.boxes
      ++ record {
        id = id;
        filename = filename;
        complete = false;
        width = 0;
        info = codes "0%";
        red = false;
      }
        ∷ [];
  count = increment s.count;
  visible = true;
}

-- Without the first box of an id, if there is one.
unfoldable pub without_box : Text → List Box → Option (List Box)
without_box id [] = none
without_box id (b ∷ bs) =
    let rest = without_box id bs in
    if same_text b.id id then some bs else elim rest [ none ↦ none | some bs' ↦ some (b ∷ bs') ]

unfoldable pub after_removal : Status → Option (List Box) → Status
after_removal s none = s
after_removal s (some boxes) =
    let count = decrement s.count in
    record { boxes = boxes; count = count; visible = if is_below count 1 then false else s.visible }

unfoldable pub remove_file_status : Text → Status → Status
unfolding without_box after_removal
remove_file_status id s = after_removal s (without_box id s.boxes)

-- The first box of an id, changed.
unfoldable pub change_box : Text → (Box → Box) → List Box → List Box
change_box id f [] = []
change_box id f (b ∷ bs) =
    let rest = change_box id f bs in if same_text b.id id then f b ∷ bs else b ∷ rest

-- `upload_status` of a message of the server.
pub data Progress : Type 0 where
  processing saving finalising failed unknown : Progress

abbrev pub or_server_error : Text → Text
or_server_error [] = codes "Erreur du serveur"
or_server_error (c ∷ t) = c ∷ t

-- What becomes of a box; `is_listed` tells whether dropzone still has the file of the upload, which
-- an error is shown for.
unfoldable pub show_progress : Bool → Text → Progress → Box → Box
show_progress is_listed message processing b = record b {
  complete = true;
  info = codes "Processing file...";
}
show_progress is_listed message saving b = record b {
  complete = true;
  info = codes "Saving file...";
}
show_progress is_listed message finalising b = record b {
  complete = true;
  info = codes "Finalising...";
}
show_progress is_listed message failed b =
    if is_listed
    then record b { complete = true; width = 100; info = or_server_error message; red = true }
    else record b { complete = true }
show_progress is_listed message unknown b = record b {
  complete = true;
  info = codes "Unknown status";
}

unfoldable pub parse_progress_status : Bool → Text → Progress → Text → Status → Status
unfolding change_box show_progress
parse_progress_status is_listed message p id s = record s {
  boxes = change_box id (show_progress is_listed message p) s.boxes;
}

-- The rounded progress of an upload, kept between 0 and 100.
unfoldable pub bounded : ℤ → ℕ
bounded (negsuc n) = 0
bounded (pos n) = if ltb 100 n then 100 else n

-- `rate` is what the text says behind the percentage; without a number there is no new text.
unfoldable pub show_width : ℕ → Option Text → Box → Box
show_width width rate b = if b.complete then b else record b {
  width = width;
  info = elim rate [ none ↦ b.info | some r ↦ decimal width ++ codes "% - " ++ r ];
}

unfoldable pub update_progressbar : Text → ℤ → Option Text → Status → Status
unfolding change_box bounded show_width
update_progressbar id progress rate s = record s {
  boxes = change_box id (show_width (bounded progress) rate) s.boxes;
}

pub data Event : Type 0 where
  added : Text → Text → Event
  removed : Text → Event
  told : Bool → Text → Progress → Text → Event
  progressed : Text → ℤ → Option Text → Event

unfoldable pub handle : Status → Event → Status
unfolding add_file_status remove_file_status parse_progress_status update_progressbar
handle s (added id filename) = add_file_status id filename s
handle s (removed id) = remove_file_status id s
handle s (told is_listed message p id) = parse_progress_status is_listed message p id s
handle s (progressed id progress rate) = update_progressbar id progress rate s

unfoldable pub run : Status → List Event → Status
unfolding handle
run s [] = s
run s (e ∷ es) = run (handle s e) es

abbrev pub opened : Status
opened = record { boxes = []; count = pos 0; visible = false }
