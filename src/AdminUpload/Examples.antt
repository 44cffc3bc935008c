-- ===== src/AdminUpload/Examples.antt =====
-- The upload page at work (admin_ui_upload.js).
use gokapiplus.Base.Text.{Text, codes, same_text}
use gokapiplus.Base.{ℕ, ◌≡◌, refl, true, false, Option, none, some, List, [], ◌∷◌, In}
use gokapiplus.AdminUpload.Status
use gokapiplus.AdminUpload.Status.Shown
use gokapiplus.Base.Int.{pos}
use gokapiplus.AdminUpload.Table.{
  Item, Tab, Event, uploaded, file_added, deleted, faded, handle_all, handle, row_for, sanitize_id,
  is_alphanumeric,
}
use gokapiplus.AdminUpload.Table.Counted.{Consistent}
use gokapiplus.AdminUpload.Table.Steps.{handle_all-Consistent}
use gokapiplus.AdminUpload.Form.{
  Form, Storage, File, set_upload_defaults, save_upload_defaults, send_chunk_complete,
}
use gokapiplus.AdminUpload.Form.Kept.{set_upload_defaults-kept}
use gokapiplus.AdminUpload.Edit.{Shown, Call, modify, ending, show_edit_modal, edit_file}
use gokapiplus.AdminUpload.Edit.Unchanged.{current, edit_file-show_edit_modal}
use mathlib.Core.Option
use gokapiplus.AdminUpload.Table.{FileRow, row_of}
use gokapiplus.AdminUpload.Events.{set_new_download_count, show_count}
use gokapiplus.AdminUpload.Events.Badges.{badges, set_new_download_count-badges}
use gokapiplus.Dom.{calls}
use gokapiplus.Dom.Tables.{Finds}
use gokapiplus.AdminUpload.Row.{Listed, row_element, row_elements, looked_up}
use gokapiplus.AdminUpload.Row.Found.{row_elements-find}
use gokapiplus.Base.{All, inl}

abbrev an_item : Item
an_item = record {
  id = codes "a1";
  name = codes "f.txt";
  size = codes "1 o";
  size_bytes = 1;
  unlimited_time = true;
  expire_at = 0;
  unlimited_downloads = false;
  downloads_remaining = 1;
  download_count = 0;
  url_download = codes "u";
  is_password_protected = false;
}

abbrev printed : ℕ → Text
printed time = codes "date"

abbrev empty_tab : Tab
empty_tab = record { rows = []; row_count = none }

abbrev day : List Event
day = uploaded an_item ∷ file_added an_item ∷ deleted (codes "a1") ∷ faded (codes "a1") ∷ []

handle_all-Consistent_example : Consistent (handle_all 9 printed empty_tab day)
unfolding handle same_text row_for sanitize_id is_alphanumeric
handle_all-Consistent_example =
    handle_all-Consistent 9 printed empty_tab day (tt, (tt, ((_, refl, refl), (tt, tt)))) (tt, refl)

abbrev filled : Form
filled = record {
  allowed_downloads = codes "5";
  expiry_days = codes "7";
  password = codes "secret";
  enable_download_limit = true;
  enable_time_limit = false;
  enable_password = true;
  downloads_disabled = false;
  expiry_disabled = true;
  password_disabled = false;
}

abbrev nothing_stored : Storage
nothing_stored = record {
  default_downloads = none;
  default_expiry = none;
  default_unlimited_downloads = none;
  default_unlimited_time = none;
  default_password = some (codes "old");
}

abbrev a_file : File
a_file = record {
  uuid = codes "u";
  name = codes "f.txt";
  size = 3;
  content_type = codes "text/plain";
  is_end_to_end_encrypted = false;
  size_encrypted = 0;
}

set_upload_defaults-kept_example :
    let next = set_upload_defaults (save_upload_defaults filled nothing_stored) filled in
    (send_chunk_complete a_file next.1
      ≡ record (send_chunk_complete a_file filled) { password = [] })
    × (next.1.enable_password ≡ false)
    × (next.0.default_password ≡ none)
set_upload_defaults-kept_example = set_upload_defaults-kept a_file filled filled nothing_stored

abbrev shown : Shown
shown = record {
  id = codes "a1";
  downloads = codes "5";
  expiry = 100;
  password = true;
  unlimited_downloads = false;
  unlimited_time = true;
  is_e2e = false;
  can_replace = true;
}

abbrev table_files : List (Text × Text)
table_files = (codes "a1", codes "f.txt") ∷ (codes "b2", codes "g.txt") ∷ []

abbrev taken : Call → Option Text
taken c = none

edit_file-show_edit_modal_example :
    (edit_file taken (show_edit_modal 5 table_files shown)
      ≡ (modify (current shown) ∷ [], ending taken (taken (modify (current shown)))))
    × (false ≡ false
        → (x : Text × Text) → In x (show_edit_modal 5 table_files shown).replace_options
        → same_text x.0 (codes "a1") ≡ false)
edit_file-show_edit_modal_example = edit_file-show_edit_modal taken 5 table_files shown

abbrev two_uploads : List Status.Event
two_uploads =
    Status.added (codes "u") (codes "f.txt")
    ∷ Status.progressed (codes "u") (pos 130) (some (codes "1 Mo/s"))
    ∷ Status.told true [] Status.failed (codes "u")
    ∷ Status.added (codes "v") (codes "g.txt")
    ∷ Status.removed (codes "u")
    ∷ []

run-Kept_example : Status.Shown.Kept (Status.run Status.opened two_uploads)
run-Kept_example = Status.Shown.run-Kept two_uploads

abbrev a_listed : Listed
a_listed = record {
  item = an_item;
  url_hotlink = codes "h";
  requires_client_side_decryption = false;
  is_end_to_end_encrypted = false;
}

row_elements-find_example :
    All
      (λ c.
        All
          (Finds
            (row_elements (λ t. t) true 0 printed (a_listed ∷ []))
            (row_element (λ t. t) true 0 printed a_listed))
          (looked_up c))
      (calls (row_element (λ t. t) true 0 printed a_listed))
row_elements-find_example =
    row_elements-find (λ t. t) true 0 printed (a_listed ∷ []) a_listed ((λ h. h), tt) (inl refl)

abbrev limited_rows : List FileRow
limited_rows = row_for 0 printed an_item ∷ []

set_new_download_count-badges_example :
    (row_of (codes "a1") (set_new_download_count (codes "a1") 4 (pos 1) limited_rows)
      ≡ Option.map (show_count 4 (pos 1)) (row_of (codes "a1") limited_rows))
    × (badges 9 (set_new_download_count (codes "a1") 4 (pos 1) limited_rows)
        ≡ badges 9 limited_rows)
set_new_download_count-badges_example =
    set_new_download_count-badges 9 (codes "a1") 4 (pos 1) limited_rows
