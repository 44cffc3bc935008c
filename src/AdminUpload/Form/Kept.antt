-- ===== src/AdminUpload/Form/Kept.antt =====
-- The settings for new files from one visit to the next (admin_ui_upload.js).
use gokapiplus.Base.Text.{same_text}
use gokapiplus.AdminUpload.Form.{
  Form, Storage, bool_text, get_local_storage_with_default, is_stored_true, set_upload_defaults,
  save_upload_defaults, File, send_chunk_complete,
}
use gokapiplus.Base.{Bool, true, false, not, none, some, [], ◌≡◌, refl}

not-is_stored_true : (b : Bool) → not (is_stored_true (some (bool_text (not b)))) ≡ b
unfolding is_stored_true get_local_storage_with_default same_text
not-is_stored_true true = refl
not-is_stored_true false = refl

-- On the page that is opened after the settings were saved, a file is sent with the limits that
-- were saved and without a password, the box for a password is not ticked, and no password is left
-- in the browser.
pub set_upload_defaults-kept :
    (file : File) (f page : Form) (s : Storage)
    → let next = set_upload_defaults (save_upload_defaults f s) page in
      (send_chunk_complete file next.1 ≡ record (send_chunk_complete file f) { password = [] })
      × (next.1.enable_password ≡ false)
      × (next.0.default_password ≡ none)
unfolding set_upload_defaults save_upload_defaults send_chunk_complete
    get_local_storage_with_default
set_upload_defaults-kept file f page s =
    rw (not-is_stored_true f.enable_download_limit, not-is_stored_true f.enable_time_limit)
      (refl, refl, refl)
