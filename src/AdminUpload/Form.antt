-- ===== src/AdminUpload/Form.antt =====
-- The settings for new files: `setUploadDefaults`, `saveUploadDefaults`, `getLocalStorageWithDefault`
-- and what `sendChunkComplete` makes of them (admin_ui_upload.js).
pub mod Kept
use gokapiplus.Base.Text.{Text, codes, same_text}
use gokapiplus.Base.{
  ℕ, Bool, true, false, not, ◌||◌, Option, none, some, List, [], ◌∷◌, if◌then◌else◌, ◌≡◌, refl,
}

-- The fields of the form, with the checkboxes in front of them.
pub record Form : Type 0 where
  pub allowed_downloads : Text
  pub expiry_days : Text
  pub password : Text
  pub enable_download_limit : Bool
  pub enable_time_limit : Bool
  pub enable_password : Bool
  pub downloads_disabled : Bool
  pub expiry_disabled : Bool
  pub password_disabled : Bool

-- What the browser keeps.
pub record Storage : Type 0 where
  pub default_downloads : Option Text
  pub default_expiry : Option Text
  pub default_unlimited_downloads : Option Text
  pub default_unlimited_time : Option Text
  pub default_password : Option Text

abbrev pub bool_text : Bool → Text
bool_text true = codes "true"
bool_text false = codes "false"

unfoldable pub get_local_storage_with_default : Option Text → Text → Text
get_local_storage_with_default none default = default
get_local_storage_with_default (some value) default = value

unfoldable pub is_stored_true : Option Text → Bool
unfolding get_local_storage_with_default same_text
is_stored_true stored =
    same_text (get_local_storage_with_default stored (codes "false")) (codes "true")

-- A field that is unlimited is disabled; another keeps what it was on the page.
unfoldable pub set_upload_defaults : Storage → Form → Storage × Form
unfolding get_local_storage_with_default is_stored_true
set_upload_defaults s page =
    let unlimited_downloads = is_stored_true s.default_unlimited_downloads in
    let unlimited_time = is_stored_true s.default_unlimited_time in
    (
      record s { default_password = none },
      record {
        allowed_downloads = get_local_storage_with_default s.default_downloads (codes "1");
        expiry_days = get_local_storage_with_default s.default_expiry (codes "14");
        password = [];
        enable_download_limit = not unlimited_downloads;
        enable_time_limit = not unlimited_time;
        enable_password = false;
        downloads_disabled = unlimited_downloads || page.downloads_disabled;
        expiry_disabled = unlimited_time || page.expiry_disabled;
        password_disabled = true;
      },
    )

unfoldable pub save_upload_defaults : Form → Storage → Storage
save_upload_defaults f s = record s {
  default_downloads = some f.allowed_downloads;
  default_expiry = some f.expiry_days;
  default_unlimited_downloads = some (bool_text (not f.enable_download_limit));
  default_unlimited_time = some (bool_text (not f.enable_time_limit));
}

-- A file whose chunks are all sent.
pub record File : Type 0 where
  pub uuid : Text
  pub name : Text
  pub size : ℕ
  pub content_type : Text
  pub is_end_to_end_encrypted : Bool
  pub size_encrypted : ℕ

-- What `apiChunkComplete` is given.
pub record Completion : Type 0 where
  pub uuid : Text
  pub filename : Text
  pub filesize : ℕ
  pub realsize : ℕ
  pub contenttype : Text
  pub allowed_downloads : Text
  pub expiry_days : Text
  pub password : Text
  pub is_e2e : Bool
  pub nonblocking : Bool

unfoldable pub send_chunk_complete : File → Form → Completion
send_chunk_complete file f =
    let is_e2e = file.is_end_to_end_encrypted in
    record {
      uuid = file.uuid;
      filename = if is_e2e then codes "Encrypted File" else file.name;
      filesize = if is_e2e then file.size_encrypted else file.size;
      realsize = file.size;
      contenttype = if is_e2e then [] else file.content_type;
      allowed_downloads = if f.enable_download_limit then f.allowed_downloads else codes "0";
      expiry_days = if f.enable_time_limit then f.expiry_days else codes "0";
      password = f.password;
      is_e2e = is_e2e;
      nonblocking = true;
    }

-- `checkBoxChanged` for the password.
unfoldable pub password_check_box_changed : Bool → Form → Form
password_check_box_changed true f = record f { enable_password = true; password_disabled = false }
password_check_box_changed false f = record f {
  enable_password = false;
  password_disabled = true;
  password = [];
}
