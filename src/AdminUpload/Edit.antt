-- ===== src/AdminUpload/Edit.antt =====
-- The dialog for an existing file: `showEditModal`, `editFile` and `add14DaysIfBeforeCurrentTime`
-- (admin_ui_upload.js).
pub mod Unchanged
use gokapiplus.Base.Text.{Text, codes, same_text}
use gokapiplus.Base.{
  ℕ, ◌+◌, ◌*◌, ◌/◌, Bool, true, false, not, ◌&&◌, Option, none, some, List, [], ◌∷◌, ◌++◌, ltb,
  if◌then◌else◌, ◌≡◌, refl,
}

-- What the table says of a file.
pub record Shown : Type 0 where
  pub id : Text
  pub downloads : Text
  pub expiry : ℕ
  pub password : Bool
  pub unlimited_downloads : Bool
  pub unlimited_time : Bool
  pub is_e2e : Bool
  pub can_replace : Bool

-- The dialog; a file that can be chosen for the replacement is its id and the text of the option.
pub record Modal : Type 0 where
  pub file_id : Text
  pub downloads : Text
  pub downloads_checked : Bool
  pub downloads_disabled : Bool
  pub expiry : ℕ
  pub expiry_checked : Bool
  pub expiry_disabled : Bool
  pub password : Text
  pub password_checked : Bool
  pub password_disabled : Bool
  pub replace_checked : Bool
  pub replace_disabled : Bool
  pub replace_shown : Bool
  pub replace_options : List (Text × Text)
  pub replace_id : Text

abbrev pub unchanged : Text
unchanged = codes "(unchanged)"

-- The clock is in milliseconds.
unfoldable pub add14_days_if_before_current_time : ℕ → ℕ → ℕ
add14_days_if_before_current_time now time =
    if ltb (time * 1000) now then (now + 14 * 24 * 60 * 60 * 1000) / 1000 else time

-- The options for the replacement: every file of the table but this one.
unfoldable pub options_for : Text → List (Text × Text) → List (Text × Text)
unfolding same_text
options_for id [] = []
options_for id ((other, name) ∷ files) =
    let rest = options_for id files in
    if same_text other id then rest else (other, name ++ codes " (" ++ other ++ codes ")") ∷ rest

-- The dialog in the page has no option and no tick for a replacement. A list without a choice has
-- its first option as value.
unfoldable pub first_option : List (Text × Text) → Text
first_option [] = []
first_option ((id, label) ∷ rest) = id

unfoldable pub replace_options_of : Shown → List (Text × Text) → List (Text × Text)
unfolding options_for
replace_options_of f files =
    if f.can_replace
    then (if f.is_e2e then (codes "0", codes "Unavailable") ∷ [] else options_for f.id files)
    else []

unfoldable pub show_edit_modal : ℕ → List (Text × Text) → Shown → Modal
unfolding add14_days_if_before_current_time replace_options_of first_option
show_edit_modal now files f = record {
  file_id = f.id;
  downloads = if f.unlimited_downloads then codes "1" else f.downloads;
  downloads_checked = not f.unlimited_downloads;
  downloads_disabled = f.unlimited_downloads;
  expiry = if f.unlimited_time then add14_days_if_before_current_time now f.expiry else f.expiry;
  expiry_checked = not f.unlimited_time;
  expiry_disabled = f.unlimited_time;
  password = if f.password then unchanged else [];
  password_checked = f.password;
  password_disabled = not f.password;
  replace_checked = false;
  replace_disabled = f.can_replace && f.is_e2e;
  replace_shown = f.can_replace;
  replace_options = replace_options_of f files;
  replace_id = first_option (replace_options_of f files);
}

-- What `apiFilesModify` and `apiFilesReplace` are given.
pub record Change : Type 0 where
  pub id : Text
  pub allowed_downloads : Text
  pub expiry_timestamp : ℕ
  pub password : Text
  pub original_password : Bool

pub data Call : Type 0 where
  modify : Change → Call
  replace : Text → Text → Call

-- The page is loaded again, or an error is shown and the button can be pressed again.
pub data Ending : Type 0 where
  reloaded : Ending
  failed : Text → Ending

unfoldable pub change_of : Modal → Change
unfolding same_text
change_of m = record {
  id = m.file_id;
  allowed_downloads = if m.downloads_checked then m.downloads else codes "0";
  expiry_timestamp = if m.expiry_checked then m.expiry else 0;
  password = if m.password_checked then m.password else [];
  original_password = m.password_checked && same_text m.password unchanged;
}

-- The file that takes the place of this one, if one is chosen.
unfoldable pub replacement_of : Bool → Text → Option Text
replacement_of false id = none
replacement_of true [] = none
replacement_of true (c ∷ id) = some (c ∷ id)

-- The server answers a call with an error or none.
module _ (answer : Call → Option Text) where
  abbrev pub ending : Option Text → Ending
  ending none = reloaded
  ending (some e) = failed e

  unfoldable pub after_modify : Call → Text → Option Text → Option Text → List Call × Ending
  after_modify first id replacement (some e) = (first ∷ [], failed e)
  after_modify first id none none = (first ∷ [], reloaded)
  after_modify first id (some other) none =
      (first ∷ replace id other ∷ [], ending (answer (replace id other)))

  unfoldable pub edit_file : Modal → List Call × Ending
  unfolding change_of replacement_of after_modify
  edit_file m =
      let first = modify (change_of m) in
      after_modify first m.file_id (replacement_of m.replace_checked m.replace_id) (answer first)
