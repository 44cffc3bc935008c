-- ===== src/FileRequests/Rows.antt =====
-- The rows of the file requests: `insertOrReplaceFileRequest`, `createFileRequestRow`,
-- `deleteFileRequest`, `deleteOrShowModal` and `changeFileCountFr` (admin_ui_filerequest.js), with
-- the dates of all_public.js that the rows show. `formatUnixTimestamp` prints a time in the
-- browser's time zone and is an argument.
pub mod Replaced
use gokapiplus.Base.Text.{Text, codes, same_text}
use gokapiplus.Base.Int.{ℤ, pos, negsuc}
use gokapiplus.Base.Decimal.{decimal}
use gokapiplus.FileRequests.Download.{Onclick, nothing}
use gokapiplus.Sizes.{get_readable_size}
use gokapiplus.Base.{
  ℕ, zero, suc, ◌*◌, Bool, true, false, Option, none, some, List, [], ◌∷◌, ◌++◌, ◌==◌, ltb,
  if◌then◌else◌, ◌≡◌, refl,
}

-- What the server answers to a saved request.
pub record Saved : Type 0 where
  pub id : Text
  pub name : Text
  pub apikey : Text
  pub uploadedfiles : ℕ
  pub maxfiles : ℕ
  pub maxsize : ℕ
  pub totalfilesize : ℕ
  pub lastupload : ℕ
  pub expiry : ℕ
  pub notes : Text

-- The page, the clock in milliseconds and how a time is printed.
pub record Page : Type 0 where
  pub base_url : Text
  pub user_name : Text
  pub can_view_other_requests : Bool
  pub now : ℕ
  pub format_unix_timestamp : ℕ → Text

-- A row: its link, its cells, and what its buttons are given. `user` is `none` where the row has no
-- cell for the user.
pub record Row : Type 0 where
  pub id : Text
  pub name : Text
  pub href : Text
  pub files : Text
  pub size : Text
  pub last_upload : Text
  pub expiry : Text
  pub user : Option Text
  pub download : Onclick
  pub download_disabled : Bool
  pub clipboard : Text
  pub edit : Saved
  pub delete : Text × Text × ℕ

-- `getElementById` of a row.
unfoldable pub row_of : Text → List Row → Option Row
row_of id [] = none
row_of id (row ∷ rows) = let rest = row_of id rows in if same_text row.id id then some row else rest

unfoldable pub replace_row : Text → Row → List Row → List Row
replace_row id new [] = []
replace_row id new (row ∷ rows) =
    let rest = replace_row id new rows in if same_text row.id id then new ∷ rows else row ∷ rest

unfoldable pub delete_row : Text → List Row → List Row
delete_row id [] = []
delete_row id (row ∷ rows) =
    let rest = delete_row id rows in if same_text row.id id then rows else row ∷ rest

-- What a press on the delete button does: the request goes at once if it has no files.
pub data Press : Type 0 where
  delete_request : Text → Press
  ask : Text → Text → ℕ → Press

unfoldable pub delete_or_show_modal : Text × Text × ℕ → Press
delete_or_show_modal (id, name, zero) = delete_request id
delete_or_show_modal (id, name, suc count) = ask id name (suc count)

-- `deleteFileRequest`, once the row has faded: the answer of the server, or its error.
unfoldable pub delete_file_request : Text → Option Text → List Row → List Row
unfolding delete_row
delete_file_request id (some error) rows = rows
delete_file_request id none rows = delete_row id rows

module _ (page : Page) where
  unfoldable pub format_timestamp_with_negative : ℕ → Text → Text
  format_timestamp_with_negative zero negative = negative
  format_timestamp_with_negative (suc time) negative = page.format_unix_timestamp (suc time)

  unfoldable pub format_file_request_expiry : ℕ → Text
  format_file_request_expiry zero = codes "Jamais"
  format_file_request_expiry (suc time) =
      if ltb (suc time * 1000) page.now
      then codes "Expired"
      else page.format_unix_timestamp (suc time)

  unfoldable pub public_url : Saved → Text
  public_url r = page.base_url ++ codes "publicUpload?id=" ++ r.id ++ codes "&key=" ++ r.apikey

  unfoldable pub files_text : ℕ → ℕ → Text
  files_text uploaded zero = decimal uploaded
  files_text uploaded (suc most) = decimal uploaded ++ codes " / " ++ decimal (suc most)

  unfoldable pub create_file_request_row : Saved → Text → Row
  unfolding format_timestamp_with_negative format_file_request_expiry public_url files_text
  create_file_request_row r user = record {
    id = r.id;
    name = r.name;
    href = public_url r;
    files = files_text r.uploadedfiles r.maxfiles;
    size = get_readable_size r.totalfilesize;
    last_upload = format_timestamp_with_negative r.lastupload (codes "None");
    expiry = format_file_request_expiry r.expiry;
    user = if page.can_view_other_requests then some user else none;
    download = nothing;
    download_disabled = r.uploadedfiles == 0;
    clipboard = public_url r;
    edit = r;
    delete = (r.id, r.name, r.uploadedfiles);
  }

  -- The row is on the page: `none` is the `TypeError` for reading a cell that is not there.
  unfoldable pub put_over : Saved → List Row → Option Text → Option (List Row)
  unfolding replace_row
  put_over r rows none = none
  put_over r rows (some user) = some (replace_row r.id (create_file_request_row r user) rows)

  unfoldable pub put_row : Saved → List Row → Option Row → Option (List Row)
  unfolding put_over
  put_row r rows none = some (create_file_request_row r page.user_name ∷ rows)
  put_row r rows (some old) = put_over r rows old.user

  unfoldable pub insert_or_replace_file_request : Saved → List Row → Option (List Row)
  unfolding put_row row_of
  insert_or_replace_file_request r rows = put_row r rows (row_of r.id rows)
