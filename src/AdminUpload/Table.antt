-- ===== src/AdminUpload/Table.antt =====
-- The table of files in one tab, and what the tab does on a message of the worker, an upload, a
-- deletion and the timer that takes a faded row away: `addRow`, `sanitizeId`, `changeRowCount`,
-- `deleteFile` and the messages of `registerChangeHandler` (admin_ui_upload.js).
pub mod Counted
pub mod Steps
use gokapiplus.Stats
use gokapiplus.Stats.{number, update_row_status}
use gokapiplus.Base.Text.{Text, codes, same_text}
use gokapiplus.Base.Int.{ℤ, pos, negsuc}
use gokapiplus.Base.Decimal.{decimal}
use gokapiplus.Base.{
  ℕ, zero, suc, ◌+◌, Bool, true, false, not, ◌&&◌, ◌||◌, Option, none, some, List, [], ◌∷◌, ◌++◌,
  leb, if◌then◌else◌, ◌≡◌, refl, length,
}

unfoldable pub is_alphanumeric : ℕ → Bool
is_alphanumeric c = leb 97 c && leb c 122 || (leb 65 c && leb c 90 || leb 48 c && leb c 57)

-- `str.replace(/[^a-zA-Z0-9]/g, '')`.
unfoldable pub sanitize_id : Text → Text
unfolding is_alphanumeric
sanitize_id [] = []
sanitize_id (c ∷ s) = let rest = sanitize_id s in if is_alphanumeric c then c ∷ rest else rest

-- What the server says of a file.
pub record Item : Type 0 where
  pub id : Text
  pub name : Text
  pub size : Text
  pub size_bytes : ℕ
  pub unlimited_time : Bool
  pub expire_at : ℕ
  pub unlimited_downloads : Bool
  pub downloads_remaining : ℕ
  pub download_count : ℕ
  pub url_download : Text
  pub is_password_protected : Bool

-- A row: its cells, the data that the counters and badges read, and whether it is fading away.
-- `has_remaining_id` tells whether a download can be counted down in it.
pub record FileRow : Type 0 where
  pub id : Text
  pub name : Text
  pub size : Text
  pub remaining : Text
  pub has_remaining_id : Bool
  pub stored_until : Text
  pub downloads : Text
  pub href : Text
  pub link : Text
  pub has_key : Bool
  pub stats : Stats.Row
  pub fading : Bool

-- `row_count` is `none` while it is -1.
pub record Tab : Type 0 where
  pub rows : List FileRow
  pub row_count : Option ℕ

-- The row that `getElementById` finds under an id.
unfoldable pub row_of : Text → List FileRow → Option FileRow
row_of id [] = none
row_of id (row ∷ rows) = let rest = row_of id rows in if same_text row.id id then some row else rest

abbrev pub counted : Tab → ℕ
counted t = elim t.row_count [ none ↦ length t.rows | some n ↦ n ]

abbrev pub one_less : ℕ → Option ℕ
one_less zero = none
one_less (suc n) = some n

-- The row starts to fade.
unfoldable pub fade : Text → List FileRow → List FileRow
fade id [] = []
fade id (row ∷ rows) =
    let rest = fade id rows in
    if same_text row.id id then record row { fading = true } ∷ rows else row ∷ rest

-- The timer behind it takes it away.
unfoldable pub take_away : Text → List FileRow → List FileRow
take_away id [] = []
take_away id (row ∷ rows) =
    let rest = take_away id rows in if same_text row.id id && row.fading then rows else row ∷ rest

-- An upload or an undone deletion in this tab, a deletion in it, the messages `fileAdded` and
-- `fileDeleted` of another tab, and the end of the fading of a row.
pub data Event : Type 0 where
  uploaded file_added : Item → Event
  deleted file_deleted faded : Text → Event

-- The clock in seconds and how a time is printed in the browser's time zone.
module _ (now : ℕ) (format_unix_timestamp : ℕ → Text) where
  unfoldable pub row_for : Item → FileRow
  unfolding sanitize_id update_row_status
  row_for item =
      let id = sanitize_id item.id in
      let data_ : Stats.Row = record {
        size = some item.size_bytes;
        downloads = some item.download_count;
        expire = some (if item.unlimited_time then 0 else item.expire_at);
        remaining =
            number (if item.unlimited_downloads then negsuc 0 else pos item.downloads_remaining);
        has_status_cell = true;
        status = none;
      } in
      record {
        id = id;
        name = item.name;
        size = item.size;
        remaining =
            if item.unlimited_downloads then codes "Illimité" else decimal item.downloads_remaining;
        has_remaining_id = not item.unlimited_downloads;
        stored_until =
            if item.unlimited_time then codes "Illimité" else format_unix_timestamp item.expire_at;
        downloads = decimal item.download_count;
        href = item.url_download;
        link = id;
        has_key = item.is_password_protected;
        stats = (update_row_status now data_).0;
        fading = false;
      }

  unfoldable pub add_row : Item → Tab → Tab
  unfolding row_for
  add_row item t = record { rows = row_for item ∷ t.rows; row_count = some (suc (counted t)) }

  -- `changeRowCount(false, row)` for the row that was found; there is nothing to do without one.
  unfoldable pub remove_row : Text → Tab → Option FileRow → Tab
  unfolding fade
  remove_row id t none = t
  remove_row id t (some row) = record { rows = fade id t.rows; row_count = one_less (counted t) }

  -- `deleteFile` passes on what it finds; without a row `changeRowCount` throws behind the new number.
  unfoldable pub delete_here : Text → Tab → Option FileRow → Tab
  unfolding remove_row
  delete_here id t none = record t { row_count = one_less (counted t) }
  delete_here id t (some row) = remove_row id t (some row)

  unfoldable pub add_if_absent : Item → Tab → Option FileRow → Tab
  unfolding add_row
  add_if_absent item t none = add_row item t
  add_if_absent item t (some row) = t

  unfoldable pub handle : Tab → Event → Tab
  unfolding add_row remove_row delete_here add_if_absent row_of take_away sanitize_id
  handle t (uploaded item) = add_row item t
  handle t (deleted id) = delete_here id t (row_of id t.rows)
  handle t (file_added item) = add_if_absent item t (row_of (sanitize_id item.id) t.rows)
  handle t (file_deleted id) = remove_row (sanitize_id id) t (row_of (sanitize_id id) t.rows)
  handle t (faded id) = record t { rows = take_away id t.rows }

  unfoldable pub handle_all : Tab → List Event → Tab
  unfolding handle
  handle_all t [] = t
  handle_all t (e ∷ es) = handle_all (handle t e) es
