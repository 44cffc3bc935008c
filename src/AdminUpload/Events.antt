-- ===== src/AdminUpload/Events.antt =====
-- The events of the server that a tab shows: `parseSseData` and `setNewDownloadCount`
-- (admin_ui_upload.js).
pub mod Badges
use gokapiplus.Stats
use gokapiplus.Base.Text.{Text, codes, same_text}
use gokapiplus.Base.Int.{ℤ, pos, negsuc}
use gokapiplus.Base.Decimal.{decimal}
use gokapiplus.AdminUpload.Table.{FileRow, Tab}
use gokapiplus.Base.{
  ℕ, zero, suc, ◌+◌, Bool, true, false, Option, none, some, List, [], ◌∷◌, ◌++◌, if◌then◌else◌,
}

-- A parsed event; the other fields of `uploadStatus` go to `parseProgressStatus`.
pub data SseEvent : Type 0 where
  download : Text → ℕ → ℤ → SseEvent
  upload_status unknown : SseEvent

-- The cell of the downloads, whose text the counters read too.
abbrev pub with_downloads : ℕ → FileRow → FileRow
with_downloads count row = record row {
  downloads = decimal count;
  stats = record row.stats { downloads = some count };
}

-- The cell of the remaining downloads, if it has an id.
abbrev pub in_remaining_cell : Bool → Text → FileRow → FileRow
in_remaining_cell false t row = row
in_remaining_cell true t row = record row { remaining = t }

abbrev pub with_remaining : ℤ → FileRow → FileRow
with_remaining (pos n) row = in_remaining_cell row.has_remaining_id (decimal n) row
with_remaining (negsuc zero) row = row
with_remaining (negsuc (suc n)) row =
    in_remaining_cell row.has_remaining_id (codes "-" ++ decimal (n + 2)) row

abbrev pub show_count : ℕ → ℤ → FileRow → FileRow
show_count count remaining row = with_remaining remaining (with_downloads count row)

-- The elements are looked up by their ids.
unfoldable pub set_new_download_count : Text → ℕ → ℤ → List FileRow → List FileRow
set_new_download_count id count remaining [] = []
set_new_download_count id count remaining (row ∷ rows) =
    let rest = set_new_download_count id count remaining rows in
    if same_text row.id id then show_count count remaining row ∷ rows else row ∷ rest

-- `none` is data that is not JSON.
unfoldable pub parse_sse_data : Option SseEvent → Tab → Tab
unfolding set_new_download_count
parse_sse_data none t = t
parse_sse_data (some (download id count remaining)) t = record t {
  rows = set_new_download_count id count remaining t.rows;
}
parse_sse_data (some upload_status) t = t
parse_sse_data (some unknown) t = t
