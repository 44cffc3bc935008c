-- ===== src/Stats.antt =====
-- The counters above the upload box and the badges of the file list
-- (internal/webserver/web/static/js/admin_ui_stats.js).
pub mod Settled
mod Examples
use gokapiplus.Base.{
  ℕ, suc, ◌+◌, ◌≡◌, refl, Bool, true, false, not, ◌&&◌, Option, none, some, List, [], ◌∷◌, ltb, leb,
  ◌==◌, if◌then◌else◌, length,
}
use gokapiplus.Base.Text.{Text, codes, same_text}
use gokapiplus.Base.Int.{ℤ, pos, negsuc, is_number}

-- STATS_EXPIRING_SOON_SECONDS
abbrev pub a_day : ℕ
a_day = 86400

-- `row.dataset.remaining`: missing, no number, or a number.
pub data Remaining : Type 0 where
  missing unreadable : Remaining
  number : ℤ → Remaining

-- What a row of the table carries: the numbers that `parseInt` reads, if the cell is there and it
-- reads one, whether there is a status cell, and `row.dataset.status`.
pub record Row : Type 0 where
  pub size : Option ℕ
  pub downloads : Option ℕ
  pub expire : Option ℕ
  pub remaining : Remaining
  pub has_status_cell : Bool
  pub status : Option Text

-- `… || 0`
abbrev pub or_zero : Option ℕ → ℕ
or_zero none = 0
or_zero (some n) = n

abbrev pub is_unlimited : Remaining → Bool
is_unlimited (number (negsuc n)) = n == 0
is_unlimited _ = false

abbrev pub is_last : Remaining → Bool
is_last (number n) = is_number n 1
is_last _ = false

abbrev pub is_missing : Remaining → Bool
is_missing missing = true
is_missing _ = false

abbrev pub expiring_label : Text
expiring_label = codes "Expire bientôt"

-- The label that `getFileStatus` returns; the class goes with it.
unfoldable pub get_file_status : ℕ → Row → Text
get_file_status now row =
    let expiry = or_zero row.expire in
    if not (expiry == 0) && leb expiry (now + a_day)
    then expiring_label
    else if not (is_unlimited row.remaining) && is_last row.remaining
    then codes "Dernier téléchargement"
    else if expiry == 0 && is_unlimited row.remaining
    then codes "Illimité"
    else codes "Actif"

abbrev pub shows : Option Text → Text → Bool
shows none label = false
shows (some text) label = same_text text label

-- The row, and how often its cell was written, by whether there is a cell, whether the downloads
-- left are missing, and whether the badge shows the label.
abbrev pub write_badge : Bool → Bool → Bool → Text → Row → Row × ℕ
write_badge false is_absent is_same label row = (row, 0)
write_badge true true is_same label row = (row, 0)
write_badge true false true label row = (row, 0)
write_badge true false false label row = (record row { status = some label }, 1)

unfoldable pub update_row_status : ℕ → Row → Row × ℕ
unfolding get_file_status same_text
update_row_status now row =
    let label = get_file_status now row in
    write_badge row.has_status_cell (is_missing row.remaining) (shows row.status label) label row

-- What the loop of `refreshAdminStats` has found so far.
pub record Counters : Type 0 where
  pub storage_used : ℕ
  pub downloads : ℕ
  pub expiring_soon : ℕ

abbrev pub is_expiring : ℕ → Row → Bool
is_expiring now row = ltb now (or_zero row.expire) && leb (or_zero row.expire) (now + a_day)

abbrev pub count_row : ℕ → Row → Counters → Counters
count_row now row c = record {
  storage_used = c.storage_used + or_zero row.size;
  downloads = c.downloads + or_zero row.downloads;
  expiring_soon = if is_expiring now row then suc c.expiring_soon else c.expiring_soon;
}

-- The rows, the counters, and how often a cell of the table was written.
pub record Refreshed : Type 0 where
  pub rows : List Row
  pub counters : Counters
  pub writes : ℕ

abbrev pub with_row : Row × ℕ → Refreshed → Refreshed
with_row (row, n) r = record r { rows = row ∷ r.rows; writes = n + r.writes }

unfoldable pub refresh_from : ℕ → Counters → List Row → Refreshed
unfolding update_row_status
refresh_from now c [] = record { rows = []; counters = c; writes = 0 }
refresh_from now c (row ∷ rows) =
    with_row (update_row_status now row) (refresh_from now (count_row now row c) rows)

unfoldable pub refresh_admin_stats : ℕ → List Row → Refreshed
unfolding refresh_from
refresh_admin_stats now rows =
    refresh_from now (record { storage_used = 0; downloads = 0; expiring_soon = 0 }) rows
