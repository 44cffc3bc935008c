-- ===== src/AdminUpload/Table/Steps.antt =====
-- What the events of a tab do to its table (admin_ui_upload.js).
use gokapiplus.Base.Text.{Text}
use gokapiplus.AdminUpload.Table.{
  sanitize_id, Item, FileRow, Tab, row_of, counted, one_less, fade, take_away, row_for, add_row,
  remove_row, delete_here, add_if_absent, Event, uploaded, file_added, deleted, file_deleted, faded,
  handle, handle_all,
}
use gokapiplus.AdminUpload.Table.Counted.{
  Absent, live, Counts, Consistent, Absent-row_of, fade-Distinct, live-fade, take_away-Distinct,
  live-take_away, length-take_away, fading_of,
}
use gokapiplus.Base.{
  ℕ, zero, suc, ◌≡◌, refl, sym, ap, ◌∙◌, false, Option, none, some, List, [], ◌∷◌, arith,
}

-- A file that this tab uploads has a new id, a row that it deletes is there, and no row that is
-- deleted is fading already.
abbrev pub Allowed : Tab → Event → Type 0
Allowed t (uploaded item) = Absent (sanitize_id item.id) t.rows
Allowed t (file_added item) = Unit
Allowed t (deleted id) = (row : FileRow) × (row_of id t.rows ≡ some row) × (row.fading ≡ false)
Allowed t (file_deleted id) = fading_of (row_of (sanitize_id id) t.rows) ≡ false
Allowed t (faded id) = Unit

module _ (now : ℕ) (format_unix_timestamp : ℕ → Text) where
  abbrev pub AllAllowed : Tab → List Event → Type 0
  AllAllowed t [] = Unit
  AllAllowed t (e ∷ es) = Allowed t e × AllAllowed (handle now format_unix_timestamp t e) es

  add_row-Consistent :
      (item : Item) (t : Tab)
      → Absent (sanitize_id item.id) t.rows
      → Consistent t
      → Consistent (add_row now format_unix_timestamp item t)
  unfolding add_row row_for
  add_row-Consistent item t absent (distinct, counts) = ((absent, distinct), ap suc counts)

  one_less-suc :
      (rows : List FileRow) (m n : ℕ)
      → m ≡ suc n
      → counted (record { rows = rows; row_count = one_less m }) ≡ n
  one_less-suc rows zero n h = absurd (omega (arith, h))
  one_less-suc rows (suc m) n h = omega (arith, h)

  remove_row-Consistent :
      (id : Text) (t : Tab) (found : Option FileRow)
      → row_of id t.rows ≡ found
      → fading_of found ≡ false
      → Consistent t
      → Consistent (remove_row now format_unix_timestamp id t found)
  unfolding remove_row
  remove_row-Consistent id t none h clear ok = ok
  remove_row-Consistent id t (some row) h clear (distinct, counts) =
      let less = live-fade id row t.rows h clear in
      (
        fade-Distinct id t.rows distinct,
        one_less-suc (fade id t.rows) (counted t) (live (fade id t.rows)) (counts ∙ sym less),
      )

  add_if_absent-Consistent :
      (item : Item) (t : Tab) (found : Option FileRow)
      → row_of (sanitize_id item.id) t.rows ≡ found
      → Consistent t
      → Consistent (add_if_absent now format_unix_timestamp item t found)
  unfolding add_if_absent
  add_if_absent-Consistent item t none h ok =
      add_row-Consistent item t (Absent-row_of (sanitize_id item.id) t.rows h) ok
  add_if_absent-Consistent item t (some row) h ok = ok

  taken-Counts :
      (id : Text) (rows : List FileRow) (count : Option ℕ)
      → Counts (record { rows = rows; row_count = count })
      → Counts (record { rows = take_away id rows; row_count = count })
  taken-Counts id rows none counts =
      length-take_away id rows counts ∙ counts ∙ sym (live-take_away id rows)
  taken-Counts id rows (some n) counts = counts ∙ sym (live-take_away id rows)

  handle-Consistent :
      (t : Tab) (e : Event)
      → Allowed t e
      → Consistent t
      → Consistent (handle now format_unix_timestamp t e)
  unfolding handle delete_here
  handle-Consistent t (uploaded item) allowed ok = add_row-Consistent item t allowed ok
  handle-Consistent t (file_added item) allowed ok =
      add_if_absent-Consistent item t (row_of (sanitize_id item.id) t.rows) refl ok
  handle-Consistent t (deleted id) (row, found, clear) ok =
      rw found (remove_row-Consistent id t (some row) found clear ok)
  handle-Consistent t (file_deleted id) allowed ok =
      remove_row-Consistent (sanitize_id id) t (row_of (sanitize_id id) t.rows) refl allowed ok
  handle-Consistent t (faded id) allowed (distinct, counts) =
      (take_away-Distinct id t.rows distinct, taken-Counts id t.rows t.row_count counts)

  -- If no row has the id of a file that the tab uploads, a row that it deletes is there, and no
  -- deletion meets a row that is fading already, then any sequence of uploads, deletions, messages
  -- of other tabs and timers keeps it that no two rows of the tab have one id and that the number
  -- it shows is that of the rows that are not fading.
  pub handle_all-Consistent :
      (t : Tab) (es : List Event)
      → AllAllowed t es
      → Consistent t
      → Consistent (handle_all now format_unix_timestamp t es)
  unfolding handle_all
  handle_all-Consistent t [] allowed ok = ok
  handle_all-Consistent t (e ∷ es) (allowed, later) ok =
      handle_all-Consistent (handle now format_unix_timestamp t e) es later
        (handle-Consistent t e allowed ok)
