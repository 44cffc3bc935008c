-- ===== src/Stats/Settled.antt =====
-- Refreshing a table that was just refreshed, and the counter of expiring files beside the badges
-- (admin_ui_stats.js).
use gokapiplus.Base.{
  ℕ, ◌<◌, ◌≡◌, ◌↔◌, ◌⊎◌, refl, sym, ap, ap₂, ◌∙◌, Bool, true, false, some, List, [], ◌∷◌, inl, inr,
  arith,
}
use gokapiplus.Base.Text.{Text, same_text_iff}
use gokapiplus.Stats.{
  Row, get_file_status, write_badge, update_row_status, Counters, count_row, refresh_from,
  refresh_admin_stats, is_missing, shows, expiring_label, is_expiring, or_zero,
}

shows_itself : (label : Text) → shows (some label) label ≡ true
shows_itself label = (same_text_iff label label).1 refl

status-kept :
    (now : ℕ) (row : Row) (label : Text)
    → get_file_status now (record row { status = some label }) ≡ get_file_status now row
unfolding get_file_status
status-kept now row label = refl

write_badge_same :
    (cell absent : Bool) (label : Text) (row : Row)
    → write_badge cell absent true label row ≡ (row, 0)
write_badge_same false absent label row = refl
write_badge_same true true label row = refl
write_badge_same true false label row = refl

write_badge_cases :
    (cell absent is_same : Bool) (label : Text) (row : Row)
    → (write_badge cell absent is_same label row ≡ (row, 0))
      ⊎ (write_badge cell absent is_same label row ≡ (record row { status = some label }, 1))
write_badge_cases false absent is_same label row = inl refl
write_badge_cases true true is_same label row = inl refl
write_badge_cases true false true label row = inl refl
write_badge_cases true false false label row = inr refl

labelled-settled :
    (now : ℕ) (row : Row)
    → update_row_status now (record row { status = some (get_file_status now row) })
      ≡ (record row { status = some (get_file_status now row) }, 0)
unfolding update_row_status
labelled-settled now row =
    let label = get_file_status now row in
    let row' : Row = record row { status = some label } in
    rw (status-kept now row label, shows_itself label)
      (write_badge_same row.has_status_cell (is_missing row.remaining) label row')

update_row_status_settled :
    (now : ℕ) (row : Row)
    → update_row_status now (update_row_status now row).0 ≡ ((update_row_status now row).0, 0)
update_row_status_settled now row = elim (updated now row) [
  | inl same ↦ again row same same
  | inr written ↦ again _ written (labelled-settled now row)
]
  where
    updated :
        (now : ℕ) (row : Row)
        → (update_row_status now row ≡ (row, 0))
          ⊎ (update_row_status now row
              ≡ (record row { status = some (get_file_status now row) }, 1))
    updated now row =
        unfold update_row_status in write_badge_cases _ _ _ (get_file_status now row) row

    again :
        {n : ℕ} (row' : Row)
        → update_row_status now row ≡ (row', n)
        → update_row_status now row' ≡ (row', 0)
        → update_row_status now (update_row_status now row).0 ≡ ((update_row_status now row).0, 0)
    again row' first second =
        let e : (update_row_status now row).0 ≡ row' = ap (λ (r : Row × ℕ). r.0) first in
        ap (update_row_status now) e ∙ second ∙ sym (ap (λ (x : Row). (x, 0)) e)

refresh_from_settled :
    (now : ℕ) (c d : Counters) (rows : List Row)
    → (refresh_from now d (refresh_from now c rows).rows).rows ≡ (refresh_from now c rows).rows
unfolding refresh_from
refresh_from_settled now c d [] = refl
refresh_from_settled now c d (row ∷ rows) =
    ap₂ (λ x xs. x ∷ xs) (ap (λ (r : Row × ℕ). r.0) (update_row_status_settled now row))
      (refresh_from_settled now (count_row now row c) _ rows)

refresh_from_quiet :
    (now : ℕ) (c d : Counters) (rows : List Row)
    → (refresh_from now d (refresh_from now c rows).rows).writes ≡ 0
unfolding refresh_from
refresh_from_quiet now c d [] = refl
refresh_from_quiet now c d (row ∷ rows) =
    let first = ap (λ (r : Row × ℕ). r.1) (update_row_status_settled now row) in
    let rest =
      refresh_from_quiet now (count_row now row c) (count_row now (update_row_status now row).0 d)
        rows in
    omega (arith, first, rest)

-- Within the same second, a refresh of the table that follows a refresh writes to no cell and
-- leaves every row as it is.
pub refresh_admin_stats_settled :
    (now : ℕ) (rows : List Row)
    → ((refresh_admin_stats now (refresh_admin_stats now rows).rows).rows
        ≡ (refresh_admin_stats now rows).rows)
      × ((refresh_admin_stats now (refresh_admin_stats now rows).rows).writes ≡ 0)
unfolding refresh_admin_stats
refresh_admin_stats_settled now rows =
    (refresh_from_settled now _ _ rows, refresh_from_quiet now _ _ rows)

-- Of the files that have no expiry or are not expired, the counter of the files that expire soon
-- counts exactly those with the badge that says so.
pub is_expiring_iff :
    (now : ℕ) (row : Row)
    → or_zero row.expire ≡ 0 ⊎ now < or_zero row.expire
    → (is_expiring now row ≡ true) ↔ (get_file_status now row ≡ expiring_label)
unfolding get_file_status
is_expiring_iff now row live = ground (arith, live)
