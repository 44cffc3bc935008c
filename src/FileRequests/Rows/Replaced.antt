-- ===== src/FileRequests/Rows/Replaced.antt =====
-- The list of file requests after one was saved (admin_ui_filerequest.js).
use gokapiplus.Base.Text.{Text}
use gokapiplus.FileRequests.Rows.{Saved, Page, Row, create_file_request_row, row_of}
use gokapiplus.Base.{Bool, true, false, Option, none, some, List, ◌≡◌, ◌≢◌, All}

-- A row has a cell for the user exactly on a page that shows other users' requests.
abbrev pub ShowsUser : Bool → Option Text → Type 0
ShowsUser can_view none = can_view ≡ false
ShowsUser can_view (some user) = can_view ≡ true

abbrev pub Drawn : Page → List Row → Type 0
Drawn page = All (λ row. ShowsUser page.can_view_other_requests row.user)

-- The table holds `new` under the id, and else what it held before.
abbrev pub Holds : Text → Row → List Row → List Row → Type 0
Holds id new before after =
    (row_of id after ≡ some new)
    × ((other : Text) → other ≢ id → row_of other after ≡ row_of other before)

abbrev ShownIf : Page → Option Row → Type 0
ShownIf page none = Unit
ShownIf page (some row) = ShowsUser page.can_view_other_requests row.user

-- The row of a saved request takes the place of the old one with the user that it named; where the
-- page does not show users the handler throws.
abbrev pub Replaced : Page → Saved → List Row → Row → Option (List Row) → Type 0
Replaced page r before old result =
    (page.can_view_other_requests ≡ true
      → (user : Text) × (old.user ≡ some user)
        × ((after : List Row) × (result ≡ some after)
            × Holds r.id (create_file_request_row page r user) before after))
    × (page.can_view_other_requests ≡ false → result ≡ none)
