-- ===== src/Users/Examples.antt =====
-- The list of users at work (admin_ui_users.js).
use gokapiplus.Base.Text.{codes}
use gokapiplus.Base.{true, false, some, [], ◌∷◌, All, map, ◌≡◌, refl, inl, inr, not}
use gokapiplus.Dom.{calls}
use gokapiplus.Dom.Tables.{Finds}
use gokapiplus.Permissions.Shown.{Fits}
use gokapiplus.Users.Bits.{digit_at}
use gokapiplus.Users.Row.{Page, looked_up, define, Definition}
use gokapiplus.Users.Row.Found.{Created, row_of, add_all, add_all-find}
use gokapiplus.Users.Row.Granted.{drawn, drawn-Fits}
use gokapiplus.Users.Actions.{Adding}
use gokapiplus.Users.Actions.Settled.{Settled}

abbrev a_page : Page
a_page = record { is_internal_auth = true; is_admin = true; user_permissions = 511 }

abbrev a_user : Created
a_user = record { id = 7; name = codes "u"; permissions = 2 }

add_all-find_example :
    (add_all a_page (a_user ∷ []) ≡ some (map (row_of a_page) (a_user ∷ [])))
    × All
        (λ c. All (Finds (map (row_of a_page) (a_user ∷ [])) (row_of a_page a_user)) (looked_up c))
        (calls (row_of a_page a_user))
add_all-find_example = add_all-find a_page (a_user ∷ []) a_user ((λ h. h), tt) (inl refl)

abbrev list_permission : Definition
list_permission =
    define "UserPermListOtherUploads" 2 "bi bi-eye" "List other uploads" "perm_list_" "PERM_LIST"

drawn-Fits_example :
    Fits (drawn (codes "7") 2 511 list_permission) (digit_at 1 2) []
    × ((drawn (codes "7") 2 511 list_permission).nochange ≡ not (digit_at 1 511))
drawn-Fits_example = drawn-Fits (codes "7") 2 511 1 list_permission (inr (inr (inl refl))) refl refl

abbrev adding : Adding
adding = record { is_open = true; disabled = false; was_validated = false; rows = []; alerts = [] }
