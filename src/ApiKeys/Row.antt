-- ===== src/ApiKeys/Row.antt =====
-- The row of a new API key: `addRowApi`, and the calls `newApiKey` and `deleteApiKey` around it
-- (admin_ui_api.js).
pub mod Found
use Prim.Native.String.{String}
use gokapiplus.Base.Text.{Text, codes, same_text}
use gokapiplus.Dom.{Node, Call, element, text, end, el, attr, call, children, words, icon}
use gokapiplus.Dom.Mark.{mark}
use gokapiplus.Base.{
  ℕ, ◌+◌, Bool, true, false, ◌&&◌, Option, none, some, List, [], ◌∷◌, ◌++◌, leb, if◌then◌else◌, map,
}

-- What the page knows of the viewer.
pub record Page : Type 0 where
  pub can_view_other_api_keys : Bool
  pub user_name : Text
  pub can_replace_files : Bool
  pub can_manage_users : Bool
  pub can_view_system_log : Bool
  pub can_create_file_request : Bool

pub record ApiKey : Type 0 where
  pub id : Text
  pub public_id : Text

pub record Permission : Type 0 where
  pub perm : Text
  pub icon : Text
  pub granted : Bool
  pub title : Text

abbrev pub define : String → String → Bool → String → Permission
define perm icon granted title = record {
  perm = codes perm;
  icon = codes icon;
  granted = granted;
  title = codes title;
}

abbrev pub perms : List Permission
perms =
    define "PERM_VIEW" "bi-eye" true "List Uploads"
    ∷ define "PERM_UPLOAD" "bi-file-earmark-plus" true "Upload"
    ∷ define "PERM_EDIT" "bi-pencil" true "Modifier Uploads"
    ∷ define "PERM_DELETE" "bi-trash3" true "Supprimer Uploads"
    ∷ define "PERM_REPLACE" "bi-recycle" false "Replace Uploads"
    ∷ define "PERM_DOWNLOAD" "bi-box-arrow-in-down" false "Télécharger Files"
    ∷ define "PERM_MANAGE_FILE_REQUESTS" "bi-file-earmark-arrow-up" false "Manage File Requests"
    ∷ define "PERM_MANAGE_USERS" "bi-people" false "Manage Users"
    ∷ define "PERM_MANAGE_LOGS" "bi-card-list" false "Manage System Logs"
    ∷ define "PERM_API_MOD" "bi-sliders2" false "Manage API Keys"
    ∷ []

abbrev pub lower : ℕ → ℕ
lower c = if leb 65 c && leb c 90 then c + 32 else c

-- `toLowerCase` of a name in ASCII.
abbrev pub to_lower_case : Text → Text
to_lower_case = map lower

abbrev pub granted_class : Bool → Text
granted_class true = codes "perm-granted"
granted_class false = codes "perm-notgranted"

abbrev pub permission_id : Text → Permission → Text
permission_id public_id p = to_lower_case p.perm ++ 95 ∷ public_id

abbrev pub permission_button : Text → Permission → Node
permission_button public_id p =
    element (codes "i")
      (record {
        id = some (permission_id public_id p);
        class_name = codes "bi " ++ p.icon ++ 32 ∷ granted_class p.granted;
        attributes = (codes "title", p.title) ∷ [];
        on_click = call "changeApiPermission" (public_id ∷ p.perm ∷ permission_id public_id p ∷ []);
      })
      end

abbrev pub permission_nodes : Text → List Permission → List Node
permission_nodes public_id [] = []
permission_nodes public_id (p ∷ ps) =
    permission_button public_id p ∷ words " " ∷ permission_nodes public_id ps

abbrev pub cell : Option Text → String → Option Call → List Node → Node
cell id class_name on_click inner = el "td" id class_name [] on_click (children inner)

abbrev pub copy_button : Text → Node
copy_button api_key =
    el "button" none "copyurl btn btn-outline-light btn-sm"
      (attr "type" "button"
        ∷ (codes "data-clipboard-text", api_key)
        ∷ attr "title" "Copier la clé d'API"
        ∷ [])
      (call "showToast" (codes "1000" ∷ [])) (children (icon "bi bi-copy" ∷ []))

abbrev pub delete_button : Text → Node
delete_button public_id =
    el "button" (some (codes "delete-" ++ public_id)) "btn btn-outline-danger btn-sm"
      (attr "type" "button" ∷ attr "title" "Supprimer" ∷ []) (call "deleteApiKey" (public_id ∷ []))
      (children (icon "bi bi-trash3" ∷ []))

abbrev pub buttons_cell : ApiKey → Node
buttons_cell key = cell none "newApiKey" none (
    el "div" none "btn-group" (attr "role" "group" ∷ []) none
      (children (copy_button key.id ∷ delete_button key.public_id ∷ []))
    ∷ [])

-- The cell of the user's name is there only for those who see other users' keys.
unfoldable pub last_cells : Bool → Text → ApiKey → List Node
last_cells true user_name key =
    cell none "newApiKey" none (text user_name ∷ []) ∷ buttons_cell key ∷ []
last_cells false user_name key = buttons_cell key ∷ []

unfoldable pub row_element : Page → ApiKey → Node
unfolding last_cells
row_element page key = el "tr" (some (codes "row-" ++ key.public_id)) "" [] none (
    children (
      cell (some (codes "friendlyname-" ++ key.public_id)) "newApiKey"
        (call "addFriendlyNameChange" (key.public_id ∷ [])) (words "Clé sans nom" ∷ [])
      ∷ cell none "newApiKey font-monospace" none (text key.id ∷ [])
      ∷ cell none "newApiKey" none (words "Jamais" ∷ [])
      ∷ cell none "newApiKey prevent-select" none (permission_nodes key.public_id perms)
      ∷ last_cells page.can_view_other_api_keys page.user_name key))

abbrev pub kept_first : Node → Option (List Node) → Option (List Node)
kept_first n none = none
kept_first n (some ns) = some (n ∷ ns)

-- `getElementById` on the page finds the element in the first row that has it.
abbrev pub first_row : Option Node → Node → List Node → Option (List Node) → Option (List Node)
first_row (some marked) n ns later = some (marked ∷ ns)
first_row none n ns later = kept_first n later

abbrev pub mark_rows : Text → Text → List Node → Option (List Node)
mark_rows id name [] = none
mark_rows id name (n ∷ ns) = first_row (mark id name n) n ns (mark_rows id name ns)

-- What one of the four tests at the end does; `none` where it throws.
abbrev pub unless_allowed : Bool → Text → Option (List Node) → Option (List Node)
unless_allowed allowed id none = none
unless_allowed true id (some rows) = some rows
unless_allowed false id (some rows) = mark_rows id (codes "perm-unavailable perm-nochange") rows

unfoldable pub add_row_api : Page → ApiKey → List Node → Option (List Node)
unfolding row_element mark
add_row_api page key rows =
    unless_allowed page.can_create_file_request
      (codes "perm_manage_file_requests_" ++ key.public_id)
      (unless_allowed page.can_view_system_log (codes "perm_manage_logs_" ++ key.public_id) (
        unless_allowed page.can_manage_users (codes "perm_manage_users_" ++ key.public_id) (
          unless_allowed page.can_replace_files (codes "perm_replace_" ++ key.public_id)
            (some (row_element page key ∷ rows)))))

-- ---- newApiKey
-- The button for a new key and the table.
pub record Table : Type 0 where
  pub disabled : Bool
  pub rows : List Node

-- The call was answered with a key, or it failed.
abbrev pub with_rows : Table → Option (List Node) → Table
with_rows t none = record t { disabled = true }
with_rows t (some rows) = record { disabled = false; rows = rows }

unfoldable pub new_api_key : Page → Option ApiKey → Table → Table
unfolding add_row_api
new_api_key page none t = record t { disabled = true }
new_api_key page (some key) t = with_rows t (add_row_api page key t.rows)

-- ---- deleteApiKey
-- A row, with whether its delete button is disabled and whether it is fading away.
pub record Shown : Type 0 where
  pub public_id : Text
  pub delete_disabled : Bool
  pub row_deleting : Bool

-- The first row with the id is changed.
unfoldable pub change_row : Text → (Shown → Shown) → List Shown → List Shown
change_row id f [] = []
change_row id f (r ∷ rs) =
    let rest = change_row id f rs in if same_text r.public_id id then f r ∷ rs else r ∷ rest

-- The call was answered or failed.
unfoldable pub delete_api_key : Bool → Text → List Shown → List Shown
unfolding change_row
delete_api_key answered id rows =
    let waiting = change_row id (λ (r : Shown). record r { delete_disabled = true }) rows in
    if answered
    then change_row id (λ (r : Shown). record r { row_deleting = true }) waiting
    else waiting

-- The timer takes the row away.
unfoldable pub remove_row : Text → List Shown → List Shown
remove_row id [] = []
remove_row id (r ∷ rs) =
    let rest = remove_row id rs in if same_text r.public_id id then rs else r ∷ rest

abbrev pub first : List Text → Text
first [] = []
first (x ∷ xs) = x

abbrev pub last : List Text → Text
last [] = []
last (x ∷ []) = x
last (x ∷ y ∷ xs) = last (y ∷ xs)

-- The elements that a handler looks for: `changeApiPermission`, `addFriendlyNameChange`,
-- `deleteApiKey`.
unfoldable pub looked_up : Call → List Text
unfolding same_text
looked_up c =
    let id = first c.arguments in
    if same_text c.function (codes "changeApiPermission")
    then last c.arguments ∷ []
    else if same_text c.function (codes "addFriendlyNameChange")
    then (codes "friendlyname-" ++ id) ∷ []
    else if same_text c.function (codes "deleteApiKey")
    then (codes "delete-" ++ id) ∷ (codes "row-" ++ id) ∷ []
    else []
