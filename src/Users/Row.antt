-- ===== src/Users/Row.antt =====
-- The row of a new user: `addRowUser`, `sanitizeUserId` and `PermissionDefinitions`
-- (admin_ui_users.js), and what its handlers look for.
pub mod Found
pub mod Granted
use Prim.Native.String.{String}
use gokapiplus.Base.Text.{Text, codes, same_text}
use gokapiplus.Base.Spaces.{trim}
use gokapiplus.Base.Split.{split}
use gokapiplus.Dom.{Node, Nodes, Call, element, text, end, el, attr, call, children, words, icon}
use gokapiplus.Dom.Ids.{has}
use gokapiplus.Permissions.{Indicator}
use gokapiplus.Users.Bits.{has_permission}
use gokapiplus.Base.{
  ℕ, zero, suc, Bool, true, false, not, ◌&&◌, Option, none, some, List, [], ◌∷◌, ◌++◌, leb,
  if◌then◌else◌, map,
}

unfoldable pub is_digit : ℕ → Bool
is_digit c = leb 48 c && leb c 57

unfoldable pub all_digits : Text → Bool
unfolding is_digit
all_digits [] = true
all_digits (c ∷ t) = is_digit c && all_digits t

-- `/^\d+$/`.
unfoldable pub is_numeric : Text → Bool
unfolding all_digits
is_numeric [] = false
is_numeric (c ∷ t) = all_digits (c ∷ t)

-- `none` where the code throws.
unfoldable pub sanitize_user_id : Text → Option Text
unfolding trim is_numeric
sanitize_user_id id =
    let numeric_id = trim id in if is_numeric numeric_id then some numeric_id else none

-- ---- PermissionDefinitions
pub record Definition : Type 0 where
  pub key : Text
  pub bit : ℕ
  pub icon : Text
  pub title : Text
  pub html_prefix : Text
  pub api_name : Text

abbrev pub define : String → ℕ → String → String → String → String → Definition
define key bit icon title html_prefix api_name = record {
  key = codes key;
  bit = bit;
  icon = codes icon;
  title = codes title;
  html_prefix = codes html_prefix;
  api_name = codes api_name;
}

abbrev pub permission_definitions : List Definition
permission_definitions =
    define "UserPermGuestUploads" 256 "bi bi-box-arrow-in-down" "Create file requests"
      "perm_guest_upload_" "PERM_GUEST_UPLOAD"
    ∷ define "UserPermReplaceUploads" 1 "bi bi-recycle" "Replace own uploads" "perm_replace_"
        "PERM_REPLACE"
    ∷ define "UserPermListOtherUploads" 2 "bi bi-eye" "List other uploads" "perm_list_" "PERM_LIST"
    ∷ define "UserPermEditOtherUploads" 4 "bi bi-pencil" "Modifier other uploads" "perm_edit_"
        "PERM_EDIT"
    ∷ define "UserPermDeleteOtherUploads" 16 "bi bi-trash3" "Supprimer other uploads" "perm_delete_"
        "PERM_DELETE"
    ∷ define "UserPermReplaceOtherUploads" 8 "bi bi-arrow-left-right" "Replace other uploads"
        "perm_replace_other_" "PERM_REPLACE_OTHER"
    ∷ define "UserPermManageLogs" 32 "bi bi-card-list" "Manage system logs" "perm_logs_" "PERM_LOGS"
    ∷ define "UserPermManageUsers" 128 "bi bi-people" "Manage users" "perm_users_" "PERM_USERS"
    ∷ define "UserPermManageApiKeys" 64 "bi bi-sliders2" "Manage all API keys" "perm_api_"
        "PERM_API"
    ∷ []

abbrev pub html_id : Definition → Text → Text
html_id d user_id = d.html_prefix ++ user_id

abbrev pub granted_class : Bool → Text
granted_class true = codes "perm-granted"
granted_class false = codes "perm-notgranted"

abbrev pub nochange_class : Bool → Text
nochange_class true = []
nochange_class false = codes "perm-nochange"

-- The class of a button, from whether the user and whether the viewer has the permission.
abbrev pub permission_class : Definition → Bool → Bool → Text
permission_class d granted own = d.icon ++ 32 ∷ (granted_class granted ++ 32 ∷ nochange_class own)

-- The handler has the id as a numeral, and a number prints as it was.
abbrev pub permission_button : Text → Bool → Bool → Definition → Node
permission_button user_id granted own d =
    element (codes "i")
      (record {
        id = some (html_id d user_id);
        class_name = permission_class d granted own;
        attributes = (codes "title", d.title) ∷ [];
        on_click = call "changeUserPermission" (user_id ∷ d.api_name ∷ html_id d user_id ∷ []);
      })
      (children (text (10 ∷ codes "        ") ∷ []))

-- Whether the users sign in with a password here, whether the viewer is an admin, and the viewer's
-- permissions.
pub record Page : Type 0 where
  pub is_internal_auth : Bool
  pub is_admin : Bool
  pub user_permissions : ℕ

pub record User : Type 0 where
  pub id : Text
  pub name : Text
  pub permissions : ℕ

-- The template sets the spaces of its layout between the buttons.
abbrev pub permission_nodes : Page → Text → ℕ → List Definition → List Node
permission_nodes page user_id permissions [] = []
permission_nodes page user_id permissions (d ∷ ds) =
    text (10 ∷ codes "        ")
    ∷ permission_button user_id (has_permission permissions d.bit)
        (has_permission page.user_permissions d.bit) d
    ∷ permission_nodes page user_id permissions ds

abbrev pub button : Text → String → String → List (Text × Text) → Option Call → String → Node
button id class_name title more on_click icon_class =
    el "button" (some id) class_name (attr "type" "button" ∷ attr "title" title ∷ more) on_click
      (children (icon icon_class ∷ []))

unfoldable pub password_buttons : Bool → Text → Text → List Node
password_buttons true id name =
    button (codes "pwchange-" ++ id) "btn btn-outline-light btn-sm" "Réinitialiser le mot de passe"
      [] (call "showResetPwModal" (id ∷ name ∷ [])) "bi bi-key-fill"
    ∷ []
password_buttons false id name = []

unfoldable pub promote_button : Bool → Text → Node
promote_button true id =
    button (codes "changeRank_" ++ id) "btn btn-outline-light btn-sm" "Promouvoir" []
      (call "changeRank" (id ∷ codes "ADMIN" ∷ (codes "changeRank_" ++ id) ∷ []))
      "bi bi-chevron-double-up"
promote_button false id =
    button (codes "changeRank_" ++ id) "btn btn-outline-light btn-sm" "Promouvoir"
      (attr "disabled" "" ∷ []) none "bi bi-chevron-double-up"

abbrev pub delete_button : Text → Text → Node
delete_button id name =
    button (codes "delete-" ++ id) "btn btn-outline-danger btn-sm" "Supprimer" []
      (call "showDeleteUserModal" (id ∷ name ∷ [])) "bi bi-trash3"

-- A cell, until the timer takes `newUser` away.
abbrev pub cell : List Node → Node
cell inner = el "td" none "newUser" [] none (children inner)

abbrev pub actions : Page → Text → Text → List Node
actions page id name =
    password_buttons page.is_internal_auth id name
    ++ promote_button page.is_admin id ∷ delete_button id name ∷ []

unfoldable pub row_element : Page → Text → Text → ℕ → Node
unfolding has_permission password_buttons promote_button
row_element page id name permissions = el "tr" (some (codes "row-" ++ id)) "" [] none (
    children (
      cell (text name ∷ [])
      ∷ cell (words "User" ∷ [])
      ∷ cell (words "Jamais" ∷ [])
      ∷ cell (words "0" ∷ [])
      ∷ cell (permission_nodes page id permissions permission_definitions)
      ∷ cell (
          el "div" none "btn-group" (attr "role" "group" ∷ []) none
            (children (actions page id name))
          ∷ [])
      ∷ []))

-- The table below its head; `none` where the code throws.
abbrev pub put_row : Page → User → Option Text → List Node → Option (List Node)
put_row page user none rows = none
put_row page user (some id) rows = some (row_element page id user.name user.permissions ∷ rows)

unfoldable pub add_row_user : Page → User → List Node → Option (List Node)
unfolding sanitize_user_id row_element
add_row_user page user rows = put_row page user (sanitize_user_id user.id) rows

-- `classList.contains`.
unfoldable pub contains : Text → Text → Bool
unfolding has split
contains class_name name = has name (split 32 class_name)

-- What `changeUserPermission` reads of a button.
abbrev pub indicator_of : Text → Indicator
indicator_of class_name = record {
  granted = contains class_name (codes "perm-granted");
  notgranted = contains class_name (codes "perm-notgranted");
  processing = contains class_name (codes "perm-processing");
  nochange = contains class_name (codes "perm-nochange");
}

abbrev pub first : List Text → Text
first [] = []
first (x ∷ xs) = x

abbrev pub last : List Text → Text
last [] = []
last (x ∷ []) = x
last (x ∷ y ∷ xs) = last (y ∷ xs)

-- The elements that a handler looks for by an id of its row: `changeUserPermission` with the two
-- buttons of its cascade, `changeRank`, and `showDeleteUserModal` once the user is deleted.
unfoldable pub looked_up : Call → List Text
unfolding same_text
looked_up c =
    let id = first c.arguments in
    if same_text c.function (codes "changeUserPermission")
    then last c.arguments ∷ (codes "perm_replace_" ++ id) ∷ (codes "perm_replace_other_" ++ id) ∷ []
    else if same_text c.function (codes "changeRank")
    then last c.arguments ∷ []
    else if same_text c.function (codes "showDeleteUserModal")
    then (codes "row-" ++ id) ∷ []
    else []
