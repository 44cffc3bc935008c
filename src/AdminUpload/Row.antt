-- ===== src/AdminUpload/Row.antt =====
-- The row of a file as the page shows it: the cells of `addRow` and the buttons of
-- `createButtonGroup` (admin_ui_upload.js), and the elements that their handlers look for.
pub mod Found
use Prim.Native.String.{String}
use gokapiplus.Base.Text.{Text, codes, same_text}
use gokapiplus.Base.Decimal.{decimal}
use gokapiplus.Dom.{Node, text, end, Call, el, attr, call, children, words, icon}
use gokapiplus.AdminUpload.Table.{Item, FileRow, row_for}
use gokapiplus.Base.{
  ℕ, Bool, true, false, Option, none, some, List, [], ◌∷◌, ◌++◌, if◌then◌else◌, map,
}

-- The rest of what the server says of a file.
pub record Listed : Type 0 where
  pub item : Item
  pub url_hotlink : Text
  pub requires_client_side_decryption : Bool
  pub is_end_to_end_encrypted : Bool

abbrev pub bool_text : Bool → Text
bool_text true = codes "true"
bool_text false = codes "false"

abbrev pub first : List Text → Text
first [] = []
first (x ∷ xs) = x

-- ---- createButtonGroup
abbrev pub split_toggle : Option Text → Node
split_toggle id =
    el "button" id "btn btn-outline-light btn-sm dropdown-toggle dropdown-toggle-split"
      (attr "type" "button" ∷ attr "data-bs-toggle" "dropdown" ∷ attr "aria-expanded" "false" ∷ [])
      none end

abbrev pub menu : List Node → Node
menu entries =
    el "ul" none "dropdown-menu dropdown-menu-end" (attr "data-bs-theme" "dark" ∷ []) none
      (children entries)

abbrev pub entry : Node → Node
entry link = el "li" none "" [] none (children (link ∷ []))

abbrev pub copy_url_button : Text → Text → Node
copy_url_button id url =
    el "button" (some (codes "url-button-" ++ id)) "copyurl btn btn-outline-light btn-sm"
      (attr "type" "button"
        ∷ (codes "data-clipboard-text", url)
        ∷ attr "title" "Copier le lien"
        ∷ [])
      (call "showToast" (codes "1000" ∷ [])) (children (icon "bi bi-copy" ∷ words " URL" ∷ []))

-- The first argument tells whether there is no hotlink.
unfoldable pub hotlink : Bool → Text → Node
hotlink false url =
    el "a" none "dropdown-item copyurl"
      (attr "title" "Copier le lien direct"
        ∷ attr "style" "cursor: pointer;"
        ∷ (codes "data-clipboard-text", url)
        ∷ [])
      (call "showToast" (codes "1000" ∷ [])) (children (icon "bi bi-copy" ∷ words " Hotlink" ∷ []))
hotlink true url =
    el "a" none "dropdown-item" [] none (children (words "Lien direct indisponible" ∷ []))

abbrev pub share_icon : Node
share_icon =
    el "svg" none "bi"
      (attr "xmlns" "http://www.w3.org/2000/svg"
        ∷ attr "width" "16"
        ∷ attr "height" "16"
        ∷ attr "fill" "currentColor"
        ∷ attr "viewBox" "0 0 16 16"
        ∷ [])
      none
      (children (
        el "path" none ""
          (attr "d"
              "M13.5 1a1.5 1.5 0 1 0 0 3 1.5 1.5 0 0 0 0-3M11 2.5a2.5 2.5 0 1 1 .603 1.628l-6.718 3.12a2.5 2.5 0 0 1 0 1.504l6.718 3.12a2.5 2.5 0 1 1-.488.876l-6.718-3.12a2.5 2.5 0 1 1 0-3.256l6.718-3.12A2.5 2.5 0 0 1 11 2.5m-8.5 4a1.5 1.5 0 1 0 0 3 1.5 1.5 0 0 0 0-3m11 5.5a1.5 1.5 0 1 0 0 3 1.5 1.5 0 0 0 0-3"
            ∷ [])
          none end
        ∷ []))

abbrev pub share_button : Text → Node
share_button id =
    el "button" none "btn btn-outline-light btn-sm"
      (attr "type" "button" ∷ attr "title" "Partager" ∷ []) (call "shareUrl" (id ∷ []))
      (children (share_icon ∷ []))

abbrev pub qr_code : Text → Text → Node
qr_code id url =
    el "a" (some (codes "qrcode-" ++ id)) "dropdown-item"
      (attr "style" "cursor: pointer;" ∷ attr "title" "Afficher le QR code" ∷ [])
      (call "showQrCode" (url ∷ [])) (children (icon "bi bi-qr-code" ∷ words " QR Code" ∷ []))

abbrev pub button : Option Text → String → String → Option Call → String → Node
button id class_name title on_click icon_class =
    el "button" id class_name (attr "type" "button" ∷ attr "title" title ∷ []) on_click
      (children (icon icon_class ∷ []))

-- The argument tells whether the file has to be decrypted in the browser.
unfoldable pub download_button : Bool → Text → Node
download_button true id =
    button none "btn btn-outline-light btn-sm disabled" "Télécharger"
      (call "downloadFileWithPresign" (id ∷ [])) "bi bi-download"
download_button false id =
    button none "btn btn-outline-light btn-sm" "Télécharger"
      (call "downloadFileWithPresign" (id ∷ [])) "bi bi-download"

abbrev pub edit_button : Bool → Text → Listed → Node
edit_button can_replace_own_files id f =
    button none "btn btn-outline-light btn-sm" "Modifier"
      (call "showEditModal" (
        f.item.name
        ∷ id
        ∷ decimal f.item.downloads_remaining
        ∷ decimal f.item.expire_at
        ∷ bool_text f.item.is_password_protected
        ∷ bool_text f.item.unlimited_downloads
        ∷ bool_text f.item.unlimited_time
        ∷ bool_text f.is_end_to_end_encrypted
        ∷ bool_text can_replace_own_files
        ∷ []))
      "bi bi-pencil"

abbrev pub delete_button : Text → Node
delete_button id =
    button (some (codes "button-delete-" ++ id)) "btn btn-outline-danger btn-sm" "Supprimer"
      (call "deleteFile" (id ∷ [])) "bi bi-trash3"

-- What is shown behind a link.
unfoldable pub key_icon : Bool → List Node
key_icon true =
    words " " ∷ el "i" none "bi bi-key" (attr "title" "Protégé par mot de passe" ∷ []) none end ∷ []
key_icon false = []

-- The cell of the remaining downloads has an id only with a limit, which is the second argument.
abbrev pub remaining_id : Bool → Text → Option Text
remaining_id true id = some (codes "cell-downloadsRemaining-" ++ id)
remaining_id false id = none

abbrev pub cell : Option Text → List (Text × Text) → List Node → Node
cell id attributes inner = el "td" id "newItem" attributes none (children inner)

abbrev pub badge : Option Text → List Node
badge none = []
badge (some label) = text label ∷ []

-- `encodeURIComponent` of the browser, the clock and how a time is printed in its time zone.
module _ (encode_uri_component : Text → Text) (can_replace_own_files : Bool) (now : ℕ)
    (format_unix_timestamp : ℕ → Text) where
  abbrev pub email : Text → Text → Node
  email id url =
      el "a" (some (codes "email-" ++ id)) "dropdown-item"
        (attr "title" "Envoyer par courriel"
          ∷ attr "target" "_blank"
          ∷ (codes "href", codes "mailto:?body=" ++ encode_uri_component url)
          ∷ [])
        none (children (icon "bi bi-envelope" ∷ words " Email" ∷ []))

  abbrev pub link_group : Text → Listed → Node
  link_group id f = el "div" none "btn-group me-2" (attr "role" "group" ∷ []) none (
      children (
        copy_url_button id f.item.url_download
        ∷ split_toggle none
        ∷ menu (entry (hotlink (same_text f.url_hotlink []) f.url_hotlink) ∷ [])
        ∷ share_button id
        ∷ split_toggle (some (codes "shareDropdown-" ++ id))
        ∷ menu (entry (qr_code id f.item.url_download) ∷ entry (email id f.item.url_download) ∷ [])
        ∷ []))

  abbrev pub file_group : Text → Listed → Node
  file_group id f = el "div" none "btn-group" (attr "role" "group" ∷ []) none (
      children (
        download_button f.requires_client_side_decryption id
        ∷ edit_button can_replace_own_files id f
        ∷ delete_button id
        ∷ []))

  unfoldable pub create_button_group : Text → Listed → Node
  unfolding hotlink download_button
  create_button_group id f =
      el "div" none "btn-toolbar justify-content-end" (attr "role" "toolbar" ∷ []) none
        (children (link_group id f ∷ file_group id f ∷ []))

  -- The cells are filled with what the row of the table shows.
  abbrev pub name_cell : FileRow → Node
  name_cell row = cell (some (codes "cell-name-" ++ row.id)) [] (text row.name ∷ [])

  abbrev pub size_cell : ℕ → FileRow → Node
  size_cell bytes row = cell none ((codes "data-order", decimal bytes) ∷ []) (text row.size ∷ [])

  abbrev pub url_cell : FileRow → Node
  url_cell row = cell none [] (
      el "a" (some (codes "url-href-" ++ row.id)) ""
        ((codes "href", row.href) ∷ attr "target" "_blank" ∷ attr "style" "color: inherit;" ∷ [])
        none (children (text row.link ∷ []))
      ∷ key_icon row.has_key)

  abbrev pub row_with : FileRow → Listed → Node
  row_with row f = el "tr" (some (codes "row-" ++ row.id)) "" [] none (
      children (
        name_cell row
        ∷ size_cell f.item.size_bytes row
        ∷ cell (remaining_id row.has_remaining_id row.id) [] (text row.remaining ∷ [])
        ∷ cell none [] (text row.stored_until ∷ [])
        ∷ cell (some (codes "cell-downloads-" ++ row.id)) [] (text row.downloads ∷ [])
        ∷ url_cell row
        ∷ cell (some (codes "cell-status-" ++ row.id)) [] (badge row.stats.status)
        ∷ cell none [] (create_button_group row.id f ∷ [])
        ∷ []))

  unfoldable pub row_element : Listed → Node
  unfolding create_button_group key_icon row_for
  row_element f = row_with (row_for now format_unix_timestamp f.item) f

  -- The rows of several uploads.
  unfoldable pub row_elements : List Listed → List Node
  unfolding row_element
  row_elements = map row_element

-- The elements that a handler looks for by an id of its row: `deleteFile` with its toast, `shareUrl`.
-- The other handlers use ids of the page only.
unfoldable pub looked_up : Call → List Text
unfolding same_text
looked_up c =
    let id = first c.arguments in
    if same_text c.function (codes "deleteFile")
    then (codes "button-delete-" ++ id) ∷ (codes "row-" ++ id) ∷ (codes "cell-name-" ++ id) ∷ []
    else if same_text c.function (codes "shareUrl")
    then (codes "shareDropdown-" ++ id)
      ∷ (codes "cell-name-" ++ id)
      ∷ (codes "url-href-" ++ id)
      ∷ []
    else []
