-- ===== src/E2e/Decrypt.antt =====
-- The names and links of end-to-end encrypted files in the list: `decryptFileEntries`
-- (end2end_admin.js), on rows as elements of the page.
pub mod Stopped
use gokapiplus.Base.Text.{Text, codes, same_text}
use gokapiplus.Logs.Viewer.{starts_with, includes}
use gokapiplus.Dom.{Node, text, element, Nodes, end, node, Settings, or_else}
use gokapiplus.Base.{
  ℕ, zero, suc, ◌-◌, Bool, true, false, not, ◌&&◌, Option, none, some, List, [], ◌∷◌, ◌++◌, map,
  drop, length, if◌then◌else◌,
}

-- ---- what the code reads of a row
unfoldable pub cell_in : ℕ → Nodes → Option Node
cell_in column end = none
cell_in zero (node n ns) = some n
cell_in (suc column) (node n ns) = cell_in column ns

-- `datatable.cell(i, column).node()` for the row.
unfoldable pub cell : ℕ → Node → Option Node
unfolding cell_in
cell column (text t) = none
cell column (element tag s inner) = cell_in column inner

-- `querySelector(tag)`: the first element below, from the front.
unfoldable mutual
  unfolding same_text

  pub query : Text → Node → Option Node
  query tag (text t) = none
  query tag (element own s inner) =
      if same_text own tag then some (element own s inner) else query_in tag inner

  pub query_in : Text → Nodes → Option Node
  query_in tag end = none
  query_in tag (node n ns) = or_else (query tag n) (query_in tag ns)

unfoldable pub query_below : Text → Node → Option Node
unfolding query
query_below tag (text t) = none
query_below tag (element own s inner) = query_in tag inner

abbrev pub or_nothing : {A B : Type 0} → Option A → (A → Option B) → Option B
or_nothing none f = none
or_nothing (some a) f = f a

unfoldable pub attribute_in : Text → List (Text × Text) → Option Text
unfolding same_text
attribute_in name [] = none
attribute_in name ((key, value) ∷ more) =
    let rest = attribute_in name more in if same_text key name then some value else rest

abbrev pub get_attribute : Text → Node → Option Text
get_attribute name (text t) = none
get_attribute name (element tag s inner) = attribute_in name s.attributes

abbrev pub id_of : Node → Option Text
id_of (text t) = none
id_of (element tag s inner) = s.id

-- What the code reads and writes of a row: the id and the text of the cell in column 0, the link in
-- column 5, the text that the button in column 6 copies, if there is one, and the link behind the
-- QR code and the mail.
pub record View : Type 0 where
  pub id_attr : Option Text
  pub filename : Option Text
  pub href : Option Text
  pub clipboard_text : Option Text
  pub shared : Option Text

-- The row before the code runs, with the link that `addRow` gave to QR code and mail.
unfoldable pub view : Text → Text → Node → View
unfolding cell query_below attribute_in
view name url row = record {
  id_attr = or_nothing (cell 0 row) id_of;
  filename = some name;
  href =
      or_nothing (cell 5 row)
        (λ c. or_nothing (query_below (codes "a") c) (get_attribute (codes "href")));
  clipboard_text = or_nothing (cell 6 row) (λ c.
      or_nothing (query_below (codes "button") c) (get_attribute (codes "data-clipboard-text")));
  shared = some url;
}

-- ---- decryptFileEntries
-- A name and the key of the file, which goes behind the `#` of a link.
pub record Entry : Type 0 where
  pub filename : Text
  pub cipher : Text

-- `fileMap[id]`.
unfoldable pub entry_in : Text → List (Text × Entry) → Option Entry
unfolding same_text
entry_in id [] = none
entry_in id ((key, entry) ∷ more) =
    let rest = entry_in id more in if same_text key id then some entry else rest

abbrev pub entry_of : List (Text × Entry) → Option Text → Option Entry
entry_of files none = none
entry_of files (some []) = none
entry_of files (some (c ∷ id_attr)) =
    entry_in (drop (length (codes "cell-name-")) (c ∷ id_attr)) files

-- `replace` of the first occurrence.
unfoldable pub replace_first : Text → Text → Text → Text
unfolding starts_with
replace_first part by_ [] = []
replace_first part by_ (c ∷ t) =
    let rest = replace_first part by_ t in
    if starts_with (c ∷ t) part then by_ ++ drop (length part) (c ∷ t) else c ∷ rest

-- `IncludeFilename` of the page and `encodeURIComponent` of the browser.
module _ (include_filename : Bool) (encode_uri_component : Text → Text) where
  unfoldable pub decrypted_url : Entry → Text → Text
  unfolding includes replace_first
  decrypted_url entry url =
      let named =
        if include_filename
        then replace_first (codes "/Encrypted%20File")
            (codes "/" ++ encode_uri_component entry.filename) url
        else url in
      if includes url entry.cipher then url else named ++ codes "#" ++ entry.cipher

  -- A row with an entry; `true` says that the code throws, here when column 6 has no button.
  unfoldable pub decrypt_button : Option Text → Text → View → View × Bool
  decrypt_button none url v = (v, true)
  decrypt_button (some clipboard) url v =
      (record v { clipboard_text = some url; shared = some url }, false)

  -- Without a link the code throws before.
  unfoldable pub decrypt_link : Entry → Option Text → View → View × Bool
  unfolding decrypted_url decrypt_button
  decrypt_link entry none v = (v, true)
  decrypt_link entry (some href) v =
      let url = decrypted_url entry href in
      decrypt_button v.clipboard_text url (record v { href = some url })

  unfoldable pub decrypt_row : Option Entry → View → View × Bool
  unfolding decrypt_link
  decrypt_row none v = (v, false)
  decrypt_row (some entry) v =
      decrypt_link entry v.href (record v { filename = some entry.filename })

  abbrev pub unless_thrown : View × Bool → List View → List View × Bool → List View × Bool
  unless_thrown (v, true) later rest = (v ∷ later, true)
  unless_thrown (v, false) later rest = (v ∷ rest.0, rest.1)

  unfoldable pub decrypt_file_entries : List (Text × Entry) → List View → List View × Bool
  unfolding decrypt_row entry_in
  decrypt_file_entries files [] = ([], false)
  decrypt_file_entries files (v ∷ vs) =
      unless_thrown (decrypt_row (entry_of files v.id_attr) v) vs (decrypt_file_entries files vs)
