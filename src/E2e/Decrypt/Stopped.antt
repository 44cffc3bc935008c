-- ===== src/E2e/Decrypt/Stopped.antt =====
-- What becomes of a list of files when the names of encrypted ones are put in. The rows that
-- webserver/web/templates/html_admin.tmpl draws have the columns of those that `addRow` builds.
use gokapiplus.Base.Text.{Text, codes, same_text}
use gokapiplus.Dom.{children}
use gokapiplus.AdminUpload.Table.{row_for}
use gokapiplus.AdminUpload.Row.{Listed, row_element, badge}
use gokapiplus.E2e.Decrypt.{
  View, Entry, view, cell, query, query_in, query_below, attribute_in, decrypted_url,
  decrypt_file_entries, decrypt_row, entry_of, unless_thrown, or_nothing, get_attribute,
}
use gokapiplus.Base.{ℕ, Bool, true, false, Option, none, some, List, [], ◌∷◌, ◌++◌, All, ◌≡◌, refl}

-- The link is in column 5, and column 6 has no button: the state of the file stands there.
abbrev pub Layout : View → Type 0
Layout v = ((url : Text) × (v.href ≡ some url)) × (v.clipboard_text ≡ none)

query_in-badge :
    (o : Option Text)
    → or_nothing
        (query_in (codes "button") (children (badge o)))
        (get_attribute (codes "data-clipboard-text"))
      ≡ none
unfolding query
query_in-badge none = refl
query_in-badge (some t) = refl

module _ (encode : Text → Text) (can_replace : Bool) (now : ℕ) (print : ℕ → Text) where
  -- The rows that `addRow` makes are laid out like this.
  pub row_element-Layout :
      (name url : Text) (f : Listed)
      → Layout (view name url (row_element encode can_replace now print f))
  unfolding view row_element query_below cell same_text attribute_in query
  row_element-Layout name url f = (
    ((row_for now print f.item).href, refl),
    query_in-badge (row_for now print f.item).stats.status,
  )

module _ (include_filename : Bool) (encode : Text → Text) (files : List (Text × Entry)) where
  -- The name and the link are put in, and nothing else.
  abbrev pub begun : Entry → Text → View → View
  begun entry url v = record v {
    filename = some entry.filename;
    href = some (decrypted_url include_filename encode entry url);
  }

  -- Either no row has an entry and all stay, or the code throws at the first row that has one.
  pub data Stopped : List View → List View × Bool → Type 0 where
    untouched :
        {vs : List View}
        → All (λ (v : View). entry_of files v.id_attr ≡ none) vs
        → Stopped vs (vs, false)
    thrown :
        (entry : Entry) (url : Text) (earlier : List View) (v : View) (later : List View)
        → All (λ (w : View). entry_of files w.id_attr ≡ none) earlier
        → entry_of files v.id_attr ≡ some entry
        → v.href ≡ some url
        → Stopped (earlier ++ v ∷ later) (earlier ++ begun entry url v ∷ later, true)

  decrypt_row-thrown :
      (entry : Entry) (url : Text) (v : View)
      → v.href ≡ some url
      → v.clipboard_text ≡ none
      → decrypt_row include_filename encode (some entry) v ≡ (begun entry url v, true)
  unfolding decrypt_row
  decrypt_row-thrown entry url v link no_button = rw (link, no_button) refl

  thrown_here :
      (o : Option Entry) (v : View) (vs : List View) (rest : List View × Bool)
      → entry_of files v.id_attr ≡ o
      → Layout v
      → Stopped vs rest
      → Stopped
          (v ∷ vs)
          (unless_thrown include_filename encode (decrypt_row include_filename encode o v) vs rest)
  unfolding decrypt_row
  thrown_here (some entry) v vs rest e ((url, link), no_button) h =
      rw (decrypt_row-thrown entry url v link no_button) (thrown entry url [] v vs tt e link)
  thrown_here none v vs _ e layout (untouched all) = untouched (e, all)
  thrown_here none v _ _ e layout (thrown entry url earlier w later all found link) =
      thrown entry url (v ∷ earlier) w later (e, all) found link

  -- On rows that have a link in column 5 and no button in column 6, either no row has an entry and
  -- all rows stay, or decryptFileEntries throws at the first row that has one, whose name and link
  -- alone are changed; the rows behind it keep their encrypted names.
  pub decrypt_file_entries-Stopped :
      (vs : List View)
      → All Layout vs
      → Stopped vs (decrypt_file_entries include_filename encode files vs)
  unfolding decrypt_file_entries
  decrypt_file_entries-Stopped [] h = untouched tt
  decrypt_file_entries-Stopped (v ∷ vs) (layout, h) =
      thrown_here (entry_of files v.id_attr) v vs
        (decrypt_file_entries include_filename encode files vs) refl layout
        (decrypt_file_entries-Stopped vs h)
