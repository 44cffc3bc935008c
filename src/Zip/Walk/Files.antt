-- ===== src/Zip/Walk/Files.antt =====
-- What the walk over an entry adds to the items (`zipWalkEntry`, admin_ui_zip.js).
use gokapiplus.Base.{
  ◌≡◌, refl, sym, ap, ap₂, ◌∙◌, Bool, true, false, ◌&&◌, Option, none, some, List, [], ◌∷◌, ◌++◌,
  append-nil, append_assoc, Bool-cases, inl, inr,
}
use gokapiplus.Base.Text.{Text, codes}
use gokapiplus.Zip.Items.{File, Item}
use gokapiplus.Zip.Walk.{
  Entry, file_entry, directory, neither, Batches, refused, finished, batch, Entries, nil, cons,
  is_readable, and_then, zip_walk_entry, walk_batches, walk_entries, Dropped, plain, entry,
  collect_from, zip_collect_items,
}

-- The files below an entry, in the order of the readers.
mutual
  pub files_of : Entry → List File
  files_of (file_entry name none) = []
  files_of (file_entry name (some file)) = file ∷ []
  files_of neither = []
  files_of (directory name batches) = files_of_batches batches

  files_of_batches : Batches → List File
  files_of_batches (batch e es rest) = files_of e ++ (files_of_entries es ++ files_of_batches rest)
  files_of_batches _ = []

  files_of_entries : Entries → List File
  files_of_entries nil = []
  files_of_entries (cons e es) = files_of e ++ files_of_entries es

-- Whether the browser hands out every file and every reader below an entry.
mutual
  pub is_granted : Entry → Bool
  is_granted (file_entry name none) = false
  is_granted (file_entry name (some file)) = true
  is_granted neither = true
  is_granted (directory name batches) = is_readable batches && is_granted_batches batches

  is_granted_batches : Batches → Bool
  is_granted_batches (batch e es rest) =
      is_granted e && (is_granted_entries es && is_granted_batches rest)
  is_granted_batches _ = true

  is_granted_entries : Entries → Bool
  is_granted_entries nil = true
  is_granted_entries (cons e es) = is_granted e && is_granted_entries es

abbrev with_file : Option File → List File → List File
with_file none files = files
with_file (some file) files = file ∷ files

-- The files of items.
pub files_in : List Item → List File
files_in [] = []
files_in (item ∷ rest) = with_file item.file (files_in rest)

with_file-append :
    (o : Option File) (fs gs : List File) → with_file o (fs ++ gs) ≡ with_file o fs ++ gs
with_file-append none fs gs = refl
with_file-append (some file) fs gs = refl

files_in-append : (xs ys : List Item) → files_in (xs ++ ys) ≡ files_in xs ++ files_in ys
unfolding files_in
files_in-append [] ys = refl
files_in-append (x ∷ xs) ys =
    ap (with_file x.file) (files_in-append xs ys)
    ∙ with_file-append x.file (files_in xs) (files_in ys)

-- The walk fails when something was not handed out; else it appends items with these files.
abbrev pub Walked : Bool → List File → List Item → Option (List Item) → Type 0
Walked granted files result none = granted ≡ false
Walked granted files result (some items) =
    (granted ≡ true) × ((added : List Item) × (items ≡ result ++ added) × (files_in added ≡ files))

second-Walked :
    (b c : Bool) (fs gs : List File) (result items added : List Item) (o : Option (List Item))
    → b ≡ true
    → items ≡ result ++ added
    → files_in added ≡ fs
    → Walked c gs items o
    → Walked (b && c) (fs ++ gs) result o
second-Walked b c fs gs result items added none yes_b same files h = rw yes_b h
second-Walked b c fs gs result items added (some items') yes_b same files
      (yes_c, (added', same', files')) =
    (
      rw (yes_b, yes_c) refl,
      (
        added ++ added',
        same' ∙ (ap (λ l. l ++ added') same ∙ append_assoc result added added'),
        files_in-append added added' ∙ ap₂ (λ x y. x ++ y) files files',
      ),
    )

and_then-Walked :
    (b c : Bool) (fs gs : List File) (result : List Item) (o : Option (List Item))
    (next : List Item → Option (List Item))
    → Walked b fs result o
    → ((items : List Item) → Walked c gs items (next items))
    → Walked (b && c) (fs ++ gs) result (and_then o next)
and_then-Walked b c fs gs result none next h k = rw h refl
and_then-Walked b c fs gs result (some items) next (yes_b, (added, same, files)) k =
    second-Walked b c fs gs result items added (next items) yes_b same files (k items)

mutual
  unfolding zip_walk_entry files_of is_granted files_in

  -- One entry, the batches of a folder, and the entries of a batch.
  pub zip_walk_entry-Walked :
      (e : Entry) (parent_path : Text) (result : List Item)
      → Walked (is_granted e) (files_of e) result (zip_walk_entry e parent_path result)
  zip_walk_entry-Walked (file_entry name none) parent_path result = refl
  zip_walk_entry-Walked (file_entry name (some file)) parent_path result = (refl, (_, refl, refl))
  zip_walk_entry-Walked neither parent_path result = (refl, ([], sym (append-nil result), refl))
  zip_walk_entry-Walked (directory name refused) parent_path result = refl
  zip_walk_entry-Walked (directory name finished) parent_path result = (refl, (_, refl, refl))
  zip_walk_entry-Walked (directory name (batch e es rest)) parent_path result =
      elim (Bool-cases (is_readable rest)) [
        | inr unreadable ↦ rw unreadable refl
        | inl readable ↦
            rw readable
              (walk_batches-Walked (batch e es rest) (parent_path ++ (name ++ codes "/")) result)
      ]

  walk_batches-Walked :
      (bs : Batches) (parent_path : Text) (result : List Item)
      → Walked
          (is_granted_batches bs)
          (files_of_batches bs)
          result
          (walk_batches bs parent_path result)
  walk_batches-Walked refused parent_path result = (refl, ([], sym (append-nil result), refl))
  walk_batches-Walked finished parent_path result = (refl, ([], sym (append-nil result), refl))
  walk_batches-Walked (batch e es rest) parent_path result =
      and_then-Walked _ _ _ _ result (zip_walk_entry e parent_path result) _
        (zip_walk_entry-Walked e parent_path result)
        (λ r.
          and_then-Walked _ _ _ _ r (walk_entries es parent_path r) (walk_batches rest parent_path)
            (walk_entries-Walked es parent_path r) (walk_batches-Walked rest parent_path))

  walk_entries-Walked :
      (es : Entries) (parent_path : Text) (result : List Item)
      → Walked
          (is_granted_entries es)
          (files_of_entries es)
          result
          (walk_entries es parent_path result)
  walk_entries-Walked nil parent_path result = (refl, ([], sym (append-nil result), refl))
  walk_entries-Walked (cons e es) parent_path result =
      and_then-Walked _ _ _ _ result (zip_walk_entry e parent_path result)
        (walk_entries es parent_path) (zip_walk_entry-Walked e parent_path result)
        (walk_entries-Walked es parent_path)

unfoldable pub files_of_dropped : List Dropped → List File
unfolding files_of
files_of_dropped [] = []
files_of_dropped (plain file ∷ rest) = file ∷ files_of_dropped rest
files_of_dropped (entry e ∷ rest) = files_of e ++ files_of_dropped rest

unfoldable pub all_granted : List Dropped → Bool
unfolding is_granted
all_granted [] = true
all_granted (plain file ∷ rest) = all_granted rest
all_granted (entry e ∷ rest) = is_granted e && all_granted rest

collect_from-Walked :
    (entries : List Dropped) (items : List Item)
    → Walked (all_granted entries) (files_of_dropped entries) items (collect_from entries items)
unfolding collect_from all_granted files_of_dropped files_in
collect_from-Walked [] items = (refl, ([], sym (append-nil items), refl))
collect_from-Walked (plain file ∷ rest) items =
    second-Walked true (all_granted rest) (file ∷ []) (files_of_dropped rest) items _ (_ ∷ []) _
      refl refl refl (collect_from-Walked rest _)
collect_from-Walked (entry e ∷ rest) items =
    and_then-Walked _ _ _ _ items (zip_walk_entry e [] items) (collect_from rest)
      (zip_walk_entry-Walked e [] items) (collect_from-Walked rest)

-- The collection of what was dropped fails exactly when the browser refuses a file or a reader
-- below it; else it returns items whose files are all the files below it, each once, in the order
-- in which the browser delivers them.
pub zip_collect_items-Walked :
    (entries : List Dropped)
    → Walked (all_granted entries) (files_of_dropped entries) [] (zip_collect_items entries)
unfolding zip_collect_items
zip_collect_items-Walked entries = collect_from-Walked entries []
