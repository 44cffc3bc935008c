-- ===== src/Zip/Walk/Examples.antt =====
-- A dropped folder with a file and an empty folder.
use gokapiplus.Base.{[], ◌∷◌, some, none, List, ◌≡◌, refl, Option}
use gokapiplus.Base.Text.{Text, codes}
use gokapiplus.Zip.Items.{File, Item, paths}
use gokapiplus.Zip.Walk.{
  file_entry, directory, finished, batch, nil, Dropped, entry, plain, zip_collect_items,
}
use gokapiplus.Zip.Walk.Files.{Walked, all_granted, files_of_dropped, zip_collect_items-Walked}

abbrev picture : File
picture = record { name = codes "p"; size = 3; webkit_relative_path = []; last_modified = 0 }

abbrev dropped : List Dropped
dropped =
    entry (
      directory (codes "d") (
        batch (file_entry (codes "p") (some picture)) nil
          (batch (directory (codes "e") finished) nil finished)))
    ∷ plain picture
    ∷ []

abbrev paths_of : Option (List Item) → List Text
paths_of none = []
paths_of (some items) = paths items

dropped_paths : paths_of (zip_collect_items dropped) ≡ codes "d/p" ∷ codes "d/e/" ∷ codes "p" ∷ []
unfolding zip_collect_items
dropped_paths = refl

zip_collect_items-Walked_example :
    Walked (all_granted dropped) (files_of_dropped dropped) [] (zip_collect_items dropped)
zip_collect_items-Walked_example = zip_collect_items-Walked dropped
