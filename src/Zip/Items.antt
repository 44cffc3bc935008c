-- ===== src/Zip/Items.antt =====
-- The items of an archive: their paths and their sizes (admin_ui_zip.js).
pub mod Fresh
pub mod Distinct
use gokapiplus.Base.{
  ℕ, zero, suc, ◌+◌, ◌≡◌, refl, Bool, true, false, ◌||◌, Option, none, some, List, [], ◌∷◌, ◌++◌,
  ltb, ◌==◌, if◌then◌else◌, length, take, drop,
}
use gokapiplus.Base.Text.{Text, codes, same_text}
use gokapiplus.Base.Decimal.{decimal}

-- A `File`, as far as the archive reads it.
pub record File : Type 0 where
  pub name : Text
  pub size : ℕ
  pub webkit_relative_path : Text
  pub last_modified : ℕ

pub record Item : Type 0 where
  pub file : Option File
  pub path : Text
  pub is_directory : Bool

-- `usedPaths.has(path)`.
unfoldable pub has : List Text → Text → Bool
has [] path = false
has (used ∷ rest) path = same_text used path || has rest path

unfoldable pub last_index_of : ℕ → Text → Option ℕ
last_index_of c [] = none
last_index_of c (d ∷ s) = elim (last_index_of c s) [
  | none ↦ if d == c then some 0 else none
  | some i ↦ some (suc i)
]

-- The parts of a path around the suffix.
unfoldable pub directory_of : Text → Text
directory_of path = elim (last_index_of b'/' path) [ none ↦ [] | some i ↦ take (suc i) path ]

unfoldable pub name_of : Text → Text
name_of path = elim (last_index_of b'/' path) [ none ↦ path | some i ↦ drop (suc i) path ]

unfoldable pub base_name_of : Text → Text
base_name_of name = elim (last_index_of b'.' name) [
  | none ↦ name
  | some i ↦ if ltb 0 i then take i name else name
]

unfoldable pub extension_of : Text → Text
extension_of name = elim (last_index_of b'.' name) [
  | none ↦ []
  | some i ↦ if ltb 0 i then drop i name else []
]

unfoldable pub new_path : Text → ℕ → Text
unfolding directory_of name_of base_name_of extension_of last_index_of
new_path path counter =
    directory_of path
    ++ (base_name_of (name_of path)
        ++ (codes "_" ++ (decimal counter ++ extension_of (name_of path))))

-- The `do … while` loop over the counter, for any numbered paths. Out of fuel it stops where it is;
-- one round more than there are used paths is enough (Fresh).
unfoldable pub first_free : ℕ → List Text → (ℕ → Text) → ℕ → Text
first_free zero used path counter = path counter
first_free (suc fuel) used path counter =
    let rest = first_free fuel used path (suc counter) in
    if has used (path counter) then rest else path counter

unfoldable pub free_path : List Text → Text → Text
free_path used path =
    if has used path then first_free (suc (length used)) used (new_path path) 1 else path

-- The loop over the items.
unfoldable pub deduplicate_from : List Text → List Item → List Item
deduplicate_from used [] = []
deduplicate_from used (item ∷ rest) =
    let path = free_path used item.path in
    record item { path = path } ∷ deduplicate_from (path ∷ used) rest

unfoldable pub zip_deduplicate_names : List Item → List Item
unfolding deduplicate_from free_path first_free new_path has same_text
zip_deduplicate_names items = deduplicate_from [] items

abbrev pub file_size : Option File → ℕ
file_size none = 0
file_size (some file) = file.size

unfoldable pub total_from : ℕ → List Item → ℕ
total_from total [] = total
total_from total (item ∷ rest) = total_from (total + file_size item.file) rest

unfoldable pub zip_get_total_size : List Item → ℕ
unfolding total_from
zip_get_total_size items = total_from 0 items

abbrev at_path : Text → Item
at_path path = record { file = none; path = path; is_directory = false }

abbrev pub paths : List Item → List Text
paths [] = []
paths (item ∷ rest) = item.path ∷ paths rest

deduplicate_runs :
    paths (
      zip_deduplicate_names (
        at_path (codes "d/a.b.jpg")
        ∷ at_path (codes "d/a.b.jpg")
        ∷ at_path (codes "d/a.b_1.jpg")
        ∷ at_path (codes "d/a.b.jpg")
        ∷ at_path (codes ".x")
        ∷ at_path (codes ".x")
        ∷ []))
    ≡ codes "d/a.b.jpg"
      ∷ codes "d/a.b_1.jpg"
      ∷ codes "d/a.b_1_1.jpg"
      ∷ codes "d/a.b_2.jpg"
      ∷ codes ".x"
      ∷ codes ".x_1"
      ∷ []
unfolding zip_deduplicate_names decimal
deduplicate_runs = refl
