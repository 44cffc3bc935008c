-- ===== src/Zip/Items/Distinct.antt =====
-- The paths that `zipDeduplicateNames` gives out (admin_ui_zip.js).
use mathlib.Core.List.{append_cancel_left, append_cancel_right}
use gokapiplus.Base.{
  ℕ, suc, ◌≤◌, ◌<◌, ◌≡◌, refl, ap, Bool, true, false, Option, List, [], ◌∷◌, map, arith, Bool-cases,
  inl, inr, All, length, ◌≢◌,
}
use gokapiplus.Base.Text.{Text, codes, same_text_iff}
use gokapiplus.Base.Decimal.{decimal_injective}
use gokapiplus.Zip.Items.{
  File, Item, has, new_path, free_path, deduplicate_from, zip_deduplicate_names, paths,
}
use gokapiplus.Zip.Items.Fresh.{first_free-unused, first_free_lem}

pub new_path_injective : (path : Text) (m n : ℕ) → new_path path m ≡ new_path path n → m ≡ n
unfolding new_path
new_path_injective path m n h = decimal_injective m n (
    append_cancel_right _ _ _
      (append_cancel_left (codes "_") _ _ (append_cancel_left _ _ _ (append_cancel_left _ _ _ h))))

free_path-unused : (used : List Text) (path : Text) → has used (free_path used path) ≡ false
unfolding free_path
free_path-unused used path = elim (Bool-cases (has used path)) [
  | inl taken ↦ rw taken (first_free-unused (new_path path) (new_path_injective path) used 1)
  | inr free ↦ rw free free
]

-- No path of the list is in `used`.
abbrev Avoids : List Text → List Text → Type 0
Avoids used ps = All (λ p. has used p ≡ false) ps

-- No path of the list occurs again behind it.
abbrev pub IsDistinct : List Text → Type 0
IsDistinct [] = Unit
IsDistinct (p ∷ ps) = All (λ q. p ≢ q) ps × IsDistinct ps

has_cons_false :
    (p q : Text) (used : List Text) → has (p ∷ used) q ≡ false → (p ≢ q) × (has used q ≡ false)
unfolding has
has_cons_false p q used h = ground (arith, same_text_iff p q)

Avoids-cons :
    (p : Text) (used ps : List Text) → Avoids (p ∷ used) ps → All (λ q. p ≢ q) ps × Avoids used ps
Avoids-cons p used [] h = (tt, tt)
Avoids-cons p used (q ∷ ps) (e, h) =
    let (apart, outside) = has_cons_false p q used e in
    let (later, rest) = Avoids-cons p used ps h in ((apart, later), (outside, rest))

Avoids-of_apart :
    (p : Text) (used ps : List Text) → All (λ q. p ≢ q) ps → Avoids used ps → Avoids (p ∷ used) ps
unfolding has
Avoids-of_apart p used [] h k = tt
Avoids-of_apart p used (q ∷ ps) (apart, h) (outside, k) =
    (ground (arith, same_text_iff p q), Avoids-of_apart p used ps h k)

deduplicate_from-IsDistinct :
    (used : List Text) (items : List Item)
    → Avoids used (paths (deduplicate_from used items))
      × IsDistinct (paths (deduplicate_from used items))
unfolding deduplicate_from
deduplicate_from-IsDistinct used [] = (tt, tt)
deduplicate_from-IsDistinct used (item ∷ rest) =
    let p = free_path used item.path in
    let (avoids, distinct) = deduplicate_from-IsDistinct (p ∷ used) rest in
    let (later, outside) = Avoids-cons p used (paths (deduplicate_from (p ∷ used) rest)) avoids in
    ((free_path-unused used item.path, outside), (later, distinct))

-- The paths of the result of the renaming are pairwise different, whatever the items.
pub zip_deduplicate_names-IsDistinct :
    (items : List Item) → IsDistinct (paths (zip_deduplicate_names items))
unfolding zip_deduplicate_names
zip_deduplicate_names-IsDistinct items = (deduplicate_from-IsDistinct [] items).1

abbrev pub files : List Item → List (Option File × Bool)
files = map (λ item. (item.file, item.is_directory))

deduplicate_from-files :
    (used : List Text) (items : List Item) → files (deduplicate_from used items) ≡ files items
unfolding deduplicate_from
deduplicate_from-files used [] = refl
deduplicate_from-files used (item ∷ rest) =
    ap (λ t. (item.file, item.is_directory) ∷ t)
      (deduplicate_from-files (free_path used item.path ∷ used) rest)

-- The renaming keeps the items in order, with their files and kinds.
pub zip_deduplicate_names-files :
    (items : List Item) → files (zip_deduplicate_names items) ≡ files items
unfolding zip_deduplicate_names
zip_deduplicate_names-files items = deduplicate_from-files [] items

deduplicate_from_of_IsDistinct :
    (used : List Text) (items : List Item)
    → Avoids used (paths items)
    → IsDistinct (paths items)
    → deduplicate_from used items ≡ items
unfolding deduplicate_from free_path
deduplicate_from_of_IsDistinct used [] h k = refl
deduplicate_from_of_IsDistinct used (item ∷ rest) h k = rw (h.0) (
    ap (λ t. item ∷ t)
      (deduplicate_from_of_IsDistinct (item.path ∷ used) rest
        (Avoids-of_apart item.path used (paths rest) k.0 h.1) k.1))

Avoids-nil : (ps : List Text) → Avoids [] ps
unfolding has
Avoids-nil [] = tt
Avoids-nil (p ∷ ps) = (refl, Avoids-nil ps)

-- Items whose paths are pairwise different are left as they are.
pub zip_deduplicate_names_of_IsDistinct :
    (items : List Item) → IsDistinct (paths items) → zip_deduplicate_names items ≡ items
unfolding zip_deduplicate_names
zip_deduplicate_names_of_IsDistinct items h =
    deduplicate_from_of_IsDistinct [] items (Avoids-nil (paths items)) h

-- A path that is used is replaced by itself with the first number from 1 on whose path is not
-- used.
pub free_path_renamed :
    (used : List Text) (path : Text)
    → has used path ≡ true
    → (n : ℕ) × (free_path used path ≡ new_path path n)
      × (1 ≤ n)
      × (has used (new_path path n) ≡ false)
      × ((m : ℕ) → 1 ≤ m → m < n → has used (new_path path m) ≡ true)
unfolding free_path
free_path_renamed used path taken =
    let (n, same, low, free, below) =
      first_free_lem (new_path path) (new_path_injective path) (suc (length used)) used 1
        (omega arith) in
    (n, rw taken same, low, free, below)
