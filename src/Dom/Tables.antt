-- ===== src/Dom/Tables.antt =====
-- Tables whose rows make the ids of their elements of fixed prefixes and an id of their own.
use gokapiplus.Base.Text.{Text}
use gokapiplus.Dom.{Node, ids, ids_in, find, find_in, children}
use gokapiplus.Dom.Ids.{
  Distinct, Plain, Closed, page_ids, row_ids, prefixed, prefixed-In, page_ids-Distinct, WellFormed,
}
use gokapiplus.Dom.Find.{find_in-own}
use gokapiplus.Base.{
  ℕ, Bool, none, List, [], ◌∷◌, ◌++◌, map, All, In, ◌≡◌, ◌≢◌, refl, sym, ap, ap₂, subst, inl, inr,
}

-- The element that an id finds on the page is found, and is the one of this row.
abbrev pub Finds : List Node → Node → Text → Type 0
Finds page row id = (find_in id (children page) ≡ find id row) × (find id row ≢ none)

module _ {A : Type 0} (ok : ℕ → Bool) (row : A → Node) (id : A → Text) (prefixes : A → List Text)
    (ids-row : (a : A) → ids (row a) ≡ prefixed ok (id a) (prefixes a))
    (row-WellFormed : (a : A)
      → Plain ok (id a) × All (Closed ok) (prefixes a) × Distinct (prefixes a)) where
  abbrev spec : A → Text × List Text
  spec a = (id a, prefixes a)

  ids-rows : (as_ : List A) → ids_in (children (map row as_)) ≡ page_ids ok (map spec as_)
  unfolding ids
  ids-rows [] = refl
  ids-rows (a ∷ as_) = ap₂ (◌++◌) (ids-row a) (ids-rows as_)

  rows-WellFormed : (as_ : List A) → WellFormed ok (map spec as_)
  rows-WellFormed [] = tt
  rows-WellFormed (a ∷ as_) = (row-WellFormed a, rows-WellFormed as_)

  row_ids-rows : (as_ : List A) → row_ids ok (map spec as_) ≡ map id as_
  row_ids-rows [] = refl
  row_ids-rows (a ∷ as_) = ap (λ more. id a ∷ more) (row_ids-rows as_)

  -- No two elements have the same id if no two rows have.
  rows-Distinct :
      (as_ : List A) → Distinct (map id as_) → Distinct (ids_in (children (map row as_)))
  rows-Distinct as_ d = subst Distinct (sym (ids-rows as_)) (
      page_ids-Distinct ok (map spec as_) (rows-WellFormed as_)
        (subst Distinct (sym (row_ids-rows as_)) d))

  In-rows : (a : A) (as_ : List A) → In a as_ → In (row a) (map row as_)
  In-rows a [] h = absurd h
  In-rows a (b ∷ as_) (inl e) = inl (ap row e)
  In-rows a (b ∷ as_) (inr h) = inr (In-rows a as_ h)

  pub rows-find :
      (as_ : List A) (a : A) (p : Text)
      → Distinct (map id as_)
      → In a as_
      → In p (prefixes a)
      → Finds (map row as_) (row a) (p ++ id a)
  rows-find as_ a p d inside has_it =
      find_in-own (p ++ id a) (row a) (map row as_) (rows-Distinct as_ d) (In-rows a as_ inside)
        (subst (In (p ++ id a)) (sym (ids-row a)) (prefixed-In ok p (id a) (prefixes a) has_it))
