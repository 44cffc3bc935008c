-- ===== src/Dom/Ids.antt =====
-- Ids that are made of a fixed prefix and the id of a row.
use gokapiplus.Base.Text.{Text, same_text, same_text_iff}
use mathlib.Core.Bool.{true≢false}
use gokapiplus.Base.{
  subst, ◌||◌, ℕ, Bool, true, false, not, ◌&&◌, List, [], ◌∷◌, ◌++◌, map, All, In, ◌≡◌, refl, sym,
  ap, ◌∙◌, inl, inr, ◌⊎◌, and_true,
}

-- No two are the same.
abbrev pub Distinct : List Text → Type 0
Distinct [] = Unit
Distinct (x ∷ xs) = (In x xs → ⊥) × Distinct xs

-- The tests for a list that is written out.
unfoldable pub has : Text → List Text → Bool
has x [] = false
has x (y ∷ ys) = same_text x y || has x ys

unfoldable pub are_distinct : List Text → Bool
unfolding has
are_distinct [] = true
are_distinct (x ∷ xs) = not (has x xs) && are_distinct xs

or_true : (a b : Bool) → (a || b) ≡ true → (a ≡ true) ⊎ (b ≡ true)
or_true true b h = inl refl
or_true false b h = inr h

true_or : (a b : Bool) → b ≡ true → (a || b) ≡ true
true_or true b h = refl
true_or false b h = h

pub has-In : (x : Text) (ys : List Text) → has x ys ≡ true → In x ys
unfolding has
has-In x [] h = absurd cc
has-In x (y ∷ ys) h = elim (or_true (same_text x y) (has x ys) h) [
  | inl same ↦ inl ((same_text_iff x y).0 same)
  | inr more ↦ inr (has-In x ys more)
]

In-has : (x : Text) (ys : List Text) → In x ys → has x ys ≡ true
unfolding has
In-has x [] h = absurd h
In-has x (y ∷ ys) (inl e) = rw ((same_text_iff x y).1 e) refl
In-has x (y ∷ ys) (inr h) = true_or (same_text x y) (has x ys) (In-has x ys h)

not-true : (b : Bool) → not b ≡ true → b ≡ true → ⊥
not-true true h e = cc
not-true false h e = cc

pub are_distinct-Distinct : (xs : List Text) → are_distinct xs ≡ true → Distinct xs
unfolding are_distinct
are_distinct-Distinct [] h = tt
are_distinct-Distinct (x ∷ xs) h =
    let (fresh, rest) = and_true (not (has x xs)) (are_distinct xs) h in
    (λ k. not-true (has x xs) fresh (In-has x xs k), are_distinct-Distinct xs rest)

unfoldable pub has_all : List Text → List Text → Bool
unfolding has
has_all [] ys = true
has_all (x ∷ xs) ys = has x ys && has_all xs ys

pub has_all-In : (x : Text) (xs ys : List Text) → has_all xs ys ≡ true → In x xs → In x ys
unfolding has_all
has_all-In x [] ys h inside = absurd inside
has_all-In x (z ∷ xs) ys h (inl e) =
    let (first, rest) = and_true (has z ys) (has_all xs ys) h in
    subst (λ t. In t ys) (sym e) (has-In z ys first)
has_all-In x (z ∷ xs) ys h (inr inside) =
    let (first, rest) = and_true (has z ys) (has_all xs ys) h in has_all-In x xs ys rest inside

pub In-append : (x : Text) (xs ys : List Text) → In x (xs ++ ys) → In x xs ⊎ In x ys
In-append x [] ys h = inr h
In-append x (y ∷ xs) ys (inl e) = inl (inl e)
In-append x (y ∷ xs) ys (inr h) = elim (In-append x xs ys h) [ inl k ↦ inl (inr k) | inr k ↦ inr k ]

not-false : (b : Bool) → not b ≡ true → b ≡ false
not-false true h = sym h
not-false false h = refl

-- ---- prefixes
module _ (ok : ℕ → Bool) where
  -- The characters of a row's id.
  abbrev pub Plain : Text → Type 0
  Plain = All (λ c. ok c ≡ true)

  -- A prefix ends in another character.
  abbrev pub Closed : Text → Type 0
  Closed [] = ⊥
  Closed (c ∷ []) = ok c ≡ false
  Closed (c ∷ d ∷ p) = Closed (d ∷ p)

  unfoldable pub is_closed : Text → Bool
  is_closed [] = false
  is_closed (c ∷ []) = not (ok c)
  is_closed (c ∷ d ∷ p) = is_closed (d ∷ p)

  unfoldable pub are_closed : List Text → Bool
  unfolding is_closed
  are_closed [] = true
  are_closed (p ∷ ps) = is_closed p && are_closed ps

  is_closed-Closed : (p : Text) → is_closed p ≡ true → Closed p
  unfolding is_closed
  is_closed-Closed [] h = absurd cc
  is_closed-Closed (c ∷ []) h = not-false (ok c) h
  is_closed-Closed (c ∷ d ∷ p) h = is_closed-Closed (d ∷ p) h

  pub are_closed-Closed : (ps : List Text) → are_closed ps ≡ true → All Closed ps
  unfolding are_closed
  are_closed-Closed [] h = tt
  are_closed-Closed (p ∷ ps) h =
      let (first, rest) = and_true (is_closed p) (are_closed ps) h in
      (is_closed-Closed p first, are_closed-Closed ps rest)

  Closed-Plain : (p i : Text) → Closed p → Plain (p ++ i) → ⊥
  Closed-Plain [] i h k = h
  Closed-Plain (c ∷ []) i h (k, ks) = true≢false (sym k ∙ h)
  Closed-Plain (c ∷ d ∷ p) i h (k, ks) = Closed-Plain (d ∷ p) i h ks

  -- The prefix and the id can be told apart.
  pub prefix_unique :
      (p q i j : Text)
      → Closed p
      → Closed q
      → Plain i
      → Plain j
      → p ++ i ≡ q ++ j
      → (p ≡ q) × (i ≡ j)
  prefix_unique [] q i j hp hq hi hj e = absurd hp
  prefix_unique (c ∷ p) [] i j hp hq hi hj e = absurd hq
  prefix_unique (c ∷ []) (d ∷ []) i j hp hq hi hj e = (cc, cc)
  prefix_unique (c ∷ []) (d ∷ e' ∷ q) i j hp hq hi hj e =
      let tail : i ≡ (e' ∷ q) ++ j = cc in absurd (Closed-Plain (e' ∷ q) j hq (subst Plain tail hi))
  prefix_unique (c ∷ c' ∷ p) (d ∷ []) i j hp hq hi hj e =
      let tail : j ≡ (c' ∷ p) ++ i = cc in absurd (Closed-Plain (c' ∷ p) i hp (subst Plain tail hj))
  prefix_unique (c ∷ c' ∷ p) (d ∷ d' ∷ q) i j hp hq hi hj e =
      let (same, rest) = prefix_unique (c' ∷ p) (d' ∷ q) i j hp hq hi hj (cc) in (cc, rest)

  -- The ids of one row.
  abbrev pub prefixed : Text → List Text → List Text
  prefixed i = map (λ p. p ++ i)

  In-prefixed :
      (x i : Text) (ps : List Text) → In x (prefixed i ps) → (p : Text) × In p ps × (x ≡ p ++ i)
  In-prefixed x i [] h = absurd h
  In-prefixed x i (p ∷ ps) (inl e) = (p, inl refl, e)
  In-prefixed x i (p ∷ ps) (inr h) = let (q, inside, e) = In-prefixed x i ps h in (q, inr inside, e)

  pub prefixed-In : (p i : Text) (ps : List Text) → In p ps → In (p ++ i) (prefixed i ps)
  prefixed-In p i [] h = absurd h
  prefixed-In p i (q ∷ ps) (inl e) = inl (ap (λ t. t ++ i) e)
  prefixed-In p i (q ∷ ps) (inr h) = inr (prefixed-In p i ps h)

  All-In : (p : Text) (ps : List Text) → All Closed ps → In p ps → Closed p
  All-In p [] hs h = absurd h
  All-In p (q ∷ ps) (hq, hs) (inl e) = subst Closed (sym e) hq
  All-In p (q ∷ ps) (hq, hs) (inr h) = All-In p ps hs h

  prefixed-Distinct :
      (i : Text) (ps : List Text) → Plain i → All Closed ps → Distinct ps → Distinct (prefixed i ps)
  prefixed-Distinct i [] hi hs d = tt
  prefixed-Distinct i (p ∷ ps) hi (hp, hs) (fresh, d) = (
    λ k.
        let (q, inside, e) = In-prefixed (p ++ i) i ps k in
        let (same, rest) = prefix_unique p q i i hp (All-In q ps hs inside) hi hi e in
        fresh (subst (λ t. In t ps) (sym same) inside),
    prefixed-Distinct i ps hi hs d,
  )

  -- A page of rows, each with its id and the prefixes of its elements.
  abbrev pub Rows : Type 0
  Rows = List (Text × List Text)

  abbrev pub page_ids : Rows → List Text
  page_ids [] = []
  page_ids ((i, ps) ∷ rows) = prefixed i ps ++ page_ids rows

  abbrev pub row_ids : Rows → List Text
  row_ids [] = []
  row_ids ((i, ps) ∷ rows) = i ∷ row_ids rows

  abbrev pub WellFormed : Rows → Type 0
  WellFormed = All (λ (r : Text × List Text). Plain r.0 × All Closed r.1 × Distinct r.1)

  Distinct-append :
      (xs ys : List Text)
      → Distinct xs
      → Distinct ys
      → ((x : Text) → In x xs → In x ys → ⊥)
      → Distinct (xs ++ ys)
  Distinct-append [] ys dx dy apart = dy
  Distinct-append (x ∷ xs) ys (fresh, dx) dy apart = (
    λ k. elim (In-append x xs ys k) [ inl h ↦ fresh h | inr h ↦ apart x (inl refl) h ],
    Distinct-append xs ys dx dy (λ y h k. apart y (inr h) k),
  )

  -- An id of another row's element is not one of this row's.
  In-page_ids :
      (p i : Text) (rows : Rows)
      → Closed p
      → Plain i
      → WellFormed rows
      → In (p ++ i) (page_ids rows)
      → In i (row_ids rows)
  In-page_ids p i [] hp hi w h = absurd h
  In-page_ids p i ((j, ps) ∷ rows) hp hi ((hj, hs, d), w) h =
      elim (In-append (p ++ i) (prefixed j ps) (page_ids rows) h) [
        | inl k ↦
            let (q, inside, e) = In-prefixed (p ++ i) j ps k in
            inl (prefix_unique p q i j hp (All-In q ps hs inside) hi hj e).1
        | inr k ↦ inr (In-page_ids p i rows hp hi w k)
      ]

  -- Rows with different ids have elements with different ids.
  pub page_ids-Distinct :
      (rows : Rows) → WellFormed rows → Distinct (row_ids rows) → Distinct (page_ids rows)
  page_ids-Distinct [] w d = tt
  page_ids-Distinct ((i, ps) ∷ rows) ((hi, hs, dps), w) (fresh, d) =
      Distinct-append (prefixed i ps) (page_ids rows) (prefixed-Distinct i ps hi hs dps)
        (page_ids-Distinct rows w d)
        (λ x here there.
          let (p, inside, e) = In-prefixed x i ps here in
          fresh (
            In-page_ids p i rows (All-In p ps hs inside) hi w
              (subst (λ t. In t (page_ids rows)) e there)))
