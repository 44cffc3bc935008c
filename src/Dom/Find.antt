-- ===== src/Dom/Find.antt =====
-- What `getElementById` finds on a page whose ids are different.
use gokapiplus.Base.Text.{Text, same_text_iff}
use gokapiplus.Dom.{
  Node, text, element, Nodes, end, node, with_id, ids, ids_in, find, find_in, has_id, or_else,
  children,
}
use gokapiplus.Dom.Ids.{Distinct, In-append}
use gokapiplus.Base.{
  Bool, true, false, Option, none, some, List, [], ◌∷◌, ◌++◌, In, ◌≡◌, ◌≢◌, refl, sym, ap, ◌∙◌, inl,
  inr, subst, ◌⊎◌, if◌then◌else◌,
}

In-left : (x : Text) (xs ys : List Text) → In x xs → In x (xs ++ ys)
In-left x [] ys h = absurd h
In-left x (y ∷ xs) ys (inl e) = inl e
In-left x (y ∷ xs) ys (inr h) = inr (In-left x xs ys h)

In-right : (x : Text) (xs ys : List Text) → In x ys → In x (xs ++ ys)
In-right x [] ys h = h
In-right x (y ∷ xs) ys h = inr (In-right x xs ys h)

or_else-some : (a b : Option Node) → (a ≢ none) ⊎ (b ≢ none) → or_else a b ≢ none
or_else-some none b (inl h) e = h refl
or_else-some none b (inr h) e = h e
or_else-some (some n) b h e = cc

pub In-with_id :
    (x : Text) (own : Option Text) (xs : List Text)
    → In x (with_id own xs)
    → (has_id own x ≡ true) ⊎ In x xs
In-with_id x none xs h = inr h
In-with_id x (some own) xs (inl e) = inl ((same_text_iff own x).1 (sym e))
In-with_id x (some own) xs (inr h) = inr h

with_id-In :
    (x : Text) (own : Option Text) (xs : List Text)
    → (has_id own x ≡ true) ⊎ In x xs
    → In x (with_id own xs)
with_id-In x none xs (inl h) = absurd cc
with_id-In x none xs (inr h) = h
with_id-In x (some own) xs (inl e) = inl (sym ((same_text_iff own x).0 e))
with_id-In x (some own) xs (inr h) = inr h

found_here : (b : Bool) (n : Node) (o : Option Node) → b ≡ true → (if b then some n else o) ≢ none
found_here true n o h e = cc
found_here false n o h e = cc

found_below : (b : Bool) (n : Node) (o : Option Node) → o ≢ none → (if b then some n else o) ≢ none
found_below true n o h e = cc
found_below false n o h e = h e

-- An id of the page is found.
mutual
  unfolding ids find

  pub find-In : (x : Text) (n : Node) → In x (ids n) → find x n ≢ none
  find-In x (text t) h = absurd h
  find-In x (element tag s inner) h = elim (In-with_id x s.id (ids_in inner) h) [
    | inl own ↦ found_here (has_id s.id x) (element tag s inner) (find_in x inner) own
    | inr below ↦
        found_below (has_id s.id x) (element tag s inner) (find_in x inner)
          (find_in-In x inner below)
  ]

  pub find_in-In : (x : Text) (ns : Nodes) → In x (ids_in ns) → find_in x ns ≢ none
  find_in-In x end h = absurd h
  find_in-In x (node n ns) h = elim (In-append x (ids n) (ids_in ns) h) [
    | inl k ↦ or_else-some (find x n) (find_in x ns) (inl (find-In x n k))
    | inr k ↦ or_else-some (find x n) (find_in x ns) (inr (find_in-In x ns k))
  ]

missed :
    (b : Bool) (n : Node) (o : Option Node)
    → (b ≡ true → ⊥)
    → o ≡ none
    → (if b then some n else o) ≡ none
missed true n o h e = absurd (h refl)
missed false n o h e = e

or_else-none : (a b : Option Node) → a ≡ none → b ≡ none → or_else a b ≡ none
or_else-none none b h e = e
or_else-none (some n) b h e = absurd cc

-- Another one is not.
mutual
  unfolding ids find

  pub find-none : (x : Text) (n : Node) → (In x (ids n) → ⊥) → find x n ≡ none
  find-none x (text t) h = refl
  find-none x (element tag s inner) h =
      missed (has_id s.id x) (element tag s inner) (find_in x inner)
        (λ own. h (with_id-In x s.id (ids_in inner) (inl own)))
        (find_in-none x inner (λ k. h (with_id-In x s.id (ids_in inner) (inr k))))

  pub find_in-none : (x : Text) (ns : Nodes) → (In x (ids_in ns) → ⊥) → find_in x ns ≡ none
  find_in-none x end h = refl
  find_in-none x (node n ns) h =
      or_else-none (find x n) (find_in x ns)
        (find-none x n (λ k. h (In-left x (ids n) (ids_in ns) k)))
        (find_in-none x ns (λ k. h (In-right x (ids n) (ids_in ns) k)))

or_else-left : (a b : Option Node) → a ≢ none → or_else a b ≡ a
or_else-left none b h = absurd (h refl)
or_else-left (some n) b h = refl

or_else-right : (a b : Option Node) → a ≡ none → or_else a b ≡ b
or_else-right none b h = refl
or_else-right (some n) b h = absurd cc

Distinct-right : (xs ys : List Text) → Distinct (xs ++ ys) → Distinct ys
Distinct-right [] ys d = d
Distinct-right (x ∷ xs) ys (fresh, d) = Distinct-right xs ys d

Distinct-apart : (x : Text) (xs ys : List Text) → Distinct (xs ++ ys) → In x xs → In x ys → ⊥
Distinct-apart x [] ys d h k = h
Distinct-apart x (y ∷ xs) ys (fresh, d) (inl e) k =
    fresh (subst (λ t. In t (xs ++ ys)) e (In-right x xs ys k))
Distinct-apart x (y ∷ xs) ys (fresh, d) (inr h) k = Distinct-apart x xs ys d h k

In-children :
    (x : Text) (n : Node) (ns : List Node) → In n ns → In x (ids n) → In x (ids_in (children ns))
unfolding ids
In-children x n [] inside h = absurd inside
In-children x n (m ∷ ns) (inl e) h =
    In-left x (ids m) (ids_in (children ns)) (subst (λ k. In x (ids k)) e h)
In-children x n (m ∷ ns) (inr inside) h =
    In-right x (ids m) (ids_in (children ns)) (In-children x n ns inside h)

-- On a page without two equal ids, an id of a row is found, and in that row.
pub find_in-own :
    (x : Text) (n : Node) (ns : List Node)
    → Distinct (ids_in (children ns))
    → In n ns
    → In x (ids n)
    → (find_in x (children ns) ≡ find x n) × (find x n ≢ none)
unfolding ids find
find_in-own x n [] d inside h = absurd inside
find_in-own x n (m ∷ ns) d (inl e) h =
    let found = find-In x n h in
    let same : find x m ≡ find x n = ap (find x) (sym e) in
    (or_else-left (find x m) (find_in x (children ns)) (λ k. found (sym same ∙ k)) ∙ same, found)
find_in-own x n (m ∷ ns) d (inr inside) h =
    let absent =
      find-none x m
        (λ k. Distinct-apart x (ids m) (ids_in (children ns)) d k (In-children x n ns inside h)) in
    let (e, found) =
      find_in-own x n ns (Distinct-right (ids m) (ids_in (children ns)) d) inside h in
    (or_else-right (find x m) (find_in x (children ns)) absent ∙ e, found)
