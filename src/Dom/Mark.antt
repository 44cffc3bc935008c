-- ===== src/Dom/Mark.antt =====
-- Classes that are added to an element that is looked up by its id.
use gokapiplus.Base.Text.{Text}
use gokapiplus.Dom.{
  Node, text, element, Nodes, end, node, Settings, with_id, with_call, ids, ids_in, calls, calls_in,
  has_id,
}
use gokapiplus.Dom.Ids.{In-append}
use gokapiplus.Dom.Find.{In-with_id}
use gokapiplus.Base.{
  Bool, true, false, Option, none, some, ◌∷◌, ◌++◌, In, ◌≡◌, refl, ap, ◌⊎◌, inl, inr, if◌then◌else◌,
}

abbrev pub add_class : Text → Settings → Settings
add_class name s = record s { class_name = s.class_name ++ 32 ∷ name }

abbrev pub inside : Text → Settings → Option Nodes → Option Node
inside tag s none = none
inside tag s (some inner) = some (element tag s inner)

abbrev pub before : Node → Option Nodes → Option Nodes
before n none = none
before n (some ns) = some (node n ns)

abbrev pub first_of : Option Node → Node → Nodes → Option Nodes → Option Nodes
first_of (some marked) n ns later = some (node marked ns)
first_of none n ns later = before n later

-- The first element with the id gets the class; `none` if there is none.
unfoldable mutual
  pub mark : Text → Text → Node → Option Node
  mark id name (text t) = none
  mark id name (element tag s inner) =
      if has_id s.id id
      then some (element tag (add_class name s) inner)
      else inside tag s (mark_in id name inner)

  pub mark_in : Text → Text → Nodes → Option Nodes
  mark_in id name end = none
  mark_in id name (node n ns) = first_of (mark id name n) n ns (mark_in id name ns)

-- A marked element has the ids and handlers that it had.
abbrev pub Same : Node → Option Node → Type 0
Same n none = Unit
Same n (some m) = (ids m ≡ ids n) × (calls m ≡ calls n)

abbrev SameIn : Nodes → Option Nodes → Type 0
SameIn ns none = Unit
SameIn ns (some ms) = (ids_in ms ≡ ids_in ns) × (calls_in ms ≡ calls_in ns)

inside-Same :
    (tag : Text) (s : Settings) (ns : Nodes) (o : Option Nodes)
    → SameIn ns o
    → Same (element tag s ns) (inside tag s o)
unfolding ids calls
inside-Same tag s ns none h = tt
inside-Same tag s ns (some ms) (e, f) = (ap (with_id s.id) e, ap (with_call s.on_click) f)

marked-Same :
    (b : Bool) (tag name : Text) (s : Settings) (ns : Nodes) (o : Option Nodes)
    → SameIn ns o
    → Same
        (element tag s ns)
        (if b then some (element tag (add_class name s) ns) else inside tag s o)
unfolding ids calls
marked-Same true tag name s ns o h = (refl, refl)
marked-Same false tag name s ns o h = inside-Same tag s ns o h

first_of-SameIn :
    (o : Option Node) (n : Node) (ns : Nodes) (later : Option Nodes)
    → Same n o
    → SameIn ns later
    → SameIn (node n ns) (first_of o n ns later)
unfolding ids calls
first_of-SameIn (some m) n ns later (e, f) k =
    (ap (λ xs. xs ++ ids_in ns) e, ap (λ xs. xs ++ calls_in ns) f)
first_of-SameIn none n ns none h k = tt
first_of-SameIn none n ns (some ms) h (e, f) =
    (ap (λ xs. ids n ++ xs) e, ap (λ xs. calls n ++ xs) f)

mutual
  unfolding mark

  pub mark-Same : (x name : Text) (n : Node) → Same n (mark x name n)
  mark-Same x name (text t) = tt
  mark-Same x name (element tag s inner) =
      marked-Same (has_id s.id x) tag name s inner (mark_in x name inner)
        (mark_in-SameIn x name inner)

  mark_in-SameIn : (x name : Text) (ns : Nodes) → SameIn ns (mark_in x name ns)
  mark_in-SameIn x name end = tt
  mark_in-SameIn x name (node n ns) =
      first_of-SameIn (mark x name n) n ns (mark_in x name ns) (mark-Same x name n)
        (mark_in-SameIn x name ns)

-- There is an element to be marked if there is one with the id.
abbrev pub IsSome : {A : Type 0} → Option A → Type 0
IsSome none = ⊥
IsSome (some a) = Unit

marked-IsSome :
    (b : Bool) (tag name : Text) (s : Settings) (ns : Nodes) (o : Option Nodes)
    → (b ≡ true) ⊎ IsSome o
    → IsSome (if b then some (element tag (add_class name s) ns) else inside tag s o)
marked-IsSome true tag name s ns o h = tt
marked-IsSome false tag name s ns o (inl h) = absurd cc
marked-IsSome false tag name s ns (some ms) (inr h) = tt
marked-IsSome false tag name s ns none (inr h) = absurd h

first_of-IsSome :
    (o : Option Node) (n : Node) (ns : Nodes) (later : Option Nodes)
    → IsSome o ⊎ IsSome later
    → IsSome (first_of o n ns later)
first_of-IsSome (some m) n ns later h = tt
first_of-IsSome none n ns (some ms) h = tt
first_of-IsSome none n ns none (inl h) = h
first_of-IsSome none n ns none (inr h) = h

or_map : {A B C D : Type 0} → (A → C) → (B → D) → A ⊎ B → C ⊎ D
or_map f g (inl a) = inl (f a)
or_map f g (inr b) = inr (g b)

mutual
  unfolding mark ids

  pub mark-IsSome : (x name : Text) (n : Node) → In x (ids n) → IsSome (mark x name n)
  mark-IsSome x name (text t) h = absurd h
  mark-IsSome x name (element tag s inner) h =
      marked-IsSome (has_id s.id x) tag name s inner (mark_in x name inner)
        (or_map (λ own. own) (mark_in-IsSome x name inner) (In-with_id x s.id (ids_in inner) h))

  mark_in-IsSome : (x name : Text) (ns : Nodes) → In x (ids_in ns) → IsSome (mark_in x name ns)
  mark_in-IsSome x name end h = absurd h
  mark_in-IsSome x name (node n ns) h =
      first_of-IsSome (mark x name n) n ns (mark_in x name ns) (
        or_map (mark-IsSome x name n) (mark_in-IsSome x name ns)
          (In-append x (ids n) (ids_in ns) h))
