-- ===== src/Dom.antt =====
-- Elements of a page as the code builds them with `createElement`, and what `getElementById` finds.
pub mod Find
pub mod Ids
pub mod Mark
pub mod Tables
use Prim.Native.String.{String}
use gokapiplus.Base.Text.{Text, codes, same_text}
use gokapiplus.Base.{
  Bool, true, false, Option, none, some, List, [], ◌∷◌, ◌++◌, if◌then◌else◌, ◌≡◌, refl,
}

-- A handler is the function that it calls, with its arguments.
pub record Call : Type 0 where
  pub function : Text
  pub arguments : List Text

-- What is set on an element; the attributes are those that are neither id, class nor handler.
pub record Settings : Type 0 where
  pub id : Option Text
  pub class_name : Text
  pub attributes : List (Text × Text)
  pub on_click : Option Call

mutual
  pub data Node : Type 0 where
    text : Text → Node
    element : Text → Settings → Nodes → Node

  pub data Nodes : Type 0 where
    end : Nodes
    node : Node → Nodes → Nodes

abbrev pub el : String → Option Text → String → List (Text × Text) → Option Call → Nodes → Node
el tag id class_name attributes on_click inner =
    element (codes tag)
      (record {
        id = id;
        class_name = codes class_name;
        attributes = attributes;
        on_click = on_click;
      })
      inner

abbrev pub attr : String → String → Text × Text
attr name value = (codes name, codes value)

abbrev pub call : String → List Text → Option Call
call name arguments = some (record { function = codes name; arguments = arguments })

abbrev pub with_id : Option Text → List Text → List Text
with_id none ids = ids
with_id (some id) ids = id ∷ ids

abbrev pub with_call : Option Call → List Call → List Call
with_call none calls = calls
with_call (some c) calls = c ∷ calls

-- The ids of an element and of what is in it, in the order of the page.
unfoldable mutual
  pub ids : Node → List Text
  ids (text t) = []
  ids (element tag s inner) = with_id s.id (ids_in inner)

  pub ids_in : Nodes → List Text
  ids_in end = []
  ids_in (node n ns) = ids n ++ ids_in ns

-- The handlers, in the same order.
unfoldable mutual
  pub calls : Node → List Call
  calls (text t) = []
  calls (element tag s inner) = with_call s.on_click (calls_in inner)

  pub calls_in : Nodes → List Call
  calls_in end = []
  calls_in (node n ns) = calls n ++ calls_in ns

abbrev pub has_id : Option Text → Text → Bool
has_id none id = false
has_id (some own) id = same_text own id

-- The first of two.
abbrev pub or_else : Option Node → Option Node → Option Node
or_else none other = other
or_else (some n) other = some n

-- `getElementById`, below one element.
unfoldable mutual
  pub find : Text → Node → Option Node
  find id (text t) = none
  find id (element tag s inner) =
      if has_id s.id id then some (element tag s inner) else find_in id inner

  pub find_in : Text → Nodes → Option Node
  find_in id end = none
  find_in id (node n ns) = or_else (find id n) (find_in id ns)

-- An icon.
abbrev pub icon : String → Node
icon class_name = el "i" none class_name [] none end

-- The children that are appended one after another.
abbrev pub children : List Node → Nodes
children [] = end
children (n ∷ ns) = node n (children ns)

abbrev pub words : String → Node
words t = text (codes t)
