-- ===== src/E2e/Link.antt =====
-- The key and the name behind the `#` of a link to an encrypted file: end2end_download.js.
use gokapiplus.Base.Text.{Text}
use gokapiplus.Base.{
  Bool, true, false, ◌&&◌, Option, none, some, [], ◌∷◌, length, ltb, if◌then◌else◌, ◌≡◌, refl,
  subst,
}

-- A field of the parsed object.
pub data Field : Type 0 where
  undefined not_a_string : Field
  string : Text → Field

pub record Info : Type 0 where
  pub f : Field
  pub c : Field

-- What the session keeps under "key-" and "fn-" with the id of the file.
pub record Session : Type 0 where
  pub key : Option Text
  pub filename : Option Text

pub data Visit : Type 0 where
  ready : Session → Visit
  redirected_to_error : Visit

abbrev pub is_name : Field → Bool
is_name (string (x ∷ t)) = true
is_name _ = false

unfoldable pub is_correct_json : Info → Bool
is_correct_json input = is_name input.f && is_name input.c

-- `setItem` of a field that `isCorrectJson` has let through.
abbrev pub item : Field → Option Text
item (string t) = some t
item _ = none

abbrev pub stored : Bool → Info → Visit
stored true info = ready (record { key = item info.c; filename = item info.f })
stored false info = redirected_to_error

abbrev pub parsed : Option Info → Visit
parsed none = redirected_to_error
parsed (some info) = stored (is_correct_json info) info

-- `b64ToUtf8` with `JSON.parse` is `decode`, where `none` is an error of either.
unfoldable pub from_hash : (Text → Option Info) → Text → Visit
unfolding is_correct_json
from_hash decode hash = if ltb (length hash) 50 then redirected_to_error else parsed (decode hash)

abbrev pub unless_known : Option Text → Option Text → Visit → Visit
unless_known (some key) (some filename) other =
    ready (record { key = some key; filename = some filename })
unless_known _ _ other = other

unfoldable pub parse_hash_value : (Text → Option Info) → Text → Session → Visit
unfolding from_hash
parse_hash_value decode hash s = unless_known s.key s.filename (from_hash decode hash)

-- What a session has when the page goes on.
abbrev Known : Visit → Type 0
Known redirected_to_error = Unit
Known (ready s) =
    (key : Text) × (filename : Text) × (s.key ≡ some key) × (s.filename ≡ some filename)

stored-Known : (f c : Field) → Known (stored (is_name f && is_name c) (record { f = f; c = c }))
stored-Known undefined c = tt
stored-Known not_a_string c = tt
stored-Known (string []) c = tt
stored-Known (string (x ∷ t)) undefined = tt
stored-Known (string (x ∷ t)) not_a_string = tt
stored-Known (string (x ∷ t)) (string []) = tt
stored-Known (string (x ∷ t)) (string (y ∷ u)) = (y ∷ u, x ∷ t, refl, refl)

parsed-Known : (o : Option Info) → Known (parsed o)
unfolding is_correct_json
parsed-Known none = tt
parsed-Known (some info) = stored-Known info.f info.c

from_hash-Known :
    (short : Bool) (o : Option Info) → Known (if short then redirected_to_error else parsed o)
from_hash-Known true o = tt
from_hash-Known false o = parsed-Known o

unless_known-Known :
    (key filename : Option Text) (v : Visit) → Known v → Known (unless_known key filename v)
unless_known-Known (some k) (some n) v h = (k, n, refl, refl)
unless_known-Known none n v h = h
unless_known-Known (some k) none v h = h

-- A page that goes on has a key and a name.
parse_hash_value-Known :
    (decode : Text → Option Info) (hash : Text) (s : Session)
    → Known (parse_hash_value decode hash s)
unfolding parse_hash_value
parse_hash_value-Known decode hash s =
    unless_known-Known s.key s.filename (from_hash decode hash)
      (from_hash-Known (ltb (length hash) 50) (decode hash))

known_again :
    (key filename : Text) (s : Session) (v : Visit)
    → s.key ≡ some key
    → s.filename ≡ some filename
    → unless_known s.key s.filename v ≡ ready s
known_again key filename s v has_key has_name = rw (has_key, has_name) refl

-- With what it has stored it goes on again, whatever the link then says.
pub parse_hash_value-again :
    (decode : Text → Option Info) (hash later : Text) (s stored_now : Session)
    → parse_hash_value decode hash s ≡ ready stored_now
    → parse_hash_value decode later stored_now ≡ ready stored_now
unfolding parse_hash_value
parse_hash_value-again decode hash later s stored_now h =
    let (key, filename, has_key, has_name) = subst Known h (parse_hash_value-Known decode hash s) in
    known_again key filename stored_now (from_hash decode later) has_key has_name
