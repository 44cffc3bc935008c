-- ===== src/Permissions.antt =====
-- The permission buttons of the user table: `changeUserPermission` in
-- internal/webserver/web/static/js/admin_ui_users.js, for one user. A button is looked up by its
-- permission, as the page names it after the permission and the user.
pub mod Calls
pub mod Shown
pub mod Cascade
mod Examples
use gokapiplus.Base.{
  ℕ, zero, suc, ◌≡◌, refl, Bool, true, false, not, ◌&&◌, ◌||◌, List, [], ◌∷◌, ◌++◌, ◌==◌,
  if◌then◌else◌,
}

-- The permissions between which there is a cascade, and the others by number.
pub data Permission : Type 0 where
  replace replace_other : Permission
  other : ℕ → Permission

abbrev pub same : Permission → Permission → Bool
same replace replace = true
same replace_other replace_other = true
same (other m) (other n) = m == n
same _ _ = false

-- The classes of a button that the code reads and writes.
pub record Indicator : Type 0 where
  pub granted : Bool
  pub notgranted : Bool
  pub processing : Bool
  pub nochange : Bool

-- A call of `apiUserModify` that has not come back: GRANT, or REVOKE if it was granted.
pub record Pending : Type 0 where
  pub permission : Permission
  pub was_granted : Bool

-- The buttons, the calls under way, oldest first, and the permissions that the server holds.
pub record World : Type 0 where
  pub board : Permission → Indicator
  pub in_flight : List Pending
  pub server : Permission → Bool

abbrev pub set : {A : Type 0} → Permission → A → (Permission → A) → Permission → A
set p a f q = if same q p then a else f q

abbrev pub mark : Permission → World → World
mark p w =
    let i : Indicator = record (w.board p) {
      processing = true;
      granted = false;
      notgranted = false;
    } in
    record w { board = set p i w.board }

abbrev pub send : Pending → World → World
send call w = record w { in_flight = w.in_flight ++ call ∷ [] }

-- Which other button is pressed as well.
abbrev pub needs_replace : Permission → Bool → World → Bool
needs_replace replace_other was_granted w = not was_granted && (w.board replace).notgranted
needs_replace _ was_granted w = false

abbrev pub needs_replace_other : Permission → Bool → World → Bool
needs_replace_other replace was_granted w = was_granted && (w.board replace_other).granted
needs_replace_other _ was_granted w = false

-- The body of `changeUserPermission`; `again` stands for its calls of itself.
unfoldable pub press : (Permission → World → World) → Permission → World → World
press again p w =
    let was_granted = (w.board p).granted in
    let marked = mark p w in
    let first = if needs_replace p was_granted marked then again replace marked else marked in
    let second =
      if needs_replace_other p was_granted first then again replace_other first else first in
    if (w.board p).processing || (w.board p).nochange
    then w
    else send (record { permission = p; was_granted = was_granted }) second

-- On fuel; two levels are enough (Cascade).
unfoldable pub change_from : ℕ → Permission → World → World
unfolding press
change_from zero p w = w
change_from (suc fuel) p w = press (change_from fuel) p w

unfoldable pub change_user_permission : Permission → World → World
unfolding change_from
change_user_permission p w = change_from 2 p w

-- The oldest call for a permission, taken off the list.
unfoldable pub drop_call : Permission → List Pending → List Pending
drop_call p [] = []
drop_call p (c ∷ cs) = let rest = drop_call p cs in if same p c.permission then cs else c ∷ rest

-- A call comes back: `then` if the server has done it, `catch` if not.
abbrev pub shown_after : Bool → Bool → Indicator → Indicator
shown_after done was_granted i =
    let granted = if done then not was_granted else was_granted in
    if granted
    then record i { granted = true; processing = false }
    else record i { notgranted = true; processing = false }

unfoldable pub come_back : Pending → Bool → World → World
unfolding drop_call
come_back call done w =
    let p = call.permission in
    let now = if done then not call.was_granted else w.server p in
    record {
      board = set p (shown_after done call.was_granted (w.board p)) w.board;
      in_flight = drop_call p w.in_flight;
      server = set p now w.server;
    }
