-- ===== src/Users/Actions.antt =====
-- What the dialogs and buttons of the list of users do with the server's answer: `changeRank`,
-- `showDeleteUserModal`, `resetPw` and `addNewUser` (admin_ui_users.js).
pub mod Settled
use gokapiplus.Base.Text.{Text, codes, same_text}
use gokapiplus.Base.Spaces.{trim}
use gokapiplus.Base.Decimal.{decimal}
use gokapiplus.Dom.{Node}
use gokapiplus.Users.Row.{Page, User, add_row_user}
use gokapiplus.Users.Row.Found.{Created}
use gokapiplus.Base.{
  ℕ, Bool, true, false, not, Option, none, some, List, [], ◌∷◌, ◌++◌, if◌then◌else◌,
}

-- The end of a call: the answer, or the message of the error.
pub data Reply (A : Type 0) : Type 0 where
  answered : A → Reply A
  refused : Text → Reply A

-- ---- changeRank
-- The button, the calls of `apiUserChangeRank` under way, and whether the page is being loaded again.
pub record Rank : Type 0 where
  pub disabled : Bool
  pub calls : List (ℕ × Text)
  pub reloaded : Bool

unfoldable pub change_rank : ℕ → Text → Rank → Rank
change_rank user_id new_rank r =
    if r.disabled
    then r
    else record r { disabled = true; calls = r.calls ++ (user_id, new_rank) ∷ [] }

-- The first call under way comes back.
unfoldable pub rank_changed : Reply Unit → Rank → List (ℕ × Text) → Rank
rank_changed reply r [] = r
rank_changed (answered done) r (c ∷ calls) = record r { calls = calls; reloaded = true }
rank_changed (refused message) r (c ∷ calls) = record r { calls = calls; disabled = false }

-- ---- showDeleteUserModal
-- The rows of the users, each with whether it is fading away.
pub record Deletion : Type 0 where
  pub is_open : Bool
  pub delete_files : Bool
  pub shown : Text
  pub user : ℕ
  pub rows : List (ℕ × Bool)

unfoldable pub show_delete_user_modal : ℕ → Text → Deletion → Deletion
show_delete_user_modal user_id user_email d = record d {
  is_open = true;
  delete_files = false;
  shown = user_email;
  user = user_id;
}

-- What the button asks for: the user, and whether his files are deleted.
abbrev pub asked : Deletion → ℕ × Bool
asked d = (d.user, d.delete_files)

unfoldable pub fade : ℕ → List (ℕ × Bool) → List (ℕ × Bool)
fade id [] = []
fade id ((i, fading) ∷ rows) =
    let rest = fade id rows in
    if same_text (decimal i) (decimal id) then (i, true) ∷ rows else (i, fading) ∷ rest

unfoldable pub user_deleted : ℕ → Reply Unit → Deletion → Deletion
unfolding fade
user_deleted id (answered done) d = record d { is_open = false; rows = fade id d.rows }
user_deleted id (refused message) d = d

-- The timer takes the row away.
unfoldable pub take_away : ℕ → List (ℕ × Bool) → List (ℕ × Bool)
take_away id [] = []
take_away id ((i, fading) ∷ rows) =
    let rest = take_away id rows in
    if same_text (decimal i) (decimal id) then rows else (i, fading) ∷ rest

-- ---- resetPw
-- The dialog, with the parts that a new password switches over and what the copy button copies.
pub record Reset : Type 0 where
  pub is_open : Bool
  pub disabled : Bool
  pub asks : Bool
  pub shows_password : Bool
  pub returned_pw : Text
  pub copied : Option Text

-- The dialog is a fresh copy every time, since hiding it puts a clone in its place.
unfoldable pub show_reset_pw_modal : Reset
show_reset_pw_modal = record {
  is_open = true;
  disabled = false;
  asks = true;
  shows_password = false;
  returned_pw = [];
  copied = none;
}

-- `new_pw` asks for a random password; else the user only has to change his own.
unfoldable pub after_reset : Bool → Reply Text → Reset → Reset
after_reset false (answered password) r = record r { is_open = false }
after_reset true (answered password) r = record r {
  asks = false;
  shows_password = true;
  returned_pw = password;
  copied = some password;
}
after_reset new_pw (refused message) r = record r { disabled = false }

unfoldable pub reset_pw : Bool → Reply Text → Reset → Reset
unfolding after_reset
reset_pw new_pw reply r = after_reset new_pw reply (record r { disabled = true })

-- ---- addNewUser
-- The dialog for a new user and the table below its head.
pub record Adding : Type 0 where
  pub is_open : Bool
  pub disabled : Bool
  pub was_validated : Bool
  pub rows : List Node
  pub alerts : List Text

abbrev pub alert : Text → Adding → Adding
alert message a = record a { disabled = false; alerts = a.alerts ++ message ∷ [] }

abbrev pub failed : Bool → Text → Adding → Adding
failed true message a = alert (codes "Un utilisateur porte déjà ce nom") a
failed false message a = alert (codes "Impossible de créer l'utilisateur : Error: " ++ message) a

-- `addRowUser`, which throws where there is no row.
abbrev pub with_rows : Option (List Node) → Adding → Adding
with_rows none a = failed false (codes "Invalid ID: must contain only digits.") a
with_rows (some rows) a = record a { rows = rows }

unfoldable pub after_create : Page → Reply Created → Adding → Adding
unfolding add_row_user same_text
after_create page (answered u) a =
    with_rows
      (add_row_user page (record { id = decimal u.id; name = u.name; permissions = u.permissions })
        a.rows)
      (record a { is_open = false })
after_create page (refused message) a = failed (same_text message (codes "duplicate")) message a

-- The name that is sent, if the form is valid.
unfoldable pub sent_name : Bool → Text → Option Text
unfolding trim
sent_name false e_user_name = none
sent_name true e_user_name = some (trim e_user_name)

unfoldable pub add_new_user : Page → Bool → (Text → Reply Created) → Text → Adding → Adding
unfolding after_create sent_name
add_new_user page valid create e_user_name a = elim (sent_name valid e_user_name) [
  | none ↦ record a { was_validated = true; disabled = false }
  | some name ↦ after_create page (create name) (record a { disabled = true })
]
