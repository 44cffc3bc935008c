-- ===== src/Users/Actions/Settled.antt =====
-- How the dialogs of the list of users end.
use gokapiplus.Base.Text.{Text}
use gokapiplus.Base.Spaces.{trim}
use gokapiplus.Users.Row.{Page}
use gokapiplus.Users.Row.Found.{Created, row_of}
use gokapiplus.Users.Actions.{Reply, answered, refused, Adding}
use gokapiplus.Base.{true, false, [], ◌∷◌, ◌++◌, ◌≡◌}

-- What a press of the button in the dialog for a new user leads to.
pub data Settled (page : Page) (create : Text → Reply Created) (typed : Text) (a b : Adding)
    : Type 0 where
  invalid :
      b.is_open ≡ a.is_open
      → b.rows ≡ a.rows
      → b.alerts ≡ a.alerts
      → b.was_validated ≡ true
      → b.disabled ≡ false
      → Settled page create typed a b
  added :
      (u : Created)
      → create (trim typed) ≡ answered u
      → b.is_open ≡ false
      → b.rows ≡ row_of page u ∷ a.rows
      → b.alerts ≡ a.alerts
      → Settled page create typed a b
  refused_with :
      (message shown : Text)
      → create (trim typed) ≡ refused message
      → b.is_open ≡ a.is_open
      → b.rows ≡ a.rows
      → b.alerts ≡ a.alerts ++ shown ∷ []
      → b.disabled ≡ false
      → Settled page create typed a b
