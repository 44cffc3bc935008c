-- ===== src/Permissions/Cascade.antt =====
-- How deep `changeUserPermission` calls itself (admin_ui_users.js).
use gokapiplus.Base.{ℕ, suc, ◌≡◌, refl, Bool-cases, inl, inr}
use gokapiplus.Permissions.{
  Permission, replace, replace_other, other, World, mark, press, change_from,
  change_user_permission,
}

inner_replace :
    (n : ℕ) (w : World)
    → change_from (suc n) replace (mark replace_other w)
      ≡ change_from 1 replace (mark replace_other w)
unfolding change_from press
inner_replace n w = elim (Bool-cases (w.board replace).granted) [
  | inl shown ↦ rw shown refl
  | inr hidden ↦ rw hidden refl
]

inner_replace_other :
    (n : ℕ) (w : World)
    → change_from (suc n) replace_other (mark replace w)
      ≡ change_from 1 replace_other (mark replace w)
unfolding change_from press
inner_replace_other n w = elim (Bool-cases (w.board replace_other).granted) [
  | inl shown ↦ rw shown refl
  | inr hidden ↦ rw hidden refl
]

-- A press calls itself for the other of the two permissions only, once its own button is marked.
press_same :
    (f g : Permission → World → World) (p : Permission) (w : World)
    → f replace_other (mark replace w) ≡ g replace_other (mark replace w)
    → f replace (mark replace_other w) ≡ g replace (mark replace_other w)
    → press f p w ≡ press g p w
unfolding press
press_same f g replace w h k = rw h refl
press_same f g replace_other w h k = rw k refl
press_same f g (other n) w h k = refl

-- Whatever further depth the calls of changeUserPermission by itself are given, a press does what
-- it does with two levels.
pub change_user_permission_enough :
    (n : ℕ) (p : Permission) (w : World)
    → change_from (suc (suc n)) p w ≡ change_user_permission p w
unfolding change_user_permission change_from
change_user_permission_enough n p w =
    press_same (change_from (suc n)) (change_from 1) p w (inner_replace_other n w)
      (inner_replace n w)
