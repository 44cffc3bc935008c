-- ===== src/Permissions/Examples.antt =====
-- A press on the page.
use gokapiplus.Base.{◌≡◌, refl, true, false, [], ◌∷◌, inl}
use gokapiplus.Permissions.{
  replace, replace_other, Pending, World, change_user_permission, come_back,
}
use gokapiplus.Permissions.Calls.{calls}
use gokapiplus.Permissions.Shown.{Fits, idle, Reach, drawn, pressed, returned, Reach-Fits}

-- Nothing is granted.
abbrev bare : World
bare = record {
  board = λ p. record { granted = false; notgranted = true; processing = false; nochange = false };
  in_flight = [];
  server = λ p. false;
}

press_runs :
    (change_user_permission replace_other bare).in_flight
    ≡ record { permission = replace; was_granted = false }
      ∷ record { permission = replace_other; was_granted = false }
      ∷ []
unfolding change_user_permission
press_runs = refl

abbrev after_press : World
after_press = change_user_permission replace_other bare

abbrev first_call : Pending
first_call = record { permission = replace; was_granted = false }

one_back : Reach (come_back first_call true after_press)
unfolding change_user_permission
one_back =
    returned first_call true
      (pressed replace_other (drawn {w = bare} refl (λ q. idle refl refl refl))) (inl refl)

Reach-Fits_example :
    Fits
      ((come_back first_call true after_press).board replace)
      ((come_back first_call true after_press).server replace)
      (calls replace (come_back first_call true after_press).in_flight)
Reach-Fits_example = Reach-Fits one_back replace
