-- ===== src/Users/Row/Granted.antt =====
-- What the permission buttons of a new user show.
use gokapiplus.Base.Text.{Text, same_text}
use gokapiplus.Dom.{Node, text, element}
use gokapiplus.Permissions.{Indicator}
use gokapiplus.Permissions.Shown.{Fits, idle}
use gokapiplus.Users.Bits.{has_permission, has_permission-digit_at, digit_at}
use gokapiplus.Users.Row.{
  Definition, permission_definitions, permission_class, permission_button, contains, indicator_of,
}
use gokapiplus.Base.{
  ℕ, Bool, true, false, not, List, [], ◌∷◌, ◌^◌, All, In, ◌≡◌, refl, sym, ap, ◌∙◌, subst, inl, inr,
  ltb,
}

-- The class of an element.
abbrev pub class_of : Node → Text
class_of (text t) = []
class_of (element tag s inner) = s.class_name

-- The button as it is drawn for a user with some permissions, on the page of a viewer with his own.
abbrev pub drawn : Text → ℕ → ℕ → Definition → Indicator
drawn id permissions own d = indicator_of (
    class_of (permission_button id (has_permission permissions d.bit) (has_permission own d.bit) d))

abbrev Drawn : Bool → Bool → Definition → Type 0
Drawn granted own d =
    indicator_of (permission_class d granted own)
    ≡ record { granted = granted; notgranted = not granted; processing = false; nochange = not own }

definitions-Drawn : (granted own : Bool) → All (Drawn granted own) permission_definitions
unfolding contains same_text
definitions-Drawn true true =
    (refl, (refl, (refl, (refl, (refl, (refl, (refl, (refl, (refl, tt)))))))))
definitions-Drawn true false =
    (refl, (refl, (refl, (refl, (refl, (refl, (refl, (refl, (refl, tt)))))))))
definitions-Drawn false true =
    (refl, (refl, (refl, (refl, (refl, (refl, (refl, (refl, (refl, tt)))))))))
definitions-Drawn false false =
    (refl, (refl, (refl, (refl, (refl, (refl, (refl, (refl, (refl, tt)))))))))

All-at : {A : Type 0} → (P : A → Type 0) → (x : A) → (xs : List A) → All P xs → In x xs → P x
All-at P x [] hs h = absurd h
All-at P x (y ∷ xs) (hy, hs) (inl e) = subst P (sym e) hy
All-at P x (y ∷ xs) (hy, hs) (inr h) = All-at P x xs hs h

-- The button of a permission whose bit is a place below 32 shows on a new user's row that the
-- permission is granted exactly if the digit at that place of the user's permissions is set, has
-- no call under way, and cannot be pressed exactly if the digit of the viewer's permissions is not
-- set.
pub drawn-Fits :
    (id : Text) (permissions own place : ℕ) (d : Definition)
    → In d permission_definitions
    → ltb place 32 ≡ true
    → d.bit ≡ 2 ^ place
    → Fits (drawn id permissions own d) (digit_at place permissions) []
      × ((drawn id permissions own d).nochange ≡ not (digit_at place own))
drawn-Fits id permissions own place d inside small e =
    let shown =
      All-at (Drawn (has_permission permissions d.bit) (has_permission own d.bit)) d
        permission_definitions
        (definitions-Drawn (has_permission permissions d.bit) (has_permission own d.bit)) inside in
    let bit : (perm : ℕ) → has_permission perm d.bit ≡ digit_at place perm =
      λ perm. ap (has_permission perm) e ∙ has_permission-digit_at place perm small in
    (
      idle (ap (λ (i : Indicator). i.processing) shown)
          (ap (λ (i : Indicator). i.granted) shown ∙ bit permissions)
          (ap (λ (i : Indicator). i.notgranted) shown ∙ ap not (bit permissions)),
      ap (λ (i : Indicator). i.nochange) shown ∙ ap not (bit own),
    )
