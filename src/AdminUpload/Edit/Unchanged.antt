-- ===== src/AdminUpload/Edit/Unchanged.antt =====
-- What the dialog for a file does to it (admin_ui_upload.js).
use gokapiplus.Base.Text.{Text, codes, same_text}
use gokapiplus.AdminUpload.Edit.{
  Shown, unchanged, options_for, replace_options_of, show_edit_modal,
  add14_days_if_before_current_time, Change, Call, modify, change_of, replacement_of, ending,
  after_modify, edit_file,
}
use gokapiplus.Base.{
  ℕ, Bool, true, false, not, ◌&&◌, In, Option, none, some, List, [], ◌∷◌, ◌≡◌, refl, ◌∙◌, ap,
  if◌then◌else◌, inl, inr,
}

-- The limits that a file has, with 0 for none.
abbrev pub current : Shown → Change
current f = record {
  id = f.id;
  allowed_downloads = if f.unlimited_downloads then codes "0" else f.downloads;
  expiry_timestamp = if f.unlimited_time then 0 else f.expiry;
  password = if f.password then unchanged else [];
  original_password = f.password;
}

if_not {ℓ} :
    {A : Type ℓ} (b : Bool) (x y z : A)
    → (if not b then (if b then x else y) else z) ≡ (if b then z else y)
if_not true x y z = refl
if_not false x y z = refl

same_password :
    (b : Bool)
    → let p = if b then unchanged else [] in
      ((if b then p else []) ≡ p) × (b && same_text p unchanged ≡ b)
unfolding same_text
same_password true = (refl, refl)
same_password false = (refl, refl)

change_of-show_edit_modal :
    (now : ℕ) (files : List (Text × Text)) (f : Shown)
    → change_of (show_edit_modal now files f) ≡ current f
unfolding change_of show_edit_modal
change_of-show_edit_modal now files f =
    rw
      (
        if_not f.unlimited_downloads (codes "1") f.downloads (codes "0"),
        if_not f.unlimited_time (add14_days_if_before_current_time now f.expiry) f.expiry 0,
        (same_password f.password).0,
        (same_password f.password).1,
      )
      refl

one_call :
    (answer : Call → Option Text) (c : Change) (id : Text) (o : Option Text)
    → after_modify answer (modify c) id none o ≡ (modify c ∷ [], ending answer o)
unfolding after_modify
one_call answer c id none = refl
one_call answer c id (some e) = refl

-- By whether the file in front is this one.
option_front :
    (b : Bool) (id other : Text) (option : Text) (rest : List (Text × Text)) (x : Text × Text)
    → same_text other id ≡ b
    → (In x rest → same_text x.0 id ≡ false)
    → In x (if b then rest else (other, option) ∷ rest)
    → same_text x.0 id ≡ false
option_front true id other option rest x e later h = later h
option_front false id other option rest x e later (inl same) =
    ap (λ (y : Text × Text). same_text y.0 id) same ∙ e
option_front false id other option rest x e later (inr h) = later h

In-options_for :
    (id : Text) (files : List (Text × Text)) (x : Text × Text)
    → In x (options_for id files)
    → same_text x.0 id ≡ false
unfolding options_for
In-options_for id [] x h = absurd h
In-options_for id ((other, name) ∷ files) x h =
    option_front (same_text other id) id other _ (options_for id files) x refl
      (In-options_for id files x) h

offered :
    (can_replace is_e2e : Bool) (id : Text) (files : List (Text × Text)) (x : Text × Text)
    → is_e2e ≡ false
    → In x (
        if can_replace
        then (if is_e2e then (codes "0", codes "Unavailable") ∷ [] else options_for id files)
        else [])
    → same_text x.0 id ≡ false
offered true true id files x e h = absurd cc
offered true false id files x e h = In-options_for id files x h
offered false is_e2e id files x e h = absurd h

-- The dialog for a file that is saved as it was opened sends one call, with the limits that the
-- file has and the mark that the password stays, and the page is loaded again unless the server
-- answers with an error; a file without end-to-end encryption is not offered as its own
-- replacement.
pub edit_file-show_edit_modal :
    (answer : Call → Option Text) (now : ℕ) (files : List (Text × Text)) (f : Shown)
    → (edit_file answer (show_edit_modal now files f)
        ≡ (modify (current f) ∷ [], ending answer (answer (modify (current f)))))
      × (f.is_e2e ≡ false
          → (x : Text × Text) → In x (show_edit_modal now files f).replace_options
          → same_text x.0 f.id ≡ false)
unfolding edit_file replacement_of show_edit_modal replace_options_of
edit_file-show_edit_modal answer now files f = (
  rw (change_of-show_edit_modal now files f)
      (one_call answer (current f) f.id (answer (modify (current f)))),
  λ plain x h. offered f.can_replace f.is_e2e f.id files x plain h,
)
