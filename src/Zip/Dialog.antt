-- ===== src/Zip/Dialog.antt =====
-- The dialog for the name of an archive and what follows it: `zipAskArchiveName` and `zipAndUpload`
-- (admin_ui_zip.js).
pub mod Named
mod Examples
use gokapiplus.Base.Text.{Text, codes}
use gokapiplus.Zip.Names.{zip_resolve_archive_name}
use gokapiplus.Zip.Items.{Item, zip_deduplicate_names, zip_get_total_size}
use gokapiplus.Sizes.{zip_format_size}
use gokapiplus.Base.{
  ℕ, ◌*◌, Bool, true, false, Option, none, some, List, [], ◌∷◌, ◌++◌, ltb, if◌then◌else◌, ◌≡◌, refl,
}

-- What the user does in the dialog: the box gets another text, the button or the enter key is
-- pressed, or the dialog is closed.
pub data Input : Type 0 where
  typed : Text → Input
  confirmed entered hidden : Input

-- The text of the box, `settled`, and what the promise was resolved to, where `none` within is
-- `null`.
pub record Dialog : Type 0 where
  pub value : Text
  pub settled : Bool
  pub result : Option (Option Text)

unfoldable pub finish : Option Text → Dialog → Dialog
finish value d = if d.settled then d else record d { settled = true; result = some value }

unfoldable pub on_hidden : Dialog → Dialog
unfolding finish
on_hidden d = finish none d

-- The dialog is hidden after the confirmation.
unfoldable pub on_confirm : Text → Dialog → Dialog
unfolding finish on_hidden
on_confirm generated d = on_hidden (finish (some (zip_resolve_archive_name d.value generated)) d)

unfoldable pub on_input : Text → Dialog → Input → Dialog
unfolding on_confirm on_hidden
on_input generated d (typed value) = record d { value = value }
on_input generated d confirmed = on_confirm generated d
on_input generated d entered = on_confirm generated d
on_input generated d hidden = on_hidden d

unfoldable pub on_inputs : Text → Dialog → List Input → Dialog
unfolding on_input
on_inputs generated d [] = d
on_inputs generated d (i ∷ is) = on_inputs generated (on_input generated d i) is

-- `none` is a dialog that is still open.
unfoldable pub zip_ask_archive_name : Text → List Input → Option (Option Text)
unfolding on_inputs
zip_ask_archive_name generated inputs =
    let opened : Dialog = record { value = generated; settled = false; result = none } in
    (on_inputs generated opened inputs).result

abbrev pub zip_max_total_size_bytes : ℕ
zip_max_total_size_bytes = 2 * 1024 * 1024 * 1024

-- What is done: a status box is added, shows an error or is taken away, and the archive of the
-- items is handed to dropzone.
pub data Act : Type 0 where
  status_added status_error : Text → Act
  status_removed : Act
  file_added : Text → List Item → Act

-- The acts, with `isChoosingZipName` and `isCompressing` behind them.
pub record Ended : Type 0 where
  pub acts : List Act
  pub choosing : Bool
  pub compressing : Bool

abbrev pub ended : List Act → Ended
ended acts = record { acts = acts; choosing = false; compressing = false }

abbrev pub too_large : ℕ → Text
too_large total =
    codes "Erreur : la sélection de "
    ++ zip_format_size total
    ++ codes " dépasse la taille maximale de "
    ++ zip_format_size zip_max_total_size_bytes
    ++ codes " pour la compression automatique"

-- `compress` is `zipCreateArchive`, which returns an error or none.
module _ (compress : List Item → Text → Option Text) where
  unfoldable pub after_compressing : List Item → Text → Option Text → Ended
  after_compressing items name none =
      ended (status_added name ∷ status_removed ∷ file_added name items ∷ [])
  after_compressing items name (some error) =
      ended
        (status_added name ∷ status_error (codes "Erreur pendant la compression : " ++ error) ∷ [])

  unfoldable pub after_asking : List Item → Option (Option Text) → Ended
  unfolding after_compressing
  after_asking items none = record { acts = []; choosing = true; compressing = false }
  after_asking items (some none) = ended []
  after_asking items (some (some name)) = after_compressing items name (compress items name)

  unfoldable pub zip_and_upload : List Item → Text → List Input → Ended
  unfolding after_asking zip_ask_archive_name
  zip_and_upload items generated inputs =
      let deduplicated = zip_deduplicate_names items in
      let total = zip_get_total_size deduplicated in
      if ltb zip_max_total_size_bytes total
      then ended (status_added generated ∷ status_error (too_large total) ∷ [])
      else after_asking deduplicated (zip_ask_archive_name generated inputs)
