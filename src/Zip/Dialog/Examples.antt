-- ===== src/Zip/Dialog/Examples.antt =====
-- The dialog for an archive at work (admin_ui_zip.js).
use gokapiplus.Base.Text.{Text, codes}
use gokapiplus.Base.{true, none, Option, List, [], ◌∷◌}
use gokapiplus.Zip.Items.{Item}
use gokapiplus.Zip.Dialog.{Input, typed, confirmed, hidden}

abbrev two_items : List Item
two_items =
    record { file = none; path = codes "d/"; is_directory = true }
    ∷ record { file = none; path = codes "d/"; is_directory = true }
    ∷ []

abbrev some_inputs : List Input
some_inputs = typed (codes "a") ∷ confirmed ∷ hidden ∷ []

abbrev packs : List Item → Text → Option Text
packs items name = none
