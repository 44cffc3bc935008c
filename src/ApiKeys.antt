-- ===== src/ApiKeys.antt =====
-- The list of API keys (admin_ui_api.js): `changeApiPermission` for one button, and the field that
-- `addFriendlyNameChange` opens for a key's name.
pub mod Row
pub mod Shown
mod Examples
use gokapiplus.Base.Text.{Text, codes}
use gokapiplus.Base.{
  Bool, true, false, not, ◌||◌, Option, none, some, List, [], ◌∷◌, ◌++◌, if◌then◌else◌, ◌≡◌, refl,
}

-- The classes `perm-processing`, `perm-nochange`, `perm-granted` and `perm-notgranted`.
pub record Indicator : Type 0 where
  pub processing : Bool
  pub nochange : Bool
  pub granted : Bool
  pub notgranted : Bool

-- The field for a name: `isBeingEdited`, `allowEdit`, its text, and the names sent to the server.
pub record Field : Type 0 where
  pub shown : Text
  pub edited : Bool
  pub value : Text
  pub sent : List Text

-- A button with its calls under way, each with what `wasGranted` was, the permission that the
-- server holds, and the field for the name.
pub record Key : Type 0 where
  pub indicator : Indicator
  pub calls : List Bool
  pub holds : Bool
  pub field : Field

unfoldable pub press_free : Indicator → Key → Key
press_free i k = record k {
  indicator = record i { processing = true; granted = false; notgranted = false };
  calls = i.granted ∷ k.calls;
}

unfoldable pub change_api_permission : Key → Key
unfolding press_free
change_api_permission k =
    if k.indicator.processing || k.indicator.nochange then k else press_free k.indicator k

-- The button after a call that granted or revoked what it was not, or that failed.
unfoldable pub shows : Bool → Indicator → Indicator
shows granted i = record i { processing = false; granted = granted; notgranted = not granted }

unfoldable pub succeed : Key → List Bool → Key
unfolding shows
succeed k [] = k
succeed k (was_granted ∷ calls) = record k {
  indicator = shows (not was_granted) k.indicator;
  calls = calls;
  holds = not was_granted;
}

unfoldable pub fail : Key → List Bool → Key
unfolding shows
fail k [] = k
fail k (was_granted ∷ calls) = record k { indicator = shows was_granted k.indicator; calls = calls }

unfoldable pub add_friendly_name_change : Field → Field
add_friendly_name_change f =
    if f.edited then f else record f { shown = []; edited = true; value = f.shown }

abbrev pub or_unnamed : Text → Text
or_unnamed [] = codes "Clé sans nom"
or_unnamed (c ∷ name) = c ∷ name

-- `submitEntry` on the loss of focus or the enter key.
unfoldable pub submit_entry : Field → Field
submit_entry f =
    if f.edited
    then record f { shown = or_unnamed f.value; edited = false; sent = or_unnamed f.value ∷ f.sent }
    else f

-- A press of the button, the return of the oldest call, and what happens to the field.
pub data Event : Type 0 where
  pressed succeeded failed opened submitted : Event
  typed : Text → Event

unfoldable pub handle : Key → Event → Key
unfolding change_api_permission succeed fail add_friendly_name_change submit_entry
handle k pressed = change_api_permission k
handle k succeeded = succeed k k.calls
handle k failed = fail k k.calls
handle k opened = record k { field = add_friendly_name_change k.field }
handle k submitted = record k { field = submit_entry k.field }
handle k (typed name) = record k { field = record k.field { value = name } }

unfoldable pub run : Key → List Event → Key
unfolding handle
run k [] = k
run k (e ∷ es) = run (handle k e) es
