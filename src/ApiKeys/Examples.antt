-- ===== src/ApiKeys/Examples.antt =====
-- API keys at work (admin_ui_api.js).
use gokapiplus.Base.Text.{codes}
use gokapiplus.Base.{refl, true, false, List, [], ◌∷◌}
use gokapiplus.Base.{◌≡◌, In, All, some}
use gokapiplus.Dom.{Node, calls}
use gokapiplus.Dom.Tables.{Finds}
use gokapiplus.AdminUpload.Table.{is_alphanumeric}
use gokapiplus.ApiKeys.Row.{Page, ApiKey, looked_up}
use gokapiplus.ApiKeys.Row.Found.{add_all, add_all_keys-find}
use gokapiplus.ApiKeys.{Key, Event, pressed, succeeded, opened, submitted, typed, run}
use gokapiplus.ApiKeys.Shown.{Fits, run-Fits}

abbrev fresh_key : Key
fresh_key = record {
  indicator = record { processing = false; nochange = false; granted = true; notgranted = false };
  calls = [];
  holds = true;
  field = record { shown = codes "k"; edited = false; value = []; sent = [] };
}

abbrev visit : List Event
visit = pressed ∷ pressed ∷ opened ∷ typed (codes "new") ∷ succeeded ∷ submitted ∷ submitted ∷ []

run-Fits_example : Fits (run fresh_key visit)
run-Fits_example = run-Fits fresh_key visit ((refl, refl, refl), tt)

abbrev a_page : Page
a_page = record {
  can_view_other_api_keys = true;
  user_name = codes "u";
  can_replace_files = false;
  can_manage_users = true;
  can_view_system_log = false;
  can_create_file_request = true;
}

abbrev a_key : ApiKey
a_key = record { id = codes "secret"; public_id = codes "a" }

add_all_keys-find_example :
    (rows : List Node) × (add_all a_page (a_key ∷ []) ≡ some rows)
    × ((n : Node) → In n rows → All (λ c. All (Finds rows n) (looked_up c)) (calls n))
unfolding is_alphanumeric
add_all_keys-find_example = add_all_keys-find a_page (a_key ∷ []) ((refl, tt), tt) ((λ h. h), tt)
