-- ===== src/FileRequests/Examples.antt =====
-- File requests at work (admin_ui_filerequest.js).
use gokapiplus.Base.Text.{Text, codes, same_text}
use gokapiplus.Base.{ℕ, ◌+◌, ◌-◌, ◌*◌, ◌/◌, ◌<◌, ◌≡◌, refl, true, false, none, some, List, [], ◌∷◌}
use gokapiplus.FileRequests.Download.Remaining.{draw, remove_all, without_all, remove_all-draw}
use gokapiplus.FileRequests.Form.{
  Limits, Modal, Request, within_limit, save_file_request, save_file_request_defaults,
  load_file_request_defaults, seconds,
}
use gokapiplus.FileRequests.Form.Kept.{edited, save_file_request-edited, save_file_request-defaults}
use gokapiplus.FileRequests.Rows.{
  Saved, Page, Row, create_file_request_row, insert_or_replace_file_request,
}
use gokapiplus.FileRequests.Rows.Replaced.{Replaced}

abbrev two_files : List Text
two_files = codes "a" ∷ codes "b" ∷ []

remove_all-draw_example :
    remove_all (codes "a" ∷ []) (some (draw (codes "n") two_files))
    ≡ some (draw (codes "n") (without_all (codes "a" ∷ []) two_files))
remove_all-draw_example =
    remove_all-draw (codes "a" ∷ []) (codes "n") two_files ((refl, tt), ((refl, tt), tt))

abbrev three_at_most : Limits
three_at_most = record { limit_max_files = 3; limit_max_size = 0 }

abbrev a_request : Request
a_request = record {
  id = codes "x";
  name = codes "Photos";
  max_files = 0;
  max_size = 20;
  expiry = 0;
  notes = [];
}

save_file_request-edited_example :
    save_file_request (edited three_at_most 5000 a_request)
    ≡ record a_request { max_files = within_limit 3 0; max_size = within_limit 0 20 }
save_file_request-edited_example = save_file_request-edited three_at_most 5000 a_request

abbrev a_modal : Modal
a_modal = edited three_at_most 5000 (record a_request { expiry = 90000 })

abbrev same_day : ℕ → ℕ
same_day time = time

save_file_request-defaults_example :
    let again =
      load_file_request_defaults same_day three_at_most 9000
        (save_file_request_defaults 7000 a_modal) in
    let r = save_file_request again in
    (r.max_files ≡ within_limit 3 (save_file_request a_modal).max_files)
    × (r.max_size ≡ within_limit 0 (save_file_request a_modal).max_size)
    × (a_modal.expiry.checked ≡ false → r.expiry ≡ 0)
    × (a_modal.expiry.checked ≡ true
        → seconds 7000 < a_modal.expiry.value
        → r.expiry ≡ same_day (9000 + (a_modal.expiry.value - seconds 7000) * 1000) / 1000)
save_file_request-defaults_example =
    save_file_request-defaults same_day three_at_most 7000 9000 a_modal

abbrev own_page : Page
own_page = record {
  base_url = codes "https://h/";
  user_name = codes "eve";
  can_view_other_requests = false;
  now = 5000;
  format_unix_timestamp = λ t. codes "date";
}

abbrev saved : Saved
saved = record {
  id = codes "x";
  name = codes "Photos";
  apikey = codes "k";
  uploadedfiles = 2;
  maxfiles = 0;
  maxsize = 0;
  totalfilesize = 10;
  lastupload = 0;
  expiry = 0;
  notes = [];
}

abbrev one_row : List Row
one_row = create_file_request_row own_page saved [] ∷ []

one_row-user : (create_file_request_row own_page saved []).user ≡ none
unfolding create_file_request_row
one_row-user = refl

-- The handler throws for a request that is shown on a page without users.
throws : insert_or_replace_file_request own_page saved one_row ≡ none
unfolding insert_or_replace_file_request create_file_request_row same_text
throws = refl
