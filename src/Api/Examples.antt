-- ===== src/Api/Examples.antt =====
-- Runs of the API calls (admin_api.js).
use gokapiplus.Base.{ℕ, ◌≡◌, ◌≢◌, refl, false, true, some, [], arith}
use gokapiplus.Base.Text.{codes, same_text}
use gokapiplus.Api.{Result, done, threw, text, Response, Page, lookup, get_token}
use gokapiplus.Api.Tokens.{get_token_again}

-- A server that issues a token for an hour at second 1000.
abbrev issue : Response
issue = record {
  is_ok = true;
  status = 200;
  json =
      done (record { key = some (codes "k"); expiry = some 4600; error_message = []; other = [] });
  text = done [];
  again = threw (codes "body used");
}

abbrev replies : ℕ → Result Response
replies n = done issue

abbrev fresh_page : Page
fresh_page = record { stored_tokens = []; sent = [] }

abbrev after_first : Page
after_first = (get_token replies 1000000 (codes "PERM_EDIT") fresh_page).1

get_token_again_example :
    get_token replies 2000000 (codes "PERM_EDIT") after_first ≡ (done (codes "k"), after_first)
unfolding get_token lookup same_text
get_token_again_example =
    get_token_again replies 1000000 (codes "PERM_EDIT") fresh_page (codes "k") after_first refl
      2000000 (record { key = codes "k"; expiry = some 4600 }) refl refl

abbrev unreadable : Response
unreadable = record issue { is_ok = false; status = 502; json = threw (codes "not JSON") }

again_names : unreadable.again ≢ threw []
again_names e = ground (arith, e)
