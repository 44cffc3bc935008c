-- ===== src/Api/Read.antt =====
-- What the functions of admin_api.js make of a response: the second `try` block of each of them.
use gokapiplus.Base.{ℕ, [], ◌∷◌, ◌==◌, if◌then◌else◌}
use gokapiplus.Base.Text.{Text, codes}
use gokapiplus.Api.{Result, done, threw, Body, Response, request_failed}

unfoldable pub read_nothing : Response → Result (Unit {0})
read_nothing response = if response.is_ok then done tt else threw (request_failed response.status)

unfoldable pub read_json : Response → Result Body
read_json response =
    if response.is_ok then response.json else threw (request_failed response.status)

unfoldable pub read_text : Response → Result Text
read_text response =
    if response.is_ok then response.text else threw (request_failed response.status)

-- In `apiUserCreate`.
unfoldable pub read_new_user : Response → Result Body
read_new_user response =
    if response.is_ok
    then response.json
    else if response.status == 409
    then threw (codes "duplicate")
    else threw (request_failed response.status)

-- `text || other`: an empty text is false.
abbrev pub or_else : Text → Text → Text
or_else [] other = other
or_else (c ∷ cs) other = c ∷ cs

-- In `apiChunkComplete`: the text is asked for after `json()` has been.
unfoldable pub fallback_message : ℕ → Result Text → Text
fallback_message status (threw e) = e
fallback_message status (done message) = or_else message (request_failed status)

unfoldable pub upload_message : Response → Result Body → Text
unfolding fallback_message
upload_message response (done content) =
    or_else content.error_message (request_failed response.status)
upload_message response (threw e) = fallback_message response.status response.again

unfoldable pub read_upload : Response → Result Body
unfolding upload_message
read_upload response =
    if response.is_ok then response.json else threw (upload_message response response.json)
