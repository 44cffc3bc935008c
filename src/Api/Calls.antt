-- ===== src/Api/Calls.antt =====
-- What a call of the API sends and returns (admin_api.js).
use gokapiplus.Base.{ℕ, suc, ◌≡◌, ◌≢◌, refl, false, some, [], ◌∷◌, length, ap, arith}
use gokapiplus.Base.Text.{Text}
use gokapiplus.Api.{
  Result, done, threw, Response, Body, Token, Page, lookup, expires_soon, token_request, with_token,
  with_request, Api, read_reply, request_failed,
}
use gokapiplus.Api.Read.{read_upload, upload_message, fallback_message, or_else}

-- A call ends without a token and sends nothing else, or sends its request with one: the stored
-- one with a minute left, or a new one.
pub data Called {A : Type 0} (replies : ℕ → Result Response) (now : ℕ) (api : Api A) (page : Page)
    : Result A × Page → Type 0 where
  no_token :
      (e : Text)
      → Called replies now api page (threw e, with_request (token_request api.permission) page)
  stored_token :
      (token : Token)
      → lookup api.permission page.stored_tokens ≡ some token
      → expires_soon now token.expiry ≡ false
      → Called replies now api page
          (read_reply api (replies (length page.sent)), with_request (api.request token.key) page)
  new_token :
      (token : Token)
      → Called replies now api page (
        read_reply api (replies (suc (length page.sent))),
        with_request
            (api.request token.key)
            (with_token api.permission token (with_request (token_request api.permission) page)),
      )

or_else-nonempty : (s t : Text) → t ≢ [] → or_else s t ≢ []
or_else-nonempty [] t h = h
or_else-nonempty (c ∷ cs) t h = λ e. ground (arith, e)

request_failed-nonempty : (status : ℕ) → request_failed status ≢ []
request_failed-nonempty status e = ground (arith, e)

fallback_message-nonempty :
    (status : ℕ) (t : Result Text) → t ≢ threw [] → fallback_message status t ≢ []
unfolding fallback_message
fallback_message-nonempty status (threw e) h empty = h (ap threw empty)
fallback_message-nonempty status (done message) h empty =
    or_else-nonempty message (request_failed status) (request_failed-nonempty status) empty

upload_message-nonempty :
    (r : Response) (json : Result Body) → r.again ≢ threw [] → upload_message r json ≢ []
unfolding upload_message
upload_message-nonempty r (done content) h =
    or_else-nonempty content.error_message (request_failed r.status)
      (request_failed-nonempty r.status)
upload_message-nonempty r (threw e) h = fallback_message-nonempty r.status r.again h

-- When the server refuses an upload, and a second reading of the response does not fail with an
-- empty message, apiChunkComplete throws an error whose message is not empty.
pub read_upload_names_error :
    (r : Response)
    → r.is_ok ≡ false
    → r.again ≢ threw []
    → (e : Text) × (read_upload r ≡ threw e) × (e ≢ [])
unfolding read_upload
read_upload_names_error r refused_it h =
    (upload_message r r.json, rw refused_it refl, upload_message-nonempty r r.json h)
