-- ===== src/Api.antt =====
-- The calls of the server's API (admin_api.js): the store of tokens, `getToken`, and the three steps
-- that each function of the file takes: a token, a request, the reading of the response. `fetch`
-- is a parameter: its n-th call is answered by `replies n`.
pub mod Read
pub mod Endpoints
pub mod Users
pub mod Files
pub mod Table
pub mod Tokens
pub mod Calls
mod Examples
use gokapiplus.Base.{
  ℕ, ◌+◌, ◌*◌, ◌≡◌, refl, Bool, true, false, Option, none, some, List, [], ◌∷◌, ◌++◌, ltb, ◌==◌,
  if◌then◌else◌, length,
}
use gokapiplus.Base.Text.{Text, codes, same_text}
use gokapiplus.Base.Decimal.{decimal}

-- What an `async` function ends with; an error is its message.
pub data Result {ℓ} (A : Type ℓ) : Type ℓ where
  done : A → Result A
  threw : Text → Result A

-- A header's value as the code passes it.
pub data Value : Type 0 where
  text : Text → Value
  flag : Bool → Value

pub data Method : Type 0 where
  get post put delete : Method

pub record Request : Type 0 where
  pub url : Text
  pub method : Method
  pub headers : List (Text × Value)
  pub body : List (Text × Value)

-- The parts of a parsed JSON object that the code looks at, and what it hands on unread.
pub record Body : Type 0 where
  pub key : Option Text
  pub expiry : Option ℕ
  pub error_message : Text
  pub other : Text

-- `again` is what `text()` gives on a response whose `json()` has been called.
pub record Response : Type 0 where
  pub is_ok : Bool
  pub status : ℕ
  pub json : Result Body
  pub text : Result Text
  pub again : Result Text

-- `expiry` is in seconds, and missing when the server sends none.
pub record Token : Type 0 where
  pub key : Text
  pub expiry : Option ℕ

-- The page: `storedTokens`, newest first, and the requests sent so far.
pub record Page : Type 0 where
  pub stored_tokens : List (Text × Token)
  pub sent : List Request

unfoldable pub lookup : {A : Type 0} → Text → List (Text × A) → Option A
unfolding same_text
lookup key [] = none
lookup key ((name, value) ∷ rest) = if same_text name key then some value else lookup key rest

abbrev pub request_failed : ℕ → Text
request_failed status = codes "Request failed with status: " ++ decimal status

-- `token.expiry - (Date.now() / 1000) < 60`, with the time in milliseconds; a comparison with a
-- missing number is false.
abbrev pub expires_soon : ℕ → Option ℕ → Bool
expires_soon now none = false
expires_soon now (some expiry) = ltb (1000 * expiry) (now + 60000)

abbrev pub token_request : Text → Request
token_request permission = record {
  url = codes "./auth/token";
  method = post;
  headers =
      (codes "Content-Type", text (codes "application/json"))
      ∷ (codes "permission", text permission)
      ∷ [];
  body = [];
}

abbrev pub with_token : Text → Token → Page → Page
with_token permission token page = record page {
  stored_tokens = (permission, token) ∷ page.stored_tokens;
}

-- The answer to the request for a token.
unfoldable pub take_key : Text → Body → Option Text → Page → Result Text × Page
take_key permission content none page =
    (threw (codes "Invalid response when trying to get token"), page)
take_key permission content (some key) page =
    (done key, with_token permission (record { key = key; expiry = content.expiry }) page)

unfoldable pub take_body : Text → Result Body → Page → Result Text × Page
unfolding take_key
take_body permission (threw e) page = (threw e, page)
take_body permission (done content) page = take_key permission content content.key page

unfoldable pub take_response : Text → Result Response → Page → Result Text × Page
unfolding take_body
take_response permission (threw e) page = (threw e, page)
take_response permission (done response) page =
    if response.is_ok
    then take_body permission response.json page
    else (threw (request_failed response.status), page)

-- One function of the file: the permission it declares, the request it makes with a token, and
-- what it makes of the response.
pub record Api (A : Type 0) : Type 0 where
  pub permission : Text
  pub request : Text → Request
  pub read : Response → Result A

abbrev pub with_request : Request → Page → Page
with_request request page = record page { sent = page.sent ++ request ∷ [] }

-- Once the request has been sent.
unfoldable pub read_reply : {A : Type 0} → Api A → Result Response → Result A
read_reply api (threw e) = threw e
read_reply api (done response) = api.read response

module _ (replies : ℕ → Result Response) where
  -- `await fetch(url, options)`.
  unfoldable pub fetch : Request → Page → Result Response × Page
  fetch request page = (replies (length page.sent), with_request request page)

  -- `getToken(permission, true)`.
  unfoldable pub renew_token : Text → Page → Result Text × Page
  unfolding fetch take_response
  renew_token permission page =
      let (reply, page') = fetch (token_request permission) page in
      take_response permission reply page'

  -- `getToken(permission, false)`, with what is stored for the permission.
  unfoldable pub use_token : ℕ → Text → Option Token → Page → Result Text × Page
  unfolding renew_token
  use_token now permission none page = renew_token permission page
  use_token now permission (some token) page =
      if expires_soon now token.expiry then renew_token permission page else (done token.key, page)

  unfoldable pub get_token : ℕ → Text → Page → Result Text × Page
  unfolding use_token
  get_token now permission page =
      use_token now permission (lookup permission page.stored_tokens) page

  -- The rest of a function once the token is there or is not.
  unfoldable pub send_with : {A : Type 0} → Api A → Result Text × Page → Result A × Page
  unfolding read_reply fetch
  send_with api (threw e, page) = (threw e, page)
  send_with api (done token, page) =
      let (reply, page') = fetch (api.request token) page in (read_reply api reply, page')

  unfoldable pub call : {A : Type 0} → ℕ → Api A → Page → Result A × Page
  unfolding send_with get_token
  call now api page = send_with api (get_token now api.permission page)
