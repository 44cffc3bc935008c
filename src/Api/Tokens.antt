-- ===== src/Api/Tokens.antt =====
-- What `getToken` hands out and stores (admin_api.js).
use gokapiplus.Base.{
  ℕ, ◌≡◌, refl, true, false, Option, none, some, subst, sym, ap, ◌∙◌, inl, inr, length, Bool-cases,
}
use gokapiplus.Base.Text.{Text, same_text, same_text_iff}
use gokapiplus.Api.{
  Result, done, threw, Response, Body, Token, Page, lookup, expires_soon, token_request, with_token,
  take_key, take_body, take_response, fetch, renew_token, use_token, get_token, with_request,
}

same_text_refl : (s : Text) → same_text s s ≡ true
same_text_refl s = (same_text_iff s s).1 refl

lookup-with_token :
    (permission : Text) (token : Token) (page : Page)
    → lookup permission (with_token permission token page).stored_tokens ≡ some token
unfolding lookup
lookup-with_token permission token page = rw (same_text_refl permission) refl

-- Where a key comes from: the store, unchanged and with a minute left, or a new token.
pub data Source (now : ℕ) (permission : Text) (page : Page) : Result Text × Page → Type 0 where
  stored :
      (token : Token)
      → lookup permission page.stored_tokens ≡ some token
      → expires_soon now token.expiry ≡ false
      → Source now permission page (done token.key, page)
  issued :
      (token : Token)
      → Source now permission page (
        done token.key,
        with_token permission token (with_request (token_request permission) page),
      )
  refused :
      (e : Text)
      → Source now permission page (threw e, with_request (token_request permission) page)

module _ (replies : ℕ → Result Response) (now : ℕ) (permission : Text) (page : Page) where
  abbrev asked : Page
  asked = with_request (token_request permission) page

  take_response-Source :
      (r : Result Response) → Source now permission page (take_response permission r asked)
  unfolding take_response take_body take_key
  take_response-Source (threw e) = refused e
  take_response-Source (done response) = elim (Bool-cases response.is_ok) [
    | inr failed ↦ rw failed (refused _)
    | inl fine ↦ rw fine (read response.json)
  ]
    where
      keyed :
          (content : Body) (key : Option Text)
          → Source now permission page (take_key permission content key asked)
      keyed content none = refused _
      keyed content (some key) = issued (record { key = key; expiry = content.expiry })

      read : (json : Result Body) → Source now permission page (take_body permission json asked)
      read (threw e) = refused e
      read (done content) = keyed content content.key

  renew_token-Source : Source now permission page (renew_token replies permission page)
  unfolding renew_token fetch
  renew_token-Source = take_response-Source (replies (length page.sent))

  use_token-Source :
      (o : Option Token)
      → lookup permission page.stored_tokens ≡ o
      → Source now permission page (use_token replies now permission o page)
  unfolding use_token
  use_token-Source none found = renew_token-Source
  use_token-Source (some token) found = elim (Bool-cases (expires_soon now token.expiry)) [
    | inl soon ↦ rw soon renew_token-Source
    | inr later ↦ rw later (stored token found later)
  ]

  -- A key comes from the store, where it has a minute left, or from one request for a token.
  pub get_token-Source : Source now permission page (get_token replies now permission page)
  unfolding get_token
  get_token-Source = use_token-Source (lookup permission page.stored_tokens) refl

-- `Kept`: the tokens of another permission are as they were.
lookup_other :
    (permission other : Text) (token : Token) (page : Page)
    → same_text permission other ≡ false
    → lookup other (with_token permission token page).stored_tokens
      ≡ lookup other page.stored_tokens
unfolding lookup
lookup_other permission other token page differ = rw differ refl

Source-lookup :
    (now : ℕ) (permission other : Text) (page : Page) (r : Result Text × Page)
    → same_text permission other ≡ false
    → Source now permission page r
    → lookup other r.1.stored_tokens ≡ lookup other page.stored_tokens
Source-lookup now permission other page _ differ (stored token found later) = refl
Source-lookup now permission other page _ differ (issued token) =
    lookup_other permission other token page differ
Source-lookup now permission other page _ differ (refused e) = refl

module _ (replies : ℕ → Result Response) (now : ℕ) (permission : Text) (page : Page) where
  -- getToken for one permission leaves what is stored for every other permission.
  pub get_token-lookup :
      (other : Text)
      → same_text permission other ≡ false
      → lookup other (get_token replies now permission page).1.stored_tokens
        ≡ lookup other page.stored_tokens
  get_token-lookup other differ =
      Source-lookup now permission other page (get_token replies now permission page) differ
        (get_token-Source replies now permission page)

-- The stored token has the key that was handed out.
abbrev Holds : Text → Result Text × Page → Type 0
Holds permission (threw e, page) = Unit
Holds permission (done key, page) =
    (token : Token) × (lookup permission page.stored_tokens ≡ some token) × (token.key ≡ key)

Source-Holds :
    (now : ℕ) (permission : Text) (page : Page) (r : Result Text × Page)
    → Source now permission page r
    → Holds permission r
Source-Holds now permission page _ (stored token found later) = (token, found, refl)
Source-Holds now permission page _ (issued token) =
    (token, lookup-with_token permission token (with_request (token_request permission) page), refl)
Source-Holds now permission page _ (refused e) = tt

abbrev stored_key : Text → Option Token → Text
stored_key key none = key
stored_key key (some token) = token.key

-- A key that getToken has handed out is handed out again without a request, as long as the token
-- stored for the permission does not expire within a minute.
pub get_token_again :
    (replies : ℕ → Result Response) (now : ℕ) (permission : Text) (page : Page) (key : Text)
    (page' : Page)
    → get_token replies now permission page ≡ (done key, page')
    → (now' : ℕ) (token : Token) → lookup permission page'.stored_tokens ≡ some token
    → expires_soon now' token.expiry ≡ false
    → get_token replies now' permission page' ≡ (done key, page')
unfolding get_token use_token
get_token_again replies now permission page key page' first now' token found later =
    let (token', found', same) : Holds permission (done key, page') =
      subst (Holds permission) first (
        Source-Holds now permission page (get_token replies now permission page)
          (get_token-Source replies now permission page)) in
    let one : some token' ≡ some token = sym found' ∙ found in
    let keys : token.key ≡ key = ap (stored_key key) (sym one) ∙ same in
    rw (found, later, keys) refl
