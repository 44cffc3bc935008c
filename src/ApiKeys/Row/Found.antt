-- ===== src/ApiKeys/Row/Found.antt =====
-- The ids of the rows of new API keys, and what the handlers of their buttons find under them.
use gokapiplus.Base.Text.{Text, codes, same_text}
use gokapiplus.Dom.{Node, ids, ids_in, calls, calls_in, children}
use gokapiplus.Dom.Ids.{
  Distinct, are_distinct, are_distinct-Distinct, has, has-In, Plain, Closed, are_closed,
  are_closed-Closed, prefixed, prefixed-In,
}
use gokapiplus.Dom.Mark.{mark, Same, mark-Same, mark-IsSome, IsSome}
use gokapiplus.Dom.Tables.{Finds, rows-find}
use gokapiplus.AdminUpload.Table.{is_alphanumeric}
use gokapiplus.ApiKeys.Row.{
  Page, ApiKey, row_element, add_row_api, looked_up, last_cells, unless_allowed, mark_rows,
  first_row,
}
use gokapiplus.Base.{
  Bool, true, false, Option, none, some, List, [], ◌∷◌, ◌++◌, map, All, In, ◌≡◌, refl, sym, ap, ◌∙◌,
  inl, inr, subst,
}

abbrev prefixes : List Text
prefixes =
    codes "row-"
    ∷ codes "friendlyname-"
    ∷ codes "perm_view_"
    ∷ codes "perm_upload_"
    ∷ codes "perm_edit_"
    ∷ codes "perm_delete_"
    ∷ codes "perm_replace_"
    ∷ codes "perm_download_"
    ∷ codes "perm_manage_file_requests_"
    ∷ codes "perm_manage_users_"
    ∷ codes "perm_manage_logs_"
    ∷ codes "perm_api_mod_"
    ∷ codes "delete-"
    ∷ []

prefixes-Closed : All (Closed is_alphanumeric) prefixes
unfolding is_alphanumeric are_closed
prefixes-Closed = are_closed-Closed is_alphanumeric prefixes refl

prefixes-Distinct : Distinct prefixes
unfolding are_distinct same_text
prefixes-Distinct = are_distinct-Distinct prefixes refl

ids-last_cells :
    (b : Bool) (name : Text) (key : ApiKey)
    → ids_in (children (last_cells b name key)) ≡ (codes "delete-" ++ key.public_id) ∷ []
unfolding ids last_cells
ids-last_cells true name key = refl
ids-last_cells false name key = refl

ids-row_element :
    (page : Page) (key : ApiKey)
    → ids (row_element page key) ≡ prefixed is_alphanumeric key.public_id prefixes
unfolding ids row_element
ids-row_element page key = rw (ids-last_cells page.can_view_other_api_keys page.user_name key) refl

-- ---- a key is added
-- The table is `rows` behind a row with the ids and handlers of another.
abbrev Placed : Node → List Node → Option (List Node) → Type 0
Placed n rows o = (m : Node) × (o ≡ some (m ∷ rows)) × (ids m ≡ ids n) × (calls m ≡ calls n)

first_row-Placed :
    (o : Option Node) (n : Node) (rows : List Node) (later : Option (List Node))
    → IsSome o
    → Same n o
    → Placed n rows (first_row o n rows later)
first_row-Placed none n rows later h k = absurd h
first_row-Placed (some m) n rows later h (f, g) = (m, refl, f, g)

unless_allowed-Placed :
    (allowed : Bool) (x : Text) (n : Node) (rows : List Node) (o : Option (List Node))
    → In x (ids n)
    → Placed n rows o
    → Placed n rows (unless_allowed allowed x o)
unless_allowed-Placed true x n rows o inside (m, e, f, g) = rw e (m, refl, f, g)
unless_allowed-Placed false x n rows o inside (m, e, f, g) =
    let name = codes "perm-unavailable perm-nochange" in
    let (k, e', f', g') =
      first_row-Placed (mark x name m) m rows (mark_rows x name rows)
        (mark-IsSome x name m (subst (In x) (sym f) inside)) (mark-Same x name m) in
    rw e (k, e', f' ∙ f, g' ∙ g)

add_row_api-Placed :
    (page : Page) (key : ApiKey) (rows : List Node)
    → Placed (row_element page key) rows (add_row_api page key rows)
unfolding add_row_api has same_text
add_row_api-Placed page key rows =
    let n = row_element page key in
    let known : (p : Text) → has p prefixes ≡ true → In (p ++ key.public_id) (ids n) = λ p h.
      subst (In (p ++ key.public_id)) (sym (ids-row_element page key))
        (prefixed-In is_alphanumeric p key.public_id prefixes (has-In p prefixes h)) in
    unless_allowed-Placed page.can_create_file_request _ n rows _
      (known (codes "perm_manage_file_requests_") refl)
      (unless_allowed-Placed page.can_view_system_log _ n rows _
        (known (codes "perm_manage_logs_") refl)
        (unless_allowed-Placed page.can_manage_users _ n rows _
          (known (codes "perm_manage_users_") refl)
          (unless_allowed-Placed page.can_replace_files _ n rows _
            (known (codes "perm_replace_") refl) (n, refl, refl, refl))))

-- What the handlers of a row look for are ids of that row.
LooksFor : Text → Node → Type 1
LooksFor i n =
    (P : Text → Type 0)
    → ((p : Text) → In p prefixes → P (p ++ i))
    → All (λ c. All P (looked_up c)) (calls n)

last_cells-looked_up :
    (b : Bool) (name : Text) (key : ApiKey) (P : Text → Type 0)
    → P (codes "delete-" ++ key.public_id)
    → P (codes "row-" ++ key.public_id)
    → All (λ c. All P (looked_up c)) (calls_in (children (last_cells b name key)))
unfolding calls last_cells looked_up same_text
last_cells-looked_up true name key P d r = (tt, ((d, (r, tt)), tt))
last_cells-looked_up false name key P d r = (tt, ((d, (r, tt)), tt))

row_element-LooksFor : (page : Page) (key : ApiKey) → LooksFor key.public_id (row_element page key)
unfolding LooksFor row_element calls looked_up has same_text
row_element-LooksFor page key P h =
    let known : (p : Text) → has p prefixes ≡ true → P (p ++ key.public_id) =
      λ p k. h p (has-In p prefixes k) in
    let one : (p : Text) → has p prefixes ≡ true → All P ((p ++ key.public_id) ∷ []) =
      λ p k. (known p k, tt) in
    (
      one (codes "friendlyname-") refl,
      (
        one (codes "perm_view_") refl,
        (
          one (codes "perm_upload_") refl,
          (
            one (codes "perm_edit_") refl,
            (
              one (codes "perm_delete_") refl,
              (
                one (codes "perm_replace_") refl,
                (
                  one (codes "perm_download_") refl,
                  (
                    one (codes "perm_manage_file_requests_") refl,
                    (
                      one (codes "perm_manage_users_") refl,
                      (
                        one (codes "perm_manage_logs_") refl,
                        (
                          one (codes "perm_api_mod_") refl,
                          last_cells-looked_up page.can_view_other_api_keys page.user_name key P
                              (known (codes "delete-") refl) (known (codes "row-") refl),
                        ),
                      ),
                    ),
                  ),
                ),
              ),
            ),
          ),
        ),
      ),
    )

-- ---- several keys
-- Keys that are made one after another, the last one first; `none` where the code throws.
abbrev pub add_all : Page → List ApiKey → Option (List Node)
add_all page [] = some []
add_all page (key ∷ keys) = elim (add_all page keys) [
  | none ↦ none
  | some rows ↦ add_row_api page key rows
]

-- A row of the table and its key.
record Row (page : Page) : Type 0 where
  element : Node
  key : ApiKey
  plain : Plain is_alphanumeric key.public_id
  same_ids : ids element ≡ prefixed is_alphanumeric key.public_id prefixes
  same_calls : calls element ≡ calls (row_element page key)

abbrev AllRows : Page → List ApiKey → Option (List Node) → Type 0
AllRows page keys o =
    (rows : List (Row page)) × (o ≡ some (map (λ (r : Row page). r.element) rows))
    × (map (λ (r : Row page). r.key.public_id) rows ≡ map (λ (k : ApiKey). k.public_id) keys)

placed-row :
    (page : Page) (key : ApiKey) (m : Node)
    → Plain is_alphanumeric key.public_id
    → ids m ≡ ids (row_element page key)
    → calls m ≡ calls (row_element page key)
    → Row page
placed-row page key m plain e f = record {
  element = m;
  key = key;
  plain = plain;
  same_ids = e ∙ ids-row_element page key;
  same_calls = f;
}

add_all-AllRows :
    (page : Page) (keys : List ApiKey)
    → All (λ (k : ApiKey). Plain is_alphanumeric k.public_id) keys
    → AllRows page keys (add_all page keys)
unfolding placed-row
add_all-AllRows page [] h = ([], refl, refl)
add_all-AllRows page (key ∷ keys) (plain, h) =
    let (rows, e, same) = add_all-AllRows page keys h in
    let (m, placed, f, g) = add_row_api-Placed page key (map (λ (r : Row page). r.element) rows) in
    rw e (placed-row page key m plain f g ∷ rows, placed, ap (λ more. key.public_id ∷ more) same)

row-find :
    (page : Page) (rows : List (Row page)) (r : Row page)
    → Distinct (map (λ (q : Row page). q.key.public_id) rows)
    → In r rows
    → All
        (λ c. All (Finds (map (λ (q : Row page). q.element) rows) r.element) (looked_up c))
        (calls r.element)
unfolding LooksFor
row-find page rows r d inside =
    subst (All (λ c. All (Finds (map (λ (q : Row page). q.element) rows) r.element) (looked_up c)))
      (sym r.same_calls)
      (row_element-LooksFor page r.key (Finds (map (λ (q : Row page). q.element) rows) r.element)
        (λ p.
          rows-find is_alphanumeric (λ (q : Row page). q.element)
            (λ (q : Row page). q.key.public_id) (λ q. prefixes) (λ (q : Row page). q.same_ids)
            (λ (q : Row page). (q.plain, prefixes-Closed, prefixes-Distinct)) rows r p d inside))

-- A row of the table is one of those.
In-elements :
    (page : Page) (n : Node) (rows : List (Row page))
    → In n (map (λ (q : Row page). q.element) rows)
    → (r : Row page) × In r rows × (n ≡ r.element)
In-elements page n [] h = absurd h
In-elements page n (r ∷ rows) (inl e) = (r, inl refl, e)
In-elements page n (r ∷ rows) (inr h) =
    let (q, inside, e) = In-elements page n rows h in (q, inr inside, e)

-- Adding several new API keys, whose public ids are alphanumeric and different, succeeds; and on a
-- page of their rows every element that a handler of a row looks for by an id of its key is found,
-- and is the one in the handler's own row.
pub add_all_keys-find :
    (page : Page) (keys : List ApiKey)
    → All (λ (k : ApiKey). Plain is_alphanumeric k.public_id) keys
    → Distinct (map (λ (k : ApiKey). k.public_id) keys)
    → (rows : List Node) × (add_all page keys ≡ some rows)
      × ((n : Node) → In n rows → All (λ c. All (Finds rows n) (looked_up c)) (calls n))
add_all_keys-find page keys plain d =
    let (rows, e, same) = add_all-AllRows page keys plain in
    (
      map (λ (q : Row page). q.element) rows,
      e,
      λ n inside.
          let (r, place, own) = In-elements page n rows inside in
          subst
            (λ m.
              All (λ c. All (Finds (map (λ (q : Row page). q.element) rows) m) (looked_up c))
                (calls m))
            (sym own) (row-find page rows r (subst Distinct (sym same) d) place),
    )
