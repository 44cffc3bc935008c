-- ===== src/Users/Row/Found.antt =====
-- The ids of the rows of new users, and what the handlers of their buttons find under them.
use gokapiplus.Base.Text.{Text, codes, same_text}
use gokapiplus.Base.Decimal.{decimal, decimal-All, decimal-cons}
use gokapiplus.Base.Spaces.{trim-Solid, is_white_space}
use gokapiplus.Dom.{Node, ids, calls, calls_in, children}
use gokapiplus.Dom.Ids.{
  Distinct, are_distinct, are_distinct-Distinct, has, has-In, has_all, has_all-In, Plain, Closed,
  are_closed, are_closed-Closed, prefixed,
}
use gokapiplus.Dom.Tables.{Finds, rows-find}
use gokapiplus.Users.Row.{
  Page, actions, row_element, add_row_user, looked_up, promote_button, password_buttons,
  sanitize_user_id, is_digit, is_numeric, all_digits,
}
use gokapiplus.Base.{
  ℕ, Bool, true, false, ◌&&◌, Option, none, some, List, [], ◌∷◌, ◌++◌, map, All, In, ◌≡◌, refl, inl,
  inr, Bool-cases, leb, subst, arith,
}

-- What `apiUserCreate` returns.
pub record Created : Type 0 where
  pub id : ℕ
  pub name : Text
  pub permissions : ℕ

abbrev pub row_of : Page → Created → Node
row_of page u = row_element page (decimal u.id) u.name u.permissions

-- The table after several users were created, the last one first.
abbrev pub add_all : Page → List Created → Option (List Node)
add_all page [] = some []
add_all page (u ∷ us) = elim (add_all page us) [
  | none ↦ none
  | some rows ↦
      add_row_user page (record { id = decimal u.id; name = u.name; permissions = u.permissions })
        rows
]

abbrev with_password : Bool → List Text → List Text
with_password true ps = codes "pwchange-" ∷ ps
with_password false ps = ps

-- The prefixes of the ids of a row, which depend on whether it has a button for the password.
abbrev prefixes : Bool → List Text
prefixes internal =
    codes "row-"
    ∷ codes "perm_guest_upload_"
    ∷ codes "perm_replace_"
    ∷ codes "perm_list_"
    ∷ codes "perm_edit_"
    ∷ codes "perm_delete_"
    ∷ codes "perm_replace_other_"
    ∷ codes "perm_logs_"
    ∷ codes "perm_users_"
    ∷ codes "perm_api_"
    ∷ with_password internal (codes "changeRank_" ∷ codes "delete-" ∷ [])

prefixes-Closed : (internal : Bool) → All (Closed is_digit) (prefixes internal)
unfolding is_digit are_closed
prefixes-Closed true = are_closed-Closed is_digit (prefixes true) refl
prefixes-Closed false = are_closed-Closed is_digit (prefixes false) refl

prefixes-Distinct : (internal : Bool) → Distinct (prefixes internal)
unfolding are_distinct same_text
prefixes-Distinct true = are_distinct-Distinct (prefixes true) refl
prefixes-Distinct false = are_distinct-Distinct (prefixes false) refl

fixed : (internal : Bool) → has_all (prefixes false) (prefixes internal) ≡ true
unfolding has_all same_text
fixed true = refl
fixed false = refl

ids-promote_button :
    (b : Bool) (id : Text) → ids (promote_button b id) ≡ (codes "changeRank_" ++ id) ∷ []
unfolding ids promote_button
ids-promote_button true id = refl
ids-promote_button false id = refl

ids-row_of :
    (page : Page) (u : Created)
    → ids (row_of page u) ≡ prefixed is_digit (decimal u.id) (prefixes page.is_internal_auth)
unfolding ids row_element password_buttons
ids-row_of page u = elim (Bool-cases page.is_internal_auth) [
  | inl e ↦ rw (e, ids-promote_button page.is_admin (decimal u.id)) refl
  | inr e ↦ rw (e, ids-promote_button page.is_admin (decimal u.id)) refl
]

-- ---- what is created gets a row
digit_not_white_space : (c : ℕ) → leb 48 c && leb c 57 ≡ true → is_white_space c ≡ false
unfolding is_white_space
digit_not_white_space c h = ground arith

All-weaken :
    {A : Type 0} → (P Q : A → Type 0) → ((a : A) → P a → Q a) → (xs : List A) → All P xs → All Q xs
All-weaken P Q f [] h = tt
All-weaken P Q f (x ∷ xs) (h, hs) = (f x h, All-weaken P Q f xs hs)

all_digits-All : (t : Text) → All (λ c. leb 48 c && leb c 57 ≡ true) t → all_digits t ≡ true
unfolding all_digits is_digit
all_digits-All [] h = refl
all_digits-All (c ∷ t) (h, hs) = rw (h, all_digits-All t hs) refl

is_numeric-decimal : (n : ℕ) → is_numeric (decimal n) ≡ true
unfolding is_numeric
is_numeric-decimal n =
    let (c, t, e) = decimal-cons n in
    rw e (all_digits-All (c ∷ t) (subst (All (λ c. leb 48 c && leb c 57 ≡ true)) e (decimal-All n)))

sanitize_user_id-decimal : (n : ℕ) → sanitize_user_id (decimal n) ≡ some (decimal n)
unfolding sanitize_user_id
sanitize_user_id-decimal n =
    let kept = trim-Solid (decimal n) (
      All-weaken (λ c. leb 48 c && leb c 57 ≡ true) (λ c. is_white_space c ≡ false)
        digit_not_white_space (decimal n) (decimal-All n)) in
    rw (kept, is_numeric-decimal n) refl

pub add_row_user-decimal :
    (page : Page) (u : Created) (rows : List Node)
    → add_row_user page
        (record { id = decimal u.id; name = u.name; permissions = u.permissions })
        rows
      ≡ some (row_of page u ∷ rows)
unfolding add_row_user
add_row_user-decimal page u rows = rw (sanitize_user_id-decimal u.id) refl

add_all-rows : (page : Page) (us : List Created) → add_all page us ≡ some (map (row_of page) us)
add_all-rows page [] = refl
add_all-rows page (u ∷ us) =
    rw (add_all-rows page us) (add_row_user-decimal page u (map (row_of page) us))

decimal-Plain : (n : ℕ) → Plain is_digit (decimal n)
unfolding is_digit
decimal-Plain n = decimal-All n

abbrev Three : (Text → Type 0) → Text → Text → Type 0
Three P i p =
    All P ((p ++ i) ∷ (codes "perm_replace_" ++ i) ∷ (codes "perm_replace_other_" ++ i) ∷ [])

actions-looked_up :
    (page : Page) (i name : Text) (P : Text → Type 0)
    → P (codes "changeRank_" ++ i)
    → P (codes "row-" ++ i)
    → All (λ c. All P (looked_up c)) (calls_in (children (actions page i name)) ++ [] ++ [])
unfolding calls password_buttons promote_button looked_up same_text
actions-looked_up page i name P rank row =
    let ranked : All P ((codes "changeRank_" ++ i) ∷ []) = (rank, tt) in
    let gone : All P ((codes "row-" ++ i) ∷ []) = (row, tt) in
    elim (Bool-cases page.is_internal_auth) [
      | inl e ↦ elim (Bool-cases page.is_admin) [
        | inl a ↦ rw (e, a) (tt, (ranked, (gone, tt)))
        | inr a ↦ rw (e, a) (tt, (gone, tt))
      ]
      | inr e ↦ elim (Bool-cases page.is_admin) [
        | inl a ↦ rw (e, a) (ranked, (gone, tt))
        | inr a ↦ rw (e, a) (gone, tt)
      ]
    ]

buttons-looked_up :
    (page : Page) (u : Created) (P : Text → Type 0)
    → ((p : Text) → has p (prefixes false) ≡ true → Three P (decimal u.id) p)
    → P (codes "changeRank_" ++ decimal u.id)
    → P (codes "row-" ++ decimal u.id)
    → All (λ c. All P (looked_up c)) (calls (row_of page u))
unfolding calls row_element looked_up same_text has
buttons-looked_up page u P three rank row = (
  three (codes "perm_guest_upload_") refl,
  (
    three (codes "perm_replace_") refl,
    (
      three (codes "perm_list_") refl,
      (
        three (codes "perm_edit_") refl,
        (
          three (codes "perm_delete_") refl,
          (
            three (codes "perm_replace_other_") refl,
            (
              three (codes "perm_logs_") refl,
              (
                three (codes "perm_users_") refl,
                (
                  three (codes "perm_api_") refl,
                  actions-looked_up page (decimal u.id) u.name P rank row,
                ),
              ),
            ),
          ),
        ),
      ),
    ),
  ),
)

calls-row_of :
    (page : Page) (u : Created) (P : Text → Type 0)
    → ((p : Text) → In p (prefixes page.is_internal_auth) → P (p ++ decimal u.id))
    → All (λ c. All P (looked_up c)) (calls (row_of page u))
unfolding has same_text
calls-row_of page u P h =
    let i = decimal u.id in
    let known : (p : Text) → has p (prefixes false) ≡ true → P (p ++ i) = λ p k. h p (
      has_all-In p (prefixes false) (prefixes page.is_internal_auth) (fixed page.is_internal_auth)
        (has-In p (prefixes false) k)) in
    let three : (p : Text)
        → has p (prefixes false) ≡ true
        → All P
            ((p ++ i) ∷ (codes "perm_replace_" ++ i) ∷ (codes "perm_replace_other_" ++ i) ∷ []) =
      λ p k. (
        known p k,
        (known (codes "perm_replace_") refl, (known (codes "perm_replace_other_") refl, tt)),
      ) in
    buttons-looked_up page u P three (known (codes "changeRank_") refl) (known (codes "row-") refl)

-- Each of several created users with different numbers gets a row, and on a page of these rows
-- every element that a handler of a row looks for by an id of its user is found, and is the one in
-- the handler's own row.
pub add_all-find :
    (page : Page) (us : List Created) (u : Created)
    → Distinct (map (λ v. decimal v.id) us)
    → In u us
    → (add_all page us ≡ some (map (row_of page) us))
      × All
          (λ c. All (Finds (map (row_of page) us) (row_of page u)) (looked_up c))
          (calls (row_of page u))
add_all-find page us u d inside = (
  add_all-rows page us,
  calls-row_of page u (Finds (map (row_of page) us) (row_of page u)) (λ p.
      rows-find is_digit (row_of page) (λ v. decimal v.id) (λ v. prefixes page.is_internal_auth)
        (ids-row_of page)
        (λ v. (
          decimal-Plain v.id,
          prefixes-Closed page.is_internal_auth,
          prefixes-Distinct page.is_internal_auth,
        ))
        us u p d inside),
)
