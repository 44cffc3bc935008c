-- ===== src/AdminUpload/Row/Found.antt =====
-- The ids of the rows of the file list, and what the handlers of their buttons find under them.
use gokapiplus.Base.Text.{Text, codes, same_text}
use gokapiplus.Dom.{ids, ids_in, calls, calls_in, children, with_id}
use gokapiplus.Dom.Ids.{
  Distinct, are_distinct, are_distinct-Distinct, has, has-In, Plain, Closed, prefixed,
}
use gokapiplus.Dom.Tables.{Finds, rows-find}
use gokapiplus.AdminUpload.Table.{FileRow, row_for, is_alphanumeric, sanitize_id}
use gokapiplus.AdminUpload.Row.{
  Listed, row_element, row_elements, looked_up, hotlink, download_button, key_icon, badge,
  remaining_id, row_with, create_button_group,
}
use gokapiplus.Base.{
  ℕ, Bool, true, false, not, Option, none, some, List, [], ◌∷◌, ◌++◌, map, All, In, ◌≡◌, refl, inl,
  inr, Bool-cases, if◌then◌else◌,
}

abbrev cells_with : Bool → List Text → List Text
cells_with true ps = codes "cell-downloadsRemaining-" ∷ ps
cells_with false ps = ps

-- The prefixes of the ids of a row, which depend on whether the downloads are limited.
abbrev prefixes : Bool → List Text
prefixes limited =
    codes "row-"
    ∷ codes "cell-name-"
    ∷ cells_with limited (
        codes "cell-downloads-"
        ∷ codes "url-href-"
        ∷ codes "cell-status-"
        ∷ codes "url-button-"
        ∷ codes "shareDropdown-"
        ∷ codes "qrcode-"
        ∷ codes "email-"
        ∷ codes "button-delete-"
        ∷ [])

ids-hotlink : (b : Bool) (url : Text) → ids (hotlink b url) ≡ []
unfolding ids hotlink
ids-hotlink true url = refl
ids-hotlink false url = refl

ids-download_button : (b : Bool) (id : Text) → ids (download_button b id) ≡ []
unfolding ids download_button
ids-download_button true url = refl
ids-download_button false url = refl

ids-key_icon : (b : Bool) → ids_in (children (key_icon b)) ≡ []
unfolding ids key_icon
ids-key_icon true = refl
ids-key_icon false = refl

calls-key_icon : (b : Bool) → calls_in (children (key_icon b)) ≡ []
unfolding calls key_icon
calls-key_icon true = refl
calls-key_icon false = refl

calls-download_button :
    (b : Bool) (id : Text)
    → calls (download_button b id)
      ≡ record { function = codes "downloadFileWithPresign"; arguments = id ∷ [] } ∷ []
unfolding calls download_button
calls-download_button true id = refl
calls-download_button false id = refl

ids-badge : (o : Option Text) → ids_in (children (badge o)) ≡ []
unfolding ids
ids-badge none = refl
ids-badge (some t) = refl

ids-cells :
    (limited : Bool) (id : Text)
    → (codes "row-" ++ id)
        ∷ (codes "cell-name-" ++ id)
        ∷ (with_id (remaining_id limited id) []
            ++ prefixed is_alphanumeric id (
                codes "cell-downloads-"
                ∷ codes "url-href-"
                ∷ codes "cell-status-"
                ∷ codes "url-button-"
                ∷ codes "shareDropdown-"
                ∷ codes "qrcode-"
                ∷ codes "email-"
                ∷ codes "button-delete-"
                ∷ []))
      ≡ prefixed is_alphanumeric id (prefixes limited)
ids-cells true id = refl
ids-cells false id = refl

prefixes-Closed : (limited : Bool) → All (Closed is_alphanumeric) (prefixes limited)
unfolding is_alphanumeric
prefixes-Closed true =
    (refl, (refl, (refl, (refl, (refl, (refl, (refl, (refl, (refl, (refl, (refl, tt)))))))))))
prefixes-Closed false =
    (refl, (refl, (refl, (refl, (refl, (refl, (refl, (refl, (refl, (refl, tt))))))))))

prefixes-Distinct : (limited : Bool) → Distinct (prefixes limited)
unfolding are_distinct same_text
prefixes-Distinct true = are_distinct-Distinct (prefixes true) refl
prefixes-Distinct false = are_distinct-Distinct (prefixes false) refl

fixed-In : (limited : Bool) (p : Text) → In p (prefixes false) → In p (prefixes limited)
fixed-In false p h = h
fixed-In true p (inl e) = inl e
fixed-In true p (inr (inl e)) = inr (inl e)
fixed-In true p (inr (inr h)) = inr (inr (inr h))

kept_if-Plain :
    (b : Bool) (c : ℕ) (s : Text)
    → is_alphanumeric c ≡ b
    → Plain is_alphanumeric s
    → Plain is_alphanumeric (if b then c ∷ s else s)
kept_if-Plain true c s h k = (h, k)
kept_if-Plain false c s h k = k

sanitize_id-Plain : (s : Text) → Plain is_alphanumeric (sanitize_id s)
unfolding sanitize_id
sanitize_id-Plain [] = tt
sanitize_id-Plain (c ∷ s) =
    kept_if-Plain (is_alphanumeric c) c (sanitize_id s) refl (sanitize_id-Plain s)

-- The ids of the files as their rows have them.
abbrev shown_ids : List Listed → List Text
shown_ids = map (λ f. sanitize_id f.item.id)

module _ (encode : Text → Text) (can_replace : Bool) (now : ℕ) (print : ℕ → Text) where
  ids-group :
      (id : Text) (f : Listed)
      → ids (create_button_group encode can_replace now print id f)
        ≡ (codes "url-button-" ++ id)
          ∷ (codes "shareDropdown-" ++ id)
          ∷ (codes "qrcode-" ++ id)
          ∷ (codes "email-" ++ id)
          ∷ (codes "button-delete-" ++ id)
          ∷ []
  unfolding ids create_button_group
  ids-group id f =
      rw
        (
          ids-hotlink (same_text f.url_hotlink []) f.url_hotlink,
          ids-download_button f.requires_client_side_decryption id,
        )
        refl

  ids-row_with :
      (row : FileRow) (f : Listed)
      → ids (row_with encode can_replace now print row f)
        ≡ prefixed is_alphanumeric row.id (prefixes row.has_remaining_id)
  unfolding ids
  ids-row_with row f =
      rw (ids-group row.id f, ids-key_icon row.has_key, ids-badge row.stats.status)
        (ids-cells row.has_remaining_id row.id)

  ids-row_element :
      (f : Listed)
      → ids (row_element encode can_replace now print f)
        ≡ prefixed is_alphanumeric
            (sanitize_id f.item.id)
            (prefixes (not f.item.unlimited_downloads))
  unfolding row_element row_for
  ids-row_element f = ids-row_with (row_for now print f.item) f

  calls-row_element :
      (f : Listed)
      → (P : Text → Type 0)
      → ((p : Text)
          → In p (prefixes (not f.item.unlimited_downloads))
          → P (p ++ sanitize_id f.item.id))
      → All (λ c. All P (looked_up c)) (calls (row_element encode can_replace now print f))
  unfolding row_element calls looked_up create_button_group hotlink has same_text
  calls-row_element f P h =
      let id = sanitize_id f.item.id in
      let fixed : (p : Text) → has p (prefixes false) ≡ true → P (p ++ id) =
        λ p k. h p (fixed-In (not f.item.unlimited_downloads) p (has-In p (prefixes false) k)) in
      let share : All P (
          (codes "shareDropdown-" ++ id)
          ∷ (codes "cell-name-" ++ id)
          ∷ (codes "url-href-" ++ id)
          ∷ []) =
        (
          fixed (codes "shareDropdown-") refl,
          (fixed (codes "cell-name-") refl, (fixed (codes "url-href-") refl, tt)),
        ) in
      let delete : All P (
          (codes "button-delete-" ++ id) ∷ (codes "row-" ++ id) ∷ (codes "cell-name-" ++ id) ∷ []) =
        (
          fixed (codes "button-delete-") refl,
          (fixed (codes "row-") refl, (fixed (codes "cell-name-") refl, tt)),
        ) in
      rw
        (
          calls-key_icon f.item.is_password_protected,
          calls-download_button f.requires_client_side_decryption id,
        )
        (elim (Bool-cases (same_text f.url_hotlink [])) [
          | inl e ↦ rw e (tt, (share, (tt, (tt, (tt, (delete, tt))))))
          | inr e ↦ rw e (tt, (tt, (share, (tt, (tt, (tt, (delete, tt)))))))
        ])

  -- In a table of files whose sanitised ids are different, every element that the handler of a
  -- button looks for by an id of its file is found on the page, and is the one in the button's own
  -- row.
  pub row_elements-find :
      (fs : List Listed)
      → (f : Listed) → Distinct (shown_ids fs)
      → In f fs
      → All
          (λ c.
            All
              (Finds
                (row_elements encode can_replace now print fs)
                (row_element encode can_replace now print f))
              (looked_up c))
          (calls (row_element encode can_replace now print f))
  unfolding row_elements
  row_elements-find fs f d inside =
      calls-row_element f
        (Finds (row_elements encode can_replace now print fs)
          (row_element encode can_replace now print f))
        (λ p.
          rows-find is_alphanumeric (row_element encode can_replace now print)
            (λ g. sanitize_id g.item.id) (λ g. prefixes (not g.item.unlimited_downloads))
            ids-row_element
            (λ g.
              let limited = not g.item.unlimited_downloads in
              (sanitize_id-Plain g.item.id, prefixes-Closed limited, prefixes-Distinct limited))
            fs f p d inside)
