-- ===== src/FileRequests/Form/Kept.antt =====
-- What the dialog for a file request gives back (admin_ui_filerequest.js).
use gokapiplus.FileRequests.Form.{
  Modal, or_zero, within_limit, fill_number, fill_expiry, Limits, Request, set_modal_values,
  if_checked, save_file_request, save_file_request_defaults, load_expiry,
  load_file_request_defaults, later, minus, seconds,
}
use gokapiplus.Base.Int.{pos}
use gokapiplus.Base.{
  if◌then◌else◌, ◌+◌, ◌-◌, ◌*◌, ◌/◌, ◌<◌, ltb, ◌∙◌, arith, ℕ, zero, suc, Bool, true, false, some,
  ◌≡◌, refl, ap,
}

if_checked-fill_number :
    (limit default wanted : ℕ) → if_checked (fill_number limit default wanted) ≡ wanted
unfolding if_checked fill_number
if_checked-fill_number limit default zero = refl
if_checked-fill_number limit default (suc wanted) = refl

if_checked-fill_expiry : (now wanted : ℕ) → if_checked (fill_expiry now wanted) ≡ wanted
unfolding if_checked fill_expiry
if_checked-fill_expiry now zero = refl
if_checked-fill_expiry now (suc wanted) = refl

-- What the dialog is opened with for an existing request.
abbrev pub edited : Limits → ℕ → Request → Modal
edited limits now r =
    set_modal_values limits now r.id (some r.name) (some r.max_files) (some r.max_size)
      (some r.expiry) r.notes

-- A request that is opened in the dialog and saved without a change is saved as it was, except
-- that a number of files or a size without limit becomes the limit of an account that has one.
pub save_file_request-edited :
    (limits : Limits) (now : ℕ) (r : Request)
    → save_file_request (edited limits now r) ≡ record r {
      max_files = within_limit limits.limit_max_files r.max_files;
      max_size = within_limit limits.limit_max_size r.max_size;
    }
unfolding save_file_request set_modal_values or_zero
save_file_request-edited limits now r =
    rw
      (
        if_checked-fill_number limits.limit_max_files 1
            (within_limit limits.limit_max_files r.max_files),
        if_checked-fill_number limits.limit_max_size 10
            (within_limit limits.limit_max_size r.max_size),
        if_checked-fill_expiry now r.expiry,
      )
      refl

load_expiry-pos :
    (noon : ℕ → ℕ) (now n : ℕ)
    → 0 < n
    → load_expiry noon now (some (pos n)) ≡ some (noon (now + n * 1000) / 1000)
unfolding load_expiry later
load_expiry-pos noon now zero h = absurd (omega arith)
load_expiry-pos noon now (suc n) h = refl

load_expiry-minus :
    (noon : ℕ → ℕ) (now value start : ℕ)
    → start < value
    → load_expiry noon now (some (minus value start))
      ≡ some (noon (now + (value - start) * 1000) / 1000)
load_expiry-minus noon now value start h =
    let ahead : ltb value start ≡ false = ground (arith, h) in
    rw ahead (load_expiry-pos noon now (value - start) (omega (arith, h)))

expiry_lem :
    (noon : ℕ → ℕ) (now start : ℕ) (checked : Bool) (value : ℕ)
    → let kept = if checked then minus value start else pos 0 in
      let shown = if_checked (fill_expiry now (or_zero (load_expiry noon now (some kept)))) in
      (checked ≡ false → shown ≡ 0)
      × (checked ≡ true → start < value → shown ≡ noon (now + (value - start) * 1000) / 1000)
unfolding load_expiry or_zero
expiry_lem noon now start false value = (λ h. if_checked-fill_expiry now 0, λ h. absurd cc)
expiry_lem noon now start true value = (
  λ h. absurd cc,
  λ h ahead.
      if_checked-fill_expiry now _ ∙ ap or_zero (load_expiry-minus noon now value start ahead),
)

-- The dialog for a new request that follows a saved one gives the number of files and the size
-- that the saved one had, within the account's limits, no expiry if there was none, and if it lay
-- ahead, noon of the day that is as far away as it was.
pub save_file_request-defaults :
    (noon : ℕ → ℕ) (limits : Limits) (before now : ℕ) (m : Modal)
    → let again =
        load_file_request_defaults noon limits now (save_file_request_defaults before m) in
      let r = save_file_request again in
      (r.max_files ≡ within_limit limits.limit_max_files (save_file_request m).max_files)
      × (r.max_size ≡ within_limit limits.limit_max_size (save_file_request m).max_size)
      × (m.expiry.checked ≡ false → r.expiry ≡ 0)
      × (m.expiry.checked ≡ true
          → seconds before < m.expiry.value
          → r.expiry ≡ noon (now + (m.expiry.value - seconds before) * 1000) / 1000)
unfolding save_file_request save_file_request_defaults load_file_request_defaults set_modal_values
    or_zero
save_file_request-defaults noon limits before now m = (
  if_checked-fill_number limits.limit_max_files 1 _,
  if_checked-fill_number limits.limit_max_size 10 _,
  (expiry_lem noon now (seconds before) m.expiry.checked m.expiry.value).0,
  (expiry_lem noon now (seconds before) m.expiry.checked m.expiry.value).1,
)
