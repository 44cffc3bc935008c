-- ===== src/FileRequests/Form.antt =====
-- The dialog for a file request: `setModalValues`, `saveFileRequest`, `editFileRequest`,
-- `newFileRequest` and the values it remembers (admin_ui_filerequest.js). A number and its decimal
-- text are one here.
pub mod Kept
use gokapiplus.Base.Text.{Text}
use gokapiplus.Base.Int.{ℤ, pos, negsuc}
use gokapiplus.Base.{
  [], ℕ, zero, suc, ◌+◌, ◌-◌, ◌*◌, ◌/◌, Bool, true, false, not, Option, none, some, ◌==◌, ltb,
  if◌then◌else◌, ◌≡◌, refl,
}

-- A checkbox with its number field.
pub record Limited : Type 0 where
  pub checked : Bool
  pub locked : Bool
  pub value : ℕ
  pub value_disabled : Bool
  pub max : Option ℕ

pub record Modal : Type 0 where
  pub id : Text
  pub name : Text
  pub max_files : Limited
  pub max_size : Limited
  pub expiry : Limited
  pub notes : Text

-- `null` and 0 both mean no limit.
unfoldable pub or_zero : Option ℕ → ℕ
or_zero none = 0
or_zero (some n) = n

-- `limitMaxFiles` or `limitMaxSize`, 0 for an account without a limit.
unfoldable pub within_limit : ℕ → ℕ → ℕ
within_limit zero wanted = wanted
within_limit (suc limit) zero = suc limit
within_limit (suc limit) (suc wanted) = suc wanted

unfoldable pub max_of : ℕ → Option ℕ
max_of zero = none
max_of (suc limit) = some (suc limit)

unfoldable pub fill_number : ℕ → ℕ → ℕ → Limited
unfolding max_of
fill_number limit default zero = record {
  checked = false;
  locked = not (limit == 0);
  value = default;
  value_disabled = true;
  max = max_of limit;
}
fill_number limit default (suc wanted) = record {
  checked = true;
  locked = not (limit == 0);
  value = suc wanted;
  value_disabled = false;
  max = max_of limit;
}

abbrev pub fourteen_days : ℕ
fourteen_days = 14 * 24 * 60 * 60 * 1000

-- The time of the clock is in milliseconds, the expiry in seconds.
unfoldable pub fill_expiry : ℕ → ℕ → Limited
fill_expiry now zero = record {
  checked = false;
  locked = false;
  value = (now + fourteen_days) / 1000;
  value_disabled = true;
  max = none;
}
fill_expiry now (suc expiry) = record {
  checked = true;
  locked = false;
  value = suc expiry;
  value_disabled = false;
  max = none;
}

pub record Limits : Type 0 where
  pub limit_max_files : ℕ
  pub limit_max_size : ℕ

-- What `apiURequestSave` is given.
pub record Request : Type 0 where
  pub id : Text
  pub name : Text
  pub max_files : ℕ
  pub max_size : ℕ
  pub expiry : ℕ
  pub notes : Text

unfoldable pub set_modal_values :
    Limits → ℕ → Text → Option Text → Option ℕ → Option ℕ → Option ℕ → Text → Modal
unfolding or_zero within_limit fill_number fill_expiry
set_modal_values limits now id name max_files max_size expiry notes = record {
  id = id;
  name = elim name [ none ↦ [] | some t ↦ t ];
  max_files =
      fill_number limits.limit_max_files 1
        (within_limit limits.limit_max_files (or_zero max_files));
  max_size =
      fill_number limits.limit_max_size 10 (within_limit limits.limit_max_size (or_zero max_size));
  expiry = fill_expiry now (or_zero expiry);
  notes = notes;
}

unfoldable pub if_checked : Limited → ℕ
if_checked f = if f.checked then f.value else 0

unfoldable pub save_file_request : Modal → Request
unfolding if_checked
save_file_request m = record {
  id = m.id;
  name = m.name;
  max_files = if_checked m.max_files;
  max_size = if_checked m.max_size;
  expiry = if_checked m.expiry;
  notes = m.notes;
}

-- What the browser keeps between two visits: `null` before the first one.
pub record Defaults : Type 0 where
  pub fr_maxfiles : Option ℕ
  pub fr_maxsize : Option ℕ
  pub fr_expiry : Option ℤ

-- `Math.round` of the milliseconds as seconds.
abbrev pub seconds : ℕ → ℕ
seconds now = (now + 500) / 1000

abbrev pub minus : ℕ → ℕ → ℤ
minus a b = if ltb a b then negsuc (b - a - 1) else pos (a - b)

unfoldable pub save_file_request_defaults : ℕ → Modal → Defaults
unfolding if_checked
save_file_request_defaults now m = record {
  fr_maxfiles = some (if_checked m.max_files);
  fr_maxsize = some (if_checked m.max_size);
  fr_expiry = some (if m.expiry.checked then minus m.expiry.value (seconds now) else pos 0);
}

-- Some milliseconds of the clock later or earlier, without a date before 1970.
unfoldable pub later : ℕ → ℤ → ℕ
later now (pos n) = now + n * 1000
later now (negsuc n) = now - suc n * 1000

-- `noon` sets a date to 12:00 of its day, in the browser's time zone.
unfoldable pub load_expiry : (noon : ℕ → ℕ) → ℕ → Option ℤ → Option ℕ
unfolding later
load_expiry noon now none = none
load_expiry noon now (some (pos zero)) = some 0
load_expiry noon now (some (pos (suc n))) = some (noon (later now (pos (suc n))) / 1000)
load_expiry noon now (some (negsuc n)) = some (noon (later now (negsuc n)) / 1000)

unfoldable pub load_file_request_defaults : (noon : ℕ → ℕ) → Limits → ℕ → Defaults → Modal
unfolding load_expiry set_modal_values
load_file_request_defaults noon limits now d =
    set_modal_values limits now [] (some []) d.fr_maxfiles d.fr_maxsize
      (load_expiry noon now d.fr_expiry) []
