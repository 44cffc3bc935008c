-- ===== src/E2e/Session.antt =====
-- The information on encrypted files that all tabs share, read and written under a lock of the
-- server: `getE2EInfo` and `storeE2EInfo` (end2end_admin.js), `requestFileInfo` and
-- `dropzoneGetFile` (admin_ui_upload.js).
use gokapiplus.Base.Text.{Text, codes, same_text}
use gokapiplus.Base.{Bool, Option, none, some, List, [], ◌∷◌, ◌++◌, if◌then◌else◌}

-- What the code does, in order: calls of the API and of the Go module, and changes of the page.
pub data Action : Type 0 where
  lock unlock get parse decrypt_menu add_file encrypt_info list_file ask_redirect : Action
  store show_error add_row notify_worker remove_status fail_upload upload_error : Text → Action

-- A promise that is settled: what was done on the way, and the value or the rejection.
pub data Settled {ℓ} (A : Type ℓ) : Type ℓ where
  fulfilled : A → Settled A
  rejected : Text → Settled A

pub record Promise {ℓ} (A : Type ℓ) : Type ℓ where
  pub actions : List Action
  pub outcome : Settled A

abbrev pub promise {ℓ} : {A : Type ℓ} → List Action → Settled A → Promise A
promise done o = record { actions = done; outcome = o }

abbrev pub finished : List Action → Promise (Unit {0})
finished done = promise done (fulfilled tt)

-- `first.then(next)`.
unfoldable pub and_then {ℓ κ} :
    {A : Type ℓ} {B : Type κ} → List Action → Settled A → (A → Promise B) → Promise B
and_then done (rejected e) next = promise done (rejected e)
and_then done (fulfilled a) next = let p = next a in promise (done ++ p.actions) p.outcome

-- `first.catch(handler)`, up to what it does.
unfoldable pub caught {ℓ} : {A : Type ℓ} → Promise A → (Text → List Action) → List Action
caught p handler = elim p.outcome [ fulfilled a ↦ p.actions | rejected e ↦ p.actions ++ handler e ]

-- The answers of the server and of the Go module, whose functions return an error or `null`.
pub record Answers : Type 0 where
  pub locked : Settled (Unit {0})
  pub got : Settled Text
  pub parsed : Text → Option Text
  pub added : Text → Option Text
  pub encrypted : Settled Text
  pub stored : Text → Settled (Unit {0})
  pub listed : Settled Text

abbrev pub wrong_cipher : Text
wrong_cipher = codes "cipher: message authentication failed"

abbrev pub trying : Text
trying = codes "Trying to get E2E info: "

module _ (env : Answers) where
  -- `apiE2eMutexLockUnlock(false).then(() => apiE2eGet())`.
  unfoldable pub read_info : Promise Text
  unfolding and_then
  read_info = and_then (lock ∷ []) env.locked (λ t. promise (get ∷ []) env.got)

  unfoldable pub on_info : Text → Option Text → List Action
  on_info info none = decrypt_menu ∷ []
  on_info info (some err) =
      show_error err
      ∷ (if same_text err wrong_cipher then ask_redirect else show_error (trying ++ info))
      ∷ []

  unfoldable pub get_e2e_info : List Action
  unfolding read_info on_info caught and_then
  get_e2e_info =
      let p = read_info in
      caught
        (and_then p.actions p.outcome (λ info. finished (parse ∷ on_info info (env.parsed info))))
        (λ e. show_error (trying ++ e) ∷ [])
      ++ unlock ∷ []

  unfoldable pub store_e2e_info : Text → List Action
  unfolding caught
  store_e2e_info info =
      caught (promise (store info ∷ []) (env.stored info))
        (λ e. show_error (codes "Trying to store E2E info: " ++ e) ∷ [])

  -- The answers to parsing what the server has now, to adding the file and to encrypting the result.
  unfoldable pub renewed_info : Option Text → Option Text → Settled Text → Promise (Unit {0})
  renewed_info (some e) added encrypted = promise (parse ∷ []) (rejected e)
  renewed_info none (some e) encrypted = promise (parse ∷ add_file ∷ []) (rejected e)
  renewed_info none none (rejected e) = promise (parse ∷ add_file ∷ encrypt_info ∷ []) (rejected e)
  renewed_info none none (fulfilled info) =
      promise (parse ∷ add_file ∷ encrypt_info ∷ store info ∷ []) (env.stored info)

  unfoldable pub conclude : Text → Promise (Unit {0}) → List Action
  unfolding caught and_then
  conclude uid written =
      caught
        (and_then written.actions written.outcome
          (λ t. finished (decrypt_menu ∷ remove_status uid ∷ [])))
        (λ e. fail_upload e ∷ [])
      ++ unlock ∷ []

  unfoldable pub add_to_info : Text → Text → List Action
  unfolding read_info renewed_info conclude and_then
  add_to_info uid name =
      let p = read_info in
      conclude uid (
        and_then p.actions p.outcome
          (λ fresh. renewed_info (env.parsed fresh) (env.added name) env.encrypted))

-- A file of dropzone, as far as these functions look at it.
pub record DropFile : Type 0 where
  pub uuid : Text
  pub name : Text
  pub end_to_end : Bool

unfoldable pub dropzone_get_file : List DropFile → Text → Option DropFile
dropzone_get_file [] uid = none
dropzone_get_file (f ∷ fs) uid =
    let rest = dropzone_get_file fs uid in if same_text f.uuid uid then some f else rest

module _ (env : Answers) (files : List DropFile) where
  unfoldable pub after_listing : Text → Option DropFile → List Action
  unfolding add_to_info
  after_listing uid none = []
  after_listing uid (some f) =
      if f.end_to_end then add_to_info env uid f.name else remove_status uid ∷ []

  unfoldable pub failed_listing : Text → Option DropFile → List Action
  failed_listing e none = []
  failed_listing e (some f) = upload_error e ∷ []

  -- The file is looked up by the id of its upload, and its row is what the server says of it.
  unfoldable pub on_listed : Text → Settled Text → List Action
  unfolding after_listing failed_listing dropzone_get_file
  on_listed uid (rejected e) = list_file ∷ failed_listing e (dropzone_get_file files uid)
  on_listed uid (fulfilled row) =
      list_file ∷ add_row row ∷ notify_worker row ∷ after_listing uid (dropzone_get_file files uid)

  unfoldable pub request_file_info : Text → List Action
  unfolding on_listed
  request_file_info uid = on_listed uid env.listed

-- ---- how the lock is used
pub data Phase : Type 0 where
  free held : Phase

-- A lock is asked for when this tab has asked for none, and given back after that; the shared
-- information is read and written in between.
unfoldable pub phase_after : Phase → Action → Option Phase
phase_after free lock = some held
phase_after free unlock = none
phase_after free get = none
phase_after free (store info) = none
phase_after free _ = some free
phase_after held lock = none
phase_after held unlock = some free
phase_after held _ = some held

unfoldable pub follow : Phase → List Action → Option Phase
follow ph [] = some ph
follow ph (a ∷ rest) = elim (phase_after ph a) [ none ↦ none | some next ↦ follow next rest ]
