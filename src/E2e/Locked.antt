-- ===== src/E2e/Locked.antt =====
-- How the lock on the shared information is used (end2end_admin.js, admin_ui_upload.js).
use gokapiplus.Base.Text.{Text}
use gokapiplus.E2e.Session.{
  Action, store, Settled, fulfilled, Answers, DropFile, dropzone_get_file, free, follow,
}
use gokapiplus.Base.{Option, none, some, List, [], ◌∷◌, ◌≡◌}

abbrev answers :
    Settled (Unit {0})
    → Settled Text
    → (Text → Option Text)
    → (Text → Option Text)
    → Settled Text
    → (Text → Settled (Unit {0}))
    → Settled Text
    → Answers
answers locked got parsed added encrypted stored listed = record {
  locked = locked;
  got = got;
  parsed = parsed;
  added = added;
  encrypted = encrypted;
  stored = stored;
  listed = listed;
}

-- The information that is written to the server.
unfoldable pub written_by : List Action → Option Text
written_by [] = none
written_by (store info ∷ rest) = some info
written_by (a ∷ rest) = written_by rest

-- It was read under the lock, parsed, and encrypted after the file was added.
abbrev pub Fresh : Answers → Text → Text → Type 0
Fresh env name info =
    (env.locked ≡ fulfilled tt)
    × ((fresh : Text) × (env.got ≡ fulfilled fresh) × (env.parsed fresh ≡ none))
    × (env.added name ≡ none)
    × (env.encrypted ≡ fulfilled info)

abbrev Locked : Answers → Text → List Action → Type 0
Locked env name actions =
    (follow free actions ≡ some free)
    × ((info : Text) → written_by actions ≡ some info → Fresh env name info)

abbrev Found : Answers → List DropFile → Text → List Action → Type 0
Found env files uid actions =
    (follow free actions ≡ some free)
    × ((info : Text)
        → written_by actions ≡ some info
        → (f : DropFile) × (dropzone_get_file files uid ≡ some f) × Fresh env f.name info)
