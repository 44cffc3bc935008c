-- ===== src/Upload/Queue/Start.antt =====
-- `startUpload` as a whole (public_upload.js).
use gokapiplus.Base.{ℕ, ◌+◌, ◌≡◌, Option, some, List, map}
use gokapiplus.Base.Text.{Text}
use gokapiplus.Base.Int.{pos}
use gokapiplus.Upload.Queue.{Entry, Queue}
use gokapiplus.Upload.Queue.Limit.{selected, count_completed}

-- The upload ended, with the selected files in their order and as many more allowed as before, less
-- the files that were completed.
abbrev pub Uploaded : List Entry → ℕ → Option Queue → Type 0
Uploaded entries m o =
    (q : Queue) × (o ≡ some q)
    × (map selected q.entries ≡ map selected entries)
    × ((left : ℕ) × (q.max_files_remaining ≡ pos left)
        × (left + count_completed q.entries ≡ m + count_completed entries))
