-- ===== src/Upload/Queue/Limit.antt =====
-- The loop of `startUpload` and the number of files that the request allows (public_upload.js).
use mathlib.Core.Option
use gokapiplus.Base.{
  ℕ, zero, suc, ◌+◌, ◌≤◌, ◌<◌, ◌≡◌, refl, ap₂, Bool, true, false, Option, none, some, List, [], ◌∷◌,
  map, arith, Bool-cases, inl, inr, if◌then◌else◌,
}
use gokapiplus.Base.Text.{Text}
use gokapiplus.Base.Int.{pos}
use gokapiplus.Upload.Retry.{Error, Reply, ok, thrown}
use gokapiplus.Upload.Chunks.{Bytes, Ending, all_sent, stopped, failed}
use gokapiplus.Upload.Chunks.Cover.{send_chunks-Covers}
use gokapiplus.Upload.Queue.{
  uploading, completed, Entry, Modal, Session, Course, finished, next_entry, return, catch_error,
  remove_entry, after_finalise, after_sending, after_reserve, upload_entry, is_queued, Queue, told,
  with_entry, upload_from, after_click,
}

abbrev pub is_completed : Entry → Bool
is_completed entry = elim entry.status [ completed ↦ true | _ ↦ false ]

pub count_completed : List Entry → ℕ
count_completed [] = 0
count_completed (entry ∷ rest) =
    if is_completed entry then suc (count_completed rest) else count_completed rest

abbrev pub counts : Course → Bool
counts finished = true
counts _ = false

-- What the user selected.
abbrev pub selected : Entry → Text × Bytes
selected entry = (entry.uuid, entry.file)

-- An entry stays the same file; it is completed exactly when the loop counts it.
pub record Handled (entry entry' : Entry) (course : Course) : Type 0 where
  pub uuid : entry'.uuid ≡ entry.uuid
  pub file : entry'.file ≡ entry.file
  pub counted : is_completed entry' ≡ counts course

catch_error-Handled :
    (clicked : Bool) (e : Error) (entry : Entry)
    → Handled entry (catch_error clicked e entry).0 (catch_error clicked e entry).1
unfolding catch_error
catch_error-Handled clicked e entry = ground arith

clicked-Handled :
    (clicked : Bool) (e : Error) (entry : Entry)
    → Handled entry
        (catch_error clicked e (after_click clicked entry)).0
        (catch_error clicked e (after_click clicked entry)).1
unfolding catch_error remove_entry
clicked-Handled true e entry = ground arith
clicked-Handled false e entry = ground arith

after_finalise-Handled :
    (session : Session) (entry : Entry) (r : Reply (Unit {0}))
    → Handled entry (after_finalise session entry r).0 (after_finalise session entry r).1
unfolding after_finalise
after_finalise-Handled session entry (thrown e) = clicked-Handled session.clicked e entry
after_finalise-Handled session entry (ok _) = record { uuid = refl; file = refl; counted = refl }

after_sending-Handled :
    (session : Session) (entry : Entry) (ending : Ending)
    → is_completed entry ≡ false
    → Handled entry (after_sending session entry ending).0 (after_sending session entry ending).1
unfolding after_sending
after_sending-Handled session entry stopped h = unfold remove_entry in ground arith
after_sending-Handled session entry (failed e) h = clicked-Handled session.clicked e entry
after_sending-Handled session entry all_sent h =
    after_finalise-Handled session entry session.finalise

-- With a positive chunk size an entry is dealt with.
upload_entry-Handled :
    (chunk_size : ℕ) (session : Session) (entry : Entry)
    → 0 < chunk_size
    → (entry' : Entry) × (course : Course) × (upload_entry chunk_size session entry
        ≡ some (entry', course))
      × Handled entry entry' course
unfolding upload_entry
upload_entry-Handled chunk_size session entry positive = go session.reserve
  where
    started : Entry
    started = record entry { status = uploading }

    go :
        (r : Reply Text)
        → (entry' : Entry) × (course : Course) × (after_reserve chunk_size session started r
            ≡ some (entry', course))
          × Handled entry entry' course
    go (thrown e) =
        let h = clicked-Handled session.clicked e started in
        (_, _, refl, record { uuid = h.uuid; file = h.file; counted = h.counted })
    go (ok uuid) =
        let sends = send_chunks-Covers session.network chunk_size positive entry.file in
        let reserved : Entry = record started { server_uuid = some uuid } in
        let h = after_sending-Handled session reserved sends.0.ending refl in
        let done = after_sending session reserved sends.0.ending in
        (done.0, done.1, rw (sends.1), record { uuid = h.uuid; file = h.file; counted = h.counted })

abbrev bit : Entry → ℕ
bit e = if is_completed e then 1 else 0

-- What the loop makes of a list, with `r` more files allowed.
abbrev pub Limited : List Entry → ℕ → Option Queue → Type 0
Limited entries r none = ⊥
Limited entries r (some q) =
    (map selected q.entries ≡ map selected entries)
    × ((left : ℕ) × (q.max_files_remaining ≡ pos left)
        × (left + count_completed q.entries ≡ r + count_completed entries))

Limited-cons :
    (e e' : Entry) (es : List Entry) (r r' : ℕ) (o : Option Queue)
    → selected e' ≡ selected e
    → r' + bit e' ≡ r + bit e
    → Limited es r' o
    → Limited (e ∷ es) r (Option.map (with_entry e') o)
unfolding count_completed
Limited-cons e e' es r r' none same count h = absurd h
Limited-cons e e' es r r' (some q) same count (names, (left, left_is, sum)) =
    (ap₂ (λ x xs. x ∷ xs) same names, (left, left_is, ground arith))

unfoldable pub queued : List Entry → ℕ
queued [] = 0
queued (e ∷ es) = if is_queued e then suc (queued es) else queued es

queued-bit : (e : Entry) → is_queued e ≡ true → bit e ≡ 0
queued-bit e h = ground arith

module _ (chunk_size : ℕ) (positive : 0 < chunk_size) where
  module _ (sessions : Text → Session) where
    -- One entry that is taken, by the course that its upload takes.
    taken-Limited :
        (e e' : Entry) (es : List Entry) (r : ℕ) (modals : List Modal) (course : Course)
        → is_queued e ≡ true
        → upload_entry chunk_size (sessions e.uuid) e ≡ some (e', course)
        → Handled e e' course
        → suc (queued es) ≤ r
        → ((r' : ℕ) (modals' : List Modal)
            → queued es ≤ r'
            → Limited es r' (upload_from chunk_size sessions es (pos r') modals'))
        → Limited (e ∷ es) r (upload_from chunk_size sessions (e ∷ es) (pos r) modals)
    unfolding upload_from
    taken-Limited e e' es r modals course taken same h room ih = go r course same h room
      where
        sel : selected e' ≡ selected e
        sel = λ i. (h.uuid i, h.file i)

        go :
            (r : ℕ) (course : Course)
            → upload_entry chunk_size (sessions e.uuid) e ≡ some (e', course)
            → Handled e e' course
            → suc (queued es) ≤ r
            → Limited (e ∷ es) r (upload_from chunk_size sessions (e ∷ es) (pos r) modals)
        go r return same h room =
            let bits : r + bit e' ≡ r + bit e = ground (arith, queued-bit e taken, h.counted) in
            rw (taken, same, upload_from)
              (Limited-cons e e' es r r
                (some (record { entries = es; max_files_remaining = pos r; modals = modals })) sel
                bits (refl, (r, refl, refl)))
        go r next_entry same h room =
            let bits : r + bit e' ≡ r + bit e = ground (arith, queued-bit e taken, h.counted) in
            rw (taken, same, upload_from)
              (Limited-cons e e' es r r (upload_from chunk_size sessions es (pos r) modals) sel bits
                (ih r modals (omega arith)))
        go zero finished same h room = absurd (omega arith)
        go (suc r) finished same h room =
            let bits : r + bit e' ≡ suc r + bit e = ground (arith, queued-bit e taken, h.counted) in
            rw (taken, same, upload_from)
              (Limited-cons e e' es (suc r) r
                (upload_from chunk_size sessions es (pos r) (told (pos r) modals)) sel bits
                (ih r (told (pos r) modals) (omega arith)))

    pub upload_from-Limited :
        (entries : List Entry) (r : ℕ) (modals : List Modal)
        → queued entries ≤ r
        → Limited entries r (upload_from chunk_size sessions entries (pos r) modals)
    unfolding upload_from queued
    upload_from-Limited [] r modals h = (refl, (r, refl, refl))
    upload_from-Limited (e ∷ es) r modals h = elim (Bool-cases (is_queued e)) [
      | inr skipped ↦ rw skipped (
          Limited-cons e e es r r (upload_from chunk_size sessions es (pos r) modals) refl refl
            (upload_from-Limited es r modals (ground arith)))
      | inl taken ↦
          let (e', course, same, h') =
            upload_entry-Handled chunk_size (sessions e.uuid) e positive in
          taken-Limited e e' es r modals course taken same h' (ground arith)
            (upload_from-Limited es)
    ]
