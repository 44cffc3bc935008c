-- ===== src/AdminUpload/Status/Shown.antt =====
-- When the boxes of the uploads are shown (admin_ui_upload.js).
use gokapiplus.Base.Text.{Text, same_text}
use gokapiplus.Base.Int.{ℤ, pos, negsuc, decrement}
use gokapiplus.AdminUpload.Status.{
  Box, Status, increment, add_file_status, without_box, after_removal, remove_file_status,
  change_box, show_progress, parse_progress_status, bounded, show_width, update_progressbar, Event,
  added, removed, told, progressed, handle, run, opened, Progress, processing, saving, finalising,
  failed, unknown,
}
use gokapiplus.Base.{
  ℕ, suc, ◌≤◌, ◌≡◌, refl, sym, ap, ◌∙◌, Bool, true, false, Option, none, some, List, [], ◌∷◌, ◌++◌,
  length, length-append, All, All-append, Bool-cases, inl, inr, arith, ltb, ltb→ge,
}

-- The number is that of the boxes, they are shown exactly if there is one, and no bar is wider than
-- its frame.
abbrev pub is_some_left : List Box → Bool
is_some_left [] = false
is_some_left (b ∷ bs) = true

abbrev pub Narrow : List Box → Type 0
Narrow = All (λ b. b.width ≤ 100)

abbrev pub Kept : Status → Type 0
Kept s = (s.count ≡ pos (length s.boxes)) × (s.visible ≡ is_some_left s.boxes) × Narrow s.boxes

is_some_left-append : (bs : List Box) (b : Box) → is_some_left (bs ++ b ∷ []) ≡ true
is_some_left-append [] b = refl
is_some_left-append (c ∷ bs) b = refl

add_file_status-Kept :
    (id filename : Text) (s : Status) → Kept s → Kept (add_file_status id filename s)
unfolding add_file_status
add_file_status-Kept id filename s (count, visible, narrow) = (
  ap increment count ∙ ap pos (omega (arith, length-append s.boxes (_ ∷ []))),
  sym (is_some_left-append s.boxes _),
  All-append (λ b. b.width ≤ 100) s.boxes (_ ∷ []) narrow (omega arith, tt),
)

-- One box less.
abbrev Less : List Box → Option (List Box) → Type 0
Less bs none = Unit
Less bs (some rest) = (suc (length rest) ≡ length bs) × (Narrow bs → Narrow rest)

front-Less :
    (b : Box) (bs : List Box) (o : Option (List Box))
    → Less bs o
    → Less (b ∷ bs) (elim o [ none ↦ none | some rest ↦ some (b ∷ rest) ])
front-Less b bs none h = tt
front-Less b bs (some rest) (size, narrow) = (ap suc size, λ n. (n.0, narrow n.1))

without_box-Less : (id : Text) (bs : List Box) → Less bs (without_box id bs)
unfolding without_box
without_box-Less id [] = tt
without_box-Less id (b ∷ bs) = elim (Bool-cases (same_text b.id id)) [
  | inl same ↦ rw same (refl, λ n. n.1)
  | inr off ↦ rw off (front-Less b bs (without_box id bs) (without_box-Less id bs))
]

some_box : (bs : List Box) (n : ℕ) → suc n ≡ length bs → is_some_left bs ≡ true
some_box [] n h = absurd (omega (arith, h))
some_box (b ∷ bs) n h = refl

-- What the removal leaves of a counter and of the boxes, by the boxes.
after_removal-Kept :
    (s : Status) (o : Option (List Box)) → Less s.boxes o → Kept s → Kept (after_removal s o)
unfolding after_removal
after_removal-Kept s none less kept = kept
after_removal-Kept s (some []) (size, narrow) (count, visible, all) =
    let e : s.count ≡ pos 1 = count ∙ ap pos (sym size) in rw e (refl, refl, tt)
after_removal-Kept s (some (b ∷ rest)) (size, narrow) (count, visible, all) =
    let e : decrement s.count ≡ pos (suc (length rest)) =
      ap decrement (count ∙ ap pos (sym size)) in
    let more : ltb (suc (length rest)) 1 ≡ false = ground arith in
    let seen : s.visible ≡ true = visible ∙ some_box s.boxes (suc (length rest)) size in
    rw (e, more) (refl, seen, narrow all)

All-change_box :
    (id : Text) (f : Box → Box) (bs : List Box)
    → ((b : Box) → b.width ≤ 100 → (f b).width ≤ 100)
    → Narrow bs
    → Narrow (change_box id f bs)
unfolding change_box
All-change_box id f [] h all = tt
All-change_box id f (b ∷ bs) h (n, all) = elim (Bool-cases (same_text b.id id)) [
  | inl same ↦ rw same (h b n, all)
  | inr off ↦ rw off (n, All-change_box id f bs h all)
]

length-change_box :
    (id : Text) (f : Box → Box) (bs : List Box)
    → (length (change_box id f bs) ≡ length bs)
      × (is_some_left (change_box id f bs) ≡ is_some_left bs)
unfolding change_box
length-change_box id f [] = (refl, refl)
length-change_box id f (b ∷ bs) = elim (Bool-cases (same_text b.id id)) [
  | inl same ↦ rw same (refl, refl)
  | inr off ↦ rw off (ap suc (length-change_box id f bs).0, refl)
]

changed-Kept :
    (id : Text) (f : Box → Box) (s : Status)
    → ((b : Box) → b.width ≤ 100 → (f b).width ≤ 100)
    → Kept s
    → Kept (record s { boxes = change_box id f s.boxes })
changed-Kept id f s h (count, visible, all) =
    let (size, some_left) = length-change_box id f s.boxes in
    (count ∙ ap pos (sym size), visible ∙ sym some_left, All-change_box id f s.boxes h all)

show_progress_narrow :
    (is_listed : Bool) (message : Text) (p : Progress) (b : Box)
    → b.width ≤ 100
    → (show_progress is_listed message p b).width ≤ 100
unfolding show_progress
show_progress_narrow is_listed message processing b h = h
show_progress_narrow is_listed message saving b h = h
show_progress_narrow is_listed message finalising b h = h
show_progress_narrow true message failed b h = omega arith
show_progress_narrow false message failed b h = h
show_progress_narrow is_listed message unknown b h = h

bounded_narrow : (progress : ℤ) → bounded progress ≤ 100
unfolding bounded
bounded_narrow (negsuc n) = omega arith
bounded_narrow (pos n) = elim (Bool-cases (ltb 100 n)) [
  | inl over ↦ rw over (omega arith)
  | inr within ↦ rw within (ltb→ge 100 n within)
]

show_width_narrow :
    (progress : ℤ) (rate : Option Text) (b : Box)
    → b.width ≤ 100
    → (show_width (bounded progress) rate b).width ≤ 100
unfolding show_width
show_width_narrow progress rate b h = elim (Bool-cases b.complete) [
  | inl done ↦ rw done h
  | inr on ↦ rw on (bounded_narrow progress)
]

handle-Kept : (s : Status) (e : Event) → Kept s → Kept (handle s e)
unfolding handle remove_file_status parse_progress_status update_progressbar
handle-Kept s (added id filename) kept = add_file_status-Kept id filename s kept
handle-Kept s (removed id) kept =
    after_removal-Kept s (without_box id s.boxes) (without_box-Less id s.boxes) kept
handle-Kept s (told is_listed message p id) kept =
    changed-Kept id (show_progress is_listed message p) s (show_progress_narrow is_listed message p)
      kept
handle-Kept s (progressed id progress rate) kept =
    changed-Kept id (show_width (bounded progress) rate) s (show_width_narrow progress rate) kept

run_lem : (s : Status) (es : List Event) → Kept s → Kept (run s es)
unfolding run
run_lem s [] kept = kept
run_lem s (e ∷ es) kept = run_lem (handle s e) es (handle-Kept s e kept)

-- After any sequence of uploads that start, end, make progress or are reported on by the server,
-- the counter is the number of boxes, the boxes are shown exactly if there is one, and no bar is
-- wider than its frame.
pub run-Kept : (es : List Event) → Kept (run opened es)
run-Kept es = run_lem opened es (refl, refl, tt)
