-- ===== src/Upload/Slots/Accounted.antt =====
-- Every slot that was reserved is used or given back in the end.
use gokapiplus.Base.Text.{Text, same_text}
use gokapiplus.Upload.Slots.{
  Entry, Page, Event, file_chosen, cross_clicked, reserving_started, reserving_failed, completed,
  slot_reserved, at, handle, run, opened, unload, unload_entry, unreserve, remove_clicked,
  start_reserving, reserve_answered, reserve_failed, upload_completed, add_file, new_entry, finish,
  clicked, started, with_slot, left,
}
use gokapiplus.Base.{
  ℕ, Bool, true, false, ◌&&◌, Option, none, some, List, [], ◌∷◌, ◌++◌, map, All, In, ◌≡◌, refl, sym,
  ap, ◌∙◌, inl, inr, Bool-cases, if◌then◌else◌, All-append, ltb, ◌⊎◌,
}

-- Each reserved slot of the entry was given back or used.
abbrev pub Accounted : Entry → Type 0
Accounted e = All (λ s. In s e.released ⊎ In s e.completed) e.reserved

-- How an entry and its slot stand while the page is open.
data Slot (e : Entry) : Type 0 where
  fresh : e.server_uuid ≡ none → e.reserved ≡ [] → (e.reserving && e.removed) ≡ false → Slot e
  held :
      (s : Text)
      → e.server_uuid ≡ some s
      → e.reserved ≡ s ∷ []
      → e.reserving ≡ false
      → e.pending ≡ false
      → e.removed ≡ false
      → Slot e
  settled :
      (s : Text)
      → e.server_uuid ≡ some s
      → e.reserved ≡ s ∷ []
      → e.reserving ≡ false
      → e.pending ≡ false
      → In s e.released ⊎ In s e.completed
      → Slot e

abbrev Back : Text → Entry → Type 0
Back s e = In s e.released ⊎ In s e.completed

-- What a click does to the slot.
given_back :
    (slot : Option Text) (e : Entry)
    → e.server_uuid ≡ slot
    → e.reserving ≡ false
    → Slot e
    → Slot (unreserve slot (record e { removed = true; pending = false }))
unfolding unreserve
given_back none e own calm (fresh _ empty apart) = fresh own empty (rw calm refl)
given_back none e own calm (held s has one quiet waiting here) = absurd cc
given_back none e own calm (settled s has one quiet waiting back) = absurd cc
given_back (some t) e own calm (fresh none_yet empty apart) = absurd cc
given_back (some t) e own calm (held s has one quiet waiting here) =
    settled s has one quiet refl (inl (inl cc))
given_back (some t) e own calm (settled s has one quiet waiting (inl back)) =
    settled s has one quiet refl (inl (inr back))
given_back (some t) e own calm (settled s has one quiet waiting (inr done)) =
    settled s has one quiet refl (inr done)

clicked-Slot :
    (b : Bool) (e : Entry) → e.reserving ≡ false → Slot e → Slot (clicked b e.server_uuid e)
clicked-Slot false e calm h = h
clicked-Slot true e calm h = given_back e.server_uuid e refl calm h

started-Slot :
    (removed pending : Bool) (e : Entry)
    → e.removed ≡ removed
    → e.pending ≡ pending
    → Slot e
    → Slot (started removed pending e)
started-Slot false true e there waits (fresh none_yet empty apart) = fresh none_yet empty there
started-Slot false true e there waits (held s has one quiet waiting here) = absurd cc
started-Slot false true e there waits (settled s has one quiet waiting back) = absurd cc
started-Slot false false e there waits h = h
started-Slot true true e there waits h = h
started-Slot true false e there waits h = h

with_slot-Slot :
    (b : Bool) (s : Text) (e : Entry)
    → e.reserving ≡ b
    → (b ≡ true → e.pending ≡ false)
    → Slot e
    → Slot (with_slot b s e)
with_slot-Slot false s e on begun h = h
with_slot-Slot true s e on begun (fresh none_yet empty apart) =
    held s refl (ap (λ more. s ∷ more) empty) refl (begun refl)
      (sym (ap (λ (b : Bool). b && e.removed) on) ∙ apart)
with_slot-Slot true s e on begun (held t has one quiet waiting here) = absurd cc
with_slot-Slot true s e on begun (settled t has one quiet waiting back) = absurd cc

reserve_failed-Slot : (e : Entry) → Slot e → Slot (reserve_failed e)
unfolding reserve_failed
reserve_failed-Slot e (fresh none_yet empty apart) = fresh none_yet empty refl
reserve_failed-Slot e (held s has one quiet waiting here) = held s has one refl waiting here
reserve_failed-Slot e (settled s has one quiet waiting back) = settled s has one refl waiting back

finish-Slot :
    (slot : Option Text) (e : Entry) → e.server_uuid ≡ slot → Slot e → Slot (finish slot e)
finish-Slot none e own h = h
finish-Slot (some t) e own (fresh none_yet empty apart) = absurd cc
finish-Slot (some t) e own (held s has one quiet waiting here) =
    settled s has one quiet waiting (inr (inl cc))
finish-Slot (some t) e own (settled s has one quiet waiting (inl back)) =
    settled s has one quiet waiting (inl back)
finish-Slot (some t) e own (settled s has one quiet waiting (inr done)) =
    settled s has one quiet waiting (inr (inr done))

-- Leaving the page settles the slots that are still held.
left-Accounted :
    (b : Bool) (slot : Option Text) (e : Entry)
    → e.removed ≡ b
    → e.server_uuid ≡ slot
    → Slot e
    → Accounted (left b slot e)
unfolding unreserve
left-Accounted true slot e there own (fresh none_yet empty apart) = rw empty tt
left-Accounted true slot e there own (held s has one quiet waiting here) = absurd cc
left-Accounted true slot e there own (settled s has one quiet waiting back) = rw one (back, tt)
left-Accounted false none e there own (fresh none_yet empty apart) = rw empty tt
left-Accounted false none e there own (held s has one quiet waiting here) = absurd cc
left-Accounted false none e there own (settled s has one quiet waiting back) = absurd cc
left-Accounted false (some t) e there own (fresh none_yet empty apart) = absurd cc
left-Accounted false (some t) e there own (held s has one quiet waiting here) =
    let same : s ≡ t = cc in rw one (inl (inl same), tt)
left-Accounted false (some t) e there own (settled s has one quiet waiting (inl back)) =
    rw one (inl (inr back), tt)
left-Accounted false (some t) e there own (settled s has one quiet waiting (inr done)) =
    rw one (inr done, tt)

-- A reservation under way has taken the entry out of the pending ones.
abbrev Begun : Entry → Type 0
Begun e = e.reserving ≡ true → e.pending ≡ false

abbrev Well : Entry → Type 0
Well e = Slot e × Begun e

clicked-Begun : (b : Bool) (slot : Option Text) (e : Entry) → Begun e → Begun (clicked b slot e)
unfolding unreserve
clicked-Begun false slot e h = h
clicked-Begun true none e h = λ on. refl
clicked-Begun true (some s) e h = λ on. refl

started-Begun : (removed pending : Bool) (e : Entry) → Begun e → Begun (started removed pending e)
started-Begun false true e h = λ on. refl
started-Begun false false e h = h
started-Begun true true e h = h
started-Begun true false e h = h

with_slot-Begun : (b : Bool) (s : Text) (e : Entry) → Begun e → Begun (with_slot b s e)
with_slot-Begun false s e h = h
with_slot-Begun true s e h = λ on. cc

finish-Begun : (slot : Option Text) (e : Entry) → Begun e → Begun (finish slot e)
finish-Begun none e h = h
finish-Begun (some s) e h = h

-- ---- the page
at-Well :
    (uuid : Text) (f : Entry → Entry) (es : List Entry)
    → ((e : Entry) → same_text e.uuid uuid ≡ true → In e es → Well e → Well (f e))
    → All Well es
    → All Well (map (at uuid f) es)
at-Well uuid f [] keep h = tt
at-Well uuid f (e ∷ es) keep (h, hs) = (
  elim (Bool-cases (same_text e.uuid uuid)) [
    | inl same ↦ rw same (keep e same (inl refl) h)
    | inr other ↦ rw other h
  ],
  at-Well uuid f es (λ d same inside. keep d same (inr inside)) hs,
)

-- The cross of an entry is not clicked while its slot is being reserved.
abbrev pub Calm : Page → Event → Type 0
Calm p (cross_clicked uuid) =
    (e : Entry) → In e p.entries → same_text e.uuid uuid ≡ true → e.reserving ≡ false
Calm p _ = Unit

abbrev pub Orderly : ℕ → Page → List Event → Type 0
Orderly max p [] = Unit
Orderly max p (e ∷ es) = Calm p e × Orderly max (handle max p e) es

added-Well :
    (b : Bool) (uuid message : Text) (size : ℕ) (p : Page)
    → All Well p.entries
    → All Well
        (if b
          then record p { modal_errors = p.modal_errors ++ message ∷ [] }
          else record p { entries = p.entries ++ new_entry uuid size ∷ [] }).entries
added-Well true uuid message size p h = h
added-Well false uuid message size p h =
    All-append Well p.entries (new_entry uuid size ∷ []) h ((fresh refl refl refl, λ on. cc), tt)

handle-Well :
    (max : ℕ) (p : Page) (e : Event)
    → Calm p e
    → All Well p.entries
    → All Well (handle max p e).entries
unfolding handle add_file remove_clicked start_reserving reserve_answered reserve_failed
    upload_completed
handle-Well max p (file_chosen uuid name size) calm h = added-Well (ltb max size) uuid _ size p h
handle-Well max p (cross_clicked uuid) calm h =
    at-Well uuid remove_clicked p.entries
      (λ e same inside (slot, begun). (
        clicked-Slot e.has_button e (calm e inside same) slot,
        clicked-Begun e.has_button e.server_uuid e begun,
      ))
      h
handle-Well max p (reserving_started uuid) calm h =
    at-Well uuid start_reserving p.entries
      (λ e same inside (slot, begun). (
        started-Slot e.removed e.pending e refl refl slot,
        started-Begun e.removed e.pending e begun,
      ))
      h
handle-Well max p (reserving_failed uuid) calm h =
    at-Well uuid reserve_failed p.entries
      (λ e same inside (slot, begun). (reserve_failed-Slot e slot, λ on. cc)) h
handle-Well max p (completed uuid) calm h =
    at-Well uuid upload_completed p.entries
      (λ e same inside (slot, begun).
        (finish-Slot e.server_uuid e refl slot, finish-Begun e.server_uuid e begun))
      h
handle-Well max p (slot_reserved uuid s) calm h =
    at-Well uuid (reserve_answered s) p.entries
      (λ e same inside (slot, begun).
        (with_slot-Slot e.reserving s e refl begun slot, with_slot-Begun e.reserving s e begun))
      h

run-Well :
    (max : ℕ) (p : Page) (es : List Event)
    → Orderly max p es
    → All Well p.entries
    → All Well (run max p es).entries
unfolding run
run-Well max p [] orderly h = h
run-Well max p (e ∷ es) (calm, orderly) h =
    run-Well max (handle max p e) es orderly (handle-Well max p e calm h)

unload-All : (es : List Entry) → All Well es → All Accounted (map unload_entry es)
unfolding unload_entry
unload-All [] h = tt
unload-All (e ∷ es) ((slot, begun), hs) =
    (left-Accounted e.removed e.server_uuid e refl refl slot, unload-All es hs)

-- After any choice of files, clicks on their crosses, reservations and completed uploads, in which
-- no cross is clicked while the slot of its file is being reserved, leaving the page accounts for
-- every slot that the server reserved: an upload has used it, or it was given back.
pub unload-Accounted :
    (max : ℕ) (es : List Event)
    → Orderly max opened es
    → All Accounted (unload (run max opened es)).entries
unfolding unload
unload-Accounted max es orderly =
    unload-All (run max opened es).entries (run-Well max opened es orderly tt)
