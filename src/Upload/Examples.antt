-- ===== src/Upload/Examples.antt =====
-- Runs of the upload (public_upload.js).
use gokapiplus.Upload.Slots
use gokapiplus.Upload.Slots.{
  file_chosen, cross_clicked, reserving_started, slot_reserved, handle, run, unload, add_file,
  remove_clicked, start_reserving, reserve_answered,
}
use gokapiplus.Upload.Slots.Accounted.{Accounted, unload-Accounted}
use gokapiplus.Base.{All, List, inl, inr, ap, map}
use gokapiplus.Base.Text.{Text, same_text}
use gokapiplus.Base.{ℕ, ◌+◌, ◌*◌, ◌≤◌, ◌≡◌, refl, false, none, some, [], ◌∷◌, ◌++◌, arith}
use gokapiplus.Base.Text.{codes}
use gokapiplus.Upload.Retry.{Error, ok, thrown, Calls, Outcome, with_retry}
use gokapiplus.Upload.Retry.Ends.{Clock, with_retry_ends}
use gokapiplus.Upload.Retry.Result.{with_retry-Explains, Explains}
use gokapiplus.Upload.Chunks.{Bytes, Sending, Network, all_sent, send_chunks}
use gokapiplus.Upload.Chunks.Cover.{send_chunks-Covers, Contiguous, joined}
use gokapiplus.Upload.Queue.{Entry, pending, Session}

abbrev calm_network : Network
calm_network = record { aborted = λ k. false; send = λ c. ok tt }

abbrev five_bytes : Bytes
five_bytes = 1 ∷ 2 ∷ 3 ∷ 4 ∷ 5 ∷ []

send_chunks-Covers_example :
    (s : Sending) × (send_chunks calm_network 2 five_bytes ≡ some s)
    × Contiguous 2 0 s.sent
    × ((rest : Bytes) × (joined s.sent ++ rest ≡ five_bytes))
send_chunks-Covers_example = send_chunks-Covers calm_network 2 (omega arith) five_bytes

abbrev two_chunks : Sending
two_chunks = record {
  sent =
      record { offset = 0; bytes = 1 ∷ 2 ∷ 3 ∷ [] }
      ∷ record { offset = 3; bytes = 4 ∷ 5 ∷ [] }
      ∷ [];
  ending = all_sent;
}

-- Every call is refused with 400, five seconds after the one before.
abbrev refusal : Error
refusal = record { message = codes "no"; status = some 400 }

abbrev refusing : Calls ℕ
refusing = record {
  reply = λ k. thrown refusal;
  aborted_before = λ k. false;
  aborted_after = λ k. false;
  elapsed = λ k. 5000 * k;
}

refusing-Clock : Clock refusing 3
refusing-Clock = record { forward = λ k. omega arith; waited = λ k attempt e h w. omega arith }

with_retry_ends_example : (o : Outcome ℕ) × (with_retry refusing 3 ≡ some o) × (o.calls ≤ 3 + 12)
with_retry_ends_example = with_retry_ends refusing 3 refusing-Clock

with_retry-Explains_example :
    (o : Outcome ℕ) × (with_retry refusing 3 ≡ some o) × Explains refusing o.result o.calls
with_retry-Explains_example = with_retry-Explains refusing 3 refusing-Clock (omega arith)

abbrev entry : Entry
entry = record {
  uuid = codes "e";
  file = five_bytes;
  removed = false;
  status = pending;
  server_uuid = none;
}

abbrev calm : Session
calm = record {
  reserve = ok (codes "s");
  network = calm_network;
  finalise = ok tt;
  clicked = false;
}

abbrev a_visit : List Slots.Event
a_visit =
    file_chosen (codes "u") (codes "a.txt") 5
    ∷ reserving_started (codes "u")
    ∷ slot_reserved (codes "u") (codes "s")
    ∷ cross_clicked (codes "u")
    ∷ []

unload-Accounted_example : All Accounted (unload (run 9 Slots.opened a_visit)).entries
unfolding handle add_file remove_clicked start_reserving reserve_answered same_text
unload-Accounted_example = unload-Accounted 9 a_visit (
  tt,
  (
    tt,
    (
      tt,
      (
        λ e inside same. elim inside [
          | inl own ↦ ap (λ (d : Slots.Entry). d.reserving) own
          | inr more ↦ absurd more
        ],
        tt,
      ),
    ),
  ),
)

-- A slot that arrives behind the click on the cross stays reserved.
abbrev late_slot : List Slots.Event
late_slot =
    file_chosen (codes "u") (codes "a.txt") 5
    ∷ reserving_started (codes "u")
    ∷ cross_clicked (codes "u")
    ∷ slot_reserved (codes "u") (codes "s")
    ∷ []

late_slot_lost :
    map {B = List Text × List Text}
      (λ (e : Slots.Entry). (e.reserved, e.released))
      (unload (run 9 Slots.opened late_slot)).entries
    ≡ (codes "s" ∷ [], []) ∷ []
unfolding unload run handle add_file remove_clicked start_reserving reserve_answered same_text
late_slot_lost = refl
