-- ===== src/Upload/Chunks.antt =====
-- A file is sent in slices: the `do … while` loop of `startUpload` (public_upload.js). A file is
-- the list of its bytes.
pub mod Cover
use mathlib.Core.Option
use gokapiplus.Upload.Retry.{Error, Reply, ok, thrown}
use gokapiplus.Base.{
  ℕ, zero, suc, ◌+◌, ◌-◌, ◌*◌, ◌≡◌, refl, Bool, true, false, Option, none, some, List, [], ◌∷◌, ltb,
  ◌==◌, if◌then◌else◌, length, take, drop,
}

abbrev pub Bytes : Type 0
Bytes = List ℕ

-- `file.slice(start, end)`.
abbrev pub slice : Bytes → ℕ → ℕ → Bytes
slice file start end = take (end - start) (drop start file)

-- What goes out with a request: the offset and the bytes.
pub record Chunk : Type 0 where
  pub offset : ℕ
  pub bytes : Bytes

-- How the loop ended: the file is through, the signal was aborted between two requests, or a
-- request failed for good.
pub data Ending : Type 0 where
  all_sent stopped : Ending
  failed : Error → Ending

-- The chunks that the server took, and the end.
pub record Sending : Type 0 where
  pub sent : List Chunk
  pub ending : Ending

abbrev pub with_chunk : Chunk → Sending → Sending
with_chunk c s = record s { sent = c ∷ s.sent }

-- What the loop meets: the signal before the request at an offset, and its reply (`withRetry`).
pub record Network : Type 0 where
  pub aborted : ℕ → Bool
  pub send : Chunk → Reply (Unit {0})

module _ (net : Network) (chunk_size : ℕ) (file : Bytes) where
  -- `none` is out of fuel.
  unfoldable pub send_from : ℕ → ℕ → Option Sending
  send_from zero offset = none
  send_from (suc fuel) offset =
      let bytes = slice file offset (offset + chunk_size) in
      let chunk : Chunk = record { offset = offset; bytes = bytes } in
      let rest = Option.map (with_chunk chunk) (send_from fuel (offset + length bytes)) in
      if net.aborted offset
      then some (record { sent = []; ending = stopped })
      else elim (net.send chunk) [
        | thrown e ↦ some (record { sent = []; ending = failed e })
        | ok _ ↦
            if ltb (offset + length bytes) (length file)
            then rest
            else some (record { sent = chunk ∷ []; ending = all_sent })
      ]

  unfoldable pub send_chunks : Option Sending
  unfolding send_from
  send_chunks = send_from (suc (length file)) 0

abbrev good_network : Network
good_network = record { aborted = λ k. false; send = λ c. ok tt }

runs :
    (send_chunks good_network 2 (7 ∷ 8 ∷ 9 ∷ [])
      ≡ some (record {
        sent =
            record { offset = 0; bytes = 7 ∷ 8 ∷ [] } ∷ record { offset = 2; bytes = 9 ∷ [] } ∷ [];
        ending = all_sent;
      }))
    × (send_chunks good_network 2 []
        ≡ some (record { sent = record { offset = 0; bytes = [] } ∷ []; ending = all_sent }))
unfolding send_chunks
runs = (refl, refl)
