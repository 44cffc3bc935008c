-- ===== src/E2e/Whole.antt =====
-- What an upload with end-to-end encryption reads and posts (end2end_admin.js).
use native.Mathlib.Omega.{div_any}
use native.Mathlib.Nat.{mod-lt}
use gokapiplus.Upload.Chunks.{Bytes, slice}
use gokapiplus.Upload.Chunks.Cover.{drop-add, drop_all}
use gokapiplus.E2e.Sent.{joined, Sent, behind, Joins, Later, GoesOn, after_seal_lem}
use gokapiplus.E2e.Chunks.{
  chunk_count, succeeded, Upload, Outside, read_end, read_block, upload_chunk, set_e2e_upload,
}
use gokapiplus.Base.{
  ℕ, zero, suc, ◌+◌, ◌-◌, ◌*◌, ◌≤◌, ◌<◌, ◌≡◌, refl, sym, ap, ◌∙◌, Bool, true, false, some, ◌++◌,
  append-nil, ◌==◌, ==_iff, length, take, drop, length-take, length-drop, take-append-drop, arith,
}

pub chunk_count_enough :
    (size chunk_size : ℕ) → 0 < chunk_size → size ≤ chunk_count size chunk_size * chunk_size
unfolding chunk_count
chunk_count_enough size chunk_size h =
    omega (arith, div_any (size + (chunk_size - 1)) chunk_size, mod-lt (size + (chunk_size - 1)) h)

take_all : (n : ℕ) (bytes : Bytes) → length bytes ≤ n → take n bytes ≡ bytes
take_all n bytes h =
    sym (append-nil _)
    ∙ ap (λ t. take n bytes ++ t) (sym (drop_all n bytes h))
    ∙ take-append-drop n bytes

some_chunk : (n size chunk_size : ℕ) → 0 < size → size ≤ n * chunk_size → (m : ℕ) × (n ≡ suc m)
some_chunk zero size chunk_size h k = absurd (omega arith)
some_chunk (suc m) size chunk_size h k = (m, refl)

module _ (out : Outside) (chunk_size total chunks : ℕ) (file : Bytes)
    (fits : length file ≤ chunks * chunk_size) where
  abbrev piece : ℕ → Bool → Bytes
  piece index is_last =
      slice file (index * chunk_size) (read_end is_last index chunk_size (length file))

  abbrev At : ℕ → Bool → Type 0
  At index is_last = is_last ≡ true → suc index ≡ chunks

  piece_size :
      (index : ℕ) (is_last : Bool) → At index is_last → length (piece index is_last) ≤ chunk_size
  unfolding read_end
  piece_size index true at =
      let e : chunks * chunk_size ≡ index * chunk_size + chunk_size = rw⁻¹ (at refl) omega arith in
      omega (
        arith,
        e,
        length-take (length file - index * chunk_size)
            (behind out chunk_size total chunks file index),
        length-drop (index * chunk_size) file,
      )
  piece_size index false at =
      let n = index * chunk_size + chunk_size - index * chunk_size in
      omega (arith, length-take n (behind out chunk_size total chunks file index))

  piece-Joins :
      (index : ℕ) (is_last : Bool)
      → At index is_last
      → Joins out chunk_size total chunks file index
          (record { plain = piece index is_last; last = is_last })
  unfolding read_end
  piece-Joins index true at =
      let all =
        take_all (length file - index * chunk_size) (behind out chunk_size total chunks file index)
          (omega (arith, length-drop (index * chunk_size) file)) in
      (λ h. absurd cc, λ h. (all, at refl))
  piece-Joins index false at =
      let e : index * chunk_size + chunk_size - index * chunk_size ≡ chunk_size = omega arith in
      let on : suc index * chunk_size ≡ index * chunk_size + chunk_size = omega arith in
      (
        λ h.
            rw (e, on, drop-add (index * chunk_size) chunk_size file)
              (take-append-drop chunk_size (behind out chunk_size total chunks file index)),
        λ h. absurd cc,
      )

  piece_prefix :
      (index : ℕ) (is_last : Bool)
      → (rem : Bytes) × (piece index is_last ++ rem ≡ behind out chunk_size total chunks file index)
  unfolding read_end
  piece_prefix index is_last =
      (_, take-append-drop _ (behind out chunk_size total chunks file index))

  step_lem :
      (fuel index written : ℕ)
      → Later out chunk_size total chunks file index
          (suc index == chunks)
          (upload_chunk out chunk_size total (length file) chunks file fuel (suc index))
      → GoesOn out chunk_size total chunks file index written
          (upload_chunk out chunk_size total (length file) chunks file (suc fuel) index written)
  unfolding upload_chunk read_block
  step_lem fuel index written later =
      let at : At index (suc index == chunks) = λ e. (==_iff (suc index) chunks).0 e in
      after_seal_lem out chunk_size total chunks file index written
        (read_block out chunk_size total (length file) chunks file index) _
        (refl, piece_size index (suc index == chunks) at)
        (piece-Joins index (suc index == chunks) at) (piece_prefix index (suc index == chunks))
        later

  upload_chunk_lem :
      (fuel index written : ℕ)
      → chunks ≡ suc fuel + index
      → GoesOn out chunk_size total chunks file index written
          (upload_chunk out chunk_size total (length file) chunks file (suc fuel) index written)
  upload_chunk_lem zero index written h =
      step_lem 0 index written (λ more w. absurd (ground (arith, more, h)))
  upload_chunk_lem (suc fuel) index written h =
      step_lem (suc fuel) index written
        (λ more w. upload_chunk_lem fuel (suc index) w (omega (arith, h)))

-- Given an encrypted size that is not 0 and not below the file's, and a positive chunk size, the
-- upload comes to an end. Each block is at most one chunk long and is marked as last exactly at
-- the last index; the posts carry the total size and the encrypted blocks, without gap from offset
-- 0 on, and only the last block may have failed. What was read is the beginning of the file, and
-- after a success the whole file in as many blocks as there are chunks.
pub set_e2e_upload-Sent :
    (out : Outside) (chunk_size encrypted_size : ℕ) (file : Bytes)
    → 0 < chunk_size
    → 0 < encrypted_size
    → length file ≤ encrypted_size
    → (u : Upload) × (set_e2e_upload out chunk_size encrypted_size file ≡ some u)
      × Sent out chunk_size encrypted_size
          (chunk_count encrypted_size chunk_size)
          u.ending
          0
          0
          u.blocks
          u.posts
      × ((rest : Bytes) × (joined u.blocks ++ rest ≡ file))
      × (u.ending ≡ succeeded
          → (joined u.blocks ≡ file) × (length u.blocks ≡ chunk_count encrypted_size chunk_size))
unfolding set_e2e_upload
set_e2e_upload-Sent out chunk_size encrypted_size file size some_bytes fits =
    let enough = chunk_count_enough encrypted_size chunk_size size in
    let (n, e) =
      some_chunk (chunk_count encrypted_size chunk_size) encrypted_size chunk_size some_bytes
        enough in
    let short : length file ≤ suc n * chunk_size = rw⁻¹ e (omega (arith, enough)) in
    let none_read : 0 * chunk_size ≡ 0 = omega arith in
    let start : drop (0 * chunk_size) file ≡ file = rw none_read refl in
    let (u, same, (sent, (rest, prefix), through)) =
      upload_chunk_lem out chunk_size encrypted_size (suc n) file short n 0 0 (omega arith) in
    rw e (
      u,
      same,
      sent,
      (rest, prefix ∙ start),
      λ h. ((through h).0 ∙ start, omega (arith, (through h).1)),
    )
