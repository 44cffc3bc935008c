-- ===== src/Upload/Chunks/Cover.antt =====
-- The chunks of a file (public_upload.js).
use Prim.Native.Nat.add
use native.Mathlib.Nat.{zero-add, add-zero, suc-add}
use gokapiplus.Base.{
  ℕ, zero, suc, ◌+◌, ◌-◌, ◌≤◌, ◌<◌, ◌≡◌, ◌≢◌, append_assoc, refl, sym, ap, ◌∙◌, Option, none, some,
  List, [], ◌∷◌, ◌++◌, arith, ltb, length, take, drop, length-take, length-drop, Bool-cases, inl,
  inr, append-nil, subst, ltb→lt, ltb→ge,
}
use gokapiplus.Upload.Chunks.{
  Bytes, slice, Chunk, all_sent, Sending, with_chunk, Network, send_from, send_chunks,
}
use gokapiplus.Upload.Retry.{Reply-cases}

abbrev pub joined : List Chunk → Bytes
joined [] = []
joined (c ∷ cs) = c.bytes ++ joined cs

-- Each chunk starts where the one before it ended, and has at most `chunk_size` bytes.
abbrev pub Contiguous : ℕ → ℕ → List Chunk → Type 0
Contiguous chunk_size offset [] = Unit
Contiguous chunk_size offset (c ∷ cs) =
    (c.offset ≡ offset)
    × (length c.bytes ≤ chunk_size)
    × Contiguous chunk_size (offset + length c.bytes) cs

-- Taking up to `n` bytes and then what is behind those that were there.
pub take-then-drop : (n : ℕ) (file : Bytes) → take n file ++ drop (length (take n file)) file ≡ file
take-then-drop zero file = refl
take-then-drop (suc n) [] = refl
take-then-drop (suc n) (b ∷ file) = ap (λ t. b ∷ t) (take-then-drop n file)

pub drop-add : (m n : ℕ) (file : Bytes) → drop (m + n) file ≡ drop n (drop m file)
drop-add zero n file = rw zero-add
drop-add (suc m) zero [] = rw add-zero
drop-add (suc m) (suc n) [] = rw add.suc
drop-add (suc m) n (b ∷ file) = rw suc-add (drop-add m n file)

pub drop_all : (n : ℕ) (file : Bytes) → length file ≤ n → drop n file ≡ []
drop_all zero [] h = refl
drop_all zero (b ∷ file) h = absurd (omega arith)
drop_all (suc n) [] h = refl
drop_all (suc n) (b ∷ file) h = drop_all n file (omega arith)

module _ (net : Network) (chunk_size : ℕ) (positive : 0 < chunk_size) (file : Bytes) where
  abbrev piece : ℕ → Bytes
  piece offset = slice file offset (offset + chunk_size)

  length-piece-le : (offset : ℕ) → length (piece offset) ≤ chunk_size
  length-piece-le offset =
      omega (arith, length-take (offset + chunk_size - offset) (drop offset file))

  length-piece-pos : (offset : ℕ) → offset < length file → 0 < length (piece offset)
  length-piece-pos offset h = omega (
    arith,
    length-take (offset + chunk_size - offset) (drop offset file),
    length-drop offset file,
  )

  piece-append :
      (offset : ℕ) → piece offset ++ drop (offset + length (piece offset)) file ≡ drop offset file
  piece-append offset =
      rw (drop-add offset (length (piece offset)) file)
        (take-then-drop (offset + chunk_size - offset) (drop offset file))

  -- What was sent is the beginning of what is behind `offset`, all of it if the loop came through.
  abbrev pub Covers : ℕ → Sending → Type 0
  Covers offset s =
      Contiguous chunk_size offset s.sent
      × ((rest : Bytes) × (joined s.sent ++ rest ≡ drop offset file))
      × (s.ending ≡ all_sent → (joined s.sent ≡ drop offset file) × (s.sent ≢ []))

  Covers-cons :
      (offset : ℕ) (s : Sending)
      → Covers (offset + length (piece offset)) s
      → Covers offset (with_chunk (record { offset = offset; bytes = piece offset }) s)
  Covers-cons offset s (contiguous, (rest, prefix), whole) = (
    (refl, length-piece-le offset, contiguous),
    (
      rest,
      append_assoc (piece offset) _ rest ∙ ap (λ t. piece offset ++ t) prefix ∙ piece-append offset,
    ),
    λ e. (ap (λ t. piece offset ++ t) (whole e).0 ∙ piece-append offset, λ h. cc),
  )

  last-Covers :
      (offset : ℕ)
      → length file ≤ offset + length (piece offset)
      → Covers offset (record {
        sent = record { offset = offset; bytes = piece offset } ∷ [];
        ending = all_sent;
      })
  last-Covers offset h =
      let whole : piece offset ++ [] ≡ drop offset file =
        ap (λ t. piece offset ++ t) (sym (drop_all _ file h)) ∙ piece-append offset in
      ((refl, length-piece-le offset, tt), ([], append-nil _ ∙ whole), λ e. (whole, λ n. cc))

  send_from_lem :
      (fuel offset : ℕ)
      → length file < fuel + offset
      → offset ≤ length file
      → (s : Sending) × (send_from net chunk_size file fuel offset ≡ some s) × Covers offset s
  unfolding send_from
  send_from_lem zero offset h k = absurd (omega arith)
  send_from_lem (suc fuel) offset h k = elim (Bool-cases (net.aborted offset)) [
    | inl aborted ↦ rw aborted (_, refl, (tt, (drop offset file, refl), λ e. cc))
    | inr on ↦ elim (Reply-cases (net.send (record { offset = offset; bytes = piece offset }))) [
      | inr (e, threw) ↦ rw (on, threw) (_, refl, (tt, (drop offset file, refl), λ e. cc))
      | inl (_, taken) ↦ elim (Bool-cases (ltb (offset + length (piece offset)) (length file))) [
        | inl more ↦
            let within = ltb→lt _ _ more in
            let (s, same, covers) =
              send_from_lem fuel (offset + length (piece offset))
                (omega (arith, length-piece-pos offset)) (omega arith) in
            rw (on, taken, more, same) (_, refl, Covers-cons offset s covers)
        | inr done ↦ rw (on, taken, done) (_, refl, last-Covers offset (ltb→ge _ _ done))
      ]
    ]
  ]

abbrev Whole : Bytes → Option Sending → Type 0
Whole file none = Unit
Whole file (some s) = s.ending ≡ all_sent → (joined s.sent ≡ file) × (s.sent ≢ [])

abbrev Sends : (net : Network) (chunk_size : ℕ) → 0 < chunk_size → Bytes → Type 0
Sends net chunk_size h file =
    (s : Sending) × (send_chunks net chunk_size file ≡ some s) × Covers net chunk_size h file 0 s

sends :
    (net : Network) (chunk_size : ℕ) (h : 0 < chunk_size) (file : Bytes)
    → Sends net chunk_size h file
unfolding send_chunks
sends net chunk_size h file =
    send_from_lem net chunk_size h file (suc (length file)) 0 (omega arith) (omega arith)

-- With a positive chunk size the loop over the chunks of a file ends; the chunks that the server
-- took follow one another from 0 on without gap or overlap, have at most that size, and are the
-- beginning of the file.
pub send_chunks-Covers :
    (net : Network) (chunk_size : ℕ) (positive : 0 < chunk_size) (file : Bytes)
    → (s : Sending) × (send_chunks net chunk_size file ≡ some s)
      × Contiguous chunk_size 0 s.sent
      × ((rest : Bytes) × (joined s.sent ++ rest ≡ file))
send_chunks-Covers net chunk_size h file =
    let (s, same, (contiguous, prefix, whole)) = sends net chunk_size h file in
    (s, same, contiguous, prefix)

-- With a positive chunk size, if the loop came through, the chunks joined are the whole file, and
-- there is at least one.
pub send_chunks_whole :
    (net : Network) (chunk_size : ℕ) (positive : 0 < chunk_size) (file : Bytes) (s : Sending)
    → send_chunks net chunk_size file ≡ some s
    → s.ending ≡ all_sent
    → (joined s.sent ≡ file) × (s.sent ≢ [])
send_chunks_whole net chunk_size h file s run ended =
    let (s', same, (contiguous, prefix, whole)) = sends net chunk_size h file in
    let one : some s' ≡ some s = sym same ∙ run in
    subst (λ (t : Option Sending). Whole file t) one whole ended
