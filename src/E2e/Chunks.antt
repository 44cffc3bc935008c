-- ===== src/E2e/Chunks.antt =====
-- The upload of a file with end-to-end encryption: `uploadChunk`, `postChunk` and the chunk count
-- that `setE2eUpload` gives it (end2end_admin.js).
use mathlib.Core.Option
use gokapiplus.Base.Text.{Text}
use gokapiplus.Upload.Chunks.{Bytes, slice}
use gokapiplus.Base.{
  ℕ, zero, suc, ◌+◌, ◌-◌, ◌*◌, ◌/◌, ◌≡◌, refl, Bool, true, false, Option, none, some, List, [], ◌∷◌,
  ◌==◌, if◌then◌else◌, length,
}

-- `Math.ceil(size / chunk_size)` for a chunk size that is not 0.
unfoldable pub chunk_count : ℕ → ℕ → ℕ
chunk_count size chunk_size = (size + (chunk_size - 1)) / chunk_size

-- What `GokapiE2EUploadChunk` returns: the encrypted block, or an error.
pub data Sealed : Type 0 where
  sealed : Bytes → Sealed
  refused : Text → Sealed

-- A block of the file as it is handed to the encryption.
pub record Block : Type 0 where
  pub plain : Bytes
  pub last : Bool

-- The form that `postChunk` sends: `dztotalfilesize`, `dzchunkbyteoffset` and the file.
pub record Post : Type 0 where
  pub total : ℕ
  pub offset : ℕ
  pub body : Bytes

-- How the upload ended: the success events, `displayError`, or an error of dropzone.
pub data Ending : Type 0 where
  succeeded : Ending
  not_encrypted : Text → Ending
  not_posted : Text → Ending

pub record Upload : Type 0 where
  pub blocks : List Block
  pub posts : List Post
  pub ending : Ending

abbrev pub with_block : Block → Post → Upload → Upload
with_block b p u = record u { blocks = b ∷ u.blocks; posts = p ∷ u.posts }

abbrev pub ended : List Block → List Post → Ending → Upload
ended bs ps e = record { blocks = bs; posts = ps; ending = e }

-- The encryption keeps a state between its calls, of which the chunk's index is the number. The
-- server answers a post with `null`, or with a text when its status is not 200.
pub record Outside : Type 0 where
  pub encrypt : ℕ → ℕ → Bool → Bytes → Sealed
  pub answer : Post → Option Text

-- `readEnd`.
unfoldable pub read_end : Bool → ℕ → ℕ → ℕ → ℕ
read_end is_last index chunk_size plain_size =
    if is_last then plain_size else index * chunk_size + chunk_size

module _ (out : Outside) (chunk_size total plain_size chunks : ℕ) (file : Bytes) where
  unfoldable pub read_block : ℕ → Block
  unfolding read_end
  read_block index =
      let is_last = suc index == chunks in
      record {
        plain = slice file (index * chunk_size) (read_end is_last index chunk_size plain_size);
        last = is_last;
      }

  -- `rest` is the upload of the chunks behind this one, from the offset it is given.
  unfoldable pub after_post : Block → Post → (ℕ → Option Upload) → ℕ → Option Text → Option Upload
  after_post b p rest written (some err) = some (ended (b ∷ []) (p ∷ []) (not_posted err))
  after_post b p rest written none =
      let later = rest (written + length p.body) in
      if b.last then some (ended (b ∷ []) (p ∷ []) succeeded) else Option.map (with_block b p) later

  unfoldable pub after_seal : Block → (ℕ → Option Upload) → ℕ → Sealed → Option Upload
  unfolding after_post
  after_seal b rest written (refused err) = some (ended (b ∷ []) [] (not_encrypted err))
  after_seal b rest written (sealed body) =
      let p : Post = record { total = total; offset = written; body = body } in
      after_post b p rest written (out.answer p)

  -- `none` is out of fuel.
  unfoldable pub upload_chunk : ℕ → ℕ → ℕ → Option Upload
  unfolding read_block after_seal
  upload_chunk zero index written = none
  upload_chunk (suc fuel) index written =
      let b = read_block index in
      after_seal b (upload_chunk fuel (suc index)) written
        (out.encrypt index (length b.plain) b.last b.plain)

-- `GokapiE2EEncryptNew` has given the encrypted size of the file.
unfoldable pub set_e2e_upload : Outside → ℕ → ℕ → Bytes → Option Upload
unfolding upload_chunk chunk_count
set_e2e_upload out chunk_size encrypted_size file =
    let chunks = chunk_count encrypted_size chunk_size in
    upload_chunk out chunk_size encrypted_size (length file) chunks file chunks 0 0

abbrev reversing : Outside
reversing = record { encrypt = λ k size is_last plain. sealed (k ∷ plain); answer = λ p. none }

runs :
    set_e2e_upload reversing 2 4 (7 ∷ 8 ∷ 9 ∷ [])
    ≡ some (record {
      blocks =
          record { plain = 7 ∷ 8 ∷ []; last = false } ∷ record { plain = 9 ∷ []; last = true } ∷ [];
      posts =
          record { total = 4; offset = 0; body = 0 ∷ 7 ∷ 8 ∷ [] }
          ∷ record { total = 4; offset = 3; body = 1 ∷ 9 ∷ [] }
          ∷ [];
      ending = succeeded;
    })
unfolding set_e2e_upload
runs = refl
