-- ===== src/E2e/Examples.antt =====
-- Uploads with end-to-end encryption at work (end2end_admin.js).
use gokapiplus.Base.Text.{Text, codes, same_text}
use gokapiplus.Base.{◌≡◌, refl, true, false, none, some, List, [], ◌∷◌, ◌++◌, arith, length}
use gokapiplus.Upload.Chunks.{Bytes}
use gokapiplus.E2e.Chunks.{chunk_count, sealed, succeeded, Upload, Outside, set_e2e_upload}
use gokapiplus.E2e.Sent.{joined, Sent}
use gokapiplus.E2e.Whole.{set_e2e_upload-Sent}
use gokapiplus.E2e.Session.{Answers, fulfilled, DropFile, request_file_info}
use gokapiplus.E2e.Locked.{written_by}
use gokapiplus.AdminUpload.Row.{Listed, row_element}
use gokapiplus.E2e.Decrypt.{View, Entry, view, decrypt_file_entries}
use gokapiplus.E2e.Decrypt.Stopped.{
  Layout, Stopped, row_element-Layout, decrypt_file_entries-Stopped,
}

-- The encryption puts the number of the block in front of it, and the server takes every post.
abbrev numbering : Outside
numbering = record { encrypt = λ k size is_last plain. sealed (k ∷ plain); answer = λ p. none }

abbrev three_bytes : Bytes
three_bytes = 7 ∷ 8 ∷ 9 ∷ []

set_e2e_upload-Sent_example :
    (u : Upload) × (set_e2e_upload numbering 2 5 three_bytes ≡ some u)
    × Sent numbering 2 5 (chunk_count 5 2) u.ending 0 0 u.blocks u.posts
    × ((rest : Bytes) × (joined u.blocks ++ rest ≡ three_bytes))
    × (u.ending ≡ succeeded → (joined u.blocks ≡ three_bytes) × (length u.blocks ≡ chunk_count 5 2))
set_e2e_upload-Sent_example =
    set_e2e_upload-Sent numbering 2 5 three_bytes (omega arith) (omega arith) (omega arith)

abbrev all_well : Answers
all_well = record {
  locked = fulfilled tt;
  got = fulfilled (codes "old");
  parsed = λ t. none;
  added = λ t. none;
  encrypted = fulfilled (codes "new");
  stored = λ t. fulfilled tt;
  listed = fulfilled (codes "row");
}

abbrev one_file : List DropFile
one_file = record { uuid = codes "u"; name = codes "a.txt"; end_to_end = true } ∷ []

writes_new_info : written_by (request_file_info all_well one_file (codes "u")) ≡ some (codes "new")
unfolding request_file_info same_text written_by
writes_new_info = refl

abbrev encrypted_file : Listed
encrypted_file = record {
  item = record {
    id = codes "a1";
    name = codes "Encrypted File";
    size = codes "1 o";
    size_bytes = 1;
    unlimited_time = true;
    expire_at = 0;
    unlimited_downloads = true;
    downloads_remaining = 0;
    download_count = 0;
    url_download = codes "u";
    is_password_protected = false;
  };
  url_hotlink = [];
  requires_client_side_decryption = true;
  is_end_to_end_encrypted = true;
}

abbrev its_view : View
its_view =
    view (codes "Encrypted File") (codes "u")
      (row_element (λ t. t) true 0 (λ time. codes "date") encrypted_file)

its-Layout : Layout its_view
its-Layout =
    row_element-Layout (λ t. t) true 0 (λ time. codes "date") (codes "Encrypted File") (codes "u")
      encrypted_file

abbrev its_entry : List (Text × Entry)
its_entry = (codes "a1", record { filename = codes "b.txt"; cipher = codes "key" }) ∷ []

decrypt_file_entries-Stopped_example :
    Stopped true
      (λ t. t)
      its_entry
      (its_view ∷ its_view ∷ [])
      (decrypt_file_entries true (λ t. t) its_entry (its_view ∷ its_view ∷ []))
decrypt_file_entries-Stopped_example =
    decrypt_file_entries-Stopped true (λ t. t) its_entry (its_view ∷ its_view ∷ [])
      (its-Layout, (its-Layout, tt))
