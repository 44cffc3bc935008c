-- ===== src/Zip/Names/Limit.antt =====
-- The byte limit: `zipLimitUtf8Bytes` keeps the longest prefix that fits (admin_ui_zip.js).
use gokapiplus.Base.{
  ℕ, ◌+◌, ◌≤◌, ◌<◌, ◌≡◌, refl, ap, subst, ltb, [], ◌∷◌, ◌++◌, arith, Bool-cases, inl, inr,
}
use gokapiplus.Base.Text.{Text}
use gokapiplus.Zip.Names.{utf8_size, zip_utf8_byte_length, limit_from, zip_limit_utf8_bytes}

-- What follows the kept part either is nothing, or begins with a code point that does not fit.
abbrev pub Overflows : ℕ → ℕ → Text → Type 0
Overflows used max_bytes [] = Unit
Overflows used max_bytes (c ∷ s) = max_bytes < used + utf8_size c

limit_from_lem :
    (used max_bytes : ℕ) (s : Text)
    → used ≤ max_bytes
    → (rest : Text) × (s ≡ limit_from used max_bytes s ++ rest)
      × (used + zip_utf8_byte_length (limit_from used max_bytes s) ≤ max_bytes)
      × Overflows (used + zip_utf8_byte_length (limit_from used max_bytes s)) max_bytes rest
unfolding limit_from zip_utf8_byte_length
limit_from_lem used max_bytes [] h = ([], refl, omega arith, tt)
limit_from_lem used max_bytes (c ∷ s) h = elim (Bool-cases (ltb max_bytes (used + utf8_size c))) [
  | inl over ↦ rw over (c ∷ s, refl, omega arith, ground arith)
  | inr room ↦
      let (rest, same, within, next) =
        limit_from_lem (used + utf8_size c) max_bytes s (ground arith) in
      rw room (
        rest,
        ap (λ t. c ∷ t) same,
        omega arith,
        subst (λ n. Overflows n max_bytes rest) (omega arith) next,
      )
]

-- The result is a prefix of at most the given number of bytes, and if anything follows it, the
-- next code point would not fit.
pub zip_limit_utf8_bytes_lem :
    (value : Text) (max_bytes : ℕ)
    → (rest : Text) × (value ≡ zip_limit_utf8_bytes value max_bytes ++ rest)
      × (zip_utf8_byte_length (zip_limit_utf8_bytes value max_bytes) ≤ max_bytes)
      × Overflows (zip_utf8_byte_length (zip_limit_utf8_bytes value max_bytes)) max_bytes rest
unfolding zip_limit_utf8_bytes
zip_limit_utf8_bytes_lem value max_bytes =
    let (rest, same, within, next) = limit_from_lem 0 max_bytes value (omega arith) in
    (rest, same, omega arith, subst (λ n. Overflows n max_bytes rest) (omega arith) next)
