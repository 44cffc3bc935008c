-- ===== src/Zip/Names/Trim.antt =====
-- What `zipTrimGoSpace` cuts off and what it keeps (admin_ui_zip.js).
use gokapiplus.Base.{
  ℕ, ◌≡◌, refl, ap, sym, ◌∙◌, true, false, [], ◌∷◌, ◌++◌, arith, append_assoc, Bool-cases, inl, inr,
  All,
}
use gokapiplus.Base.Text.{Text}
use gokapiplus.Zip.Names.{is_go_space, trim_start, trim_end, zip_trim_go_space}

abbrev pub StartsPlain : Text → Type 0
StartsPlain [] = Unit
StartsPlain (c ∷ s) = is_go_space c ≡ false

abbrev pub EndsPlain : Text → Type 0
EndsPlain [] = Unit
EndsPlain (c ∷ []) = is_go_space c ≡ false
EndsPlain (c ∷ d ∷ s) = EndsPlain (d ∷ s)

-- No space at either end.
pub record IsTrimmed (s : Text) : Type 0 where
  pub front : StartsPlain s
  pub back : EndsPlain s

abbrev pub IsBlank : Text → Type 0
IsBlank s = All (λ c. is_go_space c ≡ true) s

trim_start_split :
    (s : Text) → (pre : Text) × (s ≡ pre ++ trim_start s) × IsBlank pre × StartsPlain (trim_start s)
unfolding trim_start
trim_start_split [] = ([], refl, tt, tt)
trim_start_split (c ∷ s) = elim (Bool-cases (is_go_space c)) [
  | inl space ↦
      let (pre, same, blank, plain) = trim_start_split s in
      rw space (c ∷ pre, ap (λ t. c ∷ t) same, (space, blank), plain)
  | inr other ↦ rw other ([], refl, tt, other)
]

trim_end_split :
    (s : Text) → (post : Text) × (s ≡ trim_end s ++ post) × IsBlank post × EndsPlain (trim_end s)
unfolding trim_end
trim_end_split [] = ([], refl, tt, tt)
trim_end_split (c ∷ s) = step (trim_end s) refl (trim_end_split s)
  where
    step :
        (t : Text)
        → trim_end s ≡ t
        → (post : Text) × (s ≡ trim_end s ++ post) × IsBlank post × EndsPlain (trim_end s)
        → (post : Text) × (c ∷ s ≡ trim_end (c ∷ s) ++ post)
          × IsBlank post
          × EndsPlain (trim_end (c ∷ s))
    step [] e (post, same, blank, plain) = elim (Bool-cases (is_go_space c)) [
      | inl space ↦ rw (e, space) (c ∷ post, ap (λ t. c ∷ t) (rw e at same), (space, blank), tt)
      | inr other ↦ rw (e, other) (post, ap (λ t. c ∷ t) (rw e at same), blank, other)
    ]
    step (d ∷ t) e (post, same, blank, plain) = elim (Bool-cases (is_go_space c)) [
      | inl space ↦ rw (e, space) (post, ap (λ t. c ∷ t) (rw e at same), blank, rw e at plain)
      | inr other ↦ rw (e, other) (post, ap (λ t. c ∷ t) (rw e at same), blank, rw e at plain)
    ]

StartsPlain-trim_end : (s : Text) → StartsPlain s → StartsPlain (trim_end s)
unfolding trim_end
StartsPlain-trim_end [] h = tt
StartsPlain-trim_end (c ∷ s) h = rw h h

-- A text is its trimmed form between two runs of spaces, and the trimmed form has no space at
-- either end.
pub zip_trim_go_space_split :
    (value : Text)
    → (pre : Text) × (post : Text) × (value ≡ pre ++ zip_trim_go_space value ++ post)
      × IsBlank pre
      × IsBlank post
      × IsTrimmed (zip_trim_go_space value)
unfolding zip_trim_go_space
zip_trim_go_space_split value =
    let (pre, same, blank, plain) = trim_start_split value in
    let (post, same', blank', plain') = trim_end_split (trim_start value) in
    (
      pre,
      post,
      same ∙ ap (λ t. pre ++ t) same' ∙ sym (append_assoc pre _ post),
      blank,
      blank',
      record { front = StartsPlain-trim_end (trim_start value) plain; back = plain' },
    )

trim_start_plain : (s : Text) → StartsPlain s → trim_start s ≡ s
unfolding trim_start
trim_start_plain [] h = refl
trim_start_plain (c ∷ s) h = rw h

trim_end_plain : (s : Text) → EndsPlain s → trim_end s ≡ s
unfolding trim_end
trim_end_plain [] h = refl
trim_end_plain (c ∷ []) h = rw h
trim_end_plain (c ∷ d ∷ s) h = rw (trim_end_plain (d ∷ s) h) (ground arith)

pub zip_trim_go_space-cons :
    (c : ℕ) (s : Text) → is_go_space c ≡ true → zip_trim_go_space (c ∷ s) ≡ zip_trim_go_space s
unfolding zip_trim_go_space trim_start
zip_trim_go_space-cons c s h = rw h

-- A text with no space at either end is left alone.
pub zip_trim_go_space_of_IsTrimmed : (s : Text) → IsTrimmed s → zip_trim_go_space s ≡ s
unfolding zip_trim_go_space
zip_trim_go_space_of_IsTrimmed s h = rw (trim_start_plain s h.front) (trim_end_plain s h.back)

pub zip_trim_go_space_of_IsBlank : (s : Text) → IsBlank s → zip_trim_go_space s ≡ []
unfolding zip_trim_go_space trim_start trim_end
zip_trim_go_space_of_IsBlank [] h = refl
zip_trim_go_space_of_IsBlank (c ∷ s) h = rw (h.0) (zip_trim_go_space_of_IsBlank s h.1)

module _ (P : ℕ → Type 0) where
  All-trim_start : (s : Text) → All P s → All P (trim_start s)
  unfolding trim_start
  All-trim_start [] h = tt
  All-trim_start (c ∷ s) h = ground (arith, All-trim_start s h.1)

  All-trim_end : (s : Text) → All P s → All P (trim_end s)
  unfolding trim_end
  All-trim_end [] h = tt
  All-trim_end (c ∷ s) h = ground (arith, All-trim_end s h.1)

  -- What holds of every character of a text holds of every character that is kept.
  pub All-zip_trim_go_space : (s : Text) → All P s → All P (zip_trim_go_space s)
  unfolding zip_trim_go_space
  All-zip_trim_go_space s h = All-trim_end (trim_start s) (All-trim_start s h)
