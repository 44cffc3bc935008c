-- ===== src/AdminUpload/Table/Counted.antt =====
-- The rows of a tab and their number (admin_ui_upload.js).
use gokapiplus.Base.Text.{Text, same_text}
use gokapiplus.AdminUpload.Table.{FileRow, Tab, row_of, counted, fade, take_away}
use gokapiplus.Base.{
  ℕ, suc, ◌≡◌, refl, sym, ap, ◌∙◌, Bool, true, false, ◌&&◌, Option, none, some, List, [], ◌∷◌,
  length, All, Bool-cases, and_true, inl, inr, arith, ◌≤◌,
}

-- No row has the id.
abbrev pub Absent : Text → List FileRow → Type 0
Absent id = All (λ row. same_text row.id id ≡ false)

-- No two rows have one id.
abbrev pub Distinct : List FileRow → Type 0
Distinct [] = Unit
Distinct (row ∷ rows) = Absent row.id rows × Distinct rows

-- The rows that are not fading away.
abbrev pub live_one : Bool → ℕ → ℕ
live_one true n = n
live_one false n = suc n

abbrev pub live : List FileRow → ℕ
live [] = 0
live (row ∷ rows) = live_one row.fading (live rows)

-- The number is that of the rows that are not fading; before it is taken none of them is.
abbrev pub Counts : Tab → Type 0
Counts t = counted t ≡ live t.rows

abbrev pub Consistent : Tab → Type 0
Consistent t = Distinct t.rows × Counts t

abbrev pub fading_of : Option FileRow → Bool
fading_of none = false
fading_of (some row) = row.fading

here :
    (row : FileRow) (id : Text) (rows : List FileRow)
    → same_text row.id id ≡ true
    → row_of id (row ∷ rows) ≡ some row
unfolding row_of
here row id rows same = rw same refl

skip :
    (row : FileRow) (id : Text) (rows : List FileRow)
    → same_text row.id id ≡ false
    → row_of id (row ∷ rows) ≡ row_of id rows
unfolding row_of
skip row id rows off = rw off refl

never {ℓ} : {A : Type ℓ} {r : FileRow} → some r ≡ none → A
never h = absurd cc

pub Absent-row_of : (id : Text) (rows : List FileRow) → row_of id rows ≡ none → Absent id rows
Absent-row_of id [] h = tt
Absent-row_of id (row ∷ rows) h = elim (Bool-cases (same_text row.id id)) [
  | inl same ↦ never (sym (here row id rows same) ∙ h)
  | inr off ↦ (off, Absent-row_of id rows (sym (skip row id rows off) ∙ h))
]

fade-Absent : (id x : Text) (rows : List FileRow) → Absent x rows → Absent x (fade id rows)
unfolding fade
fade-Absent id x [] h = tt
fade-Absent id x (row ∷ rows) (h, hs) = elim (Bool-cases (same_text row.id id)) [
  | inl same ↦ rw same (h, hs)
  | inr off ↦ rw off (h, fade-Absent id x rows hs)
]

pub fade-Distinct : (id : Text) (rows : List FileRow) → Distinct rows → Distinct (fade id rows)
unfolding fade
fade-Distinct id [] h = tt
fade-Distinct id (row ∷ rows) (h, hs) = elim (Bool-cases (same_text row.id id)) [
  | inl same ↦ rw same (h, hs)
  | inr off ↦ rw off (fade-Absent id row.id rows h, fade-Distinct id rows hs)
]

live_row : (b : Bool) (n : ℕ) → b ≡ false → live_one b n ≡ suc n
live_row true n h = absurd cc
live_row false n h = refl

live_under : (b : Bool) (m n : ℕ) → suc m ≡ n → suc (live_one b m) ≡ live_one b n
live_under true m n h = h
live_under false m n h = ap suc h

pub live-fade :
    (id : Text) (row : FileRow) (rows : List FileRow)
    → row_of id rows ≡ some row
    → row.fading ≡ false
    → suc (live (fade id rows)) ≡ live rows
unfolding fade row_of
live-fade id row [] h clear = never (sym h)
live-fade id row (first ∷ rows) h clear = elim (Bool-cases (same_text first.id id)) [
  | inl same ↦
      let this : some first ≡ some row = sym (here first id rows same) ∙ h in
      let clear' : first.fading ≡ false = ap (λ r. fading_of r) this ∙ clear in
      rw same (sym (live_row first.fading (live rows) clear'))
  | inr off ↦
      rw off (
        live_under first.fading _ _
          (live-fade id row rows (sym (skip first id rows off) ∙ h) clear))
]

take_away-Absent :
    (id x : Text) (rows : List FileRow) → Absent x rows → Absent x (take_away id rows)
unfolding take_away
take_away-Absent id x [] h = tt
take_away-Absent id x (row ∷ rows) (h, hs) = elim (Bool-cases (same_text row.id id && row.fading)) [
  | inl gone ↦ rw gone hs
  | inr stays ↦ rw stays (h, take_away-Absent id x rows hs)
]

pub take_away-Distinct :
    (id : Text) (rows : List FileRow) → Distinct rows → Distinct (take_away id rows)
unfolding take_away
take_away-Distinct id [] h = tt
take_away-Distinct id (row ∷ rows) (h, hs) = elim (Bool-cases (same_text row.id id && row.fading)) [
  | inl gone ↦ rw gone hs
  | inr stays ↦ rw stays (take_away-Absent id row.id rows h, take_away-Distinct id rows hs)
]

faded_row : (b : Bool) (n : ℕ) → b ≡ true → live_one b n ≡ n
faded_row true n h = refl
faded_row false n h = absurd cc

pub live-take_away : (id : Text) (rows : List FileRow) → live (take_away id rows) ≡ live rows
unfolding take_away
live-take_away id [] = refl
live-take_away id (row ∷ rows) = elim (Bool-cases (same_text row.id id && row.fading)) [
  | inl gone ↦
      rw gone
        (sym (faded_row row.fading (live rows) (and_true (same_text row.id id) row.fading gone).1))
  | inr stays ↦ rw stays (ap (live_one row.fading) (live-take_away id rows))
]

live_le : (rows : List FileRow) → live rows ≤ length rows
live_le [] = omega arith
live_le (row ∷ rows) = one_le row.fading (live rows) (length rows) (live_le rows)
  where
    one_le : (b : Bool) (m n : ℕ) → m ≤ n → live_one b m ≤ suc n
    one_le true m n h = omega (arith, h)
    one_le false m n h = omega (arith, h)

-- Where no row fades, there is none to take away.
pub length-take_away :
    (id : Text) (rows : List FileRow)
    → length rows ≡ live rows
    → length (take_away id rows) ≡ length rows
unfolding take_away
length-take_away id [] h = refl
length-take_away id (row ∷ rows) h = elim (Bool-cases (same_text row.id id && row.fading)) [
  | inl gone ↦
      let none_live =
        faded_row row.fading (live rows) (and_true (same_text row.id id) row.fading gone).1 in
      absurd (omega (arith, h, none_live, live_le rows))
  | inr stays ↦ rw stays (ap suc (length-take_away id rows (all_live row.fading rows h)))
]
  where
    all_live :
        (b : Bool) (rs : List FileRow)
        → suc (length rs) ≡ live_one b (live rs)
        → length rs ≡ live rs
    all_live true rs k = absurd (omega (arith, k, live_le rs))
    all_live false rs k = omega (arith, k)
