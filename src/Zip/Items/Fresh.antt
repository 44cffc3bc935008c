-- ===== src/Zip/Items/Fresh.antt =====
-- The search for an unused path in `zipDeduplicateNames` (admin_ui_zip.js).
use gokapiplus.Base.{
  ℕ, zero, suc, ◌≤◌, ◌<◌, ◌≡◌, ◌≢◌, refl, ◌∙◌, sym, inl, inr, true, false, List, [], ◌∷◌, arith,
  Bool-cases, le_cases, length, if◌then◌else◌,
}
use gokapiplus.Base.Text.{Text, same_text, same_text_iff}
use gokapiplus.Zip.Items.{has, first_free}

-- The used paths but one.
without : Text → List Text → List Text
without p [] = []
without p (q ∷ used) = let rest = without p used in if same_text q p then rest else q ∷ rest

has-without : (p r : Text) (used : List Text) → p ≢ r → has (without p used) r ≡ has used r
unfolding has without
has-without p r [] h = refl
has-without p r (q ∷ used) h =
    ground (arith, has-without p r used h, same_text_iff q p, same_text_iff q r)

length-without-le : (p : Text) (used : List Text) → length (without p used) ≤ length used
unfolding without
length-without-le p [] = omega arith
length-without-le p (q ∷ used) = ground (arith, length-without-le p used)

length-without-lt :
    (p : Text) (used : List Text) → has used p ≡ true → length (without p used) < length used
unfolding has without
length-without-lt p [] h = cc
length-without-lt p (q ∷ used) h =
    ground (arith, length-without-lt p used, length-without-le p used)

module _ (path : ℕ → Text) (distinct : (m n : ℕ) → path m ≡ path n → m ≡ n) where
  first_free-without :
      (fuel : ℕ) (used : List Text) (m n : ℕ)
      → m < n
      → first_free fuel (without (path m) used) path n ≡ first_free fuel used path n
  unfolding first_free
  first_free-without zero used m n h = refl
  first_free-without (suc fuel) used m n h =
      rw (has-without (path m) (path n) used (λ e. absurd (omega (arith, distinct m n e))))
        (ground (arith, first_free-without fuel used m (suc n)))

  -- The result is the path of the first counter, from the start on, whose path is unused.
  pub first_free_lem :
      (fuel : ℕ) (used : List Text) (start : ℕ)
      → length used < fuel
      → (n : ℕ) × (first_free fuel used path start ≡ path n)
        × (start ≤ n)
        × (has used (path n) ≡ false)
        × ((m : ℕ) → start ≤ m → m < n → has used (path m) ≡ true)
  unfolding first_free
  first_free_lem zero used start h = absurd (omega arith)
  first_free_lem (suc fuel) used start h = elim (Bool-cases (has used (path start))) [
    | inl taken ↦
        let shorter = length-without-lt (path start) used taken in
        let (n, same, later, fresh, all) =
          first_free_lem fuel (without (path start) used) (suc start) (omega arith) in
        (
          n,
          rw taken (sym (first_free-without fuel used start (suc start) (omega arith)) ∙ same),
          omega arith,
          sym (
                has-without (path start) (path n) used
                  (λ e. absurd (omega (arith, distinct start n e))))
              ∙ fresh,
          λ m low high. elim (le_cases start m low) [
            | inl here ↦ rw (← here) taken
            | inr beyond ↦
                sym (
                  has-without (path start) (path m) used
                    (λ e. absurd (omega (arith, distinct start m e))))
                ∙ all m beyond high
          ],
        )
    | inr free ↦ (start, rw free, omega arith, free, λ m low high. absurd (omega arith))
  ]

-- No used path is handed out again.
pub first_free-unused :
    (path : ℕ → Text)
    → ((m n : ℕ) → path m ≡ path n → m ≡ n)
    → (used : List Text) (start : ℕ)
    → has used (first_free (suc (length used)) used path start) ≡ false
first_free-unused path distinct used start =
    let (n, same, later, fresh, all) =
      first_free_lem path distinct (suc (length used)) used start (omega arith) in
    rw same fresh
