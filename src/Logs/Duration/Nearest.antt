-- ===== src/Logs/Duration/Nearest.antt =====
-- Which two units a duration is shown in (admin_ui_logs.js).
use gokapiplus.Base.Text.{Text, codes, same_text}
use gokapiplus.Base.Decimal.{decimal}
use gokapiplus.Logs.Duration.{TimeUnit, units, find_unit, start_index, amounts, format_duration}
use gokapiplus.Base.{
  ℕ, ◌+◌, ◌*◌, ◌/◌, ◌%◌, ◌≤◌, ◌<◌, ◌≡◌, refl, List, [], ◌∷◌, ◌++◌, leb, leb→le, leb→gt, Bool-cases,
  ◌⊎◌, inl, inr, arith,
}

-- Two units of the table that follow one another.
abbrev pub Adjacent : List TimeUnit → TimeUnit → TimeUnit → Type 0
Adjacent [] u v = ⊥
Adjacent (a ∷ []) u v = ⊥
Adjacent (a ∷ b ∷ us) u v = ((u ≡ a) × (v ≡ b)) ⊎ Adjacent (b ∷ us) u v

-- `a` of the one and `b` of the other are the duration, cut off below the second unit.
abbrev pub Shows : ℕ → Text → Type 0
Shows seconds text =
    (u : TimeUnit) × (v : TimeUnit) × (a : ℕ) × (b : ℕ) × Adjacent units u v
    × (text ≡ decimal a ++ u.label ++ codes " " ++ decimal b ++ v.label)
    × (a * u.value + b * v.value ≤ seconds)
    × (seconds < a * u.value + b * v.value + v.value)
    × (b * v.value < u.value)
    × ((0 < a) ⊎ (seconds < 60))

minutes :
    (s : ℕ)
    → (60 ≤ s) ⊎ (s < 60)
    → Shows s (decimal (s / 60) ++ codes "m" ++ codes " " ++ decimal (s % 60 / 1) ++ codes "s")
minutes s h = (
  _,
  _,
  s / 60,
  s % 60 / 1,
  inr (inr (inr (inl (refl, refl)))),
  refl,
  omega arith,
  omega arith,
  omega arith,
  elim h [ inl m ↦ inl (omega (arith, m)) | inr m ↦ inr m ],
)

-- A duration is shown as whole numbers of two units that follow one another in the table, which
-- add up to it but for less than one of the second; the second stays below one of the first, and
-- the first is above 0 unless the duration is below a minute.
pub format_duration-Shows : (seconds : ℕ) → Shows seconds (format_duration seconds)
unfolding format_duration find_unit start_index amounts same_text
format_duration-Shows s = elim (Bool-cases (leb 31536000 s)) [
  | inl y ↦ rw y (
    _,
    _,
    s / 31536000,
    s % 31536000 / 86400,
    inl (refl, refl),
    refl,
    omega arith,
    omega arith,
    omega arith,
    inl (omega (arith, leb→le _ _ y)),
  )
  | inr ny ↦ elim (Bool-cases (leb 86400 s)) [
    | inl d ↦
        rw (ny, d)
          (
            _,
            _,
            s / 86400,
            s % 86400 / 3600,
            inr (inl (refl, refl)),
            refl,
            omega arith,
            omega arith,
            omega arith,
            inl (omega (arith, leb→le _ _ d)),
          )
    | inr nd ↦ elim (Bool-cases (leb 3600 s)) [
      | inl h ↦
          rw (ny, nd, h)
            (
              _,
              _,
              s / 3600,
              s % 3600 / 60,
              inr (inr (inl (refl, refl))),
              refl,
              omega arith,
              omega arith,
              omega arith,
              inl (omega (arith, leb→le _ _ h)),
            )
      | inr nh ↦ elim (Bool-cases (leb 60 s)) [
        | inl m ↦ rw (ny, nd, nh, m) (minutes s (inl (omega (arith, leb→le _ _ m))))
        | inr nm ↦ elim (Bool-cases (leb 1 s)) [
          | inl one ↦ rw (ny, nd, nh, nm, one) (minutes s (inr (leb→gt _ _ nm)))
          | inr zero_ ↦ rw (ny, nd, nh, nm, zero_) (minutes s (inr (leb→gt _ _ nm)))
        ]
      ]
    ]
  ]
]
