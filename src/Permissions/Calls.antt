-- ===== src/Permissions/Calls.antt =====
-- The calls under way for one permission (`changeUserPermission`, admin_ui_users.js).
use gokapiplus.Base.{
  ◌≡◌, ◌≢◌, refl, ap, Bool, true, false, List, [], ◌∷◌, ◌++◌, arith, Bool-cases, inl, inr,
  if◌then◌else◌, ==_refl, ==_iff,
}
use gokapiplus.Permissions.{Permission, replace, replace_other, other, same, Pending, drop_call}

pub same_refl : (p : Permission) → same p p ≡ true
same_refl replace = refl
same_refl replace_other = refl
same_refl (other n) = ==_refl n

pub same-true : (p q : Permission) → same p q ≡ true → p ≡ q
same-true replace replace h = refl
same-true replace_other replace_other h = refl
same-true (other m) (other n) h = ap other ((==_iff m n).0 h)
same-true _ _ h = cc

unfoldable pub calls : Permission → List Pending → List Bool
calls p [] = []
calls p (c ∷ cs) =
    let rest = calls p cs in if same p c.permission then c.was_granted ∷ rest else rest

pub calls_insert_other :
    (q : Permission) (c : Pending) (l g : List Pending)
    → same q c.permission ≡ false
    → calls q (l ++ c ∷ g) ≡ calls q (l ++ g)
unfolding calls
calls_insert_other q c [] g h = rw h
calls_insert_other q c (d ∷ l) g h = rw (calls_insert_other q c l g h)

cons_not_nil : (b : Bool) (bs : List Bool) → (b ∷ bs) ≢ []
cons_not_nil b bs e = ground (arith, e)

pub calls_insert_self :
    (q : Permission) (c : Pending) (l g : List Pending)
    → same q c.permission ≡ true
    → calls q (l ++ g) ≡ []
    → calls q (l ++ c ∷ g) ≡ c.was_granted ∷ []
unfolding calls
calls_insert_self q c [] g h none = rw (h, none)
calls_insert_self q c (d ∷ l) g h none = elim (Bool-cases (same q d.permission)) [
  | inl here ↦ absurd (cons_not_nil _ _ (rw here at none))
  | inr apart ↦ rw apart (calls_insert_self q c l g h (rw apart at none))
]

pub calls_drop_other :
    (p q : Permission) (l : List Pending) → same q p ≡ false → calls q (drop_call p l) ≡ calls q l
unfolding calls drop_call
calls_drop_other p q [] h = refl
calls_drop_other p q (c ∷ l) h = elim (Bool-cases (same p c.permission)) [
  | inl here ↦
      let e : p ≡ c.permission = same-true p c.permission here in
      let apart : same q c.permission ≡ false = rw (← e) h in rw (here, apart) refl
  | inr away ↦ rw (away, calls_drop_other p q l h) refl
]

abbrev tail : List Bool → List Bool
tail [] = []
tail (b ∷ bs) = bs

pub calls_drop_self :
    (p : Permission) (b : Bool) (l : List Pending)
    → calls p l ≡ b ∷ []
    → calls p (drop_call p l) ≡ []
unfolding calls drop_call
calls_drop_self p b [] h = refl
calls_drop_self p b (c ∷ l) h = elim (Bool-cases (same p c.permission)) [
  | inl here ↦ rw here (ap tail (rw here at h))
  | inr away ↦ rw (away, away) (calls_drop_self p b l (rw away at h))
]
