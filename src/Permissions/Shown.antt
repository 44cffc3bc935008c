-- ===== src/Permissions/Shown.antt =====
-- What the buttons show and what the server holds (`changeUserPermission`, admin_ui_users.js).
use gokapiplus.Base.{
  ℕ, zero, suc, ◌≡◌, refl, sym, ap, ◌∙◌, subst, Bool, true, false, not, ◌||◌, List, [], ◌∷◌, ◌++◌,
  append_assoc, append-nil, arith, Bool-cases, inl, inr, if◌then◌else◌, In,
}
use gokapiplus.Permissions.{
  Permission, replace, replace_other, same, Indicator, Pending, World, mark, send, needs_replace,
  press, change_from, change_user_permission, drop_call, shown_after, come_back,
}
use gokapiplus.Permissions.Calls.{
  same_refl, same-true, calls, calls_insert_other, calls_insert_self, calls_drop_other,
  calls_drop_self,
}

-- A button and the calls for it: either it shows what the server holds and nothing is under way,
-- or it shows neither and one call is under way, which starts from what the server holds.
pub data Fits (i : Indicator) (server : Bool) : List Bool → Type 0 where
  idle : i.processing ≡ false → i.granted ≡ server → i.notgranted ≡ not server → Fits i server []
  busy :
      {b : Bool}
      → i.processing ≡ true
      → i.granted ≡ false
      → i.notgranted ≡ false
      → b ≡ server
      → Fits i server (b ∷ [])

-- `later` are the calls that the code is about to make.
abbrev Sound : List Pending → World → Type 0
Sound later w = (q : Permission) → Fits (w.board q) (w.server q) (calls q (w.in_flight ++ later))

idle-calls :
    (i : Indicator) (server : Bool) (bs : List Bool)
    → Fits i server bs
    → i.processing ≡ false
    → bs ≡ []
idle-calls i server _ (idle _ _ _) h = refl
idle-calls i server _ (busy on _ _ _) h = cc

idle-granted :
    (i : Indicator) (server : Bool) (bs : List Bool)
    → Fits i server bs
    → i.processing ≡ false
    → i.granted ≡ server
idle-granted i server _ (idle _ shown _) h = shown
idle-granted i server _ (busy on _ _ _) h = cc

mark-Sound :
    (p : Permission) (later : List Pending) (w : World)
    → (w.board p).processing ≡ false
    → Sound later w
    → Sound (record { permission = p; was_granted = (w.board p).granted } ∷ later) (mark p w)
mark-Sound p later w free sound q = elim (Bool-cases (same q p)) [
  | inr apart ↦
      rw
        (
          apart,
          calls_insert_other q (record { permission = p; was_granted = (w.board p).granted })
              w.in_flight later apart,
        )
        (sound q)
  | inl here ↦
      let e : q ≡ p = same-true q p here in
      let still : (w.board q).processing ≡ false =
        subst (λ x. (w.board x).processing ≡ false) (sym e) free in
      let none = idle-calls (w.board q) (w.server q) _ (sound q) still in
      let shown = idle-granted (w.board q) (w.server q) _ (sound q) still in
      let c : Pending = record { permission = p; was_granted = (w.board p).granted } in
      rw (here, calls_insert_self q c w.in_flight later here none)
        (busy refl refl refl (subst (λ x. (w.board x).granted ≡ w.server q) e shown))
]

send-Sound :
    (c : Pending) (later : List Pending) (w : World) → Sound (c ∷ later) w → Sound later (send c w)
send-Sound c later w sound q = rw (append_assoc w.in_flight (c ∷ []) later) (sound q)

if-Sound :
    (later : List Pending) (b : Bool) (w w' : World)
    → Sound later w
    → Sound later w'
    → Sound later (if b then w else w')
if-Sound later true w w' h k = h
if-Sound later false w w' h k = k

press-Sound :
    (again : Permission → World → World)
    → ((p : Permission) (later : List Pending) (w : World)
        → Sound later w
        → Sound later (again p w))
    → (p : Permission) (later : List Pending) (w : World) → Sound later w
    → Sound later (press again p w)
unfolding press
press-Sound again keeps p later w sound =
    elim (Bool-cases ((w.board p).processing || (w.board p).nochange)) [
      | inl off ↦ rw off sound
      | inr on ↦
          let free : (w.board p).processing ≡ false = ground arith in
          let c : Pending = record { permission = p; was_granted = (w.board p).granted } in
          let marked = mark-Sound p later w free sound in
          let first =
            if-Sound (c ∷ later) (needs_replace p (w.board p).granted (mark p w))
              (again replace (mark p w)) (mark p w) (keeps replace (c ∷ later) (mark p w) marked)
              marked in
          rw on (
            send-Sound c later _
              (if-Sound (c ∷ later) _ _ _ (keeps replace_other (c ∷ later) _ first) first))
    ]

change_from-Sound :
    (fuel : ℕ) (p : Permission) (later : List Pending) (w : World)
    → Sound later w
    → Sound later (change_from fuel p w)
unfolding change_from
change_from-Sound zero p later w sound = sound
change_from-Sound (suc fuel) p later w sound =
    press-Sound (change_from fuel) (change_from-Sound fuel) p later w sound

In-calls : (c : Pending) (l : List Pending) → In c l → In c.was_granted (calls c.permission l)
unfolding calls
In-calls c [] h = h
In-calls c (d ∷ l) (inl e) =
    let here : same c.permission d.permission ≡ true =
      subst (λ (x : Pending). same c.permission x.permission ≡ true) e (same_refl c.permission) in
    rw here (inl (ap (λ (x : Pending). x.was_granted) e))
In-calls c (d ∷ l) (inr h) = elim (Bool-cases (same c.permission d.permission)) [
  | inl here ↦ rw here (inr (In-calls c l h))
  | inr apart ↦ rw apart (In-calls c l h)
]

-- A button comes to rest again when its call comes back.
rested :
    (i : Indicator) (server done b : Bool) (bs : List Bool)
    → Fits i server bs
    → In b bs
    → Fits (shown_after done b i) (if done then not b else server) []
rested i server done b _ (idle _ _ _) h = absurd h
rested i server true true _ (busy on off off' same_bit) (inl e) = idle refl off refl
rested i server true false _ (busy on off off' same_bit) (inl e) = idle refl refl off'
rested i server false true _ (busy on off off' same_bit) (inl e) =
    idle refl (e ∙ same_bit) (ground (arith, e, same_bit, off'))
rested i server false false _ (busy on off off' same_bit) (inl e) =
    idle refl (ground (arith, e, same_bit, off)) (ground (arith, e, same_bit))
rested i server done b _ (busy on off off' same_bit) (inr h) = absurd h

one_call :
    (i : Indicator) (server b : Bool) (bs : List Bool)
    → Fits i server bs
    → In b bs
    → (x : Bool) × (bs ≡ x ∷ [])
one_call i server b _ (idle _ _ _) h = absurd h
one_call i server b _ (busy {b = x} _ _ _ _) h = (x, refl)

come_back-Sound :
    (c : Pending) (done : Bool) (w : World)
    → In c w.in_flight
    → Sound [] w
    → Sound [] (come_back c done w)
unfolding come_back
come_back-Sound c done w flying sound q = elim (Bool-cases (same q c.permission)) [
  | inr apart ↦
      rw
        (
          apart,
          append-nil (drop_call c.permission w.in_flight),
          calls_drop_other c.permission q w.in_flight apart,
        )
        (subst (λ l. Fits (w.board q) (w.server q) (calls q l)) (append-nil w.in_flight) (sound q))
  | inl here ↦
      let e : c.permission ≡ q = sym (same-true q c.permission here) in
      let fits =
        subst (λ l. Fits (w.board c.permission) (w.server c.permission) (calls c.permission l))
          (append-nil w.in_flight) (sound c.permission) in
      let inside = In-calls c w.in_flight flying in
      let (x, one) = one_call _ _ c.was_granted _ fits inside in
      subst
        (λ r.
          Fits ((come_back c done w).board r) ((come_back c done w).server r)
            (calls r ((come_back c done w).in_flight ++ [])))
        e
        (rw
          (
            same_refl c.permission,
            append-nil (drop_call c.permission w.in_flight),
            calls_drop_self c.permission x w.in_flight one,
          )
          (rested _ _ done c.was_granted _ fits inside))
]

-- The page as it was drawn shows what the server holds; then buttons are pressed and calls come
-- back, in any order.
pub data Reach : World → Type 0 where
  drawn :
      {w : World}
      → w.in_flight ≡ []
      → ((q : Permission) → Fits (w.board q) (w.server q) [])
      → Reach w
  pressed : {w : World} (p : Permission) → Reach w → Reach (change_user_permission p w)
  returned :
      {w : World} (c : Pending) (done : Bool)
      → Reach w
      → In c w.in_flight
      → Reach (come_back c done w)

Reach-Sound : {w : World} → Reach w → Sound [] w
unfolding calls change_user_permission
Reach-Sound (drawn quiet fits) q = rw quiet (fits q)
Reach-Sound (pressed {w} p r) q = change_from-Sound 2 p [] w (Reach-Sound r) q
Reach-Sound (returned {w} c done r flying) q = come_back-Sound c done w flying (Reach-Sound r) q

-- However buttons are pressed and calls succeed or fail, a button without a call under way shows
-- what the server holds, and a button with one shows neither state and has no second call.
pub Reach-Fits :
    {w : World} → Reach w → (q : Permission) → Fits (w.board q) (w.server q) (calls q w.in_flight)
Reach-Fits {w} r q =
    subst (λ l. Fits (w.board q) (w.server q) (calls q l)) (append-nil w.in_flight)
      (Reach-Sound r q)
