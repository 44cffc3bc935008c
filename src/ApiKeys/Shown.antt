-- ===== src/ApiKeys/Shown.antt =====
-- What the buttons and names of the API keys show (admin_ui_api.js).
use gokapiplus.Base.Text.{Text}
use gokapiplus.ApiKeys.{
  Indicator, Field, Key, press_free, change_api_permission, shows, succeed, fail,
  add_friendly_name_change, submit_entry, Event, pressed, succeeded, failed, opened, submitted,
  typed, handle, run,
}
use mathlib.Core.Bool.{true≢false}
use gokapiplus.Base.{
  subst, Bool, true, false, not, ◌||◌, List, [], ◌∷◌, ◌≡◌, refl, sym, ap, ◌∙◌, inl, inr, Bool-cases,
}

-- Without a call the button shows what the server holds; with one, the only one, it shows neither
-- state and the call knows what the server holds.
abbrev pub FitsCalls : Indicator → Bool → List Bool → Type 0
FitsCalls i holds [] = (i.processing ≡ false) × (i.granted ≡ holds) × (i.notgranted ≡ not holds)
FitsCalls i holds (was ∷ []) =
    (i.processing ≡ true) × (i.granted ≡ false) × (i.notgranted ≡ false) × (was ≡ holds)
FitsCalls i holds (was ∷ next ∷ calls) = ⊥

-- A name that is not being edited is the last one that was sent, if any was.
abbrev pub Named : Bool → Text → List Text → Type 0
Named edited shown [] = Unit
Named true shown (name ∷ names) = Unit
Named false shown (name ∷ names) = shown ≡ name

abbrev pub Fits : Key → Type 0
Fits k = FitsCalls k.indicator k.holds k.calls × Named k.field.edited k.field.shown k.field.sent

press-Fits :
    (i : Indicator) (holds : Bool) (calls : List Bool)
    → i.processing ≡ false
    → FitsCalls i holds calls
    → FitsCalls
        (record i { processing = true; granted = false; notgranted = false })
        holds
        (i.granted ∷ calls)
press-Fits i holds [] free (idle, granted, notgranted) = (refl, refl, refl, granted)
press-Fits i holds (was ∷ []) free (busy, _, _, _) = absurd (true≢false (sym busy ∙ free))
press-Fits i holds (was ∷ next ∷ calls) free h = absurd h

or_false : (a b : Bool) → (a || b) ≡ false → a ≡ false
or_false true b h = absurd (true≢false h)
or_false false b h = refl

change_api_permission-Fits : (k : Key) → Fits k → Fits (change_api_permission k)
unfolding change_api_permission press_free
change_api_permission-Fits k (calls, named) =
    elim (Bool-cases (k.indicator.processing || k.indicator.nochange)) [
      | inl stays ↦ rw stays (calls, named)
      | inr free ↦ rw free (press-Fits k.indicator k.holds k.calls (or_false _ _ free) calls, named)
    ]

succeed-Fits : (k : Key) (calls : List Bool) → k.calls ≡ calls → Fits k → Fits (succeed k calls)
unfolding succeed shows
succeed-Fits k [] e fits = fits
succeed-Fits k (was ∷ []) e (calls, named) = ((refl, refl, refl), named)
succeed-Fits k (was ∷ next ∷ rest) e (calls, named) =
    absurd (subst (FitsCalls k.indicator k.holds) e calls)

fail-Fits : (k : Key) (calls : List Bool) → k.calls ≡ calls → Fits k → Fits (fail k calls)
unfolding fail shows
fail-Fits k [] e fits = fits
fail-Fits k (was ∷ []) e (calls, named) =
    let (busy, granted, notgranted, same) = subst (FitsCalls k.indicator k.holds) e calls in
    ((refl, same, ap not same), named)
fail-Fits k (was ∷ next ∷ rest) e (calls, named) =
    absurd (subst (FitsCalls k.indicator k.holds) e calls)

being_edited : (shown : Text) (sent : List Text) → Named true shown sent
being_edited shown [] = tt
being_edited shown (name ∷ names) = tt

-- A field by its parts.
abbrev field : Text → Bool → Text → List Text → Field
field shown edited value sent = record {
  shown = shown;
  edited = edited;
  value = value;
  sent = sent;
}

open-Named :
    (shown : Text) (edited : Bool) (value : Text) (sent : List Text)
    → Named edited shown sent
    → let g = add_friendly_name_change (field shown edited value sent) in
      Named g.edited g.shown g.sent
unfolding add_friendly_name_change
open-Named shown true value sent named = named
open-Named shown false value sent named = being_edited [] sent

submit-Named :
    (shown : Text) (edited : Bool) (value : Text) (sent : List Text)
    → Named edited shown sent
    → let g = submit_entry (field shown edited value sent) in Named g.edited g.shown g.sent
unfolding submit_entry
submit-Named shown true value sent named = refl
submit-Named shown false value sent named = named

handle-Fits : (k : Key) (e : Event) → Fits k → Fits (handle k e)
unfolding handle
handle-Fits k pressed fits = change_api_permission-Fits k fits
handle-Fits k succeeded fits = succeed-Fits k k.calls refl fits
handle-Fits k failed fits = fail-Fits k k.calls refl fits
handle-Fits k opened (calls, named) =
    (calls, open-Named k.field.shown k.field.edited k.field.value k.field.sent named)
handle-Fits k submitted (calls, named) =
    (calls, submit-Named k.field.shown k.field.edited k.field.value k.field.sent named)
handle-Fits k (typed name) fits = fits

-- If a button without a call shows what the server holds, then after any sequence of presses,
-- returns of calls and edits of the name so does it again, at most one call is under way, and a
-- name that is not being edited is the last one that was sent.
pub run-Fits : (k : Key) (es : List Event) → Fits k → Fits (run k es)
unfolding run
run-Fits k [] fits = fits
run-Fits k (e ∷ es) fits = run-Fits (handle k e) es (handle-Fits k e fits)
