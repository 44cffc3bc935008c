-- ===== src/Base/Split.antt =====
-- `split` by one character and `join`, on texts.
use gokapiplus.Base.Text.{Text}
use gokapiplus.Base.Tests.{◌==◌, if◌then◌else◌, ==_refl}
use gokapiplus.Base.Lists.{All}
use Prim.Native.Nat.{ℕ}
use mathlib.Core.Path.{◌≡◌, refl}
use mathlib.Core.Bool.{false}
use mathlib.Core.List.{List, [], ◌∷◌, ◌++◌}

-- The character goes to the front of the first part.
unfoldable pub to_first : ℕ → List Text → List Text
to_first a [] = (a ∷ []) ∷ []
to_first a (p ∷ ps) = (a ∷ p) ∷ ps

-- `text.split(c)`.
unfoldable pub split : ℕ → Text → List Text
unfolding to_first
split c [] = [] ∷ []
split c (a ∷ t) = if a == c then [] ∷ split c t else to_first a (split c t)

-- `parts.join(c)`.
unfoldable pub join : ℕ → List Text → Text
join c [] = []
join c (p ∷ []) = p
join c (p ∷ q ∷ ps) = let rest = join c (q ∷ ps) in p ++ c ∷ rest

-- The character is not in the text.
abbrev pub Lacks : ℕ → Text → Type 0
Lacks c [] = Unit
Lacks c (a ∷ t) = ((a == c) ≡ false) × Lacks c t

split-Lacks : (c : ℕ) (p : Text) → Lacks c p → split c p ≡ p ∷ []
unfolding split
split-Lacks c [] h = refl
split-Lacks c (a ∷ p) (no_, h) = rw (no_, split-Lacks c p h) refl

split-append : (c : ℕ) (p t : Text) → Lacks c p → split c (p ++ c ∷ t) ≡ p ∷ split c t
unfolding split
split-append c [] t h = rw (==_refl c) refl
split-append c (a ∷ p) t (no_, h) = rw (no_, split-append c p t h) refl

-- Parts without the character come back.
pub split-join :
    (c : ℕ) (p : Text) (ps : List Text)
    → Lacks c p
    → All (Lacks c) ps
    → split c (join c (p ∷ ps)) ≡ p ∷ ps
unfolding join
split-join c p [] h hs = split-Lacks c p h
split-join c p (q ∷ ps) h (hq, hs) =
    rw (split-append c p (join c (q ∷ ps)) h, split-join c q ps hq hs) refl
