-- ===== src/Base/Text.antt =====
-- JavaScript strings as lists of Unicode code points, which is what `for … of` walks over.
use Prim.Native.Char.{code}
use Prim.Native.String.{String}
use Prim.Native.Nat.{ℕ, suc, ◌-◌, ◌≤◌}
use mathlib.Core.Path.{◌≡◌}
use mathlib.Core.Logic.{◌↔◌}
use mathlib.Core.Bool.{Bool, true, false, ◌&&◌}
use mathlib.Core.List.{List, [], ◌∷◌}
use native.Mathlib.Omega.{arith}
use gokapiplus.Base.Tests.{leb, ◌==◌, and_true, leb→le, le→leb}
use gokapiplus.Base.Lists.{length, drop}

-- A string without lone surrogates.
abbrev pub Text : Type 0
Text = List ℕ

abbrev pub codes : String → Text
codes String.[] = []
codes (String.◌∷◌ c s) = code c ∷ codes s

-- `===` on strings.
unfoldable pub same_text : Text → Text → Bool
same_text [] [] = true
same_text (a ∷ s) (b ∷ t) = a == b && same_text s t
same_text _ _ = false

pub same_text_iff : (s t : Text) → (same_text s t ≡ true) ↔ (s ≡ t)
unfolding same_text
same_text_iff [] [] = ground arith
same_text_iff (a ∷ s) (b ∷ t) = ground (arith, same_text_iff s t)
same_text_iff [] (b ∷ t) = ground arith
same_text_iff (a ∷ s) [] = ground arith

-- `s.endsWith(suffix)`.
unfoldable pub ends_with : Text → Text → Bool
unfolding same_text
ends_with s suffix =
    leb (length suffix) (length s) && same_text (drop (length s - length suffix) s) suffix

-- More characters in front leave a suffix where it is.
pub ends_with-cons :
    (c : ℕ) (s suffix : Text) → ends_with s suffix ≡ true → ends_with (c ∷ s) suffix ≡ true
unfolding ends_with
ends_with-cons c s suffix h =
    let (fits, same) =
      and_true (leb (length suffix) (length s))
        (same_text (drop (length s - length suffix) s) suffix) h in
    let inside : length suffix ≤ length s = leb→le _ _ fits in
    let e : suc (length s) - length suffix ≡ suc (length s - length suffix) = omega arith in
    rw (e, le→leb (length suffix) (suc (length s)) (omega arith)) same
