-- ===== src/Base/Spaces.antt =====
-- `trim()` of a string.
use gokapiplus.Base.Text.{Text}
use gokapiplus.Base.Tests.{leb, ◌==◌, if◌then◌else◌}
use Prim.Native.Nat.{ℕ}
use mathlib.Core.Path.{◌≡◌, refl}
use mathlib.Core.Bool.{Bool, true, false, ◌&&◌, ◌||◌}
use mathlib.Core.List.{[], ◌∷◌}
use gokapiplus.Base.Lists.{All}

-- The white space and line ends of the language.
unfoldable pub is_white_space : ℕ → Bool
is_white_space c =
    leb 9 c && leb c 13
    || (c == 32
        || (c == 160
            || (c == 5760
                || (leb 8192 c && leb c 8202
                    || (c == 8232
                        || (c == 8233
                            || (c == 8239 || (c == 8287 || (c == 12288 || c == 65279)))))))))

unfoldable pub without_front : Text → Text
unfolding is_white_space
without_front [] = []
without_front (c ∷ t) = let rest = without_front t in if is_white_space c then rest else c ∷ t

abbrev pub only_if_any : Bool → ℕ → Text → Text
only_if_any true c [] = []
only_if_any _ c t = c ∷ t

unfoldable pub without_back : Text → Text
unfolding is_white_space
without_back [] = []
without_back (c ∷ t) = only_if_any (is_white_space c) c (without_back t)

unfoldable pub trim : Text → Text
unfolding without_front without_back
trim t = without_back (without_front t)

Solid : Text → Type 0
Solid = All (λ c. is_white_space c ≡ false)

without_front-Solid : (t : Text) → Solid t → without_front t ≡ t
unfolding without_front Solid
without_front-Solid [] h = refl
without_front-Solid (c ∷ t) (h, hs) = rw h refl

only_if_any-solid : (b : Bool) (c : ℕ) (t : Text) → b ≡ false → only_if_any b c t ≡ c ∷ t
only_if_any-solid false c t h = refl
only_if_any-solid true c t h = cc

without_back-Solid : (t : Text) → Solid t → without_back t ≡ t
unfolding without_back Solid
without_back-Solid [] h = refl
without_back-Solid (c ∷ t) (h, hs) =
    rw (without_back-Solid t hs) (only_if_any-solid (is_white_space c) c t h)

-- Nothing is cut from a text without white space.
pub trim-Solid : (t : Text) → All (λ c. is_white_space c ≡ false) t → trim t ≡ t
unfolding trim Solid
trim-Solid t h = rw (without_front-Solid t h) (without_back-Solid t h)
