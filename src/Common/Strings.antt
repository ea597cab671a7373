-- ===== src/Common/Strings.antt =====
-- Go strings as lists of bytes, with the few functions of package strings that the program calls.
use Prim.Native.Nat.{ℕ}
use Prim.Native.Char.{code}
use Prim.Native.String.{String}
use mathlib.Core.Path.{◌≡◌, refl}
use mathlib.Core.Logic.{◌↔◌}
use mathlib.Core.Bool.{Bool, true, false, ◌&&◌}
use mathlib.Core.List.{List, [], ◌∷◌, ◌++◌}
use native.Mathlib.Omega.{arith}
use turnike.Common.Booleans.{◌==◌, if◌then◌else◌}

abbrev pub Text : Type 0
Text = List ℕ

-- The bytes of an ASCII literal.
abbrev pub codes : String → Text
codes String.[] = []
codes (String.◌∷◌ c s) = code c ∷ codes s

unfoldable pub text_eq : Text → Text → Bool
text_eq [] [] = true
text_eq [] (y ∷ ys) = false
text_eq (x ∷ xs) [] = false
text_eq (x ∷ xs) (y ∷ ys) = x == y && text_eq xs ys

pub text_eq_iff : (s t : Text) → (text_eq s t ≡ true) ↔ (s ≡ t)
unfolding text_eq
text_eq_iff [] [] = ground arith
text_eq_iff [] (y ∷ ys) = ground arith
text_eq_iff (x ∷ xs) [] = ground arith
text_eq_iff (x ∷ xs) (y ∷ ys) = ground (arith, text_eq_iff xs ys)

-- strings.HasPrefix(s, p).
unfoldable pub starts_with : Text → Text → Bool
starts_with s [] = true
starts_with [] (y ∷ ys) = false
starts_with (x ∷ xs) (y ∷ ys) = x == y && starts_with xs ys

pub starts_with_iff : (s p : Text) → (starts_with s p ≡ true) ↔ ((r : Text) × (s ≡ p ++ r))
unfolding starts_with
starts_with_iff s [] = (λ _. (s, refl), λ _. refl)
starts_with_iff [] (y ∷ ys) = (λ h. cc, λ h. absurd (cc (h.1)))
starts_with_iff (x ∷ xs) (y ∷ ys) =
    let ih = starts_with_iff xs ys in
    (
      λ h. ((ih.0 (ground arith)).0, ground (arith, (ih.0 (ground arith)).1)),
      λ h. ground (arith, h.1, ih.1 (h.0, ground (arith, h.1))),
    )

-- strings.TrimRight(s, "/") for a cut set of one byte.
unfoldable pub trim_right : ℕ → Text → Text
trim_right c [] = []
trim_right c (x ∷ xs) = trim_front c x (trim_right c xs)
  where
    trim_front : ℕ → ℕ → Text → Text
    trim_front c x [] = if x == c then [] else x ∷ []
    trim_front c x (y ∷ ys) = x ∷ y ∷ ys
