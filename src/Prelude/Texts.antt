-- ===== src/Prelude/Texts.antt =====
-- Texts as lists of code points, with the tests that the program makes on names.
use Prim.Native.Nat.{ℕ}
use Prim.Native.Char.{code}
use Prim.Native.String.{String}
use mathlib.Core.Path.{◌≡◌, refl}
use mathlib.Core.Bool.{Bool, true, false, ◌&&◌}
use mathlib.Core.List.{List, [], ◌∷◌, ◌++◌, append-nil, append_assoc}
use native.Mathlib.Omega.{arith}
use digital_twin_framework.Prelude.Equals.{◌==◌, nat_eq, ==_refl}

abbrev pub Text : Type 0
Text = List ℕ

-- The code points of a literal.
abbrev pub codes : String → Text
codes String.[] = []
codes (String.◌∷◌ c s) = code c ∷ codes s

-- `text.startswith(prefix)`, argument order of the method.
unfoldable pub starts_with : Text → Text → Bool
starts_with s [] = true
starts_with [] (p ∷ ps) = false
starts_with (c ∷ s) (p ∷ ps) = c == p && starts_with s ps

pub starts_with-append : (p s : Text) → starts_with (p ++ s) p ≡ true
unfolding starts_with
starts_with-append [] s = refl
starts_with-append (c ∷ p) s = ground (arith, starts_with-append p s, ==_refl c)

-- Cancelling a common start, and a common end.
pub append-cancel_left : (p s t : Text) → p ++ s ≡ p ++ t → s ≡ t
append-cancel_left [] s t h = h
append-cancel_left (c ∷ p) s t h = append-cancel_left p s t (cc)

nil-ne-snoc : (s : Text) (c : ℕ) → ¬ (◌≡◌ {A = Text} [] (s ++ (c ∷ [])))
nil-ne-snoc [] c h = cc
nil-ne-snoc (d ∷ s) c h = cc

pub snoc-injective : (s t : Text) (c d : ℕ) → s ++ (c ∷ []) ≡ t ++ (d ∷ []) → s ≡ t
snoc-injective [] [] c d h = refl
snoc-injective [] (y ∷ t) c d h = absurd (nil-ne-snoc t d (cc))
snoc-injective (x ∷ s) [] c d h = absurd (nil-ne-snoc s c (cc))
snoc-injective (x ∷ s) (y ∷ t) c d h = let tails : s ≡ t = snoc-injective s t c d (cc) in cc

pub append-cancel_right : (e s t : Text) → s ++ e ≡ t ++ e → s ≡ t
append-cancel_right [] s t h = rw (append-nil, append-nil) at h
append-cancel_right (c ∷ e) s t h =
    snoc-injective s t c c
      (append-cancel_right e (s ++ (c ∷ [])) (t ++ (c ∷ [])) (simp append_assoc h))
