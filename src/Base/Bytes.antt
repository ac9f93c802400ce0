-- ===== src/Base/Bytes.antt =====
-- C strings and byte buffers: lists of bytes.
use Prim.Native.Nat.{ℕ}
use Prim.Native.Char.{code}
use Prim.Native.String.{String}
use mathlib.Core.Path.{◌≡◌, refl}
use mathlib.Core.Logic.{◌↔◌}
use mathlib.Core.Bool.{Bool, true, false, ◌&&◌, not}
use mathlib.Core.List.{List, [], ◌∷◌, ◌++◌}
use native.Mathlib.Omega.{arith}
use ntu_sp17fall.Base.Tests.{◌==◌}

abbrev pub Text : Type 0
Text = List ℕ

-- The bytes of an ASCII literal.
abbrev pub codes : String → Text
codes String.[] = []
codes (String.◌∷◌ c s) = code c ∷ codes s

-- `strcmp(a, b) == 0`
unfoldable pub text_eq : Text → Text → Bool
text_eq [] [] = true
text_eq [] (y ∷ ys) = false
text_eq (x ∷ xs) [] = false
text_eq (x ∷ xs) (y ∷ ys) = x == y && text_eq xs ys

pub text_eq_iff : (a b : Text) → (text_eq a b ≡ true) ↔ (a ≡ b)
unfolding text_eq
text_eq_iff [] [] = ground arith
text_eq_iff [] (y ∷ ys) = ground arith
text_eq_iff (x ∷ xs) [] = ground arith
text_eq_iff (x ∷ xs) (y ∷ ys) = ground (arith, text_eq_iff xs ys)

pub text_eq_refl : (a : Text) → text_eq a a ≡ true
text_eq_refl a = (text_eq_iff a a).1 refl

-- The byte `d` is not in the text.
unfoldable pub lacks : ℕ → Text → Bool
lacks d [] = true
lacks d (c ∷ t) = not (c == d) && lacks d t

pub lacks-append :
    (d : ℕ) (a b : Text) → lacks d a ≡ true → lacks d b ≡ true → lacks d (a ++ b) ≡ true
unfolding lacks
lacks-append d [] b h k = k
lacks-append d (c ∷ a) b h k =
    let rest : lacks d a ≡ true = ground arith in
    let first : (c == d) ≡ false = ground arith in rw (first, lacks-append d a b rest k) refl
