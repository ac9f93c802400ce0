-- ===== src/Mirror/Paths.antt =====
-- The paths, the buffers and the C strings of MP2/src/csiebox_server.c.
use mathlib.Core.List.{append-nil}
use ntu_sp17fall.Base.{
  ℕ, zero, suc, ◌+◌, ◌≤◌, ◌<◌, ◌≡◌, refl, ap, sym, ◌∙◌, true, false, [], ◌∷◌, ◌++◌, Text, lacks,
  ◌==◌, length, take, drop, leb, replicate, take-append_le, length-take, length-append,
  length-replicate, append_assoc, arith,
}
use ntu_sp17fall.Mirror.Protocol.{padded, c_string}
use ntu_sp17fall.Mirror.{change_path}
use ntu_sp17fall.Client.Paths.{take_all}

le→leb : (a b : ℕ) → a ≤ b → leb a b ≡ true
le→leb a b h = ground arith

pub take_whole : (t : Text) (n : ℕ) → n ≡ length t → take n t ≡ t
take_whole [] zero e = refl
take_whole [] (suc n) e = refl
take_whole (c ∷ t) zero e = absurd (omega (arith, e))
take_whole (c ∷ t) (suc n) e = ap (λ (u : Text). c ∷ u) (take_whole t n (omega (arith, e)))

-- A piece of a stream, and what is behind it.
pub take_front : (t u : Text) (n : ℕ) → n ≡ length t → take n (t ++ u) ≡ t
take_front t u n e = take-append_le n t u (omega (arith, e)) ∙ take_whole t n e

pub drop_front : (t u : Text) (n : ℕ) → n ≡ length t → drop n (t ++ u) ≡ u
drop_front [] u zero e = refl
drop_front [] u (suc n) e = absurd (omega (arith, e))
drop_front (c ∷ t) u zero e = absurd (omega (arith, e))
drop_front (c ∷ t) u (suc n) e = drop_front t u n (omega (arith, e))

pub padded_front : (t u : Text) (n : ℕ) → n ≡ length t → padded n (t ++ u) ≡ t
unfolding padded
padded_front t u n e =
    ap (take n) (append_assoc t u (replicate n 0)) ∙ take_front t (u ++ replicate n 0) n e

pub padded_whole : (t : Text) (n : ℕ) → n ≡ length t → padded n t ≡ t
padded_whole t n e = ap (padded n) (sym (append-nil t)) ∙ padded_front t [] n e

pub padded_nil : (n : ℕ) → padded n [] ≡ replicate n 0
unfolding padded
padded_nil n = take_whole (replicate n 0) n (sym (length-replicate n 0))

pub c_string_lem : (t : Text) → lacks 0 t ≡ true → c_string t ≡ t
unfolding c_string lacks
c_string_lem [] h = refl
c_string_lem (c ∷ t) h =
    let other : (c == 0) ≡ false = ground arith in
    rw other (ap (λ (u : Text). c ∷ u) (c_string_lem t (ground arith)))

pub c_string-zeros : (n : ℕ) → c_string (replicate n 0) ≡ []
unfolding c_string
c_string-zeros zero = refl
c_string-zeros (suc n) = refl

-- A path below the directory of the client, which is given with 7 bytes as in `../cdir`, is the same path
-- below the home directory of the user on the server, while that fits 399 bytes.
pub change_path-below :
    (cdir home name : Text)
    → length cdir ≡ 7
    → length home + length name < 399
    → change_path home (cdir ++ b'/' ∷ name) ≡ home ++ b'/' ∷ name
unfolding change_path
change_path-below cdir home name seven short =
    let rest : drop 8 (cdir ++ b'/' ∷ name) ≡ name =
      ap (drop 8) (sym (append_assoc cdir (b'/' ∷ []) name))
      ∙ drop_front (cdir ++ b'/' ∷ []) name 8
          (omega (arith, seven, length-append cdir (b'/' ∷ []))) in
    let whole = length-append home (b'/' ∷ name) in
    let fits : leb (length (home ++ b'/' ∷ name)) 399 ≡ true =
      le→leb (length (home ++ b'/' ∷ name)) 399 (omega (arith, whole, short)) in
    rw rest (take_all (home ++ b'/' ∷ name) 399 fits)

pub length-padded : (n : ℕ) (t : Text) → n ≡ length (padded n t)
unfolding padded
length-padded n t =
    let full = length-take n (t ++ replicate n 0) in
    let whole = length-append t (replicate n 0) in
    let zeros = length-replicate {A = ℕ} n 0 in omega (arith, full, whole, zeros)
