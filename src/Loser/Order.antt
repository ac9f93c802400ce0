-- ===== src/Loser/Order.antt =====
-- `std::string`'s order, `std::sort` of names, and `std::map` from texts to texts as a sorted list.
use mathlib.Core.List.{Perm}
use mathlib.Core.List.Perm
use ntu_sp17fall.Base.{
  ◌≡◌, refl, Bool, true, false, ◌&&◌, ◌||◌, List, [], ◌∷◌, Text, arith, if◌then◌else◌, ◌==◌, ltb,
  inl, inr, Bool-cases,
}

-- `a <= b` for `std::string`.
unfoldable pub text_le : Text → Text → Bool
text_le [] b = true
text_le (x ∷ a) [] = false
text_le (x ∷ a) (y ∷ b) = ltb x y || (x == y && text_le a b)

pub text_le_total : (a b : Text) → text_le a b ≡ false → text_le b a ≡ true
unfolding text_le
text_le_total [] b h = cc
text_le_total (x ∷ a) [] h = refl
text_le_total (x ∷ a) (y ∷ b) h = ground (arith, text_le_total a b)

unfoldable pub insert : Text → List Text → List Text
insert x [] = x ∷ []
insert x (y ∷ ys) = if text_le x y then x ∷ y ∷ ys else y ∷ insert x ys

-- `std::sort` is the standard library's: what the code relies on is an ordered permutation of the names,
-- and there is only one, which this function computes.
unfoldable pub sort : List Text → List Text
unfolding insert
sort [] = []
sort (x ∷ xs) = insert x (sort xs)

pub insert-perm : (x : Text) (ys : List Text) → Perm (insert x ys) (x ∷ ys)
unfolding insert
insert-perm x [] = Perm.refl (x ∷ [])
insert-perm x (y ∷ ys) = elim (Bool-cases (text_le x y)) [
  | inl e ↦ rw e (Perm.refl (x ∷ y ∷ ys))
  | inr e ↦ rw e (Perm.trans (Perm.cons y (insert-perm x ys)) (Perm.swap x y ys))
]

pub sort-perm : (xs : List Text) → Perm (sort xs) xs
unfolding sort
sort-perm [] = Perm.refl []
sort-perm (x ∷ xs) = Perm.trans (insert-perm x (sort xs)) (Perm.cons x (sort-perm xs))

abbrev pub IsSorted : List Text → Type 0
IsSorted [] = Unit {0}
IsSorted (x ∷ []) = Unit {0}
IsSorted (x ∷ y ∷ ys) = (text_le x y ≡ true) × IsSorted (y ∷ ys)

-- The first name of a list is at least `x`.
abbrev AtLeast : Text → List Text → Type 0
AtLeast x [] = Unit {0}
AtLeast x (y ∷ ys) = text_le x y ≡ true

IsSorted-cons : (x : Text) (ys : List Text) → AtLeast x ys → IsSorted ys → IsSorted (x ∷ ys)
IsSorted-cons x [] h s = tt
IsSorted-cons x (y ∷ ys) h s = (h, s)

IsSorted-parts : (x : Text) (ys : List Text) → IsSorted (x ∷ ys) → AtLeast x ys × IsSorted ys
IsSorted-parts x [] s = (tt, tt)
IsSorted-parts x (y ∷ ys) s = s

insert-AtLeast :
    (x y : Text) (ys : List Text) → text_le y x ≡ true → AtLeast y ys → AtLeast y (insert x ys)
unfolding insert
insert-AtLeast x y [] h a = h
insert-AtLeast x y (z ∷ ys) h a = elim (Bool-cases (text_le x z)) [
  | inl e ↦ rw e h
  | inr e ↦ rw e a
]

pub insert-IsSorted : (x : Text) (ys : List Text) → IsSorted ys → IsSorted (insert x ys)
unfolding insert
insert-IsSorted x [] s = tt
insert-IsSorted x (y ∷ ys) s = elim (Bool-cases (text_le x y)) [
  | inl e ↦ rw e (e, s)
  | inr e ↦
      let (a, rest) = IsSorted-parts y ys s in
      rw e (
        IsSorted-cons y (insert x ys) (insert-AtLeast x y ys (text_le_total x y e) a)
          (insert-IsSorted x ys rest))
]

pub sort-IsSorted : (xs : List Text) → IsSorted (sort xs)
unfolding sort
sort-IsSorted [] = tt
sort-IsSorted (x ∷ xs) = insert-IsSorted x (sort xs) (sort-IsSorted xs)

insert-AtLeast_front : (x : Text) (ys : List Text) → AtLeast x ys → insert x ys ≡ x ∷ ys
unfolding insert
insert-AtLeast_front x [] h = refl
insert-AtLeast_front x (y ∷ ys) h = rw h

-- Sorting leaves an ordered list as it is.
pub sort-eq_self : (xs : List Text) → IsSorted xs → sort xs ≡ xs
unfolding sort
sort-eq_self [] s = refl
sort-eq_self (x ∷ xs) s =
    let (a, rest) = IsSorted-parts x xs s in rw (sort-eq_self xs rest) (insert-AtLeast_front x xs a)

pub text_le_trans : (a b c : Text) → text_le a b ≡ true → text_le b c ≡ true → text_le a c ≡ true
unfolding text_le
text_le_trans [] b c h k = refl
text_le_trans (x ∷ a) [] c h k = cc
text_le_trans (x ∷ a) (y ∷ b) [] h k = cc
text_le_trans (x ∷ a) (y ∷ b) (z ∷ c) h k = ground (arith, text_le_trans a b c)
