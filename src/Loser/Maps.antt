-- ===== src/Loser/Maps.antt =====
-- `std::map<string,string>` of MP1/loser.cpp: `insert` leaves a key that is there alone.
use ntu_sp17fall.Base.{
  ◌≡◌, refl, ap, List, [], ◌∷◌, Option, none, some, Text, text_eq, text_eq_iff, arith,
  if◌then◌else◌, Bool-cases, Option-cases, inl, inr,
}
use ntu_sp17fall.Loser.Order.{text_le}

abbrev pub Map : Type 0
Map = List (Text × Text)

unfoldable pub find : Text → Map → Option Text
find k [] = none
find k ((j, v) ∷ m) = if text_eq j k then some v else find k m

-- The place of a new key keeps the keys in order.
unfoldable pub put : Text → Text → Map → Map
put k v [] = (k, v) ∷ []
put k v ((j, w) ∷ m) = if text_le k j then (k, v) ∷ (j, w) ∷ m else (j, w) ∷ put k v m

unfoldable pub insert : Text → Text → Map → Map
unfolding put
insert k v m = elim (find k m) [ none ↦ put k v m | some w ↦ m ]

unfoldable pub erase : Text → Map → Map
erase k [] = []
erase k ((j, w) ∷ m) = if text_eq j k then erase k m else (j, w) ∷ erase k m

pub find-erase :
    (k j : Text) (m : Map) → find j (erase k m) ≡ (if text_eq k j then none else find j m)
unfolding find erase
find-erase k j [] = ground arith
find-erase k j ((i, w) ∷ m) =
    ground (arith, find-erase k j m, text_eq_iff i k, text_eq_iff k j, text_eq_iff i j)

find-put :
    (k j v : Text) (m : Map)
    → find k m ≡ none
    → find j (put k v m) ≡ (if text_eq k j then some v else find j m)
unfolding find put
find-put k j v [] h = refl
find-put k j v ((i, w) ∷ m) h =
    ground (arith, find-put k j v m, text_eq_iff i k, text_eq_iff k j, text_eq_iff i j)

find_self :
    (k j w : Text) (m : Map)
    → find k m ≡ some w
    → find j m ≡ (if text_eq k j then some w else find j m)
find_self k j w m e = elim (Bool-cases (text_eq k j)) [
  | inl t ↦ rw (t, ← (text_eq_iff k j).0 t) e
  | inr t ↦ rw t refl
]

insert-new : (k v : Text) (m : Map) → find k m ≡ none → insert k v m ≡ put k v m
unfolding insert
insert-new k v m e = rw (insert, e) refl

insert-old : (k v w : Text) (m : Map) → find k m ≡ some w → insert k v m ≡ m
unfolding insert
insert-old k v w m e = rw (insert, e) refl

pub find-insert :
    (k j v : Text) (m : Map)
    → find j (insert k v m)
      ≡ (if text_eq k j then (elim (find k m) [ none ↦ some v | some w ↦ some w ]) else find j m)
find-insert k j v m = elim (Option-cases (find k m)) [
  | inl e ↦ rw (e, ap (find j) (insert-new k v m e)) (find-put k j v m e)
  | inr (w, e) ↦ rw (e, ap (find j) (insert-old k v w m e)) (find_self k j w m e)
]
