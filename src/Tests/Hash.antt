-- ===== src/Tests/Hash.antt =====
-- A table of five buckets: the codes 3 and 8 share a bucket, 4 is alone in another.
use ntu_sp17fall.Base.{
  ℕ, suc, ◌<◌, ◌≡◌, refl, Bool, true, false, not, ◌&&◌, ◌||◌, [], ◌∷◌, Option, none, some, ℤ, pos,
  int_eq, get_or, length, ◌==◌, if◌then◌else◌, Text, text_eq, codes, arith,
}
use mathlib.Core.List.{flatten}
use ntu_sp17fall.Hash.{
  HashNode, Hash, slot, empty_hash, buckets, init_with, init_hash, locate, store, chain_put,
  put_into_hash, get_from_hash, chain_del, del_from_hash,
}
use ntu_sp17fall.Hash.Bucket.{is_some}
use ntu_sp17fall.Hash.Laws.{IsValid, cuts, init_hash-IsValid, put_into_hash_lem, del_from_hash_lem}
use ntu_sp17fall.Hash.Iterator.{HashIterator, init_hash_iterator, visits, visits_lem}
use ntu_sp17fall.Hash.ByPath.{holds, find_bucket, get_from_hash_by_path, get_from_hash_by_path_lem}

abbrev pub fresh : Hash Text
fresh = record { node = some ([] ∷ [] ∷ [] ∷ [] ∷ [] ∷ []); n = 5 }

abbrev pub entry : ℕ → Text → HashNode Text
entry code path = record { contain = path; hash_code = pos code }

abbrev one_node : Hash Text
one_node = record { node = some ([] ∷ [] ∷ [] ∷ (entry 3 (codes "a") ∷ []) ∷ [] ∷ []); n = 5 }

abbrev two_nodes : Hash Text
two_nodes = record {
  node = some ([] ∷ [] ∷ [] ∷ (entry 3 (codes "a") ∷ entry 8 (codes "b") ∷ []) ∷ [] ∷ []);
  n = 5;
}

pub fresh-IsValid : IsValid fresh
unfolding init_hash init_with
fresh-IsValid = (init_hash-IsValid {A = Text} empty_hash 4 refl).1

put_a : put_into_hash true fresh (codes "a") (pos 3) ≡ some (true, one_node)
unfolding put_into_hash locate buckets slot store chain_put
put_a = refl

put_b : put_into_hash true one_node (codes "b") (pos 8) ≡ some (true, two_nodes)
unfolding put_into_hash locate buckets slot store chain_put
put_b = refl

-- A table that an insertion returned.
pub put-IsValid :
    (h t : Hash Text) (path : Text) (k : ℤ)
    → IsValid h
    → put_into_hash true h path k ≡ some (true, t)
    → IsValid t
put-IsValid h t path k v e =
    let (r, run, valid, old, reads) = put_into_hash_lem true h path k v in
    let same : r.1 ≡ t = ground arith in rw same at valid

one_node-IsValid : IsValid one_node
one_node-IsValid = put-IsValid fresh one_node (codes "a") (pos 3) fresh-IsValid put_a

pub two_nodes-IsValid : IsValid two_nodes
two_nodes-IsValid = put-IsValid one_node two_nodes (codes "b") (pos 8) one_node-IsValid put_b

put_into_hash_lem_example :
    (r : Bool × Hash Text) × (put_into_hash true one_node (codes "b") (pos 8) ≡ some r)
    × IsValid r.1
    × ((old : Option Text)
        → get_from_hash one_node (pos 8) ≡ some old
        → r.0 ≡ true && not (is_some old))
    × ((q : ℤ)
        → get_from_hash r.1 q
          ≡ (if r.0 && int_eq (pos 8) q then some (some (codes "b")) else get_from_hash one_node q))
put_into_hash_lem_example = put_into_hash_lem true one_node (codes "b") (pos 8) one_node-IsValid

del_from_hash_lem_example :
    (r : Option Text × Hash Text) × (del_from_hash two_nodes (pos 3) ≡ some r)
    × IsValid r.1
    × (get_from_hash two_nodes (pos 3) ≡ some r.0)
    × ((q : ℤ)
        → get_from_hash r.1 q ≡ (
            if (cuts two_nodes (pos 3) && slot 5 q == slot 5 (pos 3)) || int_eq (pos 3) q
            then some none
            else get_from_hash two_nodes q))
del_from_hash_lem_example = del_from_hash_lem two_nodes (pos 3) two_nodes-IsValid

-- Deleting the code 3 takes the code 8 with it.
del_from_hash_test : del_from_hash two_nodes (pos 3) ≡ some (some (codes "a"), fresh)
unfolding del_from_hash locate buckets slot store chain_del
del_from_hash_test = refl

abbrev blank : HashIterator Text
blank = record { hash = none; node = []; n = 0 }

visits_lem_example :
    visits
      (suc (length (flatten (buckets two_nodes))))
      two_nodes
      (init_hash_iterator blank (some two_nodes))
    ≡ some (flatten (buckets two_nodes))
visits_lem_example = visits_lem two_nodes blank two_nodes-IsValid

found_b : find_bucket (codes "b") 0 (buckets two_nodes) ≡ some 3
unfolding find_bucket buckets text_eq
found_b = refl

get_from_hash_by_path_lem_example :
    ((get_from_hash_by_path two_nodes (codes "b")).0 ≡ 3)
    × (holds (codes "b") (get_or (buckets two_nodes) 3 []) ≡ true)
    × ((m : ℕ) → m < 3 → holds (codes "b") (get_or (buckets two_nodes) m []) ≡ false)
    × IsValid (get_from_hash_by_path two_nodes (codes "b")).1
    × ((q : ℤ)
        → get_from_hash (get_from_hash_by_path two_nodes (codes "b")).1 q
          ≡ (if slot 5 q == 3 then some none else get_from_hash two_nodes q))
    × ((s : Hash Text) × (del_from_hash (get_from_hash_by_path two_nodes (codes "b")).1 (pos 3)
          ≡ some (none, s)))
get_from_hash_by_path_lem_example =
    get_from_hash_by_path_lem two_nodes (codes "b") 3 two_nodes-IsValid found_b
