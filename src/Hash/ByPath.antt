-- ===== src/Hash/ByPath.antt =====
-- `get_from_hash_by_path` of MP5/src/hash.c over contents that are texts, as the client calls it to
-- find the watch of a directory that is gone. The local `pre` is never assigned, so the node found is
-- always taken for the head of its chain, and the whole chain is dropped.
use ntu_sp17fall.Base.{
  ℕ, zero, suc, ◌+◌, ◌≤◌, ◌<◌, ◌≡◌, refl, Bool, true, false, ◌||◌, List, [], ◌∷◌, Option, none,
  some, arith, if◌then◌else◌, length, get_or, Bool-cases, inl, inr, Text, text_eq, ℤ, pos, ◌==◌,
}
use ntu_sp17fall.Hash.{Chain, Hash, buckets, slot, store, del_from_hash, get_from_hash, chain_get}
use ntu_sp17fall.Hash.Laws.{IsValid, get-store, store-IsValid, del_from_hash-absent}
use ntu_sp17fall.Hash.Bucket.{count, to_nat}

-- `strcmp` over the nodes of one chain.
unfoldable pub holds : Text → Chain Text → Bool
holds path [] = false
holds path (x ∷ c) = text_eq x.contain path || holds path c

-- The first bucket, from the index `pos` on, that holds the path.
unfoldable pub find_bucket : Text → ℕ → List (Chain Text) → Option ℕ
unfolding holds
find_bucket path i [] = none
find_bucket path i (c ∷ cs) =
    let rest = find_bucket path (i + 1) cs in if holds path c then some i else rest

-- The result is the index of the bucket, and 0 also where nothing was found.
unfoldable pub get_from_hash_by_path : Hash Text → Text → ℕ × Hash Text
get_from_hash_by_path h path = elim (find_bucket path 0 (buckets h)) [
  | none ↦ (0, h)
  | some i ↦ (i, store h i [])
]

earlier :
    (path : Text) (c : Chain Text) (cs : List (Chain Text)) (k : ℕ)
    → holds path c ≡ false
    → ((m : ℕ) → m < k → holds path (get_or cs m []) ≡ false)
    → (m : ℕ) → m < suc k
    → holds path (get_or (c ∷ cs) m []) ≡ false
earlier path c cs k e before zero l = e
earlier path c cs k e before (suc m) l = before m (omega arith)

find_bucket_lem :
    (path : Text) (bs : List (Chain Text)) (i j : ℕ)
    → find_bucket path i bs ≡ some j
    → (k : ℕ) × (j ≡ i + k)
      × (k < length bs)
      × (holds path (get_or bs k []) ≡ true)
      × ((m : ℕ) → m < k → holds path (get_or bs m []) ≡ false)
unfolding find_bucket
find_bucket_lem path [] i j h = cc
find_bucket_lem path (c ∷ cs) i j h = elim (Bool-cases (holds path c)) [
  | inl e ↦ (0, ground arith, omega arith, e, λ m l. absurd (omega arith))
  | inr e ↦
      let (k, at, lt, there, before) = find_bucket_lem path cs (i + 1) j (rw e at h) in
      (suc k, omega arith, omega arith, there, earlier path c cs k e before)
]

get-store_empty :
    (h : Hash Text) (k q : ℤ)
    → IsValid h
    → ((j : ℤ) → count {A = Text} j [] ≤ to_nat (slot h.n j == slot h.n k))
    → get_from_hash (store h (slot h.n k) []) q
      ≡ (if slot h.n q == slot h.n k then some none else get_from_hash h q)
unfolding chain_get
get-store_empty h k q v few = get-store k [] q v few

-- A search that finds the path in bucket `i` returns `i`, where no earlier bucket holds the path. It
-- leaves a valid table in which every code of that bucket is absent and every other is unchanged, so
-- a deletion by the index that it returned finds nothing.
pub get_from_hash_by_path_lem :
    (h : Hash Text) (path : Text) (i : ℕ)
    → IsValid h
    → find_bucket path 0 (buckets h) ≡ some i
    → ((get_from_hash_by_path h path).0 ≡ i)
      × (holds path (get_or (buckets h) i []) ≡ true)
      × ((m : ℕ) → m < i → holds path (get_or (buckets h) m []) ≡ false)
      × IsValid (get_from_hash_by_path h path).1
      × ((q : ℤ)
          → get_from_hash (get_from_hash_by_path h path).1 q
            ≡ (if slot h.n q == i then some none else get_from_hash h q))
      × ((s : Hash Text) × (del_from_hash (get_from_hash_by_path h path).1 (pos i)
            ≡ some (none, s)))
unfolding get_from_hash_by_path
get_from_hash_by_path_lem h path i v e =
    let (k, at, lt, there, before) = find_bucket_lem path (buckets h) 0 i e in
    let here : i ≡ k = omega arith in
    let below : i < h.n = omega (arith, v.width) in
    let home : slot h.n (pos i) ≡ i = unfold slot in grind (arith, below) in
    let few : (j : ℤ) → count {A = Text} j [] ≤ to_nat (slot h.n j == slot h.n (pos i)) =
      unfold count in λ j. omega arith in
    let result : get_from_hash_by_path h path ≡ (i, store h i []) = rw (e, get_from_hash_by_path) in
    let valid : IsValid (store h i []) = rw home at (store-IsValid (pos i) [] v few) in
    let reads : (q : ℤ)
        → get_from_hash (store h i []) q
          ≡ (if slot h.n q == i then some none else get_from_hash h q) =
      λ q. rw home at (get-store_empty h (pos i) q v few) in
    rw result (
      refl,
      rw here there,
      rw here before,
      valid,
      reads,
      del_from_hash-absent (store h i []) (pos i) valid (rw (reads (pos i), home) (ground arith)),
    )
