-- ===== src/Hash/Laws.antt =====
-- The table between two calls: every node stands in the bucket of its code, and no code occurs twice.
-- What `put_into_hash` and `del_from_hash` do to the invariant and to later calls of `get_from_hash`.
use mathlib.Core.Option.{or_else}
use ntu_sp17fall.Base.{
  ap, ℕ, suc, ◌≤◌, ◌<◌, ◌≡◌, refl, ◌∙◌, Bool, true, false, ◌&&◌, ◌||◌, not, [], ◌∷◌, ◌++◌, Option,
  none, some, ℤ, pos, negsuc, int_eq, int_eq_iff, arith, ◌==◌, if◌then◌else◌, Bool-cases,
  Option-cases, inl, inr, length, length-set, length-replicate, get_or, replicate, get_elem?-get_or,
  get_or-set, get_or-replicate,
}
use ntu_sp17fall.Hash.Bucket.{
  to_nat, is_some, count, at_head, at_head-eq-false, count-eq-zero, chain_put_lem, chain_get-append,
  count-append, chain_del-none, chain_del_lem,
}
use ntu_sp17fall.Hash.{
  HashNode, Chain, Hash, slot, buckets, init_hash, locate, store, put_into_hash, chain_get,
  get_from_hash, chain_del, del_from_hash,
}

pub slot-lt : (n : ℕ) (k : ℤ) → 0 < n → slot n k < n
unfolding slot
slot-lt n (pos k) h = grind arith
slot-lt n (negsuc k) h = ground arith

module _ {ℓ} {A : Type ℓ} where
  pub record IsValid (h : Hash A) : Type ℓ where
    pub width : length (buckets h) ≡ h.n
    pub positive : 0 < h.n
    pub placed : (i : ℕ) (q : ℤ) → count q (get_or (buckets h) i []) ≤ to_nat (slot h.n q == i)

  abbrev pub bucket_of : Hash A → ℤ → Chain A
  bucket_of h k = get_or (buckets h) (slot h.n k) []

  pub locate-bucket_of :
      {h : Hash A} (k : ℤ) → IsValid h → locate h k ≡ some (slot h.n k, bucket_of h k)
  unfolding locate
  locate-bucket_of {h} k v = ground (
    arith,
    v.width,
    v.positive,
    get_elem?-get_or (buckets h) (slot h.n k) [],
    slot-lt h.n k v.positive,
  )

  pub get-bucket_of :
      {h : Hash A} (k : ℤ) → IsValid h → get_from_hash h k ≡ some (chain_get k (bucket_of h k))
  unfolding get_from_hash
  get-bucket_of k v = rw (locate-bucket_of k v, get_from_hash)

  -- A fresh table is valid, and finds nothing.
  pub init_hash-IsValid :
      (h : Hash A) (k : ℕ)
      → h.node ≡ none
      → ((init_hash true h (pos (suc k))).0 ≡ true)
        × IsValid (init_hash true h (pos (suc k))).1
        × ((q : ℤ) → get_from_hash (init_hash true h (pos (suc k))).1 q ≡ some none)
  unfolding init_hash buckets count chain_get
  init_hash-IsValid h k e =
      rw e
        let t : IsValid (record { node = some (replicate (suc k) []); n = suc k }) = record {
          width = length-replicate {A = Chain A} (suc k) [];
          positive = omega arith;
          placed = λ i q. rw (get_or-replicate {A = Chain A} (suc k) i []) (ground arith);
        } in
          (
            refl,
            t,
            λ q.
                get-bucket_of q t ∙ rw (get_or-replicate {A = Chain A} (suc k) (slot (suc k) q) []),
          )

  -- A write of one bucket.
  pub store-IsValid :
      {h : Hash A} (k : ℤ) (c : Chain A)
      → IsValid h
      → ((q : ℤ) → count q c ≤ to_nat (slot h.n q == slot h.n k))
      → IsValid (store h (slot h.n k) c)
  unfolding store buckets
  store-IsValid {h} k c v few = record {
    width = length-set _ _ c ∙ v.width;
    positive = v.positive;
    placed = λ i q.
        rw (get_or-set (buckets h) (slot h.n k) i c [] (rw v.width (slot-lt h.n k v.positive)))
          (ground (arith, few q, v.placed i q));
  }

  pub get-store :
      {h : Hash A} (k : ℤ) (c : Chain A) (q : ℤ)
      → IsValid h
      → ((j : ℤ) → count j c ≤ to_nat (slot h.n j == slot h.n k))
      → get_from_hash (store h (slot h.n k) c) q
        ≡ (if slot h.n q == slot h.n k then some (chain_get q c) else get_from_hash h q)
  unfolding store buckets
  get-store {h} k c q v few =
      get-bucket_of q (store-IsValid k c v few)
      ∙ rw
          (
            get-bucket_of q v,
            get_or-set (buckets h) (slot h.n k) (slot h.n q) c []
                (rw v.width (slot-lt h.n k v.positive)),
          )
          (ground arith)

  -- Every call on a valid table returns, and leaves a valid table. The call succeeds exactly if there
  -- is memory and no node has the code; then that code reads the new content, and no other changes.
  pub put_into_hash_lem :
      (alloc : Bool) (h : Hash A) (contain : A) (k : ℤ)
      → IsValid h
      → (r : Bool × Hash A) × (put_into_hash alloc h contain k ≡ some r)
        × IsValid r.1
        × ((old : Option A) → get_from_hash h k ≡ some old → r.0 ≡ alloc && not (is_some old))
        × ((q : ℤ)
            → get_from_hash r.1 q
              ≡ (if r.0 && int_eq k q then some (some contain) else get_from_hash h q))
  unfolding put_into_hash or_else
  put_into_hash_lem alloc h contain k v =
      let new : HashNode A = record { contain = contain; hash_code = k } in
      let c = bucket_of h k in
      let found = get-bucket_of k v in
      let put = chain_put_lem alloc new c in
      elim (Bool-cases (is_some (chain_get k c))) [
        | inl there ↦ (
          (false, h),
          rw (locate-bucket_of k v, put_into_hash, put, there),
          v,
          λ old e. ground (arith, found),
          λ q. refl,
        )
        | inr absent ↦ elim (Bool-cases alloc) [
          | inr out ↦ (
            (false, h),
            rw (locate-bucket_of k v, put_into_hash, put, absent, out),
            v,
            λ old e. ground (arith, found),
            λ q. refl,
          )
          | inl memory ↦
              let next = store h (slot h.n k) (c ++ new ∷ []) in
              let few : (q : ℤ) → count q (c ++ new ∷ []) ≤ to_nat (slot h.n q == slot h.n k) = λ q.
                rw count-append
                  (ground (arith, v.placed (slot h.n k) q, int_eq_iff k q, count-eq-zero k c)) in
              (
                (true, next),
                rw (locate-bucket_of k v, put_into_hash, put, absent, memory),
                store-IsValid k (c ++ new ∷ []) v few,
                λ old e. ground (arith, found),
                λ q.
                    rw (get-store k (c ++ new ∷ []) q v few, get-bucket_of q v, chain_get-append)
                      (ground (arith, int_eq_iff k q, count-eq-zero k c, v.placed (slot h.n k) q)),
              )
        ]
      ]

  -- Whether the node that a deletion of `k` meets is the first of its chain.
  unfoldable pub cuts : Hash A → ℤ → Bool
  unfolding at_head
  cuts h k = at_head k (bucket_of h k)

  -- Every deletion on a valid table returns the content that the code reads, and leaves a valid table.
  -- The code is then absent. If its node was the first of its chain, so is every code of that chain.
  -- No other code changes.
  pub del_from_hash_lem :
      (h : Hash A) (k : ℤ)
      → IsValid h
      → (r : Option A × Hash A) × (del_from_hash h k ≡ some r)
        × IsValid r.1
        × (get_from_hash h k ≡ some r.0)
        × ((q : ℤ)
            → get_from_hash r.1 q ≡ (
                if (cuts h k && slot h.n q == slot h.n k) || int_eq k q
                then some none
                else get_from_hash h q))
  unfolding del_from_hash cuts
  del_from_hash_lem h k v =
      let c = bucket_of h k in
      let found = get-bucket_of k v in
      let one : count k c ≤ 1 = ground (arith, v.placed (slot h.n k) k) in
      elim (Option-cases (chain_del k c)) [
        | inl e ↦
            let gone = chain_del-none k c e in
            (
              (none, h),
              rw (locate-bucket_of k v, del_from_hash, e),
              v,
              rw (found, gone),
              λ q.
                  rw (get-bucket_of q v)
                    (ground (arith, at_head-eq-false k c gone, int_eq_iff k q)),
            )
        | inr (s, e) ↦
            let d = chain_del_lem k c s one e in
            let few : (q : ℤ) → count q s.1 ≤ to_nat (slot h.n q == slot h.n k) =
              λ q. ground (arith, v.placed (slot h.n k) q, d.few q) in
            (
              (some s.0, store h (slot h.n k) s.1),
              rw (locate-bucket_of k v, del_from_hash, e),
              store-IsValid k s.1 v few,
              rw (found, d.returns),
              λ q.
                  rw (get-store k s.1 q v few, d.reads q, get-bucket_of q v)
                    (ground (arith, int_eq_iff k q)),
            )
      ]

  pub del_from_hash-absent :
      (h : Hash A) (k : ℤ)
      → IsValid h
      → get_from_hash h k ≡ some none
      → (s : Hash A) × (del_from_hash h k ≡ some (none, s))
  del_from_hash-absent h k v e =
      let (r, run, valid, found, reads) = del_from_hash_lem h k v in
      let p : r.0 ≡ none = cc in (r.1, run ∙ ap (λ (o : Option A). some (o, r.1)) p)
