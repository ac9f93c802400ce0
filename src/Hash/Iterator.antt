-- ===== src/Hash/Iterator.antt =====
-- `init_hash_iterator` and `add_hash_iterator` of MP5/src/hash.c: a walk over all nodes, bucket by bucket.
use mathlib.Core.List.{flatten}
use native.Mathlib.Numerals.{add-one}
use ntu_sp17fall.Base.{
  ℕ, zero, suc, ◌+◌, ◌≤◌, ◌<◌, ◌≡◌, ◌≢◌, refl, ap, List, [], ◌∷◌, ◌++◌, Option, none, some, arith,
  ◌==◌, ltb, if◌then◌else◌, length, drop, length-drop, Bool-cases, inl, inr, ◌∙◌,
}
use ntu_sp17fall.Hash.{HashNode, Chain, Hash, buckets}
use ntu_sp17fall.Hash.Laws.{IsValid}

-- `node` is the list from the current node on, and `[]` where the pointer is null.
pub record HashIterator {ℓ} (A : Type ℓ) : Type ℓ where
  pub hash : Option (Hash A)
  pub node : Chain A
  pub n : ℕ

module _ {ℓ} {A : Type ℓ} where
  -- `for (...; n < h->n; ++n) if (h->node[n]) break;` over the buckets from `n` on: the index reached
  -- and its chain.
  unfoldable pub scan : ℕ → List (Chain A) → ℕ × Chain A
  scan i [] = (i, [])
  scan i ([] ∷ cs) = scan (i + 1) cs
  scan i ((x ∷ c) ∷ cs) = (i, x ∷ c)

  unfoldable pub init_hash_iterator : HashIterator A → Option (Hash A) → HashIterator A
  unfolding scan
  init_hash_iterator it none = it
  init_hash_iterator it (some h) =
      let s = scan 0 (buckets h) in
      record { hash = some h; node = if ltb s.0 h.n then s.1 else it.node; n = s.0 }

  next_of : HashIterator A → Hash A → Chain A → Option (HashIterator A)
  unfolding scan
  next_of it h [] = none
  next_of it h (x ∷ y ∷ c) = some (record it { node = y ∷ c })
  next_of it h (x ∷ []) =
      let s = scan (it.n + 1) (drop (it.n + 1) (buckets h)) in
      some (record { hash = it.hash; node = if ltb s.0 h.n then s.1 else []; n = s.0 })

  -- A fault, `none`, is the null dereference of `it->node->next`.
  unfoldable pub add_hash_iterator : HashIterator A → Option (HashIterator A)
  unfolding next_of
  add_hash_iterator it = elim it.hash [
    | none ↦ some it
    | some h ↦ if it.n == h.n then some it else next_of it h it.node
  ]

  -- The nodes that a loop `while (it.n != h->n) add_hash_iterator(it)` meets, with fuel for its rounds.
  unfoldable pub visits : ℕ → Hash A → HashIterator A → Option (List (HashNode A))
  visits zero h it = none
  visits (suc fuel) h it =
      let rest : Option (List (HashNode A)) = elim (add_hash_iterator it) [
        | none ↦ none
        | some it' ↦ visits fuel h it'
      ] in
      if it.n == h.n
      then some []
      else elim it.node [ [] ↦ none | x ∷ c ↦ elim rest [ none ↦ none | some xs ↦ some (x ∷ xs) ] ]

  remaining : Hash A → HashIterator A → List (HashNode A)
  remaining h it = if it.n == h.n then [] else it.node ++ flatten (drop (it.n + 1) (buckets h))

  -- The state of a walk over `h`.
  record Walks (h : Hash A) (it : HashIterator A) : Type ℓ where
    over : it.hash ≡ some h
    within : it.n ≤ h.n
    live : it.n ≢ h.n → it.node ≢ []

  drop-suc :
      (bs : List (Chain A)) (i : ℕ) (c : Chain A) (cs : List (Chain A))
      → drop i bs ≡ c ∷ cs
      → drop (suc i) bs ≡ cs
  drop-suc [] zero c cs h = cc
  drop-suc [] (suc i) c cs h = cc
  drop-suc (b ∷ bs) zero c cs h = cc
  drop-suc (b ∷ bs) (suc i) c cs h = drop-suc bs i c cs h

  -- Where a scan stops: at the end, or at a chain that holds a node, with the rest behind it.
  record Scanned (bs cs : List (Chain A)) (total : ℕ) (s : ℕ × Chain A) : Type ℓ where
    inside : s.0 ≤ total
    filled : s.0 ≢ total → s.1 ≢ []
    rest : flatten cs ≡ (if s.0 == total then [] else s.1 ++ flatten (drop (s.0 + 1) bs))

  scan_lem :
      (bs cs : List (Chain A)) (i total : ℕ)
      → drop i bs ≡ cs
      → i + length cs ≡ total
      → Scanned bs cs total (scan i cs)
  unfolding scan flatten
  scan_lem bs [] i total h e = record {
    inside = omega arith;
    filled = λ n. absurd (n (omega arith));
    rest = ground arith;
  }
  scan_lem bs ([] ∷ cs) i total h e =
      let t = scan_lem bs cs (i + 1) total (rw add-one (drop-suc bs i [] cs h)) (omega arith) in
      record { inside = t.inside; filled = t.filled; rest = t.rest }
  scan_lem bs ((x ∷ c) ∷ cs) i total h e = record {
    inside = omega arith;
    filled = λ n. λ p. cc;
    rest =
        let d : drop (i + 1) bs ≡ cs = rw add-one (drop-suc bs i (x ∷ c) cs h) in
        rw d (ground arith);
  }

  Scanned-Walks :
      (h : Hash A) (cs d : List (Chain A)) (old : Chain A) (s : ℕ × Chain A)
      → Scanned (buckets h) cs h.n s
      → (it : HashIterator A)
      → it ≡ record { hash = some h; node = if ltb s.0 h.n then s.1 else old; n = s.0 }
      → Walks h it × (remaining h it ≡ flatten cs)
  unfolding remaining
  Scanned-Walks h cs d old s t it e = rw e (
    record {
      over = refl;
      within = t.inside;
      live = λ n p. t.filled n (ground (arith, t.inside, n));
    },
    ground (arith, t.rest, t.inside),
  )

  init_hash_iterator_lem :
      (h : Hash A) (it : HashIterator A)
      → IsValid h
      → Walks h (init_hash_iterator it (some h))
        × (remaining h (init_hash_iterator it (some h)) ≡ flatten (buckets h))
  unfolding init_hash_iterator
  init_hash_iterator_lem h it v =
      let t = scan_lem (buckets h) (buckets h) 0 h.n refl (omega (arith, v.width)) in
      Scanned-Walks h (buckets h) [] it.node _ t _ refl

  -- One step drops the current node.
  add_hash_iterator_lem :
      (h : Hash A) (it : HashIterator A) (x : HashNode A) (c : Chain A)
      → IsValid h
      → Walks h it
      → it.n ≢ h.n
      → it.node ≡ x ∷ c
      → (it' : HashIterator A) × (add_hash_iterator it ≡ some it')
        × Walks h it'
        × (remaining h it ≡ x ∷ remaining h it')
  unfolding add_hash_iterator
  add_hash_iterator_lem h it x (y ∷ c) v w n e = (
    record it { node = y ∷ c },
    ground (arith, w.over),
    record { over = w.over; within = w.within; live = λ _ p. cc },
    unfold remaining in rw e (ground arith),
  )
  add_hash_iterator_lem h it x [] v w n e =
      let cs = drop (it.n + 1) (buckets h) in
      let s = scan (it.n + 1) cs in
      let next : HashIterator A = record {
        hash = it.hash;
        node = if ltb s.0 h.n then s.1 else [];
        n = s.0;
      } in
      let t =
        scan_lem (buckets h) cs (it.n + 1) h.n refl
          (omega (arith, length-drop {ℓ} (it.n + 1) (buckets h), v.width, w.within, n)) in
      let (walks, rest) = Scanned-Walks h cs [] [] s t next (rw w.over) in
      (next, ground (arith, w.over, e), walks, rw rest (unfold remaining in rw e (ground arith)))

  -- One round of the loop, where the rounds after it are known.
  visits-suc :
      (fuel : ℕ) (h : Hash A) (it : HashIterator A) (c : Chain A)
      → IsValid h
      → Walks h it
      → length (remaining h it) < suc fuel
      → it.n ≢ h.n
      → it.node ≡ c
      → ((it' : HashIterator A)
          → Walks h it'
          → length (remaining h it') < fuel
          → visits fuel h it' ≡ some (remaining h it'))
      → visits (suc fuel) h it ≡ some (remaining h it)
  unfolding visits
  visits-suc fuel h it [] v w few n e later = absurd (w.live n e)
  visits-suc fuel h it (x ∷ c) v w few n e later =
      let (it', step, w', rest) = add_hash_iterator_lem h it x c v w n e in
      let ih = later it' w' (omega (arith, ap length rest)) in ground (arith, rest, step, ih)

  visits-remaining :
      (fuel : ℕ) (h : Hash A) (it : HashIterator A)
      → IsValid h
      → Walks h it
      → length (remaining h it) < fuel
      → visits fuel h it ≡ some (remaining h it)
  visits-remaining zero h it v w few = absurd (omega arith)
  visits-remaining (suc fuel) h it v w few = elim (Bool-cases (it.n == h.n)) [
    | inl done ↦ unfold remaining visits in rw done
    | inr more ↦
        visits-suc fuel h it it.node v w few (ground arith) refl
          (λ it' w' f. visits-remaining fuel h it' v w' f)
  ]

  -- From `init_hash_iterator` on, the loop ends and meets every node of the table once, in the order
  -- of the buckets, with one round of fuel more than there are nodes.
  pub visits_lem :
      (h : Hash A) (it : HashIterator A)
      → IsValid h
      → visits (suc (length (flatten (buckets h)))) h (init_hash_iterator it (some h))
        ≡ some (flatten (buckets h))
  visits_lem h it v =
      let (walks, rest) = init_hash_iterator_lem h it v in
      visits-remaining _ h _ v walks (rw rest (omega arith)) ∙ rw rest
