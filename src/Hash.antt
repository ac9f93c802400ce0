-- ===== src/Hash.antt =====
-- MP5/src/hash.c and include/hash.h: the chained hash table under the directory table of the client
-- and the port table. MP2/src/hash.c is the same file without the search by path and the iterator.
-- A chain of `hash_node`s is a list, and `NULL` is the empty list. `none` is a fault: a remainder by
-- zero or an access outside the array, where the C code has no defined behaviour.
-- The argument `alloc` says whether `malloc` gave memory.
pub mod Bucket
pub mod Laws
pub mod Iterator
pub mod ByPath
use ntu_sp17fall.Base.{
  ℕ, zero, suc, ◌-◌, ◌%◌, Bool, true, false, List, [], ◌∷◌, ◌++◌, Option, none, some, ℤ, pos,
  negsuc, int_eq, get_elem?, set, replicate, if◌then◌else◌, ◌==◌,
}

pub record HashNode {ℓ} (A : Type ℓ) : Type ℓ where
  pub contain : A
  pub hash_code : ℤ

abbrev pub Chain {ℓ} : Type ℓ → Type ℓ
Chain A = List (HashNode A)

-- `node` is `none` for the null pointer; otherwise it is the array, and `n` is its stated length.
pub record Hash {ℓ} (A : Type ℓ) : Type ℓ where
  pub node : Option (List (Chain A))
  pub n : ℕ

-- `pos = hash_code % n; if (pos < 0) pos = n + pos;` for a remainder that takes the sign of the code.
unfoldable pub slot : ℕ → ℤ → ℕ
slot n (pos k) = k % n
slot n (negsuc k) = let r = suc k % n in if r == 0 then 0 else n - r

abbrev pub empty_hash {ℓ} : {A : Type ℓ} → Hash A
empty_hash = record { node = none; n = 0 }

-- What `free` is called on.
pub data Freed {ℓ} (A : Type ℓ) : Type ℓ where
  node : HashNode A → Freed A
  content : A → Freed A

module _ {ℓ} {A : Type ℓ} where
  -- The node array, with a fault for the null pointer.
  unfoldable pub buckets : Hash A → List (Chain A)
  buckets h = elim h.node [ none ↦ [] | some bs ↦ bs ]

  unfoldable pub init_with : Bool → Hash A → ℕ → Bool × Hash A
  init_with alloc h zero = (false, h)
  init_with alloc h (suc k) = elim h.node [
    | some bs ↦ (false, h)
    | none ↦
        if alloc
        then (true, record { node = some (replicate (suc k) []); n = suc k })
        else (false, h)
  ]

  unfoldable pub init_hash : Bool → Hash A → ℤ → Bool × Hash A
  unfolding init_with
  init_hash alloc h (pos k) = init_with alloc h k
  init_hash alloc h (negsuc k) = (false, h)

  -- The bucket of a code: its index and its chain.
  unfoldable pub locate : Hash A → ℤ → Option (ℕ × Chain A)
  locate h code = if h.n == 0 then none else elim (get_elem? (buckets h) (slot h.n code)) [
    | none ↦ none
    | some c ↦ some (slot h.n code, c)
  ]

  -- `h->node[pos] = c`
  unfoldable pub store : Hash A → ℕ → Chain A → Hash A
  store h i c = record h { node = some (set (buckets h) i c) }

  -- The walk of `put_into_hash` to the end of the chain.
  unfoldable pub chain_put : Bool → HashNode A → Chain A → Bool × Chain A
  chain_put alloc new [] = if alloc then (true, new ∷ []) else (false, [])
  chain_put alloc new (x ∷ c) =
      let rest = chain_put alloc new c in
      if int_eq x.hash_code new.hash_code then (false, x ∷ c) else (rest.0, x ∷ rest.1)

  unfoldable pub put_into_hash : Bool → Hash A → A → ℤ → Option (Bool × Hash A)
  put_into_hash alloc h contain code = elim (locate h code) [
    | none ↦ none
    | some (i, c) ↦
        let done = chain_put alloc (record { contain = contain; hash_code = code }) c in
        some (done.0, if done.0 then store h i done.1 else h)
  ]

  unfoldable pub chain_get : ℤ → Chain A → Option A
  chain_get code [] = none
  chain_get code (x ∷ c) = if int_eq x.hash_code code then some x.contain else chain_get code c

  -- The pointer that the caller gets, `none` for the result 0.
  unfoldable pub get_from_hash : Hash A → ℤ → Option (Option A)
  get_from_hash h code = elim (locate h code) [
    | none ↦ none
    | some (i, c) ↦ some (chain_get code c)
  ]

  -- The deletion behind a node `pre`: `pre->next = n->next`.
  unfoldable pub unlink_after : ℤ → Chain A → Option (A × Chain A)
  unlink_after code [] = none
  unlink_after code (x ∷ c) =
      let rest = unlink_after code c in
      if int_eq x.hash_code code
      then some (x.contain, c)
      else elim rest [ none ↦ none | some (a, c') ↦ some (a, x ∷ c') ]

  -- At the head of the chain, where `pre` is null, the code writes `h->node[pos] = NULL`.
  unfoldable pub chain_del : ℤ → Chain A → Option (A × Chain A)
  unfolding unlink_after
  chain_del code [] = none
  chain_del code (x ∷ c) =
      if int_eq x.hash_code code
      then some (x.contain, [])
      else elim (unlink_after code c) [ none ↦ none | some (a, c') ↦ some (a, x ∷ c') ]

  unfoldable pub del_from_hash : Hash A → ℤ → Option (Option A × Hash A)
  del_from_hash h code = elim (locate h code) [
    | none ↦ none
    | some (i, c) ↦ elim (chain_del code c) [
      | none ↦ some (none, h)
      | some (a, c') ↦ some (some a, store h i c')
    ]
  ]

  unfoldable pub free_chain : Bool → Chain A → List (Freed A)
  free_chain deep [] = []
  free_chain deep (x ∷ c) =
      if deep then content x.contain ∷ node x ∷ free_chain deep c else node x ∷ free_chain deep c

  unfoldable pub free_buckets : Bool → List (Chain A) → List (Freed A)
  unfolding free_chain
  free_buckets deep [] = []
  free_buckets deep (c ∷ cs) = free_chain deep c ++ free_buckets deep cs

  unfoldable pub clean_hash : Hash A → List (Freed A) × Hash A
  unfolding free_buckets
  clean_hash h = (free_buckets false (buckets h), empty_hash)

  unfoldable pub destroy_hash : Hash A → List (Freed A) × Hash A
  unfolding free_buckets
  destroy_hash h = (free_buckets true (buckets h), empty_hash)
