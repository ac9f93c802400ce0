-- ===== src/Hash/Bucket.antt =====
-- One chain of the hash table: what the walks of hash.c do to the codes and contents of a list.
use mathlib.Core.Option.{or_else}
use ntu_sp17fall.Base.{
  ℕ, ◌+◌, ◌||◌, ◌≤◌, ◌≡◌, refl, Bool, true, false, [], ◌∷◌, ◌++◌, Option, none, some, ℤ, int_eq,
  int_eq_iff, arith, if◌then◌else◌, Bool-cases, Option-cases, inl, inr,
}
use ntu_sp17fall.Hash.{HashNode, Chain, chain_put, chain_get, unlink_after, chain_del}

abbrev pub to_nat : Bool → ℕ
to_nat true = 1
to_nat false = 0

abbrev pub is_some {ℓ} : {A : Type ℓ} → Option A → Bool
is_some none = false
is_some (some _) = true

int_eq_congr : (a b c : ℤ) → int_eq a b ≡ true → int_eq a c ≡ int_eq b c
int_eq_congr a b c e = let p : a ≡ b = (int_eq_iff a b).0 e in rw p

module _ {ℓ} {A : Type ℓ} where
  unfoldable pub count : ℤ → Chain A → ℕ
  count q [] = 0
  count q (x ∷ c) = to_nat (int_eq x.hash_code q) + count q c

  -- Whether the first node of a chain carries a code.
  unfoldable pub at_head : ℤ → Chain A → Bool
  at_head code [] = false
  at_head code (x ∷ c) = int_eq x.hash_code code

  pub chain_get-eq-none : (q : ℤ) (c : Chain A) → count q c ≡ 0 → chain_get q c ≡ none
  unfolding count chain_get
  chain_get-eq-none q [] h = refl
  chain_get-eq-none q (x ∷ c) h = ground (arith, chain_get-eq-none q c)

  pub count-eq-zero : (q : ℤ) (c : Chain A) → chain_get q c ≡ none → count q c ≡ 0
  unfolding count chain_get
  count-eq-zero q [] h = refl
  count-eq-zero q (x ∷ c) h = ground (arith, count-eq-zero q c)

  pub at_head-eq-false : (k : ℤ) (c : Chain A) → chain_get k c ≡ none → at_head k c ≡ false
  unfolding at_head chain_get
  at_head-eq-false k [] h = refl
  at_head-eq-false k (x ∷ c) h = ground arith

  module _ (alloc : Bool) (new : HashNode A) where
    -- The walk appends the node, if there is memory and no node has the code.
    pub chain_put_lem :
        (c : Chain A)
        → chain_put alloc new c ≡ (
            if is_some (chain_get new.hash_code c)
            then (false, c)
            else if alloc
            then (true, c ++ new ∷ [])
            else (false, c))
    unfolding chain_put chain_get
    chain_put_lem [] = ground arith
    chain_put_lem (x ∷ c) = rw (chain_put_lem c) (ground arith)

  pub chain_get-append :
      (q : ℤ) (c : Chain A) (new : HashNode A)
      → chain_get q (c ++ new ∷ [])
        ≡ or_else (chain_get q c) (if int_eq new.hash_code q then some new.contain else none)
  unfolding chain_get or_else
  chain_get-append q [] new = refl
  chain_get-append q (x ∷ c) new = rw (chain_get-append q c new) (ground arith)

  pub count-append :
      (q : ℤ) (c : Chain A) (new : HashNode A)
      → count q (c ++ new ∷ []) ≡ count q c + to_nat (int_eq new.hash_code q)
  unfolding count
  count-append q [] new = omega arith
  count-append q (x ∷ c) new = omega (arith, count-append q c new)

  -- What a deletion that found a node returns, and what stays readable in the rest.
  pub record Unlinked (k : ℤ) (c : Chain A) (r : A × Chain A) : Type ℓ where
    pub returns : chain_get k c ≡ some r.0
    pub few : (q : ℤ) → count q r.1 ≤ count q c
    pub reads : (q : ℤ) → chain_get q r.1 ≡ (if int_eq k q then none else chain_get q c)

  pub unlink_after-none : (k : ℤ) (c : Chain A) → unlink_after k c ≡ none → chain_get k c ≡ none
  unfolding unlink_after chain_get
  unlink_after-none k [] h = refl
  unlink_after-none k (x ∷ c) h = ground (arith, unlink_after-none k c)

  pub unlink_after_lem :
      (k : ℤ) (c : Chain A) (r : A × Chain A)
      → count k c ≤ 1
      → unlink_after k c ≡ some r
      → Unlinked k c r
  unfolding unlink_after chain_get count
  unlink_after_lem k [] r one h = cc
  unlink_after_lem k (x ∷ c) r one h = elim (Bool-cases (int_eq x.hash_code k)) [
    | inl e ↦ record {
      returns = ground arith;
      few = λ q. ground arith;
      reads =
          λ q. ground (arith, chain_get-eq-none k c, int_eq_congr x.hash_code k q, int_eq_iff k q);
    }
    | inr e ↦ elim (Option-cases (unlink_after k c)) [
      | inl n ↦ absurd (ground arith)
      | inr (s, p) ↦
          let ih = unlink_after_lem k c s (ground arith) p in
          record {
            returns = ground (arith, ih.returns);
            few = λ q. ground (arith, ih.few q);
            reads = λ q. ground (
              arith,
              ih.reads q,
              int_eq_congr x.hash_code q k,
              int_eq_congr k q x.hash_code,
              int_eq_iff x.hash_code q,
              int_eq_iff k q,
            );
          }
    ]
  ]

  -- Below the head a deletion removes one node; at the head it empties the chain.
  pub record Deleted (k : ℤ) (c : Chain A) (r : A × Chain A) : Type ℓ where
    pub returns : chain_get k c ≡ some r.0
    pub few : (q : ℤ) → count q r.1 ≤ count q c
    pub reads :
        (q : ℤ) → chain_get q r.1 ≡ (if at_head k c || int_eq k q then none else chain_get q c)

  pub chain_del-none : (k : ℤ) (c : Chain A) → chain_del k c ≡ none → chain_get k c ≡ none
  unfolding chain_del chain_get
  chain_del-none k [] h = refl
  chain_del-none k (x ∷ c) h = ground (arith, unlink_after-none k c)

  pub chain_del_lem :
      (k : ℤ) (c : Chain A) (r : A × Chain A)
      → count k c ≤ 1
      → chain_del k c ≡ some r
      → Deleted k c r
  unfolding chain_del chain_get count at_head
  chain_del_lem k [] r one h = cc
  chain_del_lem k (x ∷ c) r one h = elim (Bool-cases (int_eq x.hash_code k)) [
    | inl e ↦ record { returns = ground arith; few = λ q. ground arith; reads = λ q. ground arith }
    | inr e ↦ elim (Option-cases (unlink_after k c)) [
      | inl n ↦ absurd (ground arith)
      | inr (s, p) ↦
          let ih = unlink_after_lem k c s (ground arith) p in
          record {
            returns = ground (arith, ih.returns);
            few = λ q. ground (arith, ih.few q);
            reads = λ q. ground (arith, ih.reads q, int_eq_iff x.hash_code q, int_eq_iff k q);
          }
    ]
  ]
