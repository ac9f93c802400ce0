-- ===== src/Ports/Clean.antt =====
-- `clean_port_reserve`: the records of servers whose port can be bound again are taken out.
use ntu_sp17fall.Base.{
  ℕ, ◌-◌, ◌≤◌, ◌≡◌, ◌∙◌, ap, refl, Bool, true, false, not, ◌&&◌, ◌||◌, List, [], ◌∷◌, Option, none,
  some, ℤ, int_eq_refl, int_eq_iff, arith, Bool-cases, inl, inr, set, ltb, ◌==◌, length-set,
}
use ntu_sp17fall.Hash.{HashNode, Chain, Hash, slot, store, get_from_hash, del_from_hash}
use ntu_sp17fall.Hash.Bucket.{at_head, count, to_nat}
use ntu_sp17fall.Hash.Laws.{IsValid, bucket_of, cuts, del_from_hash_lem}
use ntu_sp17fall.Ports.{Record, Register, default_register_port, has_entry, clean_chain}

del_from_hash-n :
    (h h' : Hash Record) (k : ℤ) (r : Option Record) → del_from_hash h k ≡ some (r, h') → h'.n ≡ h.n
unfolding del_from_hash store
del_from_hash-n h h' k r e = ground arith

-- Where a record of a server that is gone has a port, `port_reserve` has an entry for it.
unfoldable pub has_entries : (ℕ → Bool) → List Bool → Chain Record → Bool
has_entries bindable reserve [] = true
has_entries bindable reserve (x ∷ c) =
    (not (bindable x.contain.port) || has_entry reserve x.contain.port)
    && has_entries bindable reserve c

has_entries-set :
    (bindable : ℕ → Bool) (reserve : List Bool) (i : ℕ) (b : Bool) (c : Chain Record)
    → has_entries bindable (set reserve i b) c ≡ has_entries bindable reserve c
unfolding has_entries
has_entries-set bindable reserve i b [] = refl
has_entries-set bindable reserve i b (x ∷ c) = rw (has_entries-set bindable reserve i b c) (
    ap
      (λ (n : ℕ).
        (not (bindable x.contain.port)
          || ltb default_register_port x.contain.port
            && ltb (x.contain.port - 1 - default_register_port) n)
        && has_entries bindable reserve c)
      (length-set reserve i b))

-- A table that reads as another does, but for one bucket, of which it lost every record.
pub record Emptied (i : ℕ) (h h' : Hash Record) : Type 0 where
  pub valid : IsValid h'
  pub width : h'.n ≡ h.n
  pub lost : (q : ℤ) → slot h.n q ≡ i → get_from_hash h' q ≡ some none
  pub others : (q : ℤ) → (slot h.n q == i) ≡ false → get_from_hash h' q ≡ get_from_hash h q

del_from_hash-Emptied :
    (i : ℕ) (h h' : Hash Record) (k : ℤ)
    → Emptied i h h'
    → slot h.n k ≡ i
    → (r : Option Record × Hash Record) × (del_from_hash h' k ≡ some r) × Emptied i h r.1
del_from_hash-Emptied i h h' k v here =
    let (r, run, valid, found, reads) = del_from_hash_lem h' k v.valid in
    let at : (q : ℤ) → slot h'.n q ≡ slot h.n q = λ q. ap (λ (n : ℕ). slot n q) v.width in
    (
      r,
      run,
      record {
        valid = valid;
        width = del_from_hash-n h' r.1 k r.0 run ∙ v.width;
        lost = λ q same. ground (arith, reads q, v.lost q same);
        others = λ q apart.
            ground (arith, reads q, v.others q apart, at q, at k, here, int_eq_iff k q, apart);
      },
    )

-- The register after the record of the node was taken out.
abbrev freed : Register → HashNode Record → Hash Record → Register
freed s x h = record {
  record_hash = h;
  port_reserve = set s.port_reserve (x.contain.port - 1 - default_register_port) false;
}

clean_chain-next :
    (bindable : ℕ → Bool) (s t : Register) (x : HashNode Record) (c : Chain Record)
    (r : Option Record) (h : Hash Record)
    → bindable x.contain.port ≡ true
    → has_entry s.port_reserve x.contain.port ≡ true
    → del_from_hash s.record_hash x.hash_code ≡ some (r, h)
    → clean_chain bindable (freed s x h) c ≡ some t
    → clean_chain bindable s (x ∷ c) ≡ some t
unfolding clean_chain
clean_chain-next bindable s t x c r h e room f g = rw (e, clean_chain) (rw (room, f) g)

-- The walk over what is left of a bucket that is empty by now.
clean_chain-Emptied :
    (bindable : ℕ → Bool) (i : ℕ) (h : Hash Record) (s : Register) (c : Chain Record)
    → Emptied i h s.record_hash
    → ((q : ℤ) → count q c ≤ to_nat (slot h.n q == i))
    → has_entries bindable s.port_reserve c ≡ true
    → (t : Register) × (clean_chain bindable s c ≡ some t) × Emptied i h t.record_hash
unfolding clean_chain has_entries count
clean_chain-Emptied bindable i h s [] v few room = (s, refl, v)
clean_chain-Emptied bindable i h s (x ∷ c) v few room =
    let few' : (q : ℤ) → count q c ≤ to_nat (slot h.n q == i) = λ q. ground (arith, few q) in
    elim (Bool-cases (bindable x.contain.port)) [
      | inr busy ↦
          let (t, run, emptied) =
            clean_chain-Emptied bindable i h s c v few' (ground (arith, room, busy)) in
          (t, rw (busy, clean_chain) run, emptied)
      | inl gone ↦
          let k = x.hash_code in
          let here : slot h.n k ≡ i = ground (arith, few k, int_eq_refl k) in
          let (r, del, once) = del_from_hash-Emptied i h s.record_hash k v here in
          let entry : has_entry s.port_reserve x.contain.port ≡ true = ground (arith, room, gone) in
          let next = freed s x r.1 in
          let rest : has_entries bindable next.port_reserve c ≡ true =
            has_entries-set bindable s.port_reserve (x.contain.port - 1 - default_register_port)
              false c
            ∙ ground (arith, room) in
          let (t, run, emptied) = clean_chain-Emptied bindable i h next c once few' rest in
          (t, clean_chain-next bindable s t x c r.0 r.1 gone entry del run, emptied)
    ]

-- On a valid table, the first record of a bucket is of a server that is gone, and `port_reserve` has an
-- entry for the port of each record there whose server is gone. The walk over the bucket returns, and
-- leaves a valid table in which every record of the bucket is lost, also of the servers that run, and
-- every code of another bucket reads what it read before.
pub clean_chain-drops :
    (bindable : ℕ → Bool) (s : Register) (x : HashNode Record) (c : Chain Record)
    → IsValid s.record_hash
    → bucket_of s.record_hash x.hash_code ≡ x ∷ c
    → bindable x.contain.port ≡ true
    → has_entries bindable s.port_reserve (x ∷ c) ≡ true
    → (t : Register) × (clean_chain bindable s (x ∷ c) ≡ some t)
      × Emptied (slot s.record_hash.n x.hash_code) s.record_hash t.record_hash
unfolding has_entries count
clean_chain-drops bindable s x c v here gone room =
    let k = x.hash_code in
    let i = slot s.record_hash.n k in
    let (r, del, valid, found, reads) = del_from_hash_lem s.record_hash k v in
    let cut : cuts s.record_hash k ≡ true = unfold cuts at_head in rw here (int_eq_refl k) in
    let once : Emptied i s.record_hash r.1 = record {
      valid = valid;
      width = del_from_hash-n s.record_hash r.1 k r.0 del;
      lost = λ q same. ground (arith, reads q, cut, same);
      others = λ q apart. ground (arith, reads q, int_eq_iff k q, apart);
    } in
    let placed : (q : ℤ)
        → count q (bucket_of s.record_hash k) ≤ to_nat (slot s.record_hash.n q == i) =
      λ q. v.placed i q in
    let few : (q : ℤ) → count q (x ∷ c) ≤ to_nat (slot s.record_hash.n q == i) =
      λ q. rw here at placed q in
    let few' : (q : ℤ) → count q c ≤ to_nat (slot s.record_hash.n q == i) =
      λ q. ground (arith, few q) in
    let entry : has_entry s.port_reserve x.contain.port ≡ true = ground (arith, room, gone) in
    let next = freed s x r.1 in
    let rest : has_entries bindable next.port_reserve c ≡ true =
      has_entries-set bindable s.port_reserve (x.contain.port - 1 - default_register_port) false c
      ∙ ground (arith, room) in
    let (t, run, emptied) = clean_chain-Emptied bindable i s.record_hash next c once few' rest in
    (t, clean_chain-next bindable s t x c r.0 r.1 gone entry del run, emptied)
