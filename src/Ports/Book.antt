-- ===== src/Ports/Book.antt =====
-- Booking a port under a name and asking for it.
use ntu_sp17fall.Base.{
  ℕ, ◌+◌, ◌≤◌, ◌<◌, ◌≡◌, refl, sym, ◌∙◌, Bool, true, false, List, [], ◌∷◌, Option, none, some, ℤ,
  pos, minus_one, int_eq, int_eq_iff, arith, if◌then◌else◌, ◌==◌, Text, inl, inr, ◌⊎◌, set, length,
  get_elem?,
}
use ntu_sp17fall.Hash.{Chain, Hash, slot, store, chain_get, get_from_hash}
use ntu_sp17fall.Hash.Bucket.{count, to_nat}
use ntu_sp17fall.Hash.Laws.{
  IsValid, bucket_of, locate-bucket_of, get-bucket_of, store-IsValid, get-store, put_into_hash_lem,
}
use ntu_sp17fall.Ports.{
  Record, Register, chain_assign, assign_port, get_hash_code, get_next_port, book_with, book_port,
  get_port,
}
use ntu_sp17fall.Ports.Reserve.{get_next_port_lem}

count-chain_assign :
    (q k : ℤ) (port : ℕ) (c : Chain Record) → count q (chain_assign k port c) ≡ count q c
unfolding count chain_assign
count-chain_assign q k port [] = refl
count-chain_assign q k port (x ∷ c) = ground (arith, count-chain_assign q k port c)

-- What a code reads after the port of another one, or its own, was replaced.
abbrev with_port : ℕ → Option Record → Option Record
with_port port none = none
with_port port (some r) = some (record r { port = port })

get-chain_assign :
    (q k : ℤ) (port : ℕ) (c : Chain Record)
    → chain_get q (chain_assign k port c)
      ≡ (if int_eq k q then with_port port (chain_get q c) else chain_get q c)
unfolding chain_get chain_assign
get-chain_assign q k port [] = ground arith
get-chain_assign q k port (x ∷ c) = ground (
  arith,
  get-chain_assign q k port c,
  int_eq_iff x.hash_code k,
  int_eq_iff k q,
  int_eq_iff x.hash_code q,
)

assign_port-bucket_of :
    (h : Hash Record) (k : ℤ) (port : ℕ)
    → IsValid h
    → assign_port h k port ≡ some (store h (slot h.n k) (chain_assign k port (bucket_of h k)))
unfolding assign_port
assign_port-bucket_of h k port v = rw (locate-bucket_of k v, assign_port)

assign_port_lem :
    (h : Hash Record) (k : ℤ) (port : ℕ) (r : Record)
    → IsValid h
    → get_from_hash h k ≡ some (some r)
    → (h' : Hash Record) × (assign_port h k port ≡ some h')
      × IsValid h'
      × ((q : ℤ)
          → get_from_hash h' q
            ≡ (if int_eq k q then some (some (record r { port = port })) else get_from_hash h q))
assign_port_lem h k port r v e =
    let c = chain_assign k port (bucket_of h k) in
    let found : some (chain_get k (bucket_of h k)) ≡ some (some r) = sym (get-bucket_of k v) ∙ e in
    let few : (q : ℤ) → count q c ≤ to_nat (slot h.n q == slot h.n k) =
      λ q. rw (count-chain_assign q k port (bucket_of h k)) (v.placed (slot h.n k) q) in
    (
      store h (slot h.n k) c,
      assign_port-bucket_of h k port v,
      store-IsValid k c v few,
      λ q.
          rw (get-store k c q v few, get-bucket_of q v, get-chain_assign q k port (bucket_of h k))
            (ground (arith, int_eq_iff k q, found)),
    )

get_port-reads :
    (s t : Register) (other : Text) (k : ℤ) (r : Record)
    → get_from_hash t.record_hash (get_hash_code other) ≡ (
        if int_eq k (get_hash_code other)
        then some (some r)
        else get_from_hash s.record_hash (get_hash_code other))
    → get_port t other
      ≡ (if int_eq k (get_hash_code other) then some (pos r.port) else get_port s other)
unfolding get_port
get_port-reads s t other k r e = ground arith

-- What a booking that was given `port` leaves: later calls of `get_port` answer with it under every
-- name with the code of this one, and as before under any other.
record Booked (s : Register) (name : Text) (port : ℕ) (reserve : List Bool) (t : Register)
    : Type 0 where
  valid : IsValid t.record_hash
  reserved : t.port_reserve ≡ reserve
  answers :
      (other : Text)
      → get_port t other ≡ (
          if int_eq (get_hash_code name) (get_hash_code other)
          then some (pos port)
          else get_port s other)

book_new :
    (s : Register) (name : Text) (port : ℕ) (reserve : List Bool)
    → IsValid s.record_hash
    → get_from_hash s.record_hash (get_hash_code name) ≡ some none
    → (t : Register) × (book_with true true s name (get_hash_code name) none (pos port) reserve
        ≡ some (pos port, t))
      × Booked s name port reserve t
unfolding book_with
book_new s name port reserve v absent =
    let r : Record = record { name = name; port = port } in
    let (p, run, valid, done, reads) =
      put_into_hash_lem true s.record_hash r (get_hash_code name) v in
    let did : p.0 ≡ true = done none absent in
    (
      record { record_hash = p.1; port_reserve = reserve },
      rw (run, book_with),
      record {
        valid = valid;
        reserved = refl;
        answers = λ other. get_port-reads s _ other _ r (rw did at (reads (get_hash_code other)));
      },
    )

book_again :
    (s : Register) (name : Text) (port : ℕ) (reserve : List Bool) (r : Record)
    → IsValid s.record_hash
    → get_from_hash s.record_hash (get_hash_code name) ≡ some (some r)
    → (t : Register) × (book_with true true s name (get_hash_code name) (some r) (pos port) reserve
        ≡ some (pos port, t))
      × Booked s name port reserve t
unfolding book_with
book_again s name port reserve r v there =
    let (h, run, valid, reads) =
      assign_port_lem s.record_hash (get_hash_code name) port r v there in
    (
      record { record_hash = h; port_reserve = reserve },
      rw (run, book_with),
      record {
        valid = valid;
        reserved = refl;
        answers = λ other. get_port-reads s _ other _ _ (reads (get_hash_code other));
      },
    )

book_found :
    (s : Register) (name : Text) (port : ℕ) (reserve : List Bool) (found : Option Record)
    → IsValid s.record_hash
    → get_from_hash s.record_hash (get_hash_code name) ≡ some found
    → (t : Register) × (book_with true true s name (get_hash_code name) found (pos port) reserve
        ≡ some (pos port, t))
      × Booked s name port reserve t
book_found s name port reserve none v there = book_new s name port reserve v there
book_found s name port reserve (some r) v there = book_again s name port reserve r v there

book_port-eq :
    (s : Register) (name : Text) (found : Option Record) (port : ℤ) (reserve : List Bool)
    → get_from_hash s.record_hash (get_hash_code name) ≡ some found
    → get_next_port s.port_reserve ≡ (port, reserve)
    → book_port true true s name
      ≡ book_with true true s name (get_hash_code name) found port reserve
unfolding book_port
book_port-eq s name found port reserve e f = rw (e, book_port, f)

-- On a valid table, with memory, a booking answers -1 and changes nothing if every port is reserved. Else
-- it answers the first free port, reserves it, keeps the table valid, and later requests are answered
-- with that port under every name with the code of the booked one, and as before under any other.
pub book_port_lem :
    (s : Register) (name : Text)
    → IsValid s.record_hash
    → ((book_port true true s name ≡ some (minus_one, s))
        × ((m : ℕ) → m < length s.port_reserve → get_elem? s.port_reserve m ≡ some true))
      ⊎ ((k : ℕ) × (t : Register) × (book_port true true s name ≡ some (pos (2501 + k), t))
          × (get_elem? s.port_reserve k ≡ some false)
          × ((m : ℕ) → m < k → get_elem? s.port_reserve m ≡ some true)
          × (t.port_reserve ≡ set s.port_reserve k true)
          × IsValid t.record_hash
          × ((other : Text)
              → get_port t other ≡ (
                  if int_eq (get_hash_code name) (get_hash_code other)
                  then some (pos (2501 + k))
                  else get_port s other)))
book_port_lem s name v =
    let code = get_hash_code name in
    let there = get-bucket_of code v in
    elim (get_next_port_lem s.port_reserve) [
      | inl (full, all) ↦ inl (
        book_port-eq s name _ minus_one s.port_reserve there full ∙ unfold book_with in refl,
        all,
      )
      | inr (k, next, free, before) ↦
          let reserve = set s.port_reserve k true in
          let (t, run, b) =
            book_found s name (2501 + k) reserve (chain_get code (bucket_of s.record_hash code)) v
              there in
          inr (
            k,
            t,
            book_port-eq s name _ (pos (2501 + k)) reserve there next ∙ run,
            free,
            before,
            b.reserved,
            b.valid,
            b.answers,
          )
    ]
