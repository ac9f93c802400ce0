-- ===== src/Tests/Ports.antt =====
-- A register with four ports, the first of them taken, where the server "a" is booked.
use ntu_sp17fall.Base.{
  ℕ, ◌+◌, ◌<◌, ◌≡◌, refl, true, false, not, ◌⊎◌, [], ◌∷◌, some, ℤ, pos, minus_one, int_eq, set,
  get_elem?, ◌==◌, if◌then◌else◌, Text, codes, arith,
}
use ntu_sp17fall.Hash.{
  HashNode, Hash, slot, empty_hash, buckets, init_with, init_hash, locate, store, chain_put,
  put_into_hash,
}
use ntu_sp17fall.Hash.Laws.{IsValid, bucket_of, init_hash-IsValid, put_into_hash_lem}
use ntu_sp17fall.Ports.{
  Record, Register, get_hash_code, book_port, get_port, check_port_reserve, clean_chain,
  get_next_port,
}
use ntu_sp17fall.Ports.Reserve.{check_port_reserve_lem, get_next_port_lem}
use ntu_sp17fall.Ports.Book.{book_port_lem}
use ntu_sp17fall.Ports.Clean.{Emptied, has_entries, clean_chain-drops}

abbrev none_booked : Hash Record
none_booked = record { node = some ([] ∷ [] ∷ [] ∷ [] ∷ []); n = 4 }

-- The code of "a" is 1 + 97, which falls into bucket 2.
abbrev booked_a : HashNode Record
booked_a = record { contain = record { name = codes "a"; port = 2501 }; hash_code = pos 98 }

-- And that of "e" is 102, in the same bucket.
abbrev booked_e : HashNode Record
booked_e = record { contain = record { name = codes "e"; port = 2502 }; hash_code = pos 102 }

abbrev with_a : Hash Record
with_a = record { node = some ([] ∷ [] ∷ (booked_a ∷ []) ∷ [] ∷ []); n = 4 }

abbrev with_both : Hash Record
with_both = record { node = some ([] ∷ [] ∷ (booked_a ∷ booked_e ∷ []) ∷ [] ∷ []); n = 4 }

abbrev register_a : Register
register_a = record { record_hash = with_a; port_reserve = true ∷ false ∷ false ∷ [] }

abbrev register_both : Register
register_both = record { record_hash = with_both; port_reserve = true ∷ true ∷ false ∷ [] }

none_booked-IsValid : IsValid none_booked
unfolding init_hash init_with
none_booked-IsValid = (init_hash-IsValid {A = Record} empty_hash 3 refl).1

put-IsValid :
    (h t : Hash Record) (r : Record) (k : ℤ)
    → IsValid h
    → put_into_hash true h r k ≡ some (true, t)
    → IsValid t
put-IsValid h t r k v e =
    let (q, run, valid, old, reads) = put_into_hash_lem true h r k v in
    let same : q.1 ≡ t = ground arith in rw same at valid

put_a : put_into_hash true none_booked booked_a.contain (pos 98) ≡ some (true, with_a)
unfolding put_into_hash locate buckets slot store chain_put
put_a = refl

put_e : put_into_hash true with_a booked_e.contain (pos 102) ≡ some (true, with_both)
unfolding put_into_hash locate buckets slot store chain_put
put_e = refl

with_a-IsValid : IsValid with_a
with_a-IsValid = put-IsValid none_booked with_a booked_a.contain (pos 98) none_booked-IsValid put_a

with_both-IsValid : IsValid with_both
with_both-IsValid = put-IsValid with_a with_both booked_e.contain (pos 102) with_a-IsValid put_e

get_next_port_lem_test :
    ((get_next_port (true ∷ false ∷ []) ≡ (minus_one, true ∷ false ∷ []))
      × ((m : ℕ) → m < 2 → get_elem? (true ∷ false ∷ []) m ≡ some true))
    ⊎ ((k : ℕ) × (get_next_port (true ∷ false ∷ [])
          ≡ (pos (2501 + k), set (true ∷ false ∷ []) k true))
        × (get_elem? (true ∷ false ∷ []) k ≡ some false)
        × ((m : ℕ) → m < k → get_elem? (true ∷ false ∷ []) m ≡ some true))
get_next_port_lem_test = get_next_port_lem (true ∷ false ∷ [])

check_port_reserve_lem_test :
    (get_elem? (check_port_reserve (λ p. p == 2502) register_both).port_reserve 1
      ≡ some (not (2502 == 2502)))
    × ((check_port_reserve (λ p. p == 2502) register_both).record_hash ≡ with_both)
    × (check_port_reserve (λ p. p == 2502) (check_port_reserve (λ p. p == 2502) register_both)
        ≡ check_port_reserve (λ p. p == 2502) register_both)
check_port_reserve_lem_test = check_port_reserve_lem (λ p. p == 2502) register_both 1 (omega arith)

book_port_lem_example :
    ((book_port true true register_a (codes "e") ≡ some (minus_one, register_a))
      × ((m : ℕ) → m < 3 → get_elem? register_a.port_reserve m ≡ some true))
    ⊎ ((k : ℕ) × (t : Register) × (book_port true true register_a (codes "e")
          ≡ some (pos (2501 + k), t))
        × (get_elem? register_a.port_reserve k ≡ some false)
        × ((m : ℕ) → m < k → get_elem? register_a.port_reserve m ≡ some true)
        × (t.port_reserve ≡ set register_a.port_reserve k true)
        × IsValid t.record_hash
        × ((other : Text)
            → get_port t other ≡ (
                if int_eq (get_hash_code (codes "e")) (get_hash_code other)
                then some (pos (2501 + k))
                else get_port register_a other)))
book_port_lem_example = book_port_lem register_a (codes "e") with_a-IsValid

bucket_a : bucket_of with_both (pos 98) ≡ booked_a ∷ booked_e ∷ []
unfolding slot buckets
bucket_a = refl

bucket_a-entries :
    has_entries (λ p. p == 2501) register_both.port_reserve (booked_a ∷ booked_e ∷ []) ≡ true
unfolding has_entries
bucket_a-entries = refl

-- The server "a" is gone, and "e", which runs, loses its record.
clean_chain-drops_example :
    (t : Register) × (clean_chain (λ p. p == 2501) register_both (booked_a ∷ booked_e ∷ [])
      ≡ some t)
    × Emptied (slot 4 (pos 98)) with_both t.record_hash
clean_chain-drops_example =
    clean_chain-drops (λ p. p == 2501) register_both booked_a (booked_e ∷ []) with_both-IsValid
      bucket_a refl bucket_a-entries
