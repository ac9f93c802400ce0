-- ===== src/Ports.antt =====
-- MP5/src/port_register.c: the register server, which gives each server a port and tells clients the
-- port of a server's name. MP2/src/port_register.c is an earlier copy without `web_port`.
-- The table of records is that of Hash.antt; `none` is a fault of that table. Whether a port can be
-- bound is the argument `bindable`, as the operating system answers it, and `htonl` is the C library's.
pub mod Reserve
pub mod Book
pub mod Clean
use ntu_sp17fall.Base.{
  ℕ, zero, suc, ◌+◌, ◌-◌, ◌*◌, ◌%◌, ◌^◌, Bool, true, false, not, List, [], ◌∷◌, ◌++◌, Option, none,
  some, ℤ, pos, minus_one, of_bits, int_eq, Text, ltb, ◌&&◌, length, ◌==◌, if◌then◌else◌, set,
  get_or, replicate,
}
use ntu_sp17fall.Hash.{
  HashNode, Chain, Hash, buckets, locate, store, empty_hash, init_hash, put_into_hash,
  get_from_hash, del_from_hash,
}

pub record Record : Type 0 where
  pub name : Text
  pub port : ℕ

-- `port_reserve` has an entry for each port from 2501 on; `true` stands for 1.
pub record Register : Type 0 where
  pub record_hash : Hash Record
  pub port_reserve : List Bool

abbrev pub default_register_port : ℕ
default_register_port = 2500

abbrev pub port_reserve_size : ℕ
port_reserve_size = 512

-- The two globals after `main` has cleared them and made the table; the result of `init_hash` beside.
unfoldable pub start : Bool → Bool × Register
start alloc =
    let (done, h) = init_hash alloc empty_hash (pos 100) in
    (done, record { record_hash = h; port_reserve = replicate port_reserve_size false })

-- The 32 bits of `(int)name[i]` for a signed `char`.
abbrev pub char_bits : ℕ → ℕ
char_bits c = if ltb c 128 then c else c + 2 ^ 32 - 256

unfoldable pub hash_bits : ℕ → Text → ℕ
hash_bits code [] = code
hash_bits code (c ∷ name) = hash_bits ((code * code + char_bits c) % 2 ^ 32) name

unfoldable pub get_hash_code : Text → ℤ
unfolding hash_bits
get_hash_code name = of_bits (hash_bits 1 name)

-- The first index, from `i` on, whose entry is 0.
unfoldable pub next_free : ℕ → List Bool → Option ℕ
next_free i [] = none
next_free i (taken ∷ rest) = let later = next_free (i + 1) rest in if taken then later else some i

unfoldable pub get_next_port : List Bool → ℤ × List Bool
get_next_port reserve = elim (next_free 0 reserve) [
  | none ↦ (minus_one, reserve)
  | some i ↦ (pos (i + default_register_port + 1), set reserve i true)
]

-- `r->port = port` for the record that the table holds under a code.
unfoldable pub chain_assign : ℤ → ℕ → Chain Record → Chain Record
chain_assign code port [] = []
chain_assign code port (x ∷ c) =
    if int_eq x.hash_code code
    then record x { contain = record x.contain { port = port } } ∷ c
    else x ∷ chain_assign code port c

unfoldable pub assign_port : Hash Record → ℤ → ℕ → Option (Hash Record)
unfolding chain_assign
assign_port h code port = elim (locate h code) [
  | none ↦ none
  | some (i, c) ↦ some (store h i (chain_assign code port c))
]

-- `alloc_record` and `alloc_node` are the answers of the two calls of `malloc`. The result of
-- `put_into_hash` is dropped.
unfoldable pub book_with :
    Bool → Bool → Register → Text → ℤ → Option Record → ℤ → List Bool → Option (ℤ × Register)
book_with alloc_record alloc_node s name code found (ℤ.negsuc n) reserve =
    some (minus_one, record s { port_reserve = reserve })
book_with alloc_record alloc_node s name code none (pos port) reserve =
    if not alloc_record
    then some (minus_one, record s { port_reserve = reserve })
    else elim (put_into_hash alloc_node s.record_hash (record { name = name; port = port }) code) [
      | none ↦ none
      | some (done, h) ↦ some (pos port, record { record_hash = h; port_reserve = reserve })
    ]
book_with alloc_record alloc_node s name code (some r) (pos port) reserve =
    elim (assign_port s.record_hash code port) [
      | none ↦ none
      | some h ↦ some (pos port, record { record_hash = h; port_reserve = reserve })
    ]

unfoldable pub book_port : Bool → Bool → Register → Text → Option (ℤ × Register)
book_port alloc_record alloc_node s name =
    let code = get_hash_code name in
    elim (get_from_hash s.record_hash code) [
      | none ↦ none
      | some found ↦
          let (port, reserve) = get_next_port s.port_reserve in
          book_with alloc_record alloc_node s name code found port reserve
    ]

unfoldable pub get_port : Register → Text → Option ℤ
get_port s name = elim (get_from_hash s.record_hash (get_hash_code name)) [
  | none ↦ none
  | some none ↦ some minus_one
  | some (some r) ↦ some (pos r.port)
]

unfoldable pub web_port : (ℤ → ℤ) → Bool → Bool → Register → Text → Option (ℤ × Register)
web_port htonl alloc_record alloc_node s name = elim (get_port s name) [
  | none ↦ none
  | some port ↦
      if int_eq port minus_one
      then elim (book_port alloc_record alloc_node s name) [
        | none ↦ none
        | some (booked, s') ↦ some (htonl booked, s')
      ]
      else some (htonl port, s)
]

-- `act` is the first byte that `read` gives, `name` the bytes of the second call; an empty name stands
-- for a failed or empty `read`. The answer is the `int` that is written, if any.
unfoldable pub handle_request :
    (ℤ → ℤ) → Bool → Bool → Register → Option ℕ → Text → Option (Option ℤ × Register)
handle_request htonl alloc_record alloc_node s none name = some (none, s)
handle_request htonl alloc_record alloc_node s (some act) [] = some (none, s)
handle_request htonl alloc_record alloc_node s (some act) (c ∷ cs) =
    let name : Text = c ∷ cs in
    let answer : ℤ × Register → Option (Option ℤ × Register) = λ r. some (some r.0, r.1) in
    if act == b'0'
    then elim (book_port alloc_record alloc_node s name) [ none ↦ none | some r ↦ answer r ]
    else if act == b'1'
    then elim (get_port s name) [ none ↦ none | some port ↦ answer (port, s) ]
    else if act == b'2'
    then elim (web_port htonl alloc_record alloc_node s name) [ none ↦ none | some r ↦ answer r ]
    else some (none, s)

unfoldable pub check_from : (ℕ → Bool) → ℕ → List Bool → List Bool
check_from bindable i [] = []
check_from bindable i (state ∷ rest) =
    not (bindable (i + default_register_port + 1)) ∷ check_from bindable (i + 1) rest

unfoldable pub check_port_reserve : (ℕ → Bool) → Register → Register
unfolding check_from
check_port_reserve bindable s = record s { port_reserve = check_from bindable 0 s.port_reserve }

abbrev pub has_entry : List Bool → ℕ → Bool
has_entry reserve port =
    ltb default_register_port port && ltb (port - 1 - default_register_port) (length reserve)

-- The walk over the nodes that a bucket held when the loop came to it. A port that `port_reserve` has no
-- entry for is written outside the array, a fault.
unfoldable pub clean_chain : (ℕ → Bool) → Register → Chain Record → Option Register
clean_chain bindable s [] = some s
clean_chain bindable s (x ∷ c) =
    let port = x.contain.port in
    elim (bindable port) [
      | false ↦ clean_chain bindable s c
      | true ↦
          if has_entry s.port_reserve port
          then elim (del_from_hash s.record_hash x.hash_code) [
            | none ↦ none
            | some (r, h) ↦
                clean_chain bindable
                  (record {
                    record_hash = h;
                    port_reserve = set s.port_reserve (port - 1 - default_register_port) false;
                  })
                  c
          ]
          else none
    ]

-- `rounds` buckets from the index `i` on.
unfoldable pub clean_buckets : (ℕ → Bool) → ℕ → ℕ → Register → Option Register
unfolding clean_chain
clean_buckets bindable zero i s = some s
clean_buckets bindable (suc rounds) i s =
    elim (clean_chain bindable s (get_or (buckets s.record_hash) i [])) [
      | none ↦ none
      | some s' ↦ clean_buckets bindable rounds (i + 1) s'
    ]

unfoldable pub clean_port_reserve : (ℕ → Bool) → Register → Option Register
unfolding clean_buckets
clean_port_reserve bindable s = elim (clean_buckets bindable s.record_hash.n 0 s) [
  | none ↦ none
  | some s' ↦ some (check_port_reserve bindable s')
]
