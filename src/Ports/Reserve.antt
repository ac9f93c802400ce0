-- ===== src/Ports/Reserve.antt =====
-- The table `port_reserve`: which port is given out next, and what a check of all ports leaves.
use ntu_sp17fall.Base.{
  ℕ, zero, suc, ◌+◌, ◌<◌, ◌≡◌, refl, Bool, true, false, not, List, [], ◌∷◌, none, some, pos,
  minus_one, arith, ap, ◌⊎◌, inl, inr, Option-cases, length, get_elem?, set,
}
use ntu_sp17fall.Ports.{Register, next_free, get_next_port, check_from, check_port_reserve}

next_free-some :
    (xs : List Bool) (i j : ℕ)
    → next_free i xs ≡ some j
    → (k : ℕ) × (j ≡ i + k)
      × (get_elem? xs k ≡ some false)
      × ((m : ℕ) → m < k → get_elem? xs m ≡ some true)
unfolding next_free
next_free-some [] i j h = cc
next_free-some (false ∷ xs) i j h = (0, ground arith, refl, λ m l. absurd (omega arith))
next_free-some (true ∷ xs) i j h =
    let (k, at, free, before) = next_free-some xs (i + 1) j h in
    (suc k, omega arith, free, earlier k before)
  where
    earlier :
        (k : ℕ)
        → ((m : ℕ) → m < k → get_elem? xs m ≡ some true)
        → (m : ℕ) → m < suc k
        → get_elem? {A = Bool} (true ∷ xs) m ≡ some true
    earlier k before zero l = refl
    earlier k before (suc m) l = before m (omega arith)

next_free-none :
    (xs : List Bool) (i : ℕ)
    → next_free i xs ≡ none
    → (m : ℕ) → m < length xs
    → get_elem? xs m ≡ some true
unfolding next_free
next_free-none [] i h m l = elim l [ ]
next_free-none (false ∷ xs) i h m l = cc
next_free-none (true ∷ xs) i h zero l = refl
next_free-none (true ∷ xs) i h (suc m) l = next_free-none xs (i + 1) h m (omega arith)

-- Either every port is reserved, the answer is -1 and nothing changes; or the answer is the port of the
-- first entry that is free, that entry is reserved, and all before it were.
pub get_next_port_lem :
    (reserve : List Bool)
    → ((get_next_port reserve ≡ (minus_one, reserve))
        × ((m : ℕ) → m < length reserve → get_elem? reserve m ≡ some true))
      ⊎ ((k : ℕ) × (get_next_port reserve ≡ (pos (2501 + k), set reserve k true))
          × (get_elem? reserve k ≡ some false)
          × ((m : ℕ) → m < k → get_elem? reserve m ≡ some true))
unfolding get_next_port
get_next_port_lem reserve = elim (Option-cases (next_free 0 reserve)) [
  | inl e ↦ inl (rw (e, get_next_port), next_free-none reserve 0 e)
  | inr (j, e) ↦
      let (k, at, free, before) = next_free-some reserve 0 j e in
      inr (k, ground arith, free, before)
]

-- A check sets each entry by what the system answers for its port, whatever it was.
check_from_lem :
    (bindable : ℕ → Bool) (xs : List Bool) (i k : ℕ)
    → k < length xs
    → get_elem? (check_from bindable i xs) k ≡ some (not (bindable (2501 + (i + k))))
unfolding check_from
check_from_lem bindable [] i k h = elim h [ ]
check_from_lem bindable (x ∷ xs) i zero h =
    let e : i + 2500 + 1 ≡ 2501 + (i + 0) = omega arith in rw e
check_from_lem bindable (x ∷ xs) i (suc k) h =
    let e : i + 1 + k ≡ i + suc k = omega arith in
    rw e at (check_from_lem bindable xs (i + 1) k (omega arith))

check_from_idem :
    (bindable : ℕ → Bool) (xs : List Bool) (i : ℕ)
    → check_from bindable i (check_from bindable i xs) ≡ check_from bindable i xs
unfolding check_from
check_from_idem bindable [] i = refl
check_from_idem bindable (x ∷ xs) i = rw (check_from_idem bindable xs (i + 1))

-- After a check each entry says whether its port is in use, the table of records is as before, and a
-- second check with the same answers changes nothing.
pub check_port_reserve_lem :
    (bindable : ℕ → Bool) (s : Register) (k : ℕ)
    → k < length s.port_reserve
    → (get_elem? (check_port_reserve bindable s).port_reserve k ≡ some (not (bindable (2501 + k))))
      × ((check_port_reserve bindable s).record_hash ≡ s.record_hash)
      × (check_port_reserve bindable (check_port_reserve bindable s)
          ≡ check_port_reserve bindable s)
unfolding check_port_reserve
check_port_reserve_lem bindable s k h = (
  (let e : 0 + k ≡ k = omega arith in rw e at (check_from_lem bindable s.port_reserve 0 k h)),
  refl,
  ap (λ (xs : List Bool). record s { port_reserve = xs })
      (check_from_idem bindable s.port_reserve 0),
)
