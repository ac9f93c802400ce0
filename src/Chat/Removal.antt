-- ===== src/Chat/Removal.antt =====
-- What `remove_try_match` of MP4/server_main.cpp does to the places that the search refers to.
use ntu_sp17fall.Base.{
  ℕ, zero, suc, ◌-◌, ◌≡◌, ◌≢◌, refl, ap, false, List, [], ◌∷◌, ◌++◌, Option, none, some,
  if◌then◌else◌, arith, ◌∙◌, get_elem?, Option-cases, inl, inr, ltb,
}
use ntu_sp17fall.Chat.{Server, Process, no_solution}
use ntu_sp17fall.Chat.Leave.{
  is_fd, waiting_at, invalidate, last_index, erase_at, shift_index, shift_process, shift_pool,
  shift_boss, leave_waiting, remove_try_match,
}

-- A place before the erased one keeps its element, and one behind it moves down by one.
get_elem?-erase_at :
    (xs ys : List ℕ) (q i : ℕ)
    → erase_at q xs ≡ some ys
    → i ≢ q
    → get_elem? ys (if ltb q i then i - 1 else i) ≡ get_elem? xs i
unfolding erase_at
get_elem?-erase_at [] ys q i h n = cc
get_elem?-erase_at (x ∷ xs) ys zero zero h n = absurd (n refl)
get_elem?-erase_at (x ∷ xs) ys zero (suc i) h n =
    let p : xs ≡ ys = cc in
    let e : (if ltb 0 (suc i) then suc i - 1 else suc i) ≡ i = ground arith in rw (e, p)
get_elem?-erase_at (x ∷ xs) ys (suc q) zero h n = elim (Option-cases (erase_at q xs)) [
  | inl e ↦ absurd (ground arith)
  | inr (zs, e) ↦
      let p : x ∷ zs ≡ ys = ground arith in
      let at : (if ltb (suc q) 0 then 0 - 1 else 0) ≡ 0 = ground arith in rw (at, ← p)
]
get_elem?-erase_at (x ∷ xs) ys (suc q) (suc i) h n = elim (Option-cases (erase_at q xs)) [
  | inl e ↦ absurd (ground arith)
  | inr (zs, e) ↦
      let p : x ∷ zs ≡ ys = ground arith in
      let at : (if ltb (suc q) (suc i) then suc i - 1 else suc i)
          ≡ suc (if ltb q i then i - 1 else i) =
        ground arith in
      rw (at, ← p) (get_elem?-erase_at xs zs q i e (omega arith))
]

get_elem?-shift_pool :
    (quit n : ℕ) (ps : List Process) (p : Process)
    → get_elem? ps n ≡ some p
    → get_elem? (shift_pool quit ps) n ≡ some (shift_process quit p)
unfolding shift_pool
get_elem?-shift_pool quit n [] p h = cc
get_elem?-shift_pool quit zero (x ∷ ps) p h =
    let same : x ≡ p = ground arith in ap (λ (r : Process). some (shift_process quit r)) same
get_elem?-shift_pool quit (suc n) (x ∷ ps) p h = get_elem?-shift_pool quit n ps p h

waiting_at-shift :
    (s t : Server) (fd i : ℕ)
    → leave_waiting s fd ≡ some t
    → is_fd s.mama.working_on_fd fd ≡ false
    → i ≢ last_index fd 0 no_solution s.waiting_list
    → waiting_at t.waiting_list (shift_index (last_index fd 0 no_solution s.waiting_list) (some i))
      ≡ waiting_at s.waiting_list (some i)
unfolding leave_waiting shift_index waiting_at
waiting_at-shift s t fd i run other n =
    let q = last_index fd 0 no_solution s.waiting_list in
    elim (Option-cases (erase_at q s.waiting_list)) [
      | inl e ↦ absurd (ground arith)
      | inr (ys, e) ↦
          let p : ys ≡ t.waiting_list = ground arith in
          rw (← p) (get_elem?-erase_at s.waiting_list ys q i e n)
    ]

process_pool-leave_waiting :
    (s t : Server) (fd : ℕ)
    → leave_waiting s fd ≡ some t
    → is_fd s.mama.working_on_fd fd ≡ false
    → t.process_pool ≡ shift_pool (last_index fd 0 no_solution s.waiting_list) s.process_pool
unfolding leave_waiting
process_pool-leave_waiting s t fd run other =
    let q = last_index fd 0 no_solution s.waiting_list in
    elim (Option-cases (erase_at q s.waiting_list)) [
      | inl e ↦ absurd (ground arith)
      | inr (ys, e) ↦ ground arith
    ]

-- A client other than the one that searches leaves the waiting list. Each process of the pool that holds
-- a place other than the one erased is still there, with all its other fields, and the place that it
-- now holds in the shorter list names the same client as before.
pub leave_waiting-keeps :
    (s t : Server) (fd n i : ℕ) (p : Process)
    → leave_waiting s fd ≡ some t
    → is_fd s.mama.working_on_fd fd ≡ false
    → get_elem? s.process_pool n ≡ some p
    → p.waiting_list_index ≡ some i
    → i ≢ last_index fd 0 no_solution s.waiting_list
    → (j : ℕ) × (get_elem? t.process_pool n ≡ some (record p { waiting_list_index = some j }))
      × (get_elem? t.waiting_list j ≡ get_elem? s.waiting_list i)
unfolding shift_index shift_process waiting_at
leave_waiting-keeps s t fd n i p run other at place apart =
    let q = last_index fd 0 no_solution s.waiting_list in
    let j = if ltb q i then i - 1 else i in
    let moved : shift_process q p ≡ record p { waiting_list_index = some j } =
      ap (λ (o : Option ℕ). record p { waiting_list_index = shift_index q o }) place in
    (
      j,
      ap (λ (ps : List Process). get_elem? ps n) (process_pool-leave_waiting s t fd run other)
          ∙ get_elem?-shift_pool q n s.process_pool p at
          ∙ ap some moved,
      waiting_at-shift s t fd i run other apart,
    )

-- A client leaves at the very place that `solution` names, and others wait behind it: `solution` is
-- left as it was, and now names the next client, whose filter was never asked.
pub leave_waiting-stale :
    (s t : Server) (fd : ℕ)
    → leave_waiting s fd ≡ some t
    → is_fd s.mama.working_on_fd fd ≡ false
    → last_index fd 0 no_solution s.waiting_list ≡ s.mama.solution
    → (t.mama.solution ≡ s.mama.solution)
      × (get_elem? t.waiting_list t.mama.solution ≡ get_elem? s.waiting_list (suc s.mama.solution))
unfolding leave_waiting shift_boss
leave_waiting-stale s t fd run other e =
    let q = last_index fd 0 no_solution s.waiting_list in
    elim (Option-cases (erase_at q s.waiting_list)) [
      | inl f ↦ absurd (ground arith)
      | inr (ys, f) ↦
          let p : ys ≡ t.waiting_list = ground arith in
          let same : t.mama.solution ≡ s.mama.solution = ground arith in
          let behind = get_elem?-erase_at s.waiting_list ys q (suc q) f (omega arith) in
          let at : (if ltb q (suc q) then suc q - 1 else suc q) ≡ q = ground arith in
          (same, rw (same, ← p, ← e) (rw at at behind))
    ]

invalidate-none :
    (working : Option ℕ) (waiting : List ℕ) (fd : ℕ) (ps qs : List Process) (p : Process)
    → is_fd working fd ≡ false
    → p.waiting_list_index ≡ none
    → invalidate working waiting fd (ps ++ p ∷ qs) ≡ none
unfolding invalidate waiting_at
invalidate-none working waiting fd [] qs p h e = ground arith
invalidate-none working waiting fd (x ∷ ps) qs p h e =
    ground (arith, invalidate-none working waiting fd ps qs p h e)

-- As long as some process has had no job yet, a client that leaves while another one is searching, or
-- none, makes the code read `waiting_list[-1]`.
pub remove_try_match-fault :
    (s : Server) (fd : ℕ) (ps qs : List Process) (p : Process)
    → s.process_pool ≡ ps ++ p ∷ qs
    → p.waiting_list_index ≡ none
    → is_fd s.mama.working_on_fd fd ≡ false
    → remove_try_match s fd ≡ none
unfolding remove_try_match
remove_try_match-fault s fd ps qs p e idle h =
    let k : invalidate s.mama.working_on_fd s.waiting_list fd s.process_pool ≡ none =
      ap (invalidate s.mama.working_on_fd s.waiting_list fd) e
      ∙ invalidate-none _ _ fd ps qs p h idle in
    ground (arith, k)
