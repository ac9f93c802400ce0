-- ===== src/Server/Receive.antt =====
-- The loop of `sync_file` in MP5/src/csiebox_server.c that receives a file in pieces of up to 4096 bytes.
use mathlib.Core.List.{flatten}
use ntu_sp17fall.Base.{
  ℕ, zero, suc, ◌+◌, ◌-◌, ◌<◌, ◌≤◌, ◌≡◌, refl, List, [], ◌∷◌, Option, none, some, Text, ltb, length,
  take, drop, if◌then◌else◌, arith, Bool-cases, inl, inr, length-drop, take-drop, leb, ltb→lt, ◌⊎◌,
  true, false,
}

unfoldable pub next_length : ℕ → ℕ → ℕ
next_length datalen total = if ltb (datalen - total) 4096 then datalen - total else 4096

-- `stream` is what the connection still holds; a `recv_message` of more than that fails, and ends the
-- loop. The fuel is counted in rounds; `none` is that it ran out.
unfoldable pub receive : ℕ → ℕ → ℕ → Text → Option (List Text)
receive zero total datalen stream = none
receive (suc fuel) total datalen stream =
    let readlen = next_length datalen total in
    let rest : Option (List Text) = receive fuel (total + readlen) datalen (drop readlen stream) in
    if ltb total datalen
    then (if ltb (length stream) readlen
        then some []
        else elim rest [ none ↦ none | some pieces ↦ some (take readlen stream ∷ pieces) ])
    else some []

receive-more :
    (fuel total datalen : ℕ) (stream : Text) (pieces : List Text)
    → ltb total datalen ≡ true
    → ltb (length stream) (next_length datalen total) ≡ false
    → receive fuel
        (total + next_length datalen total)
        datalen
        (drop (next_length datalen total) stream)
      ≡ some pieces
    → receive (suc fuel) total datalen stream
      ≡ some (take (next_length datalen total) stream ∷ pieces)
unfolding receive
receive-more fuel total datalen stream pieces more whole run = rw (receive, more, whole, run) refl

receive-broken :
    (fuel total datalen : ℕ) (stream : Text)
    → ltb total datalen ≡ true
    → ltb (length stream) (next_length datalen total) ≡ true
    → receive (suc fuel) total datalen stream ≡ some []
unfolding receive
receive-broken fuel total datalen stream more broken = rw (receive, more, broken) refl

receive-over :
    (fuel total datalen : ℕ) (stream : Text)
    → ltb total datalen ≡ false
    → receive (suc fuel) total datalen stream ≡ some []
unfolding receive
receive-over fuel total datalen stream over = rw (receive, over) refl

next_length-bounds :
    (datalen total : ℕ)
    → total < datalen
    → (0 < next_length datalen total) × (next_length datalen total ≤ datalen - total)
unfolding next_length
next_length-bounds datalen total h = ground arith

-- Wherever the connection holds the rest of the file, the pieces are that rest, whole and in order.
receive-all :
    (fuel total datalen : ℕ) (stream : Text)
    → datalen - total < fuel
    → datalen - total ≤ length stream
    → (pieces : List Text) × (receive fuel total datalen stream ≡ some pieces)
      × (flatten pieces ≡ take (datalen - total) stream)
unfolding flatten
receive-all zero total datalen stream few enough = absurd (omega arith)
receive-all (suc fuel) total datalen stream few enough = elim (Bool-cases (ltb total datalen)) [
  | inl more ↦
      let readlen = next_length datalen total in
      let (some_read, small) = next_length-bounds datalen total (ltb→lt total datalen more) in
      let (pieces, run, same) =
        receive-all fuel (total + readlen) datalen (drop readlen stream) (omega arith)
          (rw (length-drop readlen stream) (omega arith)) in
      (
        take readlen stream ∷ pieces,
        receive-more fuel total datalen stream pieces more (ground arith) run,
        rw same (
            take-drop readlen (datalen - (total + readlen)) (datalen - total) stream (omega arith)),
      )
  | inr over ↦
      let nothing : datalen - total ≡ 0 = ground arith in
      ([], receive-over fuel total datalen stream over, rw nothing refl)
]

-- Whatever the connection holds, the loop ends: one round more than the missing bytes is enough fuel.
receive-ends :
    (fuel total datalen : ℕ) (stream : Text)
    → datalen - total < fuel
    → (pieces : List Text) × (receive fuel total datalen stream ≡ some pieces)
receive-ends zero total datalen stream few = absurd (omega arith)
receive-ends (suc fuel) total datalen stream few = elim (Bool-cases (ltb total datalen)) [
  | inl more ↦
      let readlen = next_length datalen total in
      let (some_read, small) = next_length-bounds datalen total (ltb→lt total datalen more) in
      let (pieces, run) =
        receive-ends fuel (total + readlen) datalen (drop readlen stream) (omega arith) in
      elim (Bool-cases (ltb (length stream) readlen)) [
        | inl broken ↦ ([], receive-broken fuel total datalen stream more broken)
        | inr whole ↦ (
          take readlen stream ∷ pieces,
          receive-more fuel total datalen stream pieces more whole run,
        )
      ]
  | inr over ↦ ([], receive-over fuel total datalen stream over)
]

-- The loop that receives a file always ends, and where the connection holds the announced bytes, the
-- pieces that it writes are those bytes, whole and in order.
pub receive_lem :
    (datalen : ℕ) (stream : Text)
    → (pieces : List Text) × (receive (suc datalen) 0 datalen stream ≡ some pieces)
      × ((leb datalen (length stream) ≡ false) ⊎ (flatten pieces ≡ take datalen stream))
receive_lem datalen stream = elim (Bool-cases (leb datalen (length stream))) [
  | inl whole ↦
      let (pieces, run, same) =
        receive-all (suc datalen) 0 datalen stream (omega arith) (ground arith) in
      let all : datalen - 0 ≡ datalen = omega arith in (pieces, run, inr (rw all at same))
  | inr short ↦
      let (pieces, run) = receive-ends (suc datalen) 0 datalen stream (omega arith) in
      (pieces, run, inl short)
]
