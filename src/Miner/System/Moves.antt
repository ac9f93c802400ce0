-- ===== src/Miner/System/Moves.antt =====
-- The moves of a miner of MP3 keep what its pipes hold in order.
use mathlib.Core.List.{append-nil}
use ntu_sp17fall.Base.{
  ℕ, zero, suc, ◌+◌, ◌%◌, ◌≤◌, ◌≡◌, refl, ap, Bool, true, List, [], ◌∷◌, ◌++◌, none, some, Text,
  arith, Bool-cases, inl, inr, ltb, length, take, ◌==◌,
}
use ntu_sp17fall.Boss.{Find}
use ntu_sp17fall.Miner.{
  Miner, Message, Output, quit, status, work, other, found, leading, hex, zeros, max_trial,
  children_from, receive, try_next, md5sum, found_by, after_hit, after_miss,
}
use ntu_sp17fall.Miner.System.{finds_of, receive_step, try_step}
use ntu_sp17fall.Miner.System.Pipes.{AllFinds, Good, GoodFind, Known}

zeros-take : (n : ℕ) (t : Text) → zeros (take n t) ≤ n
unfolding zeros
zeros-take zero t = omega arith
zeros-take (suc n) [] = omega arith
zeros-take (suc n) (c ∷ t) = ground (arith, zeros-take n t)

leading-bound : (digest : List ℕ) → leading digest ≤ 16
unfolding leading
leading-bound digest = zeros-take 16 (hex digest)

module _ {ℓ} {Context : Type ℓ} (update : Context → Text → Context) (final : Context → List ℕ) where
  -- A miner at its first message.
  pub receive-Good :
      (r : Bool) (t₀ : ℕ) (c₀ : Context) (m : Miner Context) (ms : List (Message Context))
      (message : Message Context) (fs : List (Find Context))
      → Good update final r t₀ c₀ (record { miner = m; inbox = message ∷ ms; outbox = fs })
      → Good update final r t₀ c₀
          (record { miner = (receive update final m message).0; inbox = ms; outbox = fs })
  unfolding receive
  receive-Good r t₀ c₀ m ms quit fs g = record { inbox = g.inbox; outbox = g.outbox; busy = g.busy }
  receive-Good r t₀ c₀ m ms status fs g = record {
    inbox = g.inbox;
    outbox = g.outbox;
    busy = g.busy;
  }
  receive-Good r t₀ c₀ m ms other fs g = record {
    inbox = g.inbox;
    outbox = g.outbox;
    busy = g.busy;
  }
  receive-Good r t₀ c₀ m ms (work t c n) fs g =
      let (k, w) = g.inbox in record { inbox = w; outbox = g.outbox; busy = λ h. k }

  pub receive_step-Good :
      (r : Bool) (t₀ : ℕ) (c₀ : Context) (m : Miner Context) (ms : List (Message Context))
      (fs : List (Find Context))
      → Good update final r t₀ c₀ (record { miner = m; inbox = ms; outbox = fs })
      → Good update final r t₀ c₀
          (receive_step update final (record { miner = m; inbox = ms; outbox = fs }))
  unfolding receive_step
  receive_step-Good r t₀ c₀ m [] fs g = g
  receive_step-Good r t₀ c₀ m (message ∷ ms) fs g = receive-Good r t₀ c₀ m ms message fs g

  pub AllFinds-snoc :
      (r : Bool) (t₀ : ℕ) (c₀ : Context) (fs : List (Find Context)) (f : Find Context)
      → GoodFind update final r t₀ c₀ f
      → AllFinds update final r t₀ c₀ fs
      → AllFinds update final r t₀ c₀ (fs ++ f ∷ [])
  AllFinds-snoc r t₀ c₀ [] f k w = (k, w)
  AllFinds-snoc r t₀ c₀ (g ∷ fs) f k (h, w) = (h, AllFinds-snoc r t₀ c₀ fs f k w)

  -- A miner that hits was given its job by the boss.
  pub found_by-GoodFind :
      (r : Bool) (t₀ : ℕ) (c₀ : Context) (m : Miner Context) (out : Text)
      → Known update final r t₀ c₀ m.treasure m.context
      → (leading (final (update m.context out)) == m.treasure + 1) ≡ true
      → GoodFind update final r t₀ c₀ (found_by update final m out)
  found_by-GoodFind r t₀ c₀ m out (e, k) hit =
      let small = leading-bound (final (update m.context out)) in
      let exact : (m.treasure + 1) % 256 ≡ m.treasure + 1 = ground arith in
      elim k [
        | inl older ↦ (e, inl (omega arith))
        | inr (t, c) ↦ (e, inr (omega arith, ap (λ (x : Context). update x out) c, ground arith))
      ]

  -- What a round of a miner can be.
  pub data Tried (m : Miner Context) : Type ℓ where
    fault : try_next update final m ≡ none → Tried m
    resting : try_next update final m ≡ some (m, []) → Tried m
    hit :
        (x : Text) (rest : List Text)
        → m.need_to_work ≡ true
        → (leading (final (update m.context x)) == m.treasure + 1) ≡ true
        → try_next update final m
          ≡ some (
            after_hit update final m rest (update m.context x),
            found (found_by update final m x) ∷ [],
          )
        → Tried m
    miss :
        (q : List Text) (bug : Context)
        → try_next update final m ≡ some (after_miss update final m q bug, [])
        → Tried m

  pub try_next-Tried : (m : Miner Context) (q : List Text) → m.trial ≡ q → Tried m
  unfolding try_next md5sum
  try_next-Tried m [] e = elim (Bool-cases m.need_to_work) [
    | inl n ↦ fault (ground arith)
    | inr n ↦ resting (ground arith)
  ]
  try_next-Tried m (x ∷ rest) e = elim (Bool-cases m.need_to_work) [
    | inr n ↦ resting (ground arith)
    | inl n ↦ elim (Bool-cases (leading (final (update m.context x)) == m.treasure + 1)) [
      | inl h ↦ hit x rest n h (ground arith)
      | inr h ↦ elim (Bool-cases (ltb max_trial (length rest))) [
        | inl full ↦ miss rest (update m.context x) (ground arith)
        | inr room ↦ miss (rest ++ children_from x 0 256) (update m.context x) (ground arith)
      ]
    ]
  ]

  pub try_step-eq :
      (m m' : Miner Context) (ms : List (Message Context)) (fs : List (Find Context))
      (out : List (Output Context))
      → try_next update final m ≡ some (m', out)
      → try_step update final (record { miner = m; inbox = ms; outbox = fs })
        ≡ record { miner = m'; inbox = ms; outbox = fs ++ finds_of out }
  unfolding try_step
  try_step-eq m m' ms fs out e = rw (try_step, e) refl

  pub try_step-Good :
      (r : Bool) (t₀ : ℕ) (c₀ : Context) (m : Miner Context) (ms : List (Message Context))
      (fs : List (Find Context))
      → Good update final r t₀ c₀ (record { miner = m; inbox = ms; outbox = fs })
      → Good update final r t₀ c₀
          (try_step update final (record { miner = m; inbox = ms; outbox = fs }))
  unfolding finds_of try_step
  try_step-Good r t₀ c₀ m ms fs g = elim (try_next-Tried m m.trial refl) [
    | fault e ↦ rw (try_step, e) g
    | resting e ↦
        rw (try_step-eq m m ms fs [] e)
          (record { inbox = g.inbox; outbox = rw append-nil (g.outbox); busy = g.busy })
    | hit x rest n h e ↦
        rw
          (try_step-eq m (after_hit update final m rest (update m.context x)) ms fs
            (found (found_by update final m x) ∷ []) e)
          (record {
            inbox = g.inbox;
            outbox =
                AllFinds-snoc r t₀ c₀ fs (found_by update final m x)
                  (found_by-GoodFind r t₀ c₀ m x (g.busy n) h) g.outbox;
            busy = λ b. g.busy n;
          })
    | miss q bug e ↦
        rw (try_step-eq m (after_miss update final m q bug) ms fs [] e)
          (record { inbox = g.inbox; outbox = rw append-nil (g.outbox); busy = g.busy })
  ]
