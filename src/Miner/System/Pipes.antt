-- ===== src/Miner/System/Pipes.antt =====
-- The messages in the pipes between the boss of MP3 and its miners, against what the boss has given out.
use ntu_sp17fall.Base.{
  ℕ, ◌+◌, ◌≤◌, ◌<◌, ◌≡◌, refl, Bool, true, false, List, [], ◌∷◌, ◌++◌, Text, arith, inl, inr, ◌⊎◌,
}
use ntu_sp17fall.Boss.{Mine, Find}
use ntu_sp17fall.Miner.{Miner, Message, quit, status, work, other, leading}
use ntu_sp17fall.Miner.System.{End, assign_jobs, AllIdle}

module _ {ℓ} {Context : Type ℓ} (update : Context → Text → Context) (final : Context → List ℕ) where
  -- A treasure and a context that the boss has given out, where `r` is whether it has read the file.
  abbrev pub Known : Bool → ℕ → Context → ℕ → Context → Type ℓ
  Known r t₀ c₀ t c = (r ≡ true) × ((t < t₀) ⊎ ((t ≡ t₀) × (c ≡ c₀)))

  abbrev pub GoodFind : Bool → ℕ → Context → Find Context → Type ℓ
  GoodFind r t₀ c₀ f =
      (r ≡ true)
      × ((f.treasure ≤ t₀)
          ⊎ ((f.treasure ≡ t₀ + 1)
              × (f.context ≡ update c₀ f.cur)
              × (leading (final f.context) ≡ f.treasure)))

  abbrev pub AllWork : Bool → ℕ → Context → List (Message Context) → Type ℓ
  AllWork r t₀ c₀ [] = Unit {ℓ}
  AllWork r t₀ c₀ (quit ∷ ms) = AllWork r t₀ c₀ ms
  AllWork r t₀ c₀ (status ∷ ms) = AllWork r t₀ c₀ ms
  AllWork r t₀ c₀ (other ∷ ms) = AllWork r t₀ c₀ ms
  AllWork r t₀ c₀ (work t c n ∷ ms) = Known r t₀ c₀ t c × AllWork r t₀ c₀ ms

  abbrev pub AllFinds : Bool → ℕ → Context → List (Find Context) → Type ℓ
  AllFinds r t₀ c₀ [] = Unit {ℓ}
  AllFinds r t₀ c₀ (f ∷ fs) = GoodFind r t₀ c₀ f × AllFinds r t₀ c₀ fs

  pub record Good (r : Bool) (t₀ : ℕ) (c₀ : Context) (e : End Context) : Type ℓ where
    pub inbox : AllWork r t₀ c₀ e.inbox
    pub outbox : AllFinds r t₀ c₀ e.outbox
    pub busy : e.miner.need_to_work ≡ true → Known r t₀ c₀ e.miner.treasure e.miner.context

  abbrev pub AllGood : Bool → ℕ → Context → List (End Context) → Type ℓ
  AllGood r t₀ c₀ [] = Unit {ℓ}
  AllGood r t₀ c₀ (e ∷ es) = Good r t₀ c₀ e × AllGood r t₀ c₀ es

  pub AllGood-at :
      (r : Bool) (t₀ : ℕ) (c₀ : Context) (before after : List (End Context)) (e : End Context)
      → AllGood r t₀ c₀ (before ++ e ∷ after)
      → Good r t₀ c₀ e
  AllGood-at r t₀ c₀ [] after e (g, gs) = g
  AllGood-at r t₀ c₀ (b ∷ before) after e (g, gs) = AllGood-at r t₀ c₀ before after e gs

  pub AllGood-put :
      (r : Bool) (t₀ : ℕ) (c₀ : Context) (before after : List (End Context)) (e e' : End Context)
      → AllGood r t₀ c₀ (before ++ e ∷ after)
      → Good r t₀ c₀ e'
      → AllGood r t₀ c₀ (before ++ e' ∷ after)
  AllGood-put r t₀ c₀ [] after e e' (g, gs) n = (n, gs)
  AllGood-put r t₀ c₀ (b ∷ before) after e e' (g, gs) n =
      (g, AllGood-put r t₀ c₀ before after e e' gs n)

  -- Every end with one more job of the boss.
  pub AllWork-snoc :
      (r : Bool) (t₀ : ℕ) (c₀ : Context) (ms : List (Message Context)) (name : Text)
      → r ≡ true
      → AllWork r t₀ c₀ ms
      → AllWork r t₀ c₀ (ms ++ work t₀ c₀ name ∷ [])
  AllWork-snoc r t₀ c₀ [] name e w = ((e, inr (refl, refl)), w)
  AllWork-snoc r t₀ c₀ (quit ∷ ms) name e w = AllWork-snoc r t₀ c₀ ms name e w
  AllWork-snoc r t₀ c₀ (status ∷ ms) name e w = AllWork-snoc r t₀ c₀ ms name e w
  AllWork-snoc r t₀ c₀ (other ∷ ms) name e w = AllWork-snoc r t₀ c₀ ms name e w
  AllWork-snoc r t₀ c₀ (work t c n ∷ ms) name e (k, w) = (k, AllWork-snoc r t₀ c₀ ms name e w)

  pub assign_jobs-AllGood :
      (m : Mine Context) (name : Text) (es : List (End Context))
      → m.read_file ≡ true
      → AllGood m.read_file m.treasure m.context es
      → AllGood m.read_file m.treasure m.context (assign_jobs m name es)
  unfolding assign_jobs
  assign_jobs-AllGood m name [] e g = g
  assign_jobs-AllGood m name (x ∷ es) e (g, gs) = (
    record {
      inbox = AllWork-snoc m.read_file m.treasure m.context x.inbox name e g.inbox;
      outbox = g.outbox;
      busy = g.busy;
    },
    assign_jobs-AllGood m name es e gs,
  )

  AllWork-status :
      (r : Bool) (t₀ : ℕ) (c₀ : Context) (ms : List (Message Context))
      → AllWork r t₀ c₀ ms
      → AllWork r t₀ c₀ (ms ++ status ∷ [])
  AllWork-status r t₀ c₀ [] w = w
  AllWork-status r t₀ c₀ (quit ∷ ms) w = AllWork-status r t₀ c₀ ms w
  AllWork-status r t₀ c₀ (status ∷ ms) w = AllWork-status r t₀ c₀ ms w
  AllWork-status r t₀ c₀ (other ∷ ms) w = AllWork-status r t₀ c₀ ms w
  AllWork-status r t₀ c₀ (work t c n ∷ ms) (k, w) = (k, AllWork-status r t₀ c₀ ms w)

  pub asked-Good :
      (r : Bool) (t₀ : ℕ) (c₀ : Context) (m : Miner Context) (ms : List (Message Context))
      (fs : List (Find Context))
      → Good r t₀ c₀ (record { miner = m; inbox = ms; outbox = fs })
      → Good r t₀ c₀ (record { miner = m; inbox = ms ++ status ∷ []; outbox = fs })
  asked-Good r t₀ c₀ m ms fs g = record {
    inbox = AllWork-status r t₀ c₀ ms g.inbox;
    outbox = g.outbox;
    busy = g.busy;
  }

  -- A better treasure leaves what was given out behind.
  pub Known-later :
      (r : Bool) (t₀ : ℕ) (c₀ c₁ : Context) (t : ℕ) (c : Context)
      → Known r t₀ c₀ t c
      → Known r (t₀ + 1) c₁ t c
  Known-later r t₀ c₀ c₁ t c (e, inl l) = (e, inl (omega arith))
  Known-later r t₀ c₀ c₁ t c (e, inr (l, s)) = (e, inl (omega arith))

  pub AllWork-later :
      (r : Bool) (t₀ : ℕ) (c₀ c₁ : Context) (ms : List (Message Context))
      → AllWork r t₀ c₀ ms
      → AllWork r (t₀ + 1) c₁ ms
  AllWork-later r t₀ c₀ c₁ [] w = w
  AllWork-later r t₀ c₀ c₁ (quit ∷ ms) w = AllWork-later r t₀ c₀ c₁ ms w
  AllWork-later r t₀ c₀ c₁ (status ∷ ms) w = AllWork-later r t₀ c₀ c₁ ms w
  AllWork-later r t₀ c₀ c₁ (other ∷ ms) w = AllWork-later r t₀ c₀ c₁ ms w
  AllWork-later r t₀ c₀ c₁ (work t c n ∷ ms) (k, w) =
      (Known-later r t₀ c₀ c₁ t c k, AllWork-later r t₀ c₀ c₁ ms w)

  pub AllFinds-later :
      (r : Bool) (t₀ : ℕ) (c₀ c₁ : Context) (fs : List (Find Context))
      → AllFinds r t₀ c₀ fs
      → AllFinds r (t₀ + 1) c₁ fs
  AllFinds-later r t₀ c₀ c₁ [] w = w
  AllFinds-later r t₀ c₀ c₁ (f ∷ fs) ((e, inl l), w) =
      ((e, inl (omega arith)), AllFinds-later r t₀ c₀ c₁ fs w)
  AllFinds-later r t₀ c₀ c₁ (f ∷ fs) ((e, inr (l, s, d)), w) =
      ((e, inl (omega arith)), AllFinds-later r t₀ c₀ c₁ fs w)

  pub AllGood-later :
      (r : Bool) (t₀ : ℕ) (c₀ c₁ : Context) (es : List (End Context))
      → AllGood r t₀ c₀ es
      → AllGood r (t₀ + 1) c₁ es
  AllGood-later r t₀ c₀ c₁ [] g = g
  AllGood-later r t₀ c₀ c₁ (e ∷ es) (g, gs) = (
    record {
      inbox = AllWork-later r t₀ c₀ c₁ e.inbox g.inbox;
      outbox = AllFinds-later r t₀ c₀ c₁ e.outbox g.outbox;
      busy = λ b. Known-later r t₀ c₀ c₁ e.miner.treasure e.miner.context (g.busy b);
    },
    AllGood-later r t₀ c₀ c₁ es gs,
  )

  -- While the file is read nothing is given out.
  pub AllWork-blank :
      (r r' : Bool) (t₀ t₁ : ℕ) (c₀ c₁ : Context) (ms : List (Message Context))
      → r ≡ false
      → AllWork r t₀ c₀ ms
      → AllWork r' t₁ c₁ ms
  AllWork-blank r r' t₀ t₁ c₀ c₁ [] e w = w
  AllWork-blank r r' t₀ t₁ c₀ c₁ (quit ∷ ms) e w = AllWork-blank r r' t₀ t₁ c₀ c₁ ms e w
  AllWork-blank r r' t₀ t₁ c₀ c₁ (status ∷ ms) e w = AllWork-blank r r' t₀ t₁ c₀ c₁ ms e w
  AllWork-blank r r' t₀ t₁ c₀ c₁ (other ∷ ms) e w = AllWork-blank r r' t₀ t₁ c₀ c₁ ms e w
  AllWork-blank r r' t₀ t₁ c₀ c₁ (work t c n ∷ ms) e ((k, l), w) = absurd (ground (arith, e, k))

  pub AllFinds-blank :
      (r r' : Bool) (t₀ t₁ : ℕ) (c₀ c₁ : Context) (fs : List (Find Context))
      → r ≡ false
      → AllFinds r t₀ c₀ fs
      → AllFinds r' t₁ c₁ fs
  AllFinds-blank r r' t₀ t₁ c₀ c₁ [] e w = w
  AllFinds-blank r r' t₀ t₁ c₀ c₁ (f ∷ fs) e ((k, l), w) = absurd (ground (arith, e, k))

  pub AllGood-blank :
      (r r' : Bool) (t₀ t₁ : ℕ) (c₀ c₁ : Context) (es : List (End Context))
      → r ≡ false
      → AllGood r t₀ c₀ es
      → AllGood r' t₁ c₁ es
  AllGood-blank r r' t₀ t₁ c₀ c₁ [] e g = g
  AllGood-blank r r' t₀ t₁ c₀ c₁ (x ∷ es) e (g, gs) = (
    record {
      inbox = AllWork-blank r r' t₀ t₁ c₀ c₁ x.inbox e g.inbox;
      outbox = AllFinds-blank r r' t₀ t₁ c₀ c₁ x.outbox e g.outbox;
      busy = λ b. let k = (g.busy b).0 in absurd (ground (arith, e, k));
    },
    AllGood-blank r r' t₀ t₁ c₀ c₁ es e gs,
  )

  pub idle-AllGood :
      (r : Bool) (t₀ : ℕ) (c₀ : Context) (es : List (End Context)) → AllIdle es → AllGood r t₀ c₀ es
  idle-AllGood r t₀ c₀ [] i = i
  idle-AllGood r t₀ c₀ (x ∷ es) (n, a, b, i) = (
    record { inbox = rw a tt; outbox = rw b tt; busy = λ h. absurd (ground (arith, n, h)) },
    idle-AllGood r t₀ c₀ es i,
  )
