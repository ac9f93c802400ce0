-- ===== src/Miner/System.antt =====
-- The boss of MP3/server/boss.cpp with its miners of MP3/client/miner.cpp, and the pipes between them,
-- as moves in any order.
pub mod Pipes
pub mod Moves
pub mod Sound
use ntu_sp17fall.Base.{
  ℕ, zero, suc, ◌+◌, ◌%◌, ◌≤◌, ◌<◌, ◌≡◌, ◌≢◌, refl, sym, ap, ◌∙◌, Bool, true, false, List, [], ◌∷◌,
  ◌++◌, Option, none, some, Text, arith, Bool-cases, Option-cases, inl, inr, ◌⊎◌, ltb, ltb→lt,
  length, take, if◌then◌else◌, ◌==◌,
}
use ntu_sp17fall.Boss.{Mine, Find, read_block, take_finds}
use ntu_sp17fall.Miner.{
  Miner, Message, Output, quit, status, work, other, mindful, at_rest, working_on, i_win, wins,
  found, leading, hex, zeros, max_trial, children_from, singles, receive, try_next, md5sum,
  found_by, after_hit, after_miss, announce,
}

-- A miner with its two pipes, the oldest message first. The miner in between has no part in a move.
pub record End {ℓ} (Context : Type ℓ) : Type ℓ where
  pub miner : Miner Context
  pub inbox : List (Message Context)
  pub outbox : List (Find Context)

pub record System {ℓ} (Context : Type ℓ) : Type ℓ where
  pub boss : Mine Context
  pub ends : List (End Context)

module _ {ℓ} {Context : Type ℓ} where
  -- WORK to every miner.
  unfoldable pub assign_jobs : Mine Context → Text → List (End Context) → List (End Context)
  assign_jobs m name [] = []
  assign_jobs m name (e ∷ es) =
      record e { inbox = e.inbox ++ work m.treasure m.context name ∷ [] } ∷ assign_jobs m name es

  -- The finds of what a miner writes.
  unfoldable pub finds_of : List (Output Context) → List (Find Context)
  finds_of [] = []
  finds_of (found f ∷ out) = f ∷ finds_of out
  finds_of (mindful ∷ out) = finds_of out
  finds_of (at_rest ∷ out) = finds_of out
  finds_of (working_on d ∷ out) = finds_of out
  finds_of (i_win t d ∷ out) = finds_of out
  finds_of (wins n t d ∷ out) = finds_of out

  -- No miner has a job, and the pipes are empty.
  abbrev pub AllIdle : List (End Context) → Type ℓ
  AllIdle [] = Unit {ℓ}
  AllIdle (e ∷ es) = (e.miner.need_to_work ≡ false) × (e.inbox ≡ []) × (e.outbox ≡ []) × AllIdle es

  module _ (update : Context → Text → Context) (final : Context → List ℕ) where
    -- The boss reads a block of the mine's file.
    unfoldable pub read_step : Text → Text → System Context → System Context
    read_step block name s =
        let (boss, assign) = read_block update s.boss block in
        record { boss = boss; ends = if assign then assign_jobs boss name s.ends else s.ends }

    -- The miner of an end receives its next message, or tries its next string.
    unfoldable pub receive_step : End Context → End Context
    receive_step e = elim e.inbox [
      | [] ↦ e
      | message ∷ rest ↦ record e { miner = (receive update final e.miner message).0; inbox = rest }
    ]

    unfoldable pub try_step : End Context → End Context
    unfolding finds_of
    try_step e = elim (try_next update final e.miner) [
      | none ↦ e
      | some (miner, out) ↦ record e { miner = miner; outbox = e.outbox ++ finds_of out }
    ]

    abbrev pub taken_with : Mine Context × Option Text → List (End Context) → System Context
    taken_with (boss, none) ends = record { boss = boss; ends = ends }
    taken_with (boss, some name) ends = record { boss = boss; ends = assign_jobs boss name ends }

    -- The boss receives the next find of an end.
    unfoldable pub take_step : Mine Context → Find Context → List (End Context) → System Context
    take_step boss get ends = taken_with (take_finds boss (get ∷ [])) ends

    -- STATUS comes to a miner when the boss is asked for its own.
    -- The states from one in which no miner has a job yet. `start` is the context behind `MD5_Init`.
    pub data Reaches (start : Context) : System Context → Type ℓ where
      begins :
          (boss : Mine Context) (ends : List (End Context))
          → boss.treasure ≡ 0
          → boss.context ≡ start
          → boss.str ≡ []
          → boss.read_file ≡ false
          → AllIdle ends
          → Reaches start (record { boss = boss; ends = ends })
      reads :
          (block name : Text) (s : System Context)
          → Reaches start s
          → Reaches start (read_step block name s)
      receives :
          (boss : Mine Context) (before after : List (End Context)) (e : End Context)
          → Reaches start (record { boss = boss; ends = before ++ e ∷ after })
          → Reaches start (record { boss = boss; ends = before ++ receive_step e ∷ after })
      asks :
          (boss : Mine Context) (before after : List (End Context)) (e : End Context)
          → Reaches start (record { boss = boss; ends = before ++ e ∷ after })
          → Reaches start (record {
            boss = boss;
            ends = before ++ record e { inbox = e.inbox ++ status ∷ [] } ∷ after;
          })
      tries :
          (boss : Mine Context) (before after : List (End Context)) (e : End Context)
          → Reaches start (record { boss = boss; ends = before ++ e ∷ after })
          → Reaches start (record { boss = boss; ends = before ++ try_step e ∷ after })
      takes :
          (boss : Mine Context) (before after : List (End Context)) (e : End Context)
          (get : Find Context) (gets : List (Find Context))
          → e.outbox ≡ get ∷ gets
          → Reaches start (record { boss = boss; ends = before ++ e ∷ after })
          → Reaches start (take_step boss get (before ++ record e { outbox = gets } ∷ after))
