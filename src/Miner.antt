-- ===== src/Miner.antt =====
-- MP3/client/miner.cpp: a miner, which tries strings until the digest of the mine with one of them
-- behind it has one leading zero more than the best so far.
-- The context of MD5, `MD5_Update` and `MD5_Final` are OpenSSL's: the type `Context` and the arguments
-- `update` and `final`, whose result is the list of the 16 bytes of a digest.
pub mod Queue
pub mod Search
pub mod System
use mathlib.Core.Option
use ntu_sp17fall.Base.{
  ℕ, zero, suc, ◌+◌, ◌-◌, ◌/◌, ◌%◌, Bool, true, false, ◌&&◌, List, [], ◌∷◌, ◌++◌, Option, none,
  some, Text, ltb, ◌==◌, if◌then◌else◌, take, length,
}
use ntu_sp17fall.Boss.{Find}

-- `sprintf("%02x", c)` for a byte.
abbrev pub hex_digit : ℕ → ℕ
hex_digit d = if ltb d 10 then b'0' + d else b'a' + (d - 10)

unfoldable pub hex : List ℕ → Text
hex [] = []
hex (c ∷ cs) = hex_digit (c / 16) ∷ hex_digit (c % 16) ∷ hex cs

-- The zeros at the head of a text.
unfoldable pub zeros : Text → ℕ
zeros [] = 0
zeros (c ∷ cs) = let rest = zeros cs in if c == b'0' then suc rest else 0

-- The loop runs over the first 16 of the 32 digits. Its counter starts at -1.
unfoldable pub leading : List ℕ → ℕ
unfolding hex zeros
leading digest = zeros (take 16 (hex digest))

-- `Status`, `bug`, the queue and the flags of `main`. `bug` is `none` before the first trial and after an
-- `MD5_Final` on it, which erases a context; of the digest printed then nothing is known.
pub record Miner {ℓ} (Context : Type ℓ) : Type ℓ where
  pub name : Text
  pub need_to_work : Bool
  pub first_work : Bool
  pub trial : List Text
  pub treasure : ℕ
  pub interval_start : ℕ
  pub interval_end : ℕ
  pub context : Context
  pub bug : Option Context

-- `mine_sync` from the boss, with the name of the finder that follows it for WORK.
pub data Message {ℓ} (Context : Type ℓ) : Type ℓ where
  quit : Message Context
  status : Message Context
  work : (treasure : ℕ) → Context → (finder : Text) → Message Context
  other : Message Context

-- What a miner prints, and the find that it writes to the boss.
pub data Output {ℓ} (Context : Type ℓ) : Type ℓ where
  mindful at_rest : Output Context
  working_on : Option (List ℕ) → Output Context
  i_win : ℕ → List ℕ → Output Context
  wins : Text → ℕ → List ℕ → Output Context
  found : Find Context → Output Context

-- The bytes from `i` on, one string for each.
unfoldable pub singles : ℕ → ℕ → List Text
singles i zero = []
singles i (suc n) = (i ∷ []) ∷ singles (i + 1) n

-- `out` with each of the bytes from `i` on behind it.
unfoldable pub children_from : Text → ℕ → ℕ → List Text
children_from out i zero = []
children_from out i (suc n) = (out ++ i ∷ []) ∷ children_from out (i + 1) n

-- `strncmp(finder, name, strlen(name)) == 0`
unfoldable pub starts_with : Text → Text → Bool
starts_with finder [] = true
starts_with [] (c ∷ name) = false
starts_with (f ∷ finder) (c ∷ name) = f == c && starts_with finder name

abbrev pub max_trial : ℕ
max_trial = 10_000_000

module _ {ℓ} {Context : Type ℓ} where
  -- The first job of a boss, behind `LOGIN == 0`.
  unfoldable pub login : Miner Context → ℕ → ℕ → ℕ → Context → Miner Context × List (Output Context)
  login m treasure interval_start interval_end context = (
    record m {
      need_to_work = false;
      first_work = false;
      trial = [];
      treasure = treasure;
      interval_start = interval_start;
      interval_end = interval_end;
      context = context;
    },
    mindful ∷ [],
  )

  module _ (update : Context → Text → Context) (final : Context → List ℕ) where
    -- The digest of the mine with `str` behind it, and whether it is what is looked for.
    unfoldable pub md5sum : Text → ℕ → Context → Bool × Context
    unfolding leading
    md5sum str treasure context =
        let temp = update context str in (leading (final temp) == treasure + 1, temp)

    unfoldable pub announce : Miner Context → ℕ → Context → Text → List (Output Context)
    unfolding starts_with
    announce m treasure context finder =
        if m.first_work
        then (if starts_with finder m.name
            then i_win treasure (final context)
            else wins finder treasure (final context))
          ∷ []
        else []

    -- The second result is whether the miner leaves the inner loop.
    unfoldable pub receive :
        Miner Context → Message Context → Miner Context × Bool × List (Output Context)
    unfolding singles
    receive m quit = (m, true, at_rest ∷ [])
    receive m status = (
      record m { bug = if m.first_work then none else m.bug },
      false,
      if m.first_work then working_on (Option.map final m.bug) ∷ [] else [],
    )
    receive m (work treasure context finder) = (
      record m {
        treasure = treasure;
        context = context;
        trial = singles m.interval_start (m.interval_end - m.interval_start);
        need_to_work = true;
        first_work = true;
      },
      false,
      announce m treasure context finder,
    )
    receive m other = (m, false, [])

    abbrev pub found_by : Miner Context → Text → Find Context
    found_by m out = record {
      treasure = (m.treasure + 1) % 256;
      context = update m.context out;
      cur = out;
      name = m.name;
    }

    abbrev pub after_hit : Miner Context → List Text → Context → Miner Context
    after_hit m rest bug = record m { need_to_work = false; trial = rest; bug = some bug }

    abbrev pub after_miss : Miner Context → List Text → Context → Miner Context
    after_miss m rest bug = record m { trial = rest; bug = some bug }

    -- `front` of an empty queue is a fault. The treasure is a `uint8_t`.
    unfoldable pub try_next : Miner Context → Option (Miner Context × List (Output Context))
    unfolding md5sum children_from
    try_next m =
        if m.need_to_work
        then elim m.trial [
          | [] ↦ none
          | out ∷ rest ↦
              let (hit, bug) = md5sum out m.treasure m.context in
              some (
                if hit
                then (after_hit m rest bug, found (found_by m out) ∷ [])
                else if ltb max_trial (length rest)
                then (after_miss m rest bug, [])
                else (after_miss m (rest ++ children_from out 0 256) bug, []))
        ]
        else some (m, [])
