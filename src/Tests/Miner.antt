-- ===== src/Tests/Miner.antt =====
-- A context is the text given to MD5; the digest of a text is the text itself.
use ntu_sp17fall.Base.{ℕ, ◌≡◌, refl, true, false, List, [], ◌∷◌, ◌++◌, some, none, Text, codes}
use ntu_sp17fall.Boss.{Mine}
use ntu_sp17fall.Miner.{Miner, found, try_next, md5sum, leading, hex, zeros}
use ntu_sp17fall.Miner.System.{System, End, read_step}

abbrev update : Text → Text → Text
update c t = c ++ t

abbrev final : Text → List ℕ
final c = c

abbrev idle : Miner Text
idle = record {
  name = codes "m";
  need_to_work = false;
  first_work = false;
  trial = [];
  treasure = 0;
  interval_start = 0;
  interval_end = 3;
  context = [];
  bug = none;
}

-- The digest 0a has one leading zero.
try_next_test :
    try_next update final (record idle { need_to_work = true; trial = (10 ∷ []) ∷ [] })
    ≡ some (
      record idle { need_to_work = false; trial = []; bug = some (10 ∷ []) },
      found (record { treasure = 1; context = 10 ∷ []; cur = 10 ∷ []; name = codes "m" }) ∷ [],
    )
unfolding try_next md5sum leading hex zeros
try_next_test = refl

abbrev one_end : End Text
one_end = record { miner = idle; inbox = []; outbox = [] }

abbrev first_boss : Mine Text
first_boss = record { treasure = 0; context = []; str = []; read_file = false }

abbrev first_state : System Text
first_state = record { boss = first_boss; ends = one_end ∷ [] }

abbrev read_state : System Text
read_state = read_step update final (10 ∷ []) (codes "boss") first_state
