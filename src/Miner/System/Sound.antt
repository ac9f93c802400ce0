-- ===== src/Miner/System/Sound.antt =====
-- What the boss of MP3 holds is a treasure: the invariant of the boss, the miners and their pipes.
use ntu_sp17fall.Base.{ℕ, ◌≡◌, false, List, [], ◌++◌, Text, ◌⊎◌}
use ntu_sp17fall.Miner.{leading}
use ntu_sp17fall.Miner.System.{System}
use ntu_sp17fall.Miner.System.Pipes.{AllGood}

-- `update` is `MD5_Update`, and `MD5_Final` of a context depends on the bytes it was given, in order.
pub record IsDigest {ℓ} {Context : Type ℓ} (update : Context → Text → Context) : Type ℓ where
  pub nothing : (c : Context) → update c [] ≡ c
  pub pieces : (c : Context) (a b : Text) → update (update c a) b ≡ update c (a ++ b)

module _ {ℓ} {Context : Type ℓ} (update : Context → Text → Context) (final : Context → List ℕ) where
  -- What the boss holds.
  record Sound (start : Context) (s : System Context) : Type ℓ where
    context : s.boss.context ≡ update start s.boss.str
    treasure : (s.boss.treasure ≡ 0) ⊎ (leading (final s.boss.context) ≡ s.boss.treasure)
    fresh : s.boss.read_file ≡ false → s.boss.treasure ≡ 0
    ends : AllGood update final s.boss.read_file s.boss.treasure s.boss.context s.ends
