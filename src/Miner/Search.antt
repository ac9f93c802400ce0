-- ===== src/Miner/Search.antt =====
-- The strings that a miner of MP3/client/miner.cpp tries.
use ntu_sp17fall.Base.{ℕ, ◌+◌, ◌*◌, ◌<◌, List, [], ◌∷◌, Text}
use ntu_sp17fall.Miner.{Miner}

abbrev pub AreBytes : Text → Type 0
AreBytes [] = Unit {0}
AreBytes (c ∷ cs) = (c < 256) × AreBytes cs

-- How many strings are tried before `cs` behind a string with `r` before it, where there are `n` strings
-- of one byte.
unfoldable pub rank : ℕ → ℕ → Text → ℕ
rank n r [] = r
rank n r (c ∷ cs) = rank n (n + 256 * r + c) cs
