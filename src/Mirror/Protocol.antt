-- ===== src/Mirror/Protocol.antt =====
-- MP2/include/csiebox_common.h: the messages between the client and the server of the earlier file
-- synchronisation, with what both read of a `struct stat`. A text has no null byte, unless it is the data
-- of a file.
use ntu_sp17fall.Base.{ℕ, ◌/◌, ◌%◌, Bool, [], ◌∷◌, ◌++◌, Text, ◌==◌, take, replicate, if◌then◌else◌}

abbrev pub magic_req : ℕ
magic_req = 144

abbrev pub magic_res : ℕ
magic_res = 145

-- `status` and `client_id` of an answer; an answer has no data.
pub record Header : Type 0 where
  pub magic : ℕ
  pub op : ℕ
  pub status : ℕ
  pub client_id : ℕ

pub record Stat : Type 0 where
  pub mode : ℕ
  pub ino : ℕ
  pub nlink : ℕ
  pub size : ℕ
  pub atime : ℕ
  pub mtime : ℕ

abbrev pub is_dir : ℕ → Bool
is_dir mode = (mode / 4096) % 16 == 4

abbrev pub is_reg : ℕ → Bool
is_reg mode = (mode / 4096) % 16 == 8

abbrev pub is_link : ℕ → Bool
is_link mode = (mode / 4096) % 16 == 10

-- The body behind the common header, by the op of the header: the user and the digest of the password;
-- the length of the path, the `stat` and the digest; the lengths of the data and of the path with the
-- `stat`; the lengths of two paths; the length of a path.
pub data Body : Type 0 where
  login : Text → Text → Body
  meta : ℕ → Stat → Text → Body
  file : ℕ → ℕ → Stat → Body
  hardlink : ℕ → ℕ → Body
  sync_end : Body
  rm : ℕ → Body
  unknown : ℕ → Body

-- `complete` says whether the body arrives whole, and `stream` is what is sent behind it.
pub record Request : Type 0 where
  pub magic : ℕ
  pub client_id : ℕ
  pub body : Body
  pub complete : Bool
  pub stream : Text

-- `MD5_DIGEST_LENGTH` bytes that `memset` left.
abbrev pub no_hash : Text
no_hash = 0 ∷ 0 ∷ 0 ∷ 0 ∷ 0 ∷ 0 ∷ 0 ∷ 0 ∷ 0 ∷ 0 ∷ 0 ∷ 0 ∷ 0 ∷ 0 ∷ 0 ∷ 0 ∷ []

-- The first `n` bytes of a buffer of zeros into which `t` was read.
unfoldable pub padded : ℕ → Text → Text
padded n t = take n (t ++ replicate n 0)

-- The C string at the start of a buffer.
unfoldable pub c_string : Text → Text
c_string [] = []
c_string (c ∷ t) = let rest = c_string t in if c == 0 then [] else c ∷ rest
