-- ===== src/Chat.antt =====
-- MP4: the chat server that matches clients through a pool of four filter processes. This module
-- holds the data of MP4/common.h and the globals of MP4/server_main.cpp.
-- A file descriptor is a number. The value -1 of `working_on_fd` and of `waiting_list_index` is
-- `none`. A handler that may fault returns an `Option`: `none` stands for an access outside a vector,
-- a failed `assert` or an exception, where the C++ code has no defined behaviour or stops.
-- What the server writes is a list of `Output`s, the oldest first.
pub mod Pool
pub mod Leave
pub mod Message
pub mod Judge
pub mod Tick
pub mod Invariant
pub mod Round
pub mod Removal
pub mod Lines
pub mod Child
use ntu_sp17fall.Base.{ℕ, Bool, false, List, [], ◌∷◌, ◌++◌, Option, none, Text, ◌==◌, if◌then◌else◌}

pub data Status : Type 0 where
  idle try_match match work : Status

-- The `char` arrays hold texts shorter than their sizes: 33, 7 and 1025 bytes.
pub record User : Type 0 where
  pub name : Text
  pub age : ℕ
  pub gender : Text
  pub introduction : Text

pub record Client : Type 0 where
  pub friend_fd : ℕ
  pub my_fd : ℕ
  pub status : Status
  pub tcp_buffer : Text
  pub filter_function : Text
  pub json_package : Text
  pub me : User
  pub friends : User

pub record Boss : Type 0 where
  pub has_job : Bool
  pub assign_next_index : ℕ
  pub need_to_assign_job : Bool
  pub solution : ℕ
  pub num_of_rm : ℕ
  pub working_on_fd : Option ℕ

pub record Process : Type 0 where
  pub input_fd : ℕ
  pub output_fd : ℕ
  pub pid : ℕ
  pub status : Status
  pub waiting_list_index : Option ℕ
  pub valid_ans : Bool
  pub job_fd : ℕ × ℕ

-- `send` to a client; the two paths and users that `GO_TO_WORK` writes, where the path of a
-- descriptor is its decimal digits with ".so"; `close`.
pub data Output : Type 0 where
  send : ℕ → Text → Output
  job : (input_fd : ℕ) → ℕ → User → ℕ → User → Output
  close : ℕ → Output

pub record Server : Type 0 where
  pub clients : ℕ → Client
  pub process_pool : List Process
  pub mama : Boss
  pub try_list : List ℕ
  pub waiting_list : List ℕ
  pub sent : List Output

abbrev pub empty_user : User
empty_user = record { name = []; age = 0; gender = []; introduction = [] }

-- The value of `solution` that says that no answer was positive.
abbrev pub no_solution : ℕ
no_solution = 4096

unfoldable pub init : Boss → Boss
init b = record b {
  has_job = false;
  assign_next_index = 0;
  need_to_assign_job = false;
  solution = no_solution;
  working_on_fd = none;
}

unfoldable pub done : Client → Client
done c = record c {
  status = idle;
  tcp_buffer = [];
  filter_function = [];
  json_package = [];
  me = empty_user;
  friends = empty_user;
}

abbrev pub update_client : (ℕ → Client) → ℕ → Client → ℕ → Client
update_client f fd c i = if fd == i then c else f i

abbrev pub emit : Server → Output → Server
emit s o = record s { sent = s.sent ++ o ∷ [] }
