-- ===== src/Chat/Message.antt =====
-- `get_info`, `new_msg` and the part of `main` of MP4/server_main.cpp that serves a client's socket.
-- The parser is nlohmann's json.hpp, another project's library: it enters as the argument `parse`,
-- whose `none` is an exception. The compiler run by `compile_code` enters as `compile`, which says
-- whether gcc exits with 0.
use ntu_sp17fall.Base.{
  ℕ, zero, suc, Bool, [], ◌∷◌, ◌++◌, Option, none, some, ltb, ◌==◌, if◌then◌else◌, length, drop,
  Text, codes,
}
use ntu_sp17fall.Chat.{
  Client, Server, Status, idle, try_match, match, work, send, close, emit, update_client, done,
}
use ntu_sp17fall.Chat.Leave.{remove_try_match}

-- What the handler reads of a parsed line: `cmd`, and for `try_match` the five fields.
pub data Request : Type 0 where
  try : (name : Text) (age : ℕ) (gender introduction filter : Text) → Request
  quit : Request
  message : Request
  other : Request

abbrev pub ret_text : Text
ret_text = codes "{\"cmd\":\"try_match\"}\n"

abbrev pub quit_text : Text
quit_text = codes "{\"cmd\":\"quit\"}\n"

abbrev pub inform_text : Text
inform_text = codes "{\"cmd\":\"other_side_quit\"}\n"

abbrev pub match_text : Text
match_text = codes "{\"cmd\": \"matched\""

abbrev pub receive_text : Text
receive_text = codes "{\"cmd\": \"receive_message\""

-- The C string at a place: the bytes before the first null.
unfoldable pub c_string : Text → Text
c_string [] = []
c_string (x ∷ xs) = if x == 0 then [] else x ∷ c_string xs

-- `&target[i]`, a fault past the end.
unfoldable pub from_index : ℕ → Text → Option Text
unfolding c_string
from_index i t = if ltb (length t) i then none else some (c_string (drop i t))

-- The bytes before the first line feed and those behind it.
unfoldable pub split_line : Text → Option (Text × Text)
split_line [] = none
split_line (x ∷ xs) =
    let rest : Option (Text × Text) = split_line xs in
    if x == 10
    then some ([], xs)
    else elim rest [ none ↦ none | some (line, behind) ↦ some (x ∷ line, behind) ]

unfoldable pub get_info : Client → Text → Text → ℕ → Text → Text → Text → Option Client
get_info c target name age gender intro filter = elim (from_index 18 target) [
  | none ↦ none
  | some tail ↦ some (record c {
    status = try_match;
    me = record { name = name; age = age; gender = gender; introduction = intro };
    filter_function = filter;
    json_package = match_text ++ tail;
  })
]

abbrev set_status : Server → ℕ → Status → Server
set_status s fd status = record s {
  clients = update_client s.clients fd (record (s.clients fd) { status = status });
}

-- `next_step == 2` in `main`, behind the answer to the client that quits.
unfoldable pub on_quit : Server → ℕ → Status → Option Server
on_quit s fd match =
    let ffd = (s.clients fd).friend_fd in
    some (set_status (set_status (emit s (send ffd inform_text)) ffd idle) fd idle)
on_quit s fd try_match = elim (remove_try_match s fd) [
  | none ↦ none
  | some s' ↦ some (set_status s' fd idle)
]
on_quit s fd idle = some (set_status s fd idle)
on_quit s fd work = some (set_status s fd idle)

-- `recv` returned 0: the client closed its connection.
unfoldable pub on_close : Server → ℕ → Status → Option Server
on_close s fd status =
    let leave : Server → Server = λ t.
      emit (record t { clients = update_client t.clients fd (done (t.clients fd)) }) (close fd) in
    elim status [
      | match ↦ some (leave (emit s (send (s.clients fd).friend_fd inform_text)))
      | try_match ↦ elim (remove_try_match s fd) [ none ↦ none | some s' ↦ some (leave s') ]
      | idle ↦ some (leave s)
      | work ↦ some (leave s)
    ]

module _ (parse : Text → Option Request) where
  -- The body of the loop of `new_msg` for one line. The result 0 stands for another round.
  unfoldable pub serve_line : Server → ℕ → Text → Option Request → Option (Server × ℕ)
  serve_line s fd target none = none
  serve_line s fd target (some (try name age gender intro filter)) =
      elim (get_info (s.clients fd) target name age gender intro filter) [
        | none ↦ none
        | some c ↦
            some (
              emit (record s { clients = update_client s.clients fd c }) (send c.my_fd ret_text),
              1,
            )
      ]
  serve_line s fd target (some quit) = some (s, 2)
  serve_line s fd target (some message) = elim (from_index 21 target) [
    | none ↦ none
    | some tail ↦
        let c = s.clients fd in
        some (
          emit (emit s (send c.my_fd (target ++ 10 ∷ [])))
              (send c.friend_fd (receive_text ++ tail ++ 10 ∷ [])),
          0,
        )
  ]
  serve_line s fd target (some other) = some (s, 0)

  abbrev pub set_buffer : Server → ℕ → Text → Server
  set_buffer s fd t = record s {
    clients = update_client s.clients fd (record (s.clients fd) { tcp_buffer = t });
  }

  -- The loop of `new_msg` on fuel; a fault is `none` inside, and the outer `none` means that the fuel
  -- ran out.
  unfoldable pub serve_lines : ℕ → Server → ℕ → Option (Option (Server × ℕ))
  unfolding split_line serve_line
  serve_lines zero s fd = none
  serve_lines (suc fuel) s fd = elim (split_line (s.clients fd).tcp_buffer) [
    | none ↦ some (some (s, 0))
    | some (target, rest) ↦ elim (serve_line (set_buffer s fd rest) fd target (parse target)) [
      | none ↦ some none
      | some (s', step) ↦ if step == 0 then serve_lines fuel s' fd else some (some (s', step))
    ]
  ]

  -- The received bytes are appended as a C string: from the first null byte on they are lost.
  unfoldable pub new_msg : Server → ℕ → Text → Option (Option (Server × ℕ))
  unfolding c_string
  new_msg s fd input =
      let buffer = (s.clients fd).tcp_buffer ++ c_string input in
      serve_lines (suc (length buffer)) (set_buffer s fd buffer) fd

  -- `recv` returned data. Where gcc refuses the filter the client stays out of `try_list`.
  unfoldable pub on_data : (Client → Bool) → Server → ℕ → Text → Option Server
  on_data compile s fd input = elim (new_msg s fd input) [
    | none ↦ none
    | some none ↦ none
    | some (some (s', step)) ↦
        if step == 1
        then (if compile (s'.clients fd)
            then some (record s' { try_list = s'.try_list ++ fd ∷ [] })
            else some s')
        else if step == 2
        then on_quit (emit s' (send fd quit_text)) fd (s'.clients fd).status
        else some s'
  ]
