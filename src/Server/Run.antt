-- ===== src/Server/Run.antt =====
-- `csiebox_server_run` of MP5/src/csiebox_server.c: which connections the accept loop watches, a round of
-- it, and what the two steps of a thread that serves a connection make of those that are watched.
use ntu_sp17fall.Base.{
  ℕ, zero, suc, ◌+◌, ◌≡◌, ◌∙◌, Bool, true, false, not, List, [], ◌∷◌, ◌++◌, Option, none, some,
  Text, if◌then◌else◌, ◌==◌, ◌&&◌, text_eq, arith,
}
use ntu_sp17fall.Server.{
  ClientInfo, Server, Request, Answers, Call, logout, sync_file, rm_file, login_with, welcome,
  magic_req,
}
use ntu_sp17fall.Server.Account.{
  login, handle_op, handle_request, set_in_thread, server_thread_func, choose_thread,
  get_account_info,
}

-- What a client entry holds of threads.
unfoldable pub held : Option ClientInfo → ℕ
held none = 0
held (some info) = if info.in_thread then 1 else 0

-- `count` of the loop that fills `readset`, over the entries from `i` on.
unfoldable pub active_threads : Server → ℕ → ℕ → ℕ
unfolding held
active_threads s i zero = 0
active_threads s i (suc n) = held (s.client i) + active_threads s (i + 1) n

-- Whether the loop sets the connection in `readset`.
unfoldable pub watched : Server → ℕ → Bool
watched s fd = elim (s.client fd) [ none ↦ false | some info ↦ not info.in_thread ]

module _ (md5 : Text → Text) where
  -- The connections that `select` found ready, in order, each with whether every thread is busy and with what the
  -- client sent. The third result is those that a thread got.
  unfoldable pub serve_ready :
      Server → List (ℕ × Bool × Request) → Option (Server × List Call × List ℕ)
  unfolding choose_thread
  serve_ready s [] = some (s, [], [])
  serve_ready s ((fd, busy, req) ∷ ready) = elim (choose_thread md5 busy s fd req) [
    | none ↦ none
    | some (s', calls) ↦ elim (serve_ready s' ready) [
      | none ↦ none
      | some (t, more, given) ↦ some (t, calls ++ more, if busy then given else fd ∷ given)
    ]
  ]

  -- A round behind `select`: a new connection, of which one request is served at once, or the ready ones.
  unfoldable pub run_round :
      Server
      → Option (ℕ × Request × Answers)
      → List (ℕ × Bool × Request)
      → Option (Server × List Call × List ℕ)
  unfolding serve_ready handle_request
  run_round s none ready = serve_ready s ready
  run_round s (some (conn_fd, req, a)) ready =
      let (t, calls) = handle_request md5 s conn_fd req a in some (t, calls, [])

  -- Another connection's entry is left.
  handle_request-other :
      (s : Server) (conn_fd fd : ℕ) (req : Request) (a : Answers)
      → (conn_fd == fd) ≡ false
      → (handle_request md5 s conn_fd req a).0.client fd ≡ s.client fd
  unfolding handle_request handle_op sync_file rm_file logout login login_with welcome
  handle_request-other s conn_fd fd req a h = ground (arith, h)

  set_in_thread-other :
      (s : Server) (conn_fd fd : ℕ) (on : Bool)
      → (conn_fd == fd) ≡ false
      → (set_in_thread md5 s conn_fd on).client fd ≡ s.client fd
  set_in_thread-other s conn_fd fd on h = ground (arith, h)

  -- Whether a request is a login with the digest that the account file gives its user.
  unfoldable pub is_accepted : Server → Request → Bool
  is_accepted s req = elim req.header [
    | none ↦ false
    | some header ↦
        (header.magic == magic_req && header.op == 0)
        && (req.complete && elim (get_account_info md5 s req.user) [
          | none ↦ false
          | some hash ↦ text_eq req.passwd_hash hash
        ])
  ]

  handle_request-watched :
      (s : Server) (conn_fd : ℕ) (req : Request) (a : Answers)
      → watched s conn_fd ≡ false
      → watched (handle_request md5 s conn_fd req a).0 conn_fd ≡ is_accepted s req
  unfolding handle_request handle_op sync_file rm_file logout login login_with welcome watched
      is_accepted
  handle_request-watched s conn_fd req a h = ground (arith, h)

  -- Whether there is an entry.
  abbrev known : Server → ℕ → Bool
  known s fd = elim (s.client fd) [ none ↦ false | some info ↦ true ]

  -- A thread that serves a connection that the loop does not watch. Between its two steps, the request and
  -- the reset of the mark, the loop watches the connection again exactly if the request was an accepted
  -- login, so that only then a second thread can get it; behind both it watches it if the client is still
  -- logged in. No other connection is touched by either step.
  pub server_thread_func-watched :
      (s : Server) (conn_fd : ℕ) (req : Request) (a : Answers)
      → watched s conn_fd ≡ false
      → let t = (handle_request md5 s conn_fd req a).0 in
        let u = (server_thread_func md5 s conn_fd req a).0 in
        (watched t conn_fd ≡ is_accepted s req)
        × (watched u conn_fd ≡ known t conn_fd)
        × ((fd : ℕ)
            → (conn_fd == fd) ≡ false
            → (t.client fd ≡ s.client fd) × (u.client fd ≡ s.client fd))
  unfolding server_thread_func watched
  server_thread_func-watched s conn_fd req a h =
      let t = (handle_request md5 s conn_fd req a).0 in
      (
        handle_request-watched s conn_fd req a h,
        ground arith,
        λ fd apart.
            let same = handle_request-other s conn_fd fd req a apart in
            (same, set_in_thread-other t conn_fd fd false apart ∙ same),
      )
