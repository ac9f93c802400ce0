-- ===== src/Server/Guard.antt =====
-- Who may do what on the server of MP5/src/csiebox_server.c.
use ntu_sp17fall.Base.{
  ℕ, ◌≡◌, ◌≢◌, refl, false, [], ◌∷◌, none, some, Text, text_eq, text_eq_iff, arith, ◌⊎◌, inl, inr,
  ◌==◌, Option-cases, Bool-cases,
}
use ntu_sp17fall.Server.{
  Header, Server, Request, Answers, send, mkdir, response, set_client, get_user_homedir,
  check_client_and_get_homedir, sync_file, rm_file, login_with, welcome,
}
use ntu_sp17fall.Server.Account.{get_account_info, login, handle_op, handle_request}

check-none :
    (s : Server) (conn_fd client_id : ℕ)
    → (s.client conn_fd ≡ none) ⊎ ((conn_fd == client_id) ≡ false)
    → check_client_and_get_homedir s conn_fd client_id ≡ none
unfolding check_client_and_get_homedir
check-none s conn_fd client_id h = ground arith

module _ (md5 : Text → Text) where
  -- A request on a connection that is not logged in, or under another client's id, changes nothing and
  -- makes no call at all, unless it is itself a login.
  pub handle_request-guard :
      (s : Server) (conn_fd : ℕ) (req : Request) (a : Answers) (header : Header)
      → req.header ≡ some header
      → (header.op == 0) ≡ false
      → (s.client conn_fd ≡ none) ⊎ ((conn_fd == header.client_id) ≡ false)
      → handle_request md5 s conn_fd req a ≡ (s, [])
  unfolding handle_request handle_op sync_file rm_file
  handle_request-guard s conn_fd req a header e op h =
      let refused = check-none s conn_fd header.client_id h in ground (arith, e, op, refused)

  -- A login is accepted exactly if the account file gives the user a password with the digest sent.
  -- Then the connection belongs to that user, no other entry changes, the home directory is made and
  -- OK answered; otherwise nothing changes and FAIL is answered.
  pub login_lem :
      (s : Server) (conn_fd : ℕ) (user hash : Text)
      → ((get_account_info md5 s user ≡ some hash)
          × (login md5 s conn_fd user hash ≡ (
            set_client s conn_fd (
                some (record {
                  user = user;
                  passwd_hash = hash;
                  conn_fd = conn_fd;
                  in_thread = false;
                })),
            mkdir (
                  get_user_homedir s (record {
                    user = user;
                    passwd_hash = hash;
                    conn_fd = conn_fd;
                    in_thread = false;
                  }))
                ∷ send conn_fd (response 0 0 conn_fd)
                ∷ [],
          )))
        ⊎ ((get_account_info md5 s user ≢ some hash)
            × (login md5 s conn_fd user hash ≡ (s, send conn_fd (response 0 1 0) ∷ [])))
  unfolding login login_with welcome
  login_lem s conn_fd user hash = elim (Option-cases (get_account_info md5 s user)) [
    | inl e ↦ inr (ground arith, rw (login, e) refl)
    | inr (stored, e) ↦ elim (Bool-cases (text_eq hash stored)) [
      | inl same ↦
          let p : stored ≡ hash = ground (arith, text_eq_iff hash stored) in
          inl (ground arith, rw (login, e, same, p) refl)
      | inr other ↦ inr (ground (arith, text_eq_iff hash stored), rw (login, e, other) refl)
    ]
  ]
