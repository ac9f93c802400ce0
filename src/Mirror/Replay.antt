-- ===== src/Mirror/Replay.antt =====
-- Many requests of one connection of MP2/src/csiebox_server.c.
use mathlib.Core.List.{append-nil, map-append}
use ntu_sp17fall.Base.{
  ℕ, ◌≡◌, refl, ap, sym, ◌∙◌, Bool, true, ◌&&◌, ◌==◌, List, [], ◌∷◌, ◌++◌, Option, none, some, Text,
  append_assoc, map, ◌⊎◌, inl, inr, Option-cases, Bool-cases, arith,
}
use ntu_sp17fall.Mirror.Protocol.{
  magic_req, Body, login, meta, file, hardlink, sync_end, rm, unknown, Request,
}
use ntu_sp17fall.Mirror.{
  Disk, Call, close, get_client_meta, get_client_file, get_client_hlink, handle_remove,
}
use ntu_sp17fall.Mirror.Session.{
  Server, set_client, get_user_homedir, in_home, logout, handle_body, handle_one, handle_request,
}
use ntu_sp17fall.Mirror.Guard.{needs_home}

-- What a run of the loop over requests does, whatever comes behind: the server stays, and the calls are
-- made. The disk answers the same all the time.
module _ (md5 : Text → Text) (s : Server) (fd : ℕ) (disk : Disk) where
  abbrev pub with_disk : Request → Request × Disk
  with_disk req = (req, disk)

  unfoldable pub Handles : List Request → List Call → Type 0
  Handles reqs calls =
      (more : List (Request × Disk)) (s' : Server) (behind : List Call)
      → handle_request md5 s fd more ≡ some (s', behind)
      → handle_request md5 s fd (map with_disk reqs ++ more) ≡ some (s', calls ++ behind)

  pub Handles-nil : Handles [] []
  unfolding Handles
  Handles-nil more s' behind e = e

  pub Handles-one :
      (req : Request) (calls : List Call)
      → handle_one md5 s fd disk req ≡ some (s, calls)
      → Handles (req ∷ []) calls
  unfolding Handles handle_request
  Handles-one req calls one more s' behind e = rw (handle_request, one, e) refl

  pub Handles-append :
      (reqs reqs' : List Request) (calls calls' : List Call)
      → Handles reqs calls
      → Handles reqs' calls'
      → Handles (reqs ++ reqs') (calls ++ calls')
  unfolding Handles
  Handles-append reqs reqs' calls calls' h h' more s' behind e =
      let tail = h' more s' behind e in
      rw (map-append with_disk reqs reqs') (
        ap (handle_request md5 s fd) (append_assoc (map with_disk reqs) (map with_disk reqs') more)
        ∙ h (map with_disk reqs' ++ more) s' (calls' ++ behind) tail
        ∙ ap (λ (cs : List Call). some (s', cs)) (sym (append_assoc calls calls' behind)))

  -- The whole connection.
  pub Handles-all :
      (reqs : List Request) (calls : List Call)
      → Handles reqs calls
      → handle_request md5 s fd (map with_disk reqs)
        ≡ some (set_client s fd none, calls ++ close fd ∷ [])
  unfolding Handles handle_request logout
  Handles-all reqs calls h =
      ap (handle_request md5 s fd) (sym (append-nil (map with_disk reqs)))
      ∙ h [] (set_client s fd none) (close fd ∷ []) refl

-- Requests on the files of a user.
unfoldable pub all_work : List Request → Bool
all_work [] = true
all_work (req ∷ reqs) = needs_home req.body && all_work reqs

-- The server behind requests; one that faults is as it was before.
unfoldable pub state_after : (Text → Text) → Server → ℕ → Disk → List Request → Server
state_after md5 s fd disk [] = s
state_after md5 s fd disk (req ∷ reqs) = elim (handle_one md5 s fd disk req) [
  | none ↦ state_after md5 s fd disk reqs
  | some (s', calls) ↦ state_after md5 s' fd disk reqs
]

pub state_after-append :
    (md5 : Text → Text) (s : Server) (fd : ℕ) (disk : Disk) (reqs more : List Request)
    → state_after md5 s fd disk (reqs ++ more)
      ≡ state_after md5 (state_after md5 s fd disk reqs) fd disk more
unfolding state_after
state_after-append md5 s fd disk [] more = refl
state_after-append md5 s fd disk (req ∷ reqs) more =
    elim (Option-cases (handle_one md5 s fd disk req)) [
      | inl fault ↦ rw (state_after, fault) (state_after-append md5 s fd disk reqs more)
      | inr ((s', calls), one) ↦ rw (state_after, one) (state_after-append md5 s' fd disk reqs more)
    ]

-- A request on files leaves the server as it is, unless it faults.
in_home-keeps :
    (s : Server) (fd : ℕ) (handler : Text → Option (List Call))
    → (in_home s fd handler ≡ none)
      ⊎ ((calls : List Call) × (in_home s fd handler ≡ some (s, calls)))
unfolding in_home
in_home-keeps s fd handler = elim (Option-cases (s.client fd)) [
  | inl nobody ↦ inl (rw (in_home, nobody) refl)
  | inr (info, known) ↦ elim (Option-cases (handler (get_user_homedir s info))) [
    | inl fault ↦ inl (rw (in_home, known, fault) refl)
    | inr (calls, done) ↦ inr (calls, rw (in_home, known, done) refl)
  ]
]

body-keeps :
    (md5 : Text → Text) (s : Server) (fd : ℕ) (disk : Disk) (stream : Text) (body : Body)
    → needs_home body ≡ true
    → (handle_body md5 s fd disk stream body ≡ none)
      ⊎ ((calls : List Call) × (handle_body md5 s fd disk stream body ≡ some (s, calls)))
unfolding handle_body needs_home
body-keeps md5 s fd disk stream (login user hash) work = absurd (ground arith)
body-keeps md5 s fd disk stream (meta pathlen stat hash) work =
    in_home-keeps s fd (λ home. get_client_meta disk home pathlen stat hash stream)
body-keeps md5 s fd disk stream (file datalen pathlen stat) work =
    in_home-keeps s fd (λ home. get_client_file disk home datalen pathlen stat stream)
body-keeps md5 s fd disk stream (hardlink srclen targetlen) work =
    in_home-keeps s fd (λ home. get_client_hlink disk home srclen targetlen stream)
body-keeps md5 s fd disk stream sync_end work = absurd (ground arith)
body-keeps md5 s fd disk stream (rm pathlen) work =
    in_home-keeps s fd (λ home. handle_remove disk home pathlen stream)
body-keeps md5 s fd disk stream (unknown op) work = absurd (ground arith)

work-keeps :
    (md5 : Text → Text) (s : Server) (fd : ℕ) (disk : Disk) (req : Request)
    → needs_home req.body ≡ true
    → (handle_one md5 s fd disk req ≡ none)
      ⊎ ((calls : List Call) × (handle_one md5 s fd disk req ≡ some (s, calls)))
unfolding handle_one
work-keeps md5 s fd disk req work = elim (Bool-cases (req.magic == magic_req)) [
  | inr strange ↦ inr ([], rw strange refl)
  | inl known ↦ elim (Bool-cases req.complete) [
    | inr cut ↦ inr ([], rw (known, cut) refl)
    | inl whole ↦ rw (known, whole) (body-keeps md5 s fd disk req.stream req.body work)
  ]
]

pub state_after-work :
    (md5 : Text → Text) (s : Server) (fd : ℕ) (disk : Disk) (reqs : List Request)
    → all_work reqs ≡ true
    → state_after md5 s fd disk reqs ≡ s
unfolding state_after all_work
state_after-work md5 s fd disk [] work = refl
state_after-work md5 s fd disk (req ∷ reqs) work =
    let rest = state_after-work md5 s fd disk reqs (ground arith) in
    elim (work-keeps md5 s fd disk req (ground arith)) [
      | inl fault ↦ rw (state_after, fault) rest
      | inr (calls, one) ↦ rw (state_after, one) rest
    ]
