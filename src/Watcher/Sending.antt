-- ===== src/Watcher/Sending.antt =====
-- `sendfile` of MP2/src/csiebox_client.c for the last entry.
use mathlib.Core.List.{append-nil}
use ntu_sp17fall.Base.{
  ℕ, zero, suc, ◌+◌, ◌-◌, ◌≡◌, refl, ap, sym, ◌∙◌, true, false, ◌&&◌, ◌||◌, List, [], ◌∷◌, ◌++◌,
  Option, none, some, Text, if◌then◌else◌, ◌==◌, Bool-cases, inl, inr, ◌⊎◌, leb, ltb, length,
  get_elem?, length-append, arith,
}
use ntu_sp17fall.Mirror.Protocol.{is_dir, is_reg, is_link, Request, file}
use ntu_sp17fall.Watcher.{
  System, Client, Entry, Watch, request, send, link_request, file_data, find_ino, ishardlink,
  syncfile_of, syncfile, synchlink, sendnew, sendfile,
}

abbrev pub entry_of : System → Text → Entry
entry_of sys path = record { name = path; info = sys.stat path; used = true }

abbrev pub watch_of : System → Text → Watch
watch_of sys path = record { name = path; used = true; wd = sys.watch path }

-- The name of the first entry in use with the inode.
unfoldable pub first_same : ℕ → List Entry → Option Text
first_same ino [] = none
first_same ino (p ∷ ps) =
    let rest = first_same ino ps in if p.used && p.info.ino == ino then some p.name else rest

unfoldable pub file_request : System → ℕ → Text → Request
file_request sys id path =
    let stat = sys.stat path in
    request id (file stat.size (length path) stat) (file_data sys (entry_of sys path) ++ path)

-- What follows the meta data of a file behind the entries `earlier`.
unfoldable pub more_requests : System → ℕ → List Entry → Text → List Request
unfolding first_same
more_requests sys id earlier path =
    let stat = sys.stat path in
    let own : List Request =
      if is_reg stat.mode || is_link stat.mode then file_request sys id path ∷ [] else [] in
    if stat.nlink == 1 then own else elim (first_same stat.ino earlier) [
      | none ↦ own
      | some src ↦ link_request id src path ∷ []
    ]

abbrev pub send_all : Client → List Request → Client
send_all c rs = record c { sent = c.sent ++ rs }

get_elem?-last : (es : List Entry) (p : Entry) → get_elem? (es ++ p ∷ []) (length es) ≡ some p
get_elem?-last [] p = refl
get_elem?-last (e ∷ es) p = get_elem?-last es p

get_elem?-append :
    (es fs : List Entry) (k : ℕ) (q : Entry)
    → get_elem? es k ≡ some q
    → get_elem? (es ++ fs) k ≡ some q
get_elem?-append [] fs k q h = ground arith
get_elem?-append (e ∷ es) fs zero q h = h
get_elem?-append (e ∷ es) fs (suc k) q h = get_elem?-append es fs k q h

-- The search by index and the search by entry agree.
find_ino_lem :
    (es : List Entry) (p : Entry) (i num ino : ℕ)
    → num ≡ i + length es
    → ((find_ino (es ++ p ∷ []) i num ino ≡ none) × (first_same ino es ≡ none))
      ⊎ ((k : ℕ) × (q : Entry) × (find_ino (es ++ p ∷ []) i num ino ≡ some (i + k))
          × (get_elem? es k ≡ some q)
          × (first_same ino es ≡ some q.name))
unfolding find_ino first_same
find_ino_lem [] p i num ino e =
    let full : leb num i ≡ true = ground arith in inl (rw full refl, refl)
find_ino_lem (x ∷ es) p i num ino e =
    let more : leb num i ≡ false = ground arith in
    elim (Bool-cases (x.used && x.info.ino == ino)) [
      | inl same ↦ inr (0, x, rw (more, same) (ap some (omega arith)), refl, rw same refl)
      | inr other ↦ elim (find_ino_lem es p (i + 1) num ino (omega (arith, e))) [
        | inl (a, b) ↦ inl (rw (more, other, a) refl, rw (other, b) refl)
        | inr (k, q, a, b, d) ↦
            inr (suc k, q, rw (more, other, a) (ap some (omega arith)), b, rw (other, d) refl)
      ]
    ]

syncfile_lem :
    (sys : System) (c : Client) (n : ℕ) (path : Text)
    → get_elem? c.cdir_path n ≡ some (entry_of sys path)
    → leb (sys.stat path).size 5000 ≡ true
    → syncfile sys n c ≡ some (send c (file_request sys c.client_id path))
unfolding syncfile syncfile_of file_request
syncfile_lem sys c n path at small =
    let fits : ltb 5000 (sys.stat path).size ≡ false = ground arith in rw (syncfile, at, fits) refl

sendnew_lem :
    (sys : System) (c : Client) (n : ℕ) (path : Text)
    → get_elem? c.cdir_path n ≡ some (entry_of sys path)
    → leb (sys.stat path).size 5000 ≡ true
    → sendnew sys n c
      ≡ some (
          send_all c (
            if is_reg (sys.stat path).mode || is_link (sys.stat path).mode
            then file_request sys c.client_id path ∷ []
            else []))
unfolding sendnew
sendnew_lem sys c n path at small =
    let sync = syncfile_lem sys c n path at small in
    elim (Bool-cases (is_reg (sys.stat path).mode)) [
      | inl reg ↦ rw (sendnew, at, reg) sync
      | inr other ↦ elim (Bool-cases (is_link (sys.stat path).mode)) [
        | inl link ↦ rw (sendnew, at, other, link) sync
        | inr neither ↦
            rw (sendnew, at, other, neither)
              (ap (λ (rs : List Request). some (record c { sent = rs })) (sym (append-nil c.sent)))
      ]
    ]

sendfile_at :
    (sys : System) (c : Client) (earlier : List Entry) (path : Text) (n : ℕ)
    → n ≡ length earlier
    → c.cdir_path ≡ earlier ++ entry_of sys path ∷ []
    → is_dir (sys.stat path).mode ≡ false
    → leb (sys.stat path).size 5000 ≡ true
    → sendfile sys n c ≡ some (send_all c (more_requests sys c.client_id earlier path))
unfolding sendfile ishardlink more_requests synchlink
sendfile_at sys c earlier path n last same no_dir small =
    let stat = sys.stat path in
    let at : get_elem? c.cdir_path n ≡ some (entry_of sys path) =
      rw (same, last) (get_elem?-last earlier (entry_of sys path)) in
    let new = sendnew_lem sys c n path at small in
    elim (Bool-cases (stat.nlink == 1)) [
      | inl once ↦ rw (sendfile, ishardlink, at, once) new
      | inr often ↦
          elim (find_ino_lem earlier (entry_of sys path) 0 n stat.ino (omega (arith, last))) [
            | inl (a, b) ↦
                let form : ishardlink c n ≡ none =
                  rw (ishardlink, at, often, no_dir, same, a) refl in
                rw (sendfile, form, often, b) new
            | inr (k, q, a, b, d) ↦
                let found : get_elem? c.cdir_path k ≡ some q =
                  rw same (get_elem?-append earlier (entry_of sys path ∷ []) k q b) in
                let index : find_ino (earlier ++ entry_of sys path ∷ []) 0 n stat.ino ≡ some k =
                  a ∙ ap some (omega arith) in
                let form : ishardlink c n ≡ some k =
                  rw (ishardlink, at, often, no_dir, same, index) refl in
                rw (sendfile, form, synchlink, found, at, often, d) refl
          ]
    ]

-- `sendfile` of the last entry.
pub sendfile_lem :
    (sys : System) (c : Client) (earlier : List Entry) (path : Text)
    → c.cdir_path ≡ earlier ++ entry_of sys path ∷ []
    → is_dir (sys.stat path).mode ≡ false
    → leb (sys.stat path).size 5000 ≡ true
    → sendfile sys (length c.cdir_path - 1) c
      ≡ some (send_all c (more_requests sys c.client_id earlier path))
sendfile_lem sys c earlier path same no_dir small =
    let last : length c.cdir_path - 1 ≡ length earlier =
      rw (same, length-append earlier (entry_of sys path ∷ [])) (omega arith) in
    sendfile_at sys c earlier path (length c.cdir_path - 1) last same no_dir small
