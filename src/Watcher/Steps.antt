-- ===== src/Watcher/Steps.antt =====
-- The walk of MP2/src/csiebox_client.c as a list of steps, for the proofs about it.
use ntu_sp17fall.Base.{
  ℕ, suc, ◌≡◌, refl, ap, sym, ◌∙◌, List, [], ◌∷◌, ◌++◌, Option, none, some, Text, if◌then◌else◌,
  Bool-cases, inl, inr,
}
use ntu_sp17fall.Mirror.Protocol.{is_dir}
use ntu_sp17fall.Watcher.{
  System, Client, Step, bind, syncmeta, ◌>>◌, tell, push_back_to_array, add_to_inotify,
}
use ntu_sp17fall.Watcher.Walk.{
  Entries, end, closed, opened, is_dots, path_of, visit_file, visit_dir, walk, traverse,
}

-- A directory is entered and left; a file is met at a depth.
pub data Move : Type 0 where
  enter leave : Text → Move
  meet : ℕ → Text → Move

-- The moves of the loop, by the names and by what `lstat` says.
unfoldable pub moves : System → Text → ℕ → Entries → List Move
unfolding is_dots path_of
moves sys dirname depth end = []
moves sys dirname depth (closed name rest) =
    let path = path_of dirname name in
    let later = moves sys dirname depth rest in
    if is_dots name
    then later
    else if is_dir (sys.stat path).mode
    then later
    else meet depth path ∷ later
moves sys dirname depth (opened name sub rest) =
    let path = path_of dirname name in
    let later = moves sys dirname depth rest in
    let inner = moves sys path (suc depth) sub in
    if is_dots name
    then later
    else if is_dir (sys.stat path).mode
    then enter path ∷ (inner ++ leave path ∷ later)
    else meet depth path ∷ later

unfoldable pub move : System → Move → Step
unfolding visit_file
move sys (enter path) = tell sys path >> push_back_to_array sys path >> add_to_inotify sys path
move sys (leave path) = tell sys path
move sys (meet depth path) = visit_file sys depth path

unfoldable pub run_moves : System → List Move → Step
unfolding move
run_moves sys [] c = some c
run_moves sys (m ∷ ms) c = let next : Step = run_moves sys ms in (move sys m >> next) c

bind-some : (o : Option Client) → bind o (λ c. some c) ≡ o
bind-some none = refl
bind-some (some c) = refl

bind_assoc : (o : Option Client) (f g : Step) → bind (bind o f) g ≡ bind o (f >> g)
bind_assoc none f g = refl
bind_assoc (some c) f g = refl

bind_ap : (o : Option Client) (f g : Step) → ((c : Client) → f c ≡ g c) → bind o f ≡ bind o g
bind_ap none f g h = refl
bind_ap (some c) f g h = h c

pub run_moves-append :
    (sys : System) (ms ns : List Move) (c : Client)
    → run_moves sys (ms ++ ns) c ≡ bind (run_moves sys ms c) (run_moves sys ns)
unfolding run_moves
run_moves-append sys [] ns c = refl
run_moves-append sys (m ∷ ms) ns c =
    bind_ap (move sys m c) (run_moves sys (ms ++ ns)) (run_moves sys ms >> run_moves sys ns)
      (run_moves-append sys ms ns)
    ∙ sym (bind_assoc (move sys m c) (run_moves sys ms) (run_moves sys ns))

-- A directory whose loop runs the moves `inner`.
visit_dir-moves :
    (sys : System) (path : Text) (loop : Step) (inner later : List Move) (next : Step) (c : Client)
    → ((c' : Client) → loop c' ≡ run_moves sys inner c')
    → ((c' : Client) → next c' ≡ run_moves sys later c')
    → (visit_dir sys path loop >> next) c
      ≡ run_moves sys (enter path ∷ (inner ++ leave path ∷ later)) c
unfolding visit_dir run_moves move
visit_dir-moves sys path loop inner later next c h k =
    let entered : Option Client = move sys (enter path) c in
    let behind : Step = tell sys path >> next in
    bind_assoc (bind entered loop) (tell sys path) next
    ∙ bind_assoc entered loop behind
    ∙ bind_ap entered (loop >> behind) (run_moves sys (inner ++ leave path ∷ later)) (λ c'.
      ap (λ (o : Option Client). bind o behind) (h c')
      ∙ bind_ap (run_moves sys inner c') behind (run_moves sys (leave path ∷ later))
          (λ c''. k (syncmeta sys path c'').1)
      ∙ sym (run_moves-append sys inner (leave path ∷ later) c'))

visit_file-moves :
    (sys : System) (depth : ℕ) (path : Text) (later : List Move) (next : Step) (c : Client)
    → ((c' : Client) → next c' ≡ run_moves sys later c')
    → (visit_file sys depth path >> next) c ≡ run_moves sys (meet depth path ∷ later) c
unfolding run_moves move
visit_file-moves sys depth path later next c k =
    bind_ap (visit_file sys depth path c) next (run_moves sys later) k

pub walk-moves :
    (sys : System) (dirname : Text) (depth : ℕ) (entries : Entries) (c : Client)
    → walk sys dirname depth entries c ≡ run_moves sys (moves sys dirname depth entries) c
unfolding walk moves run_moves
walk-moves sys dirname depth end c = refl
walk-moves sys dirname depth (closed name rest) c =
    let path = path_of dirname name in
    let later = walk-moves sys dirname depth rest in
    elim (Bool-cases (is_dots name)) [
      | inl dots ↦ rw dots (later c)
      | inr named ↦ elim (Bool-cases (is_dir (sys.stat path).mode)) [
        | inl dir ↦ rw (named, dir) (later c)
        | inr file ↦
            rw (named, file)
              (visit_file-moves sys depth path (moves sys dirname depth rest)
                (walk sys dirname depth rest) c later)
      ]
    ]
walk-moves sys dirname depth (opened name sub rest) c =
    let path = path_of dirname name in
    let later = walk-moves sys dirname depth rest in
    elim (Bool-cases (is_dots name)) [
      | inl dots ↦ rw dots (later c)
      | inr named ↦ elim (Bool-cases (is_dir (sys.stat path).mode)) [
        | inl dir ↦
            rw (named, dir)
              (visit_dir-moves sys path (walk sys path (suc depth) sub)
                (moves sys path (suc depth) sub) (moves sys dirname depth rest)
                (walk sys dirname depth rest) c (walk-moves sys path (suc depth) sub) later)
        | inr file ↦
            rw (named, file)
              (visit_file-moves sys depth path (moves sys dirname depth rest)
                (walk sys dirname depth rest) c later)
      ]
    ]

-- All moves of `traverse` in a directory that can be opened.
unfoldable pub all_moves : System → Text → ℕ → Entries → List Move
unfolding moves
all_moves sys dirname depth entries =
    enter dirname ∷ (moves sys dirname depth entries ++ leave dirname ∷ [])

pub traverse-moves :
    (sys : System) (dirname : Text) (depth : ℕ) (entries : Entries) (c : Client)
    → traverse sys dirname depth (some entries) c
      ≡ run_moves sys (all_moves sys dirname depth entries) c
unfolding traverse run_moves all_moves
traverse-moves sys dirname depth entries c =
    sym (bind-some (visit_dir sys dirname (walk sys dirname depth entries) c))
    ∙ visit_dir-moves sys dirname (walk sys dirname depth entries) (moves sys dirname depth entries)
        [] (λ c'. some c') c (walk-moves sys dirname depth entries) (λ c'. refl)
