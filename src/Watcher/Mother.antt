-- ===== src/Watcher/Mother.antt =====
-- The loop of MP2/src/csiebox_client.c over the entries of the directory of an event.
use ntu_sp17fall.Base.{
  Bool, ◌==◌, ℕ, zero, suc, ◌≡◌, refl, ap, sym, ◌∙◌, List, [], ◌∷◌, ◌++◌, Option, some, Text,
  text_eq, if◌then◌else◌, Bool-cases, inl, inr, length, get_elem?, length-append, append_assoc,
  arith, map,
}
use ntu_sp17fall.Mirror.Protocol.{Request, Stat}
use ntu_sp17fall.Watcher.{System, Client, Entry, tell, syncmeta, meta_request}
use ntu_sp17fall.Watcher.Events.{refresh_at, each, each_entry, update_mother, on_attrib}
use mathlib.Core.List.{append-nil}

-- The entries for which a test holds, with what `lstat` says now.
abbrev pub refresh_where : System → (Entry → Bool) → Entry → Entry
refresh_where sys test p = if test p then record p { info = sys.stat p.name } else p

-- One request for each of them.
unfoldable pub requests_where : System → (Entry → Bool) → List Entry → List Request
requests_where sys test [] = []
requests_where sys test (p ∷ ps) =
    let rest = requests_where sys test ps in if test p then meta_request sys p.name ∷ rest else rest

-- The entries of the directory of an event.
abbrev pub is_mother : Text → Entry → Bool
is_mother dirname p = text_eq dirname p.name

abbrev pub refresh_if : System → Text → Entry → Entry
refresh_if sys dirname = refresh_where sys (is_mother dirname)

abbrev pub mother_requests : System → Text → List Entry → List Request
mother_requests sys dirname = requests_where sys (is_mother dirname)

get_elem?-at :
    (done : List Entry) (p : Entry) (todo : List Entry) (i : ℕ)
    → i ≡ length done
    → get_elem? (done ++ p ∷ todo) i ≡ some p
get_elem?-at [] p todo zero e = refl
get_elem?-at [] p todo (suc i) e = absurd (omega (arith, e))
get_elem?-at (q ∷ done) p todo zero e = absurd (omega (arith, e))
get_elem?-at (q ∷ done) p todo (suc i) e = get_elem?-at done p todo i (omega (arith, e))

refresh_at-lem :
    (sys : System) (done : List Entry) (p : Entry) (todo : List Entry) (i : ℕ)
    → i ≡ length done
    → refresh_at sys i (done ++ p ∷ todo) ≡ done ++ record p { info = sys.stat p.name } ∷ todo
unfolding refresh_at
refresh_at-lem sys [] p todo zero e = refl
refresh_at-lem sys [] p todo (suc i) e = absurd (omega (arith, e))
refresh_at-lem sys (q ∷ done) p todo zero e = absurd (omega (arith, e))
refresh_at-lem sys (q ∷ done) p todo (suc i) e =
    ap (λ (ps : List Entry). q ∷ ps) (refresh_at-lem sys done p todo i (omega (arith, e)))

-- The loop on entries of which `done` were looked at and `todo` are left.
module _ (sys : System) (test : Entry → Bool) where
  abbrev told : List Entry → List Request → Client → Client
  told entries more c = record c { cdir_path = entries; sent = c.sent ++ more }

  abbrev loop : ℕ → ℕ → Client → Option Client
  loop = each sys test (λ j name. tell sys name)

  -- A turn that leaves the entry `p'` for the rest.
  turn_lem :
      (done todo : List Entry) (p' : Entry) (left i : ℕ) (c : Client) (entries : List Entry)
      (first : List Request)
      → entries ≡ done ++ p' ∷ todo
      → ((c' : Client) (done' : List Entry)
          → done' ≡ done ++ p' ∷ []
          → loop left i (record c' { cdir_path = done' ++ todo })
            ≡ some (
                told
                  (done' ++ map (refresh_where sys test) todo)
                  (requests_where sys test todo)
                  c'))
      → loop left i (told entries first c)
        ≡ some (
            told
              (done ++ p' ∷ map (refresh_where sys test) todo)
              (first ++ requests_where sys test todo)
              c)
  turn_lem done todo p' left i c entries first same rest =
      let more = requests_where sys test todo in
      let known = map (refresh_where sys test) todo in
      ap (λ (es : List Entry). loop left i (told es first c))
        (same ∙ sym (append_assoc done (p' ∷ []) todo))
      ∙ rest (record c { sent = c.sent ++ first }) (done ++ p' ∷ []) refl
      ∙ ap (λ (es : List Entry). some (told es more (record c { sent = c.sent ++ first })))
          (append_assoc done (p' ∷ []) known)
      ∙ ap (λ (rs : List Request). some (record c { cdir_path = done ++ p' ∷ known; sent = rs }))
          (append_assoc c.sent first more)

  each_lem :
      (todo done : List Entry) (left i : ℕ) (c : Client)
      → i ≡ length done
      → left ≡ length todo
      → loop left i (record c { cdir_path = done ++ todo })
        ≡ some (told (done ++ map (refresh_where sys test) todo) (requests_where sys test todo) c)
  unfolding each requests_where syncmeta
  each_lem [] done zero i c at rest =
      ap (λ (rs : List Request). some (record c { cdir_path = done ++ []; sent = rs }))
        (sym (append-nil c.sent))
  each_lem [] done (suc left) i c at rest = absurd (omega (arith, rest))
  each_lem (p ∷ todo) done zero i c at rest = absurd (omega (arith, rest))
  each_lem (p ∷ todo) done (suc left) i c at rest =
      let found = get_elem?-at done p todo i at in
      let p' : Entry = record p { info = sys.stat p.name } in
      let later : (q : Entry) (c' : Client) (done' : List Entry)
          → done' ≡ done ++ q ∷ []
          → loop left (suc i) (record c' { cdir_path = done' ++ todo })
            ≡ some (
                told (done' ++ map (refresh_where sys test) todo) (requests_where sys test todo)
                  c') =
        λ q c' done' e.
          let grown = ap length e ∙ length-append done (q ∷ []) in
          each_lem todo done' left (suc i) c' (omega (arith, grown, at)) (omega (arith, rest)) in
      elim (Bool-cases (test p)) [
        | inl mine ↦
            rw (each, found, mine)
              (turn_lem done todo p' left (suc i) c (refresh_at sys i (done ++ p ∷ todo))
                (meta_request sys p.name ∷ []) (refresh_at-lem sys done p todo i at) (later p'))
        | inr other ↦
            rw (each, found, other)
              (ap
                  (λ (rs : List Request).
                    loop left (suc i) (record c { cdir_path = done ++ p ∷ todo; sent = rs }))
                  (sym (append-nil c.sent))
                ∙ turn_lem done todo p left (suc i) c (done ++ p ∷ todo) [] refl (later p))
      ]

-- The entries of the directory are refreshed, and the meta data is sent for each of them.
pub update_mother_lem :
    (sys : System) (dirname : Text) (c : Client)
    → update_mother sys dirname c
      ≡ some (record c {
        cdir_path = map (refresh_if sys dirname) c.cdir_path;
        sent = c.sent ++ mother_requests sys dirname c.cdir_path;
      })
unfolding update_mother each_entry
update_mother_lem sys dirname c =
    each_lem sys (is_mother dirname) c.cdir_path [] (length c.cdir_path) 0 c refl refl

-- Every entry with the inode is refreshed, and its meta data is sent.
abbrev pub has_ino : Stat → Entry → Bool
has_ino stat p = stat.ino == p.info.ino

pub on_attrib_lem :
    (sys : System) (tmp : Stat) (c : Client)
    → on_attrib sys tmp c
      ≡ some (record c {
        cdir_path = map (refresh_where sys (has_ino tmp)) c.cdir_path;
        sent = c.sent ++ requests_where sys (has_ino tmp) c.cdir_path;
      })
unfolding on_attrib each_entry
on_attrib_lem sys tmp c =
    each_lem sys (has_ino tmp) c.cdir_path [] (length c.cdir_path) 0 c refl refl
