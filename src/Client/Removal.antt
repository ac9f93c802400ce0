-- ===== src/Client/Removal.antt =====
-- What the deletion of a watched directory does to the loop of `handle_inotify` in
-- MP5/src/csiebox_client.c.
use ntu_sp17fall.Base.{
  ℕ, zero, suc, ◌≡◌, refl, ◌∙◌, ap, true, false, List, [], ◌∷◌, ◌++◌, Option, none, some, ℤ, pos,
  Text, length, Option-cases, inl, inr, arith,
}
use ntu_sp17fall.Server.{Header}
use ntu_sp17fall.Hash.{Hash, slot, buckets, store, locate, chain_del, get_from_hash, del_from_hash}
use ntu_sp17fall.Hash.Laws.{IsValid}
use ntu_sp17fall.Hash.ByPath.{find_bucket, get_from_hash_by_path, get_from_hash_by_path_lem}
use ntu_sp17fall.Client.{
  System, Client, Sent, rm, rm_watch, Run, ◌>>=◌, ◌>>◌, pure, get_client, put_client, send,
  send_text, recv,
}
use ntu_sp17fall.Client.Exchange.{bind_lem, then_lem, text_of, send_text_lem}
use ntu_sp17fall.Client.Walk.{from_table}
use ntu_sp17fall.Client.Paths.{convert_to_relative_path}
use ntu_sp17fall.Client.Events.{
  Event, unwatch_found, unwatch, rm_relative, rm_file, handle_event, handle_events,
}

-- A deletion that finds nothing leaves the table.
del_from_hash-none : (h s : Hash Text) (k : ℤ) → del_from_hash h k ≡ some (none, s) → s ≡ h
unfolding del_from_hash
del_from_hash-none h s k e = elim (Option-cases (locate h k)) [
  | inl f ↦
      let p : ◌≡◌ {A = Option (Option Text × Hash Text)} none (some (none, s)) =
        rw (del_from_hash, f) at e in
      cc
  | inr ((i, c), f) ↦ elim (Option-cases (chain_del k c)) [
    | inl g ↦
        let p : ◌≡◌ {A = Option (Option Text × Hash Text)} (some (none, h)) (some (none, s)) =
          rw (del_from_hash, f, g) at e in
        cc
    | inr ((a, c'), g) ↦
        let p : ◌≡◌ {A = Option (Option Text × Hash Text)} (some (some a, store h i c'))
            (some (none, s)) =
          rw (del_from_hash, f, g) at e in
        cc
  ]
]

handle_events_spin :
    (sys : System) (cwd : Text) (fuel : ℕ) (e : Event) (es : List Event) (r : Run)
    → get_from_hash r.client.inotify_hash e.wd ≡ some none
    → handle_events sys cwd fuel (e ∷ es) r ≡ none
unfolding handle_events
handle_events_spin sys cwd zero e es r h = refl
handle_events_spin sys cwd (suc fuel) e es r h =
    rw (handle_events, h) (handle_events_spin sys cwd fuel e es r h)

handle_events_step :
    (sys : System) (cwd : Text) (fuel : ℕ) (e : Event) (es : List Event) (r r' : Run)
    (wd_path : Text)
    → get_from_hash r.client.inotify_hash e.wd ≡ some (some wd_path)
    → handle_event sys cwd wd_path e r ≡ some (tt, r')
    → handle_events sys cwd (suc fuel) (e ∷ es) r ≡ handle_events sys cwd fuel es r'
unfolding handle_events
handle_events_step sys cwd fuel e es r r' wd_path h run = rw (handle_events, h, run) refl

-- The watches behind `unwatch` of a path in bucket `i`.
unwatch_lem :
    (path : Text) (c : Client) (ms : List Sent) (hs : List Header) (i : ℕ)
    → IsValid c.inotify_hash
    → find_bucket path 0 (buckets c.inotify_hash) ≡ some i
    → let h = (get_from_hash_by_path c.inotify_hash path).1 in
      unwatch path (record { client = c; sent = ms; answers = hs })
      ≡ some (
        tt,
        record {
          client = record c { inotify_hash = h };
          sent = ms ++ (rm_watch (pos i) ∷ []);
          answers = hs;
        },
      )
unfolding unwatch
unwatch_lem path c ms hs i v e =
    let (index, there, before, valid, reads, (s, gone)) =
      get_from_hash_by_path_lem c.inotify_hash path i v e in
    let same = del_from_hash-none (get_from_hash_by_path c.inotify_hash path).1 s (pos i) gone in
    let h = (get_from_hash_by_path c.inotify_hash path).1 in
    let back : Run = record { client = c; sent = ms ++ (rm_watch (pos i) ∷ []); answers = hs } in
    let found : get_from_hash_by_path c.inotify_hash path ≡ (i, h) = ap (λ (k : ℕ). (k, h)) index in
    let nothing : from_table (del_from_hash h (pos i)) back ≡ some ((none, h), back) =
      ap (λ (o : Option (Option Text × Hash Text)). from_table o back)
        (gone ∙ ap (λ (t : Hash Text). some (none, t)) same) in
    ap (λ (p : ℕ × Hash Text). unwatch_found p (record { client = c; sent = ms; answers = hs }))
      found
    ∙ bind_lem (from_table (del_from_hash h (pos i)))
        (λ (done : Option Text × Hash Text). put_client (record c { inotify_hash = done.1 })) back
        (none, h) back nothing

-- The removal of a directory whose path is found in bucket `i`.
rm_file_lem :
    (sys : System) (cwd path rel : Text) (c : Client) (ms : List Sent) (a : Header)
    (hs : List Header) (i : ℕ)
    → IsValid c.inotify_hash
    → find_bucket path 0 (buckets c.inotify_hash) ≡ some i
    → convert_to_relative_path (sys.getcwd cwd) cwd c.root path ≡ some rel
    → let h = (get_from_hash_by_path c.inotify_hash path).1 in
      rm_file sys cwd path true (record { client = c; sent = ms; answers = a ∷ hs })
      ≡ some (
        tt,
        record {
          client = record c { inotify_hash = h };
          sent =
              ((ms ++ (rm_watch (pos i) ∷ [])) ++ (rm c.client_id (length rel) ∷ []))
              ++ text_of rel;
          answers = hs;
        },
      )
unfolding rm_file rm_relative
rm_file_lem sys cwd path rel c ms a hs i v e relative =
    let h = (get_from_hash_by_path c.inotify_hash path).1 in
    let d : Client = record c { inotify_hash = h } in
    let before : Run = record { client = c; sent = ms; answers = a ∷ hs } in
    let unwatched : Run = record {
      client = d;
      sent = ms ++ (rm_watch (pos i) ∷ []);
      answers = a ∷ hs;
    } in
    let told = unwatched.sent ++ (rm c.client_id (length rel) ∷ []) in
    ap (λ (o : Option Text). rm_relative path true o before) relative
    ∙ then_lem (unwatch path)
        (do b ← get_client; send (rm b.client_id (length rel)); send_text rel; g ← recv; pure tt)
        before tt unwatched (unwatch_lem path c ms (a ∷ hs) i v e)
    ∙ then_lem (send_text rel) (do g ← recv; pure tt)
        (record { client = d; sent = told; answers = a ∷ hs }) tt
        (record { client = d; sent = told ++ text_of rel; answers = a ∷ hs })
        (send_text_lem rel d told (a ∷ hs))

-- Where the tables are valid: behind the deletion of a directory whose path is found in a bucket of the
-- watches, with an answer to it, the loop over the events never ends if the next event is of any watch
-- that belongs to that bucket: no fuel is enough.
pub handle_events-stuck :
    (sys : System) (cwd : Text) (fuel : ℕ) (e next : Event) (es : List Event) (c : Client)
    (ms : List Sent) (a : Header) (hs : List Header) (wd_path rel : Text) (i : ℕ)
    → IsValid c.inotify_hash
    → get_from_hash c.inotify_hash e.wd ≡ some (some wd_path)
    → e.is_create ≡ false
    → e.is_attrib ≡ false
    → e.is_delete ≡ true
    → e.is_dir ≡ true
    → convert_to_relative_path (sys.getcwd cwd) cwd c.root (wd_path ++ (b'/' ∷ e.name)) ≡ some rel
    → find_bucket (wd_path ++ (b'/' ∷ e.name)) 0 (buckets c.inotify_hash) ≡ some i
    → slot c.inotify_hash.n next.wd ≡ i
    → handle_events sys cwd fuel
        (e ∷ next ∷ es)
        (record { client = c; sent = ms; answers = a ∷ hs })
      ≡ none
unfolding handle_events
handle_events-stuck sys cwd zero e next es c ms a hs wd_path rel i v known cr at del dir relative
      found same =
    refl
handle_events-stuck sys cwd (suc fuel) e next es c ms a hs wd_path rel i v known cr at del dir
      relative found same =
    let path = wd_path ++ (b'/' ∷ e.name) in
    let h = (get_from_hash_by_path c.inotify_hash path).1 in
    let after : Run = record {
      client = record c { inotify_hash = h };
      sent = ((ms ++ (rm_watch (pos i) ∷ [])) ++ (rm c.client_id (length rel) ∷ [])) ++ text_of rel;
      answers = hs;
    } in
    let removed = rm_file_lem sys cwd path rel c ms a hs i v found relative in
    let handled : handle_event sys cwd wd_path e
          (record { client = c; sent = ms; answers = a ∷ hs })
        ≡ some (tt, after) =
      unfold handle_event in rw (cr, at, del, dir) removed in
    let (index, there, before, valid, reads, gone) =
      get_from_hash_by_path_lem c.inotify_hash path i v found in
    let lost : get_from_hash h next.wd ≡ some none = reads next.wd ∙ ground (arith, same) in
    handle_events_step sys cwd fuel e (next ∷ es)
      (record { client = c; sent = ms; answers = a ∷ hs }) after wd_path known handled
    ∙ handle_events_spin sys cwd fuel next es after lost
