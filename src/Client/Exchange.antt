-- ===== src/Client/Exchange.antt =====
-- One file between `sync_file` of MP5/src/csiebox_client.c and `sync_file` of MP5/src/csiebox_server.c.
use mathlib.Core.List.{flatten, append-nil}
use ntu_sp17fall.Base.{
  ℕ, zero, suc, ◌<◌, ◌≡◌, refl, ap, ◌∙◌, true, false, List, [], ◌∷◌, ◌++◌, Option, none, some, Text,
  if◌then◌else◌, ◌==◌, text_eq, length, take, drop, arith, append_assoc, length-drop,
  take-append-drop,
}
use ntu_sp17fall.Server.{Header, Call, send, create, write, unlink, is_dir}
use ntu_sp17fall.Client.{
  System, Client, Sent, meta, file, bytes, Run, M, ◌>>=◌, ◌>>◌, pure, recv, send_text, read_loop,
  read_pieces, send_pieces, meta_hash, sync_meta, meta_result, send_content, send_pieces_of,
  sync_file_meta, send_data,
}
use ntu_sp17fall.Client.Paths.{full_path, convert_to_relative_path}

-- The headers that the server sends back.
unfoldable pub replies : List Call → List Header
replies [] = []
replies (send fd h ∷ calls) = h ∷ replies calls
replies (_ ∷ calls) = replies calls

-- The content of the file at `path` behind the calls.
unfoldable pub file_after : Text → List Call → Option Text → Option Text
file_after path [] t = t
file_after path (create p ∷ calls) t = file_after path calls (if text_eq p path then some [] else t)
file_after path (write p more ∷ calls) t =
    file_after path calls
      (if text_eq p path then elim t [ none ↦ none | some old ↦ some (old ++ more) ] else t)
file_after path (unlink p ∷ calls) t = file_after path calls (if text_eq p path then none else t)
file_after path (_ ∷ calls) t = file_after path calls t

unfoldable pub text_of : Text → List Sent
text_of [] = []
text_of (c ∷ t) = bytes (c ∷ t) ∷ []

unfoldable pub messages : List Text → List Sent
unfolding text_of
messages [] = []
messages (p ∷ ps) = text_of p ++ messages ps

-- The bytes that the messages bring without a header.
unfoldable pub payload : List Sent → Text
payload [] = []
payload (bytes t ∷ ms) = t ++ payload ms
payload (_ ∷ ms) = payload ms

pub payload-messages : (ps : List Text) → payload (messages ps) ≡ flatten ps
unfolding payload messages flatten
payload-messages [] = refl
payload-messages ([] ∷ ps) = payload-messages ps
payload-messages ((c ∷ p) ∷ ps) = ap (λ (t : Text). (c ∷ p) ++ t) (payload-messages ps)

pub bind_lem {ℓ κ} :
    {A : Type ℓ} {B : Type κ} (m : M A) (f : A → M B) (r : Run) (a : A) (r' : Run)
    → m r ≡ some (a, r')
    → (m >>= f) r ≡ f a r'
bind_lem {A} m f r a r' e =
    ap (λ (o : Option (A × Run)). elim o [ none ↦ none | some (b, s) ↦ f b s ]) e

pub then_lem {ℓ κ} :
    {A : Type ℓ} {B : Type κ} (m : M A) (n : M B) (r : Run) (a : A) (r' : Run)
    → m r ≡ some (a, r')
    → (m >> n) r ≡ n r'
then_lem {A} m n r a r' e =
    ap (λ (o : Option (A × Run)). elim o [ none ↦ none | some (_, s) ↦ n s ]) e

pub send_text_lem :
    (t : Text) (c : Client) (ms : List Sent) (hs : List Header)
    → send_text t (record { client = c; sent = ms; answers = hs })
      ≡ some (tt, record { client = c; sent = ms ++ text_of t; answers = hs })
unfolding text_of send_text
send_text_lem [] c ms hs = rw (append-nil ms) refl
send_text_lem (x ∷ t) c ms hs = refl

send_pieces_lem :
    (ps : List Text) (c : Client) (ms : List Sent) (hs : List Header)
    → send_pieces ps (record { client = c; sent = ms; answers = hs })
      ≡ some (tt, record { client = c; sent = ms ++ messages ps; answers = hs })
unfolding send_pieces messages
send_pieces_lem [] c ms hs = rw (append-nil ms) refl
send_pieces_lem (p ∷ ps) c ms hs =
    then_lem (send_text p) (send_pieces ps) (record { client = c; sent = ms; answers = hs }) tt
      (record { client = c; sent = ms ++ text_of p; answers = hs }) (send_text_lem p c ms hs)
    ∙ send_pieces_lem ps c (ms ++ text_of p) hs
    ∙ ap (λ (l : List Sent). some (tt, record { client = c; sent = l; answers = hs }))
        (append_assoc ms (text_of p) (messages ps))

read_loop_step :
    (fuel x : ℕ) (t : Text) (ps : List Text)
    → read_loop fuel (drop 4096 (x ∷ t)) ≡ some ps
    → read_loop (suc fuel) (x ∷ t) ≡ some (take 4096 (x ∷ t) ∷ ps)
unfolding read_loop
read_loop_step fuel x t ps run = rw run refl

read_loop_lem :
    (fuel : ℕ) (t : Text)
    → length t < fuel
    → (ps : List Text) × (read_loop fuel t ≡ some ps) × (flatten ps ≡ t)
unfolding flatten
read_loop_lem zero t l = absurd (omega (arith, l))
read_loop_lem (suc fuel) [] l = ([], unfold read_loop in refl, refl)
read_loop_lem (suc fuel) (x ∷ t) l =
    let (ps, run, same) =
      read_loop_lem fuel (drop 4096 (x ∷ t)) (omega (arith, l, length-drop 4096 (x ∷ t))) in
    (
      take 4096 (x ∷ t) ∷ ps,
      read_loop_step fuel x t ps run,
      rw same (take-append-drop 4096 (x ∷ t)),
    )

pub read_pieces_lem : (t : Text) → (ps : List Text) × (read_pieces t ≡ some ps) × (flatten ps ≡ t)
unfolding read_pieces
read_pieces_lem t = read_loop_lem (suc (length t)) t (omega arith)

-- Sending a regular file: its length, and then its bytes in messages.
pub send_data_lem :
    (sys : System) (path t : Text) (ps : List Text) (c : Client) (ms : List Sent) (hs : List Header)
    → is_dir (sys.stat path).mode ≡ false
    → sys.content path ≡ some t
    → read_pieces t ≡ some ps
    → send_data sys path (record { client = c; sent = ms; answers = hs })
      ≡ some (
        tt,
        record {
          client = c;
          sent = (ms ++ (file c.client_id (length t) ∷ [])) ++ messages ps;
          answers = hs;
        },
      )
unfolding send_data
send_data_lem sys path t ps c ms hs regular there pieces =
    let what : (if is_dir (sys.stat path).mode then none else sys.content path) ≡ some t =
      rw regular there in
    ap (λ (o : Option Text). send_content o (record { client = c; sent = ms; answers = hs })) what
    ∙ ap
        (λ (o : Option (List Text)).
          send_pieces_of o
            (record { client = c; sent = ms ++ (file c.client_id (length t) ∷ []); answers = hs }))
        pieces
    ∙ send_pieces_lem ps c (ms ++ (file c.client_id (length t) ∷ [])) hs

-- The meta data, with an answer that is no failure.
pub sync_file_meta_lem :
    (sys : System) (cwd path rel : Text) (c : Client) (ms : List Sent) (h : Header)
    (hs : List Header)
    → convert_to_relative_path (sys.getcwd cwd) cwd c.root path ≡ some rel
    → (h.status == 1) ≡ false
    → sync_file_meta sys cwd path (record { client = c; sent = ms; answers = h ∷ hs })
      ≡ some (
        some h.status,
        record {
          client = c;
          sent =
              (ms
                ++ (meta c.client_id
                      (length rel)
                      (sys.stat (full_path true cwd path))
                      (meta_hash sys (full_path true cwd path))
                    ∷ []))
              ++ text_of rel;
          answers = hs;
        },
      )
unfolding sync_file_meta
sync_file_meta_lem sys cwd path rel c ms h hs e ok =
    let at = full_path true cwd path in
    let about = meta c.client_id (length rel) (sys.stat at) (meta_hash sys at) in
    let behind : Run = record {
      client = c;
      sent = (ms ++ (about ∷ [])) ++ text_of rel;
      answers = h ∷ hs;
    } in
    let result : meta_result h ≡ some h.status = rw (meta_result, ok) refl in
    ap
      (λ (o : Option Text). sync_meta sys at o (record { client = c; sent = ms; answers = h ∷ hs }))
      e
    ∙ then_lem (send_text rel) (do g ← recv; pure (meta_result g))
        (record { client = c; sent = ms ++ (about ∷ []); answers = h ∷ hs }) tt behind
        (send_text_lem rel c (ms ++ (about ∷ [])) (h ∷ hs))
    ∙ ap
        (λ (o : Option ℕ).
          some (o, record { client = c; sent = (ms ++ (about ∷ [])) ++ text_of rel; answers = hs }))
        result
