-- ===== src/Client/Calls.antt =====
-- What the calls of `sync_file` in MP5/src/csiebox_server.c answer, and what they leave in a file.
use mathlib.Core.List.{flatten, append-nil}
use ntu_sp17fall.Base.{
  ◌≡◌, refl, ap, ◌∙◌, ◌&&◌, List, [], ◌∷◌, ◌++◌, Option, none, some, Text, if◌then◌else◌, ◌==◌,
  text_eq, text_eq_refl, append_assoc, map, inl, inr, Bool-cases,
}
use ntu_sp17fall.Server.{
  Header, Stat, Call, send, create, write, unlink, chmod, utime, mkdir, rmdir, close, touch,
}
use ntu_sp17fall.Client.Exchange.{replies, file_after}

pub replies-append : (xs ys : List Call) → replies (xs ++ ys) ≡ replies xs ++ replies ys
unfolding replies
replies-append [] ys = refl
replies-append (send fd h ∷ xs) ys = ap (λ (l : List Header). h ∷ l) (replies-append xs ys)
replies-append (close fd ∷ xs) ys = replies-append xs ys
replies-append (mkdir p ∷ xs) ys = replies-append xs ys
replies-append (rmdir p ∷ xs) ys = replies-append xs ys
replies-append (unlink p ∷ xs) ys = replies-append xs ys
replies-append (create p ∷ xs) ys = replies-append xs ys
replies-append (chmod p m ∷ xs) ys = replies-append xs ys
replies-append (utime p a m ∷ xs) ys = replies-append xs ys
replies-append (write p t ∷ xs) ys = replies-append xs ys

pub file_after-append :
    (p : Text) (xs ys : List Call) (t : Option Text)
    → file_after p (xs ++ ys) t ≡ file_after p ys (file_after p xs t)
unfolding file_after
file_after-append p [] ys t = refl
file_after-append p (send fd h ∷ xs) ys t = file_after-append p xs ys t
file_after-append p (close fd ∷ xs) ys t = file_after-append p xs ys t
file_after-append p (mkdir q ∷ xs) ys t = file_after-append p xs ys t
file_after-append p (rmdir q ∷ xs) ys t = file_after-append p xs ys t
file_after-append p (unlink q ∷ xs) ys t =
    file_after-append p xs ys (if text_eq q p then none else t)
file_after-append p (create q ∷ xs) ys t =
    file_after-append p xs ys (if text_eq q p then some [] else t)
file_after-append p (chmod q m ∷ xs) ys t = file_after-append p xs ys t
file_after-append p (utime q a m ∷ xs) ys t = file_after-append p xs ys t
file_after-append p (write q more ∷ xs) ys t =
    file_after-append p xs ys
      (if text_eq q p then elim t [ none ↦ none | some old ↦ some (old ++ more) ] else t)

-- Calls that answer nothing and leave the file's content.
pub record IsQuiet (p : Text) (calls : List Call) : Type 0 where
  pub silent : replies calls ≡ []
  pub keeps : (t : Option Text) → file_after p calls t ≡ t

pub touch-IsQuiet : (p : Text) (s m : Stat) → IsQuiet p (touch p s m)
unfolding touch replies file_after
touch-IsQuiet p s m = elim (Bool-cases (s.mode == m.mode)) [
  | inl e ↦ elim (Bool-cases (s.atime == m.atime && s.mtime == m.mtime)) [
    | inl f ↦ record { silent = rw (e, f) refl; keeps = λ t. rw (e, f) refl }
    | inr f ↦ record { silent = rw (e, f) refl; keeps = λ t. rw (e, f) refl }
  ]
  | inr e ↦ elim (Bool-cases (s.atime == m.atime && s.mtime == m.mtime)) [
    | inl f ↦ record { silent = rw (e, f) refl; keeps = λ t. rw (e, f) refl }
    | inr f ↦ record { silent = rw (e, f) refl; keeps = λ t. rw (e, f) refl }
  ]
]

pub replies-writes : (p : Text) (ps : List Text) → replies (map (write p) ps) ≡ []
unfolding replies
replies-writes p [] = refl
replies-writes p (t ∷ ps) = replies-writes p ps

pub file_after-writes :
    (p old : Text) (ps : List Text)
    → file_after p (map (write p) ps) (some old) ≡ some (old ++ flatten ps)
unfolding file_after flatten
file_after-writes p old [] = rw (append-nil old) refl
file_after-writes p old (t ∷ ps) =
    rw (file_after, text_eq_refl p)
      (file_after-writes p (old ++ t) ps ∙ ap some (append_assoc old t (flatten ps)))
