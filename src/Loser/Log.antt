-- ===== src/Loser/Log.antt =====
-- `log` of MP1/loser.cpp, which prints the last commits of a record, the newest first.
use mathlib.Core.Option
use ntu_sp17fall.Base.{
  ℕ, zero, suc, ◌≡◌, refl, ap, ◌∙◌, Bool, true, false, not, ◌&&◌, List, [], ◌∷◌, ◌++◌, Option, none,
  some, Text, if◌then◌else◌, ◌==◌, ltb, length, arith,
}
use ntu_sp17fall.Loser.Commit.{unmarked}
use ntu_sp17fall.Mirror.Protocol.{c_string}

-- The search from the end: the text before the last '#', `none` where the byte 255 stands behind it, which
-- is equal to `EOF` in a `char`, and the text behind the byte that ended the search.
unfoldable pub last_block : Text → Option (Option Text × Text)
last_block [] = none
last_block (c ∷ t) =
    let rest : Option (Option Text × Text) = last_block t in
    elim rest [
      | none ↦ if c == b'#' then some (some [], t) else if c == 255 then some (none, t) else none
      | some (a, b) ↦ some (Option.map (λ (u : Text). c ∷ u) a, b)
    ]

-- `buffer[--ptr] = '\0'` on a buffer with a byte at least.
unfoldable pub init : Text → Text
init [] = []
init (c ∷ []) = []
init (c ∷ d ∷ t) = c ∷ init (d ∷ t)

abbrev pub newline_if : Bool → Text
newline_if b = if b then 10 ∷ [] else []

-- What the round `i` prints of the text behind a '#', which `%s` ends at a null byte. Without a byte the
-- code writes before the buffer, and with more than 1,000,000 behind it: `none`.
unfoldable pub print_block : ℕ → Text → Option Text
unfolding init
print_block i [] = none
print_block i (c ∷ b) =
    if ltb 1000000 (length (c ∷ b))
    then none
    else some ((b'#' ∷ c_string (init (c ∷ b))) ++ newline_if (i == 0))

-- A round that is not the last place of the record: a line feed unless it is the last round, and the rest.
unfoldable pub and_then : ℕ → Option Text → Option Text → Option Text
and_then k none rest = none
and_then k (some line) none = none
and_then k (some line) (some u) = some (line ++ (newline_if (not (k == 0)) ++ u))

-- The rounds from `i` on, over what stands before `tag`; `back` is what stands behind it, up to the next '#'.
-- Where the search meets the byte 255, `tag` stays. So it does where a single byte stands before a '#', as
-- the step back from it fails and the '#' is read again. `none` is any other search that never ends, or a
-- fault.
unfoldable pub log_rounds : ℕ → ℕ → Text → Text → Option Text
unfolding last_block print_block and_then
log_rounds i zero back t = some []
log_rounds i (suc k) back t =
    let again : Option Text = log_rounds (suc i) k back t in
    elim (last_block t) [
      | none ↦ if length t == 1 && not (i == 0) then and_then k (print_block i back) again else none
      | some (none, b) ↦ and_then k (print_block i b) again
      | some (some [], b) ↦ print_block i b
      | some (some (d ∷ ds), b) ↦ and_then k (print_block i b) (log_rounds (suc i) k b (d ∷ ds))
    ]

-- What is printed; `saved` is the record's text, `none` if there is no record.
unfoldable pub log_text : ℕ → Option Text → Option Text
unfolding log_rounds
log_text num none = some []
log_text num (some saved) = log_rounds 0 num [] saved

-- The text of a record with these commits, the newest first.
unfoldable pub record_of : List Text → Text
record_of [] = []
record_of (b ∷ bs) = record_of bs ++ (b'#' ∷ b)

-- No commit is empty, has a '#' or the byte 255, or has more than 1,000,000 bytes.
unfoldable pub plain_commits : List Text → Bool
plain_commits [] = true
plain_commits ([] ∷ bs) = false
plain_commits ((c ∷ b) ∷ bs) =
    unmarked (c ∷ b) && not (ltb 1000000 (length (c ∷ b))) && plain_commits bs

-- At most `k` commits, each without its last byte and up to a null byte; a blank line goes between two, and
-- a line feed behind the first.
unfoldable pub shown : ℕ → ℕ → Text → List Text → Text
unfolding init
shown i zero b bs = []
shown i (suc k) b [] = (b'#' ∷ c_string (init b)) ++ newline_if (i == 0)
shown i (suc k) b (d ∷ ds) =
    ((b'#' ∷ c_string (init b)) ++ newline_if (i == 0))
    ++ (newline_if (not (k == 0)) ++ shown (suc i) k d ds)

last_block-none : (t : Text) → unmarked t ≡ true → last_block t ≡ none
unfolding last_block unmarked
last_block-none [] h = refl
last_block-none (c ∷ t) h =
    let rest = last_block-none t (ground arith) in
    let other : (c == b'#') ≡ false = ground arith in
    let inside : (c == 255) ≡ false = ground arith in rw (last_block, rest, other, inside) refl

last_block-append :
    (a b : Text) → unmarked b ≡ true → last_block (a ++ (b'#' ∷ b)) ≡ some (some a, b)
unfolding last_block
last_block-append [] b h = rw (last_block, last_block-none b h) refl
last_block-append (c ∷ a) b h = rw (last_block, last_block-append a b h) refl

print_block-plain :
    (i c : ℕ) (b : Text)
    → ltb 1000000 (length (c ∷ b)) ≡ false
    → print_block i (c ∷ b) ≡ some ((b'#' ∷ c_string (init (c ∷ b))) ++ newline_if (i == 0))
unfolding print_block
print_block-plain i c b h = rw h refl

log_rounds-last :
    (i k c : ℕ) (b back t : Text)
    → ltb 1000000 (length (c ∷ b)) ≡ false
    → last_block t ≡ some (some [], c ∷ b)
    → log_rounds i (suc k) back t ≡ some ((b'#' ∷ c_string (init (c ∷ b))) ++ newline_if (i == 0))
unfolding log_rounds
log_rounds-last i k c b back t h e = rw (log_rounds, e) (print_block-plain i c b h)

log_rounds-more :
    (i k c d : ℕ) (b back t u p ds : Text)
    → ltb 1000000 (length (c ∷ b)) ≡ false
    → last_block t ≡ some (some p, c ∷ b)
    → p ≡ d ∷ ds
    → log_rounds (suc i) k (c ∷ b) p ≡ some u
    → log_rounds i (suc k) back t
      ≡ some (
          ((b'#' ∷ c_string (init (c ∷ b))) ++ newline_if (i == 0))
          ++ (newline_if (not (k == 0)) ++ u))
unfolding log_rounds and_then
log_rounds-more i k c d b back t u p ds h e f g =
    let at : last_block t ≡ some (some (d ∷ ds), c ∷ b) =
      e ∙ ap (λ (q : Text). some (some q, c ∷ b)) f in
    let run : log_rounds (suc i) k (c ∷ b) (d ∷ ds) ≡ some u = rw f at g in
    rw (log_rounds, at, run) (rw (print_block-plain i c b h) refl)

append_form : (a b : Text) (x : ℕ) → (y : ℕ) × (ys : Text) × (a ++ (x ∷ b) ≡ y ∷ ys)
append_form [] b x = (x, b, refl)
append_form (c ∷ a) b x = (c, a ++ (x ∷ b), refl)

log_rounds-record_of :
    (i k : ℕ) (back b : Text) (bs : List Text)
    → plain_commits (b ∷ bs) ≡ true
    → log_rounds i k back (record_of (b ∷ bs)) ≡ some (shown i k b bs)
unfolding record_of plain_commits shown
log_rounds-record_of i zero back b bs h = unfold log_rounds in refl
log_rounds-record_of i (suc k) back [] bs h = absurd (ground arith)
log_rounds-record_of i (suc k) back (c ∷ b) [] h =
    log_rounds-last i k c b back (b'#' ∷ c ∷ b) (ground arith)
      (last_block-append [] (c ∷ b) (ground arith))
log_rounds-record_of i (suc k) back (c ∷ b) (d ∷ ds) h =
    let earlier = record_of (d ∷ ds) in
    let (y, ys, form) = append_form (record_of ds) d b'#' in
    log_rounds-more i k c y b back (earlier ++ (b'#' ∷ c ∷ b)) (shown (suc i) k d ds) earlier ys
      (ground arith) (last_block-append earlier (c ∷ b) (ground arith)) form
      (log_rounds-record_of (suc i) k (c ∷ b) d ds (ground arith))

-- On the record of any commits, with a commit at least, none of which is empty, has a '#' or the byte 255,
-- or has more than 1,000,000 bytes, `log` ends without a fault and prints as many of the last commits as
-- it is asked for, or all where there are not so many, the newest first, each without its last byte and
-- up to a null byte.
pub log_text-record_of :
    (num : ℕ) (b : Text) (bs : List Text)
    → plain_commits (b ∷ bs) ≡ true
    → log_text num (some (record_of (b ∷ bs))) ≡ some (shown 0 num b bs)
unfolding log_text
log_text-record_of num b bs h = log_rounds-record_of 0 num [] b bs h
