-- ===== src/Loser/Reading.antt =====
-- What the readers of `status_commit` in MP1/loser.cpp make of the texts that its writers give.
use mathlib.Core.List.{append-nil}
use ntu_sp17fall.Base.{
  ℕ, zero, suc, ◌+◌, ◌-◌, ◌*◌, ◌/◌, ◌%◌, ◌≤◌, ◌<◌, ◌≡◌, refl, ap, ◌∙◌, sym, Bool, true, false, not,
  ◌&&◌, ◌||◌, ltb, length, List, [], ◌∷◌, ◌++◌, none, some, Text, codes, ◌==◌, leb, text_eq, lacks,
  arith, append_assoc, Bool-cases, inl, inr,
}
use ntu_sp17fall.Loser.Commit.{
  after_hash, seek_hash, is_space, skip_space, read_number, after_mark, words, pairs, decimal,
  lines, table_lines, unmarked, short_words,
}
use ntu_sp17fall.Loser.Maps.{Map}

pub unmarked-append :
    (a b : Text) → unmarked a ≡ true → unmarked b ≡ true → unmarked (a ++ b) ≡ true
unfolding unmarked
unmarked-append [] b h k = k
unmarked-append (c ∷ a) b h k = ground (arith, unmarked-append a b (ground arith) k)

after_hash-none : (t : Text) → unmarked t ≡ true → after_hash t ≡ none
unfolding after_hash unmarked
after_hash-none [] h = refl
after_hash-none (c ∷ t) h =
    let rest = after_hash-none t (ground arith) in
    let other : (c == b'#' || c == 255) ≡ false = ground arith in rw (after_hash, rest, other) refl

after_hash-append : (a b : Text) → unmarked b ≡ true → after_hash (a ++ (b'#' ∷ b)) ≡ some b
unfolding after_hash
after_hash-append [] b h = rw (after_hash, after_hash-none b h) refl
after_hash-append (c ∷ a) b h = rw (after_hash, after_hash-append a b h) refl

-- The search from the end finds the last '#', where one stands behind a byte.
pub seek_hash-append :
    (a b : Text) (x : ℕ) → unmarked b ≡ true → seek_hash (a ++ (x ∷ b'#' ∷ b)) ≡ some b
unfolding seek_hash
seek_hash-append [] b x h = after_hash-append (x ∷ []) b h
seek_hash-append (c ∷ []) b x h = after_hash-append (c ∷ x ∷ []) b h
seek_hash-append (c ∷ d ∷ a) b x h =
    ap after_hash (sym (append_assoc (c ∷ d ∷ a) (x ∷ []) (b'#' ∷ b)))
    ∙ after_hash-append ((c ∷ d ∷ a) ++ (x ∷ [])) b h

-- A digit behind the digits of a value.
read_number_digit :
    (m d : ℕ) (t : Text) → d ≤ 9 → read_number m ((b'0' + d) ∷ t) ≡ read_number (10 * m + d) t
unfolding read_number
read_number_digit m d t l =
    let digit : leb b'0' (b'0' + d) && leb (b'0' + d) b'9' ≡ true = ground arith in
    let value : 10 * m + ((b'0' + d) - b'0') ≡ 10 * m + d = omega arith in
    rw (read_number, digit, value) refl

decimal_small : (fuel n : ℕ) → leb n 9 ≡ true → decimal (suc fuel) n ≡ (b'0' + n) ∷ []
unfolding decimal
decimal_small fuel n h = rw h refl

decimal_large :
    (fuel n : ℕ)
    → leb n 9 ≡ false
    → decimal (suc fuel) n ≡ decimal fuel (n / 10) ++ ((b'0' + n % 10) ∷ [])
unfolding decimal
decimal_large fuel n h = rw h refl

pub read_number-decimal :
    (fuel n : ℕ) (t : Text) → n < fuel → read_number 0 (decimal fuel n ++ t) ≡ read_number n t
read_number-decimal zero n t l = absurd (omega (arith, l))
read_number-decimal (suc fuel) n t l = elim (Bool-cases (leb n 9)) [
  | inl small ↦
      let value : 10 * 0 + n ≡ n = omega arith in
      rw (decimal_small fuel n small)
        (read_number_digit 0 n t (ground arith) ∙ ap (λ (k : ℕ). read_number k t) value)
  | inr large ↦
      let last = (b'0' + n % 10) ∷ [] in
      let less : n / 10 < fuel = ground arith in
      let value : 10 * (n / 10) + n % 10 ≡ n = omega arith in
      let digits : read_number 0 ((decimal fuel (n / 10) ++ last) ++ t)
          ≡ read_number (n / 10) (last ++ t) =
        ap (read_number 0) (append_assoc (decimal fuel (n / 10)) last t)
        ∙ read_number-decimal fuel (n / 10) (last ++ t) less in
      rw (decimal_large fuel n large) (
        digits
        ∙ read_number_digit (n / 10) (n % 10) t (omega arith)
        ∙ ap (λ (k : ℕ). read_number k t) value)
]

-- A number begins with a byte that is no space, and has neither '#' nor 255.
pub record IsNumber (t : Text) : Type 0 where
  pub first : ℕ
  pub rest : Text
  pub form : t ≡ first ∷ rest
  pub solid : is_space first ≡ false
  pub plain : unmarked t ≡ true

pub decimal-IsNumber : (fuel n : ℕ) → n < fuel → IsNumber (decimal fuel n)
unfolding unmarked
decimal-IsNumber zero n l = absurd (omega (arith, l))
decimal-IsNumber (suc fuel) n l = elim (Bool-cases (leb n 9)) [
  | inl small ↦
      let plain : not ((b'0' + n) == b'#' || (b'0' + n) == 255) && true ≡ true = ground arith in
      record {
        first = b'0' + n;
        rest = [];
        form = decimal_small fuel n small;
        solid = ground arith;
        plain = rw (decimal_small fuel n small) plain;
      }
  | inr large ↦
      let high = decimal-IsNumber fuel (n / 10) (ground arith) in
      let last = (b'0' + n % 10) ∷ [] in
      let plain : unmarked last ≡ true = ground arith in
      record {
        first = high.first;
        rest = high.rest ++ last;
        form = rw (decimal_large fuel n large) (ap (λ (l : Text). l ++ last) high.form);
        solid = high.solid;
        plain =
            rw (decimal_large fuel n large)
              (unmarked-append (decimal fuel (n / 10)) last high.plain plain);
      }
]

pub skip_space-IsNumber : (t u : Text) → IsNumber t → skip_space (t ++ u) ≡ t ++ u
unfolding skip_space
skip_space-IsNumber t u h = rw (h.form) (rw (skip_space, h.solid) refl)

-- Lines of the record, none of which is the mark in front of the table, and each of which the buffer of
-- `fgets` holds with its line feed.
unfoldable pub plain_lines : List Text → Bool
plain_lines [] = true
plain_lines (x ∷ xs) =
    (lacks 10 x && not (text_eq x (codes "(MD5)")) && ltb (length x) 1999) && plain_lines xs

after_mark-line :
    (line x t : Text)
    → lacks 10 x ≡ true
    → text_eq (line ++ x) (codes "(MD5)") ≡ false
    → after_mark line (x ++ (10 ∷ t)) ≡ after_mark [] t
unfolding after_mark lacks
after_mark-line line [] t h e =
    let other : text_eq line (codes "(MD5)") ≡ false = rw (append-nil line) at e in
    rw (after_mark, other) refl
after_mark-line line (c ∷ x) t h e =
    let inside : (c == 10) ≡ false = ground arith in
    let longer : text_eq ((line ++ (c ∷ [])) ++ x) (codes "(MD5)") ≡ false =
      rw (append_assoc line (c ∷ []) x) e in
    rw (after_mark, inside) (after_mark-line (line ++ (c ∷ [])) x t (ground arith) longer)

pub after_mark-lines :
    (xs : List Text) (t : Text)
    → plain_lines xs ≡ true
    → after_mark [] (lines xs ++ t) ≡ after_mark [] t
unfolding plain_lines lines
after_mark-lines [] t h = refl
after_mark-lines (x ∷ xs) t h =
    ap (after_mark []) (append_assoc x (10 ∷ lines xs) t)
    ∙ after_mark-line [] x (lines xs ++ t) (ground arith) (ground arith)
    ∙ after_mark-lines xs t (ground arith)

pub after_mark-found : (t : Text) → after_mark [] (codes "(MD5)\n" ++ t) ≡ t
unfolding after_mark text_eq
after_mark-found t = refl

-- A word that `%s` reads whole.
unfoldable pub no_space : Text → Bool
no_space [] = true
no_space (c ∷ t) = not (is_space c) && no_space t

unfoldable pub plain_word : Text → Bool
plain_word [] = false
plain_word (c ∷ t) = no_space (c ∷ t)

unfoldable pub plain_table : Map → Bool
plain_table [] = true
plain_table ((name, sum) ∷ m) =
    (plain_word name && plain_word sum)
    && (ltb (length name) 256 && ltb (length sum) 256)
    && plain_table m

words-append : (w x t : Text) → no_space x ≡ true → words w (x ++ t) ≡ words (w ++ x) t
unfolding words no_space
words-append w [] t h = ap (λ (v : Text). words v t) (sym (append-nil w))
words-append w (c ∷ x) t h =
    let solid : is_space c ≡ false = ground arith in
    rw (words, solid)
      (words-append (w ++ (c ∷ [])) x t (ground arith)
        ∙ ap (λ (v : Text). words v t) (append_assoc w (c ∷ []) x))

words-space :
    (c d : ℕ) (ds t : Text) → is_space c ≡ true → words (d ∷ ds) (c ∷ t) ≡ (d ∷ ds) ∷ words [] t
unfolding words
words-space c d ds t h = rw (words, h) refl

words_word :
    (c : ℕ) (x t : Text)
    → is_space c ≡ true
    → plain_word x ≡ true
    → words [] (x ++ (c ∷ t)) ≡ x ∷ words [] t
unfolding plain_word
words_word c [] t s h = absurd (ground arith)
words_word c (d ∷ x) t s h = words-append [] (d ∷ x) (c ∷ t) h ∙ words-space c d x t s

words-table_lines :
    (name sum : Text) (m : Map)
    → plain_word name ≡ true
    → plain_word sum ≡ true
    → words [] (table_lines ((name, sum) ∷ m)) ≡ name ∷ sum ∷ words [] (table_lines m)
unfolding table_lines
words-table_lines name sum m h k =
    ap (words []) (append_assoc name (32 ∷ sum) (10 ∷ table_lines m))
    ∙ words_word 32 name (sum ++ (10 ∷ table_lines m)) refl h
    ∙ ap (λ (l : List Text). name ∷ l) (words_word 10 sum (table_lines m) refl k)

-- The table is read back, and each word has room.
pub pairs-words : (m : Map) → plain_table m ≡ true → pairs (words [] (table_lines m)) ≡ m
unfolding plain_table pairs
pairs-words [] h = unfold words table_lines in refl
pairs-words ((name, sum) ∷ m) h =
    ap pairs (words-table_lines name sum m (ground arith) (ground arith))
    ∙ ap (λ (l : Map). (name, sum) ∷ l) (pairs-words m (ground arith))

pub short_words-words :
    (m : Map) → plain_table m ≡ true → short_words (words [] (table_lines m)) ≡ true
unfolding plain_table short_words
short_words-words [] h = unfold words table_lines in refl
short_words-words ((name, sum) ∷ m) h =
    ap short_words (words-table_lines name sum m (ground arith) (ground arith))
    ∙ ground (arith, short_words-words m (ground arith))
