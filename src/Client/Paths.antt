-- ===== src/Client/Paths.antt =====
-- `convert_to_relative_path` of MP5/src/csiebox_client.c.
use ntu_sp17fall.Base.{
  ℕ, zero, suc, ◌+◌, ◌-◌, ◌≤◌, ◌<◌, ◌≡◌, refl, ap, ◌∙◌, Bool, true, false, ◌&&◌, [], ◌∷◌, ◌++◌,
  Option, none, some, Text, if◌then◌else◌, ◌==◌, ltb, leb, length, lacks, take-nil, take, drop,
  get_or, set, arith, length-append, append_assoc, Bool-cases, inl, inr,
}

-- The path that `ret` holds first; where `getcwd` fails, `dir` is empty.
unfoldable pub full_path : Bool → Text → Text → Text
full_path works cwd [] = (if works then cwd else []) ++ (b'/' ∷ [])
full_path works cwd (c ∷ path) =
    if c == b'/' then c ∷ path else (if works then cwd else []) ++ (b'/' ∷ c ∷ path)

-- `strncmp(root, ret, strlen(root)) == 0`
unfoldable pub has_prefix : Text → Text → Bool
has_prefix [] t = true
has_prefix (c ∷ root) [] = false
has_prefix (c ∷ root) (d ∷ t) = c == d && has_prefix root t

-- The rest of the loop from `i` on, over the array `ret`. Behind its terminator 0 stands for bytes that are
-- no part of the result.
unfoldable pub shift : ℕ → ℕ → ℕ → Text → Text
shift rootlen i zero ret = ret
shift rootlen i (suc k) ret =
    shift rootlen (suc i) k (set ret i (if ltb i rootlen then get_or ret (i + rootlen) 0 else 0))

unfoldable pub c_string : Text → Text
c_string [] = []
c_string (c ∷ t) = let rest = c_string t in if c == 0 then [] else c ∷ rest

unfoldable pub convert_to_relative_path : Bool → Text → Text → Text → Option Text
unfolding full_path has_prefix shift c_string
convert_to_relative_path works cwd root path =
    let ret = full_path works cwd path in
    if has_prefix root ret then some (c_string (shift (length root) 0 (length ret) ret)) else none

-- The array that the loop leaves: each byte is read ahead of what was written.
shifted : ℕ → ℕ → Text → Text
shifted n i [] = []
shifted n i (x ∷ t) = (if ltb i n then get_or (x ∷ t) n 0 else 0) ∷ shifted n (suc i) t

get_or-append : (t u : Text) (k n : ℕ) → k ≡ length t + n → get_or (t ++ u) k 0 ≡ get_or u n 0
get_or-append [] u k n e = ap (λ (j : ℕ). get_or u j 0) (omega (arith, e))
get_or-append (x ∷ t) u zero n e = absurd (omega (arith, e))
get_or-append (x ∷ t) u (suc k) n e = get_or-append t u k n (omega (arith, e))

set-append : (t u : Text) (i x v : ℕ) → i ≡ length t → set (t ++ (x ∷ u)) i v ≡ (t ++ (v ∷ [])) ++ u
set-append [] u zero x v e = refl
set-append [] u (suc i) x v e = absurd (omega (arith, e))
set-append (y ∷ t) u zero x v e = absurd (omega (arith, e))
set-append (y ∷ t) u (suc i) x v e =
    ap (λ (l : Text). y ∷ l) (set-append t u i x v (omega (arith, e)))

shift_lem :
    (n i : ℕ) (done rest : Text)
    → i ≡ length done
    → shift n i (length rest) (done ++ rest) ≡ done ++ shifted n i rest
unfolding shift shifted
shift_lem n i done [] e = refl
shift_lem n i done (x ∷ rest) e =
    let v = if ltb i n then get_or (x ∷ rest) n 0 else 0 in
    let reads : get_or (done ++ (x ∷ rest)) (i + n) 0 ≡ get_or (x ∷ rest) n 0 =
      get_or-append done (x ∷ rest) (i + n) n (omega (arith, e)) in
    let writes = set-append done rest i x v e in
    let after =
      shift_lem n (suc i) (done ++ (v ∷ [])) rest (omega (arith, e, length-append done (v ∷ []))) in
    rw (shift, reads, writes, after) (append_assoc done (v ∷ []) (shifted n (suc i) rest))

lacks-get_or : (t : Text) (n : ℕ) → lacks 0 t ≡ true → n < length t → (get_or t n 0 == 0) ≡ false
unfolding lacks
lacks-get_or [] n h l = absurd (omega (arith, l))
lacks-get_or (x ∷ t) zero h l = ground arith
lacks-get_or (x ∷ t) (suc n) h l = lacks-get_or t n (ground arith) (omega (arith, l))

drop_beyond : (n : ℕ) (t : Text) → length t ≤ n → (drop n t ≡ []) × (get_or t n 0 ≡ 0)
drop_beyond zero [] l = (refl, refl)
drop_beyond (suc n) [] l = (refl, refl)
drop_beyond zero (x ∷ t) l = absurd (omega (arith, l))
drop_beyond (suc n) (x ∷ t) l = drop_beyond n t (omega (arith, l))

drop_within : (n x : ℕ) (t : Text) → n ≤ length t → drop n (x ∷ t) ≡ get_or (x ∷ t) n 0 ∷ drop n t
drop_within zero x t l = refl
drop_within (suc n) x [] l = absurd (omega (arith, l))
drop_within (suc n) x (y ∷ t) l = drop_within n y t (omega (arith, l))

c_string-zero : (t : Text) → c_string (0 ∷ t) ≡ []
unfolding c_string
c_string-zero t = refl

c_string_cons : (c : ℕ) (t : Text) → (c == 0) ≡ false → c_string (c ∷ t) ≡ c ∷ c_string t
unfolding c_string
c_string_cons c t h = rw h refl

c_string-shifted :
    (n i : ℕ) (t : Text) → lacks 0 t ≡ true → c_string (shifted n i t) ≡ take (n - i) (drop n t)
unfolding shifted lacks
c_string-shifted n i [] h =
    let (gone, nothing) = drop_beyond n [] (omega arith) in
    rw gone (rw (take-nil (n - i)) (unfold c_string in refl))
c_string-shifted n i (x ∷ t) h = elim (Bool-cases (ltb i n)) [
  | inr over ↦
      let none_left : n - i ≡ 0 = ground arith in
      rw (over, none_left) (c_string-zero (shifted n (suc i) t))
  | inl under ↦ elim (Bool-cases (leb n (length t))) [
    | inr beyond ↦
        let (gone, nothing) = drop_beyond n (x ∷ t) (ground arith) in
        rw (under, nothing, gone, take-nil (n - i)) (c_string-zero (shifted n (suc i) t))
    | inl within ↦
        let left : n - i ≡ suc (n - suc i) = ground arith in
        let real = lacks-get_or (x ∷ t) n h (ground arith) in
        rw (under, drop_within n x t (ground arith), left)
          (c_string_cons (get_or (x ∷ t) n 0) (shifted n (suc i) t) real
            ∙ ap (λ (l : Text). get_or (x ∷ t) n 0 ∷ l)
                (c_string-shifted n (suc i) t (ground arith)))
  ]
]

-- The loop in the array leaves as a C string the part behind the root, at most as long as the root.
pub shift-take :
    (n : ℕ) (t : Text) → lacks 0 t ≡ true → c_string (shift n 0 (length t) t) ≡ take n (drop n t)
shift-take n t h =
    let all : n - 0 ≡ n = omega arith in
    rw (shift_lem n 0 [] t refl) (rw all at (c_string-shifted n 0 t h))

has_prefix-append : (t u : Text) → has_prefix t (t ++ u) ≡ true
unfolding has_prefix
has_prefix-append [] u = refl
has_prefix-append (c ∷ t) u = ground (arith, has_prefix-append t u)

drop-append : (t u : Text) → drop (length t) (t ++ u) ≡ u
drop-append [] u = refl
drop-append (c ∷ t) u = drop-append t u

converted :
    (works : Bool) (cwd root path ret : Text)
    → full_path works cwd path ≡ ret
    → has_prefix root ret ≡ true
    → convert_to_relative_path works cwd root path
      ≡ some (c_string (shift (length root) 0 (length ret) ret))
unfolding convert_to_relative_path
converted works cwd root path ret e h = rw (convert_to_relative_path, e, h) refl

pub take_all : (t : Text) (n : ℕ) → leb (length t) n ≡ true → take n t ≡ t
take_all [] n h = take-nil n
take_all (c ∷ t) zero h = absurd (ground arith)
take_all (c ∷ t) (suc n) h = ap (λ (l : Text). c ∷ l) (take_all t n (ground arith))

-- A path whose full form is the root followed by `rel`, without null bytes, is accepted whatever the byte
-- at which the root ends, and becomes the first bytes of `rel`, at most as many as the root has: a
-- longer `rel` is cut.
pub convert_to_relative_path_lem :
    (works : Bool) (cwd root path rel : Text)
    → full_path works cwd path ≡ root ++ rel
    → lacks 0 (root ++ rel) ≡ true
    → convert_to_relative_path works cwd root path ≡ some (take (length root) rel)
convert_to_relative_path_lem works cwd root path rel e h =
    let ret = root ++ rel in
    let shifts = shift-take (length root) ret h in
    let cut : take (length root) (drop (length root) ret) ≡ take (length root) rel =
      ap (λ (t : Text). take (length root) t) (drop-append root rel) in
    converted works cwd root path ret e (has_prefix-append root rel) ∙ ap some (shifts ∙ cut)
