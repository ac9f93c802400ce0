-- ===== src/Boss/Sound.antt =====
-- The dumps of MP3/server/boss.cpp, one move at a time.
use ntu_sp17fall.Base.{
  ℕ, ◌+◌, ◌-◌, ◌≤◌, ◌≡◌, refl, ap, ◌∙◌, sym, subst, min, Bool, true, false, not, ◌&&◌, List, [],
  ◌∷◌, ◌++◌, Option, none, some, Text, if◌then◌else◌, ◌==◌, ltb, length, take, drop, ◌||◌, arith,
  length-append, take-drop, take-append_le, Bool-cases, inl, inr, Option-cases,
}
use ntu_sp17fall.Boss.Dump.{
  Dump, begins_with, new_dump, add_dump, write_some, write_open, write_dump,
}

-- The bytes up to `start` were written, and none is behind the end or the bytes that there are. `read`
-- says whether the mine's file was read whole.
pub record IsSound (read : Bool) (str : Text) (d : Dump) : Type 0 where
  pub content : d.written ≡ take d.start str
  pub before_end : d.start ≤ d.end
  pub inside : d.end ≤ length str
  pub unread : read ≡ false → d.end ≡ 0
  pub finished : d.success ≡ true → d.start ≡ d.end

abbrev pub AllSound : Bool → Text → List Dump → Type 0
AllSound read str [] = Unit {0}
AllSound read str (d ∷ ds) = IsSound read str d × AllSound read str ds

pub grown-IsSound :
    (read : Bool) (str more : Text) (d : Dump) → IsSound read str d → IsSound read (str ++ more) d
grown-IsSound read str more d v = record {
  content =
      v.content ∙ sym (take-append_le d.start str more (omega (arith, v.before_end, v.inside)));
  before_end = v.before_end;
  inside = omega (arith, v.inside, length-append str more);
  unread = v.unread;
  finished = v.finished;
}

write_some-IsSound :
    (read : Bool) (str : Text) (ret : Option ℕ) (location written : Text) (fd : Bool)
    (start end : ℕ) (success : Bool)
    → let d : Dump = record {
      location = location;
      fd = fd;
      start = start;
      end = end;
      success = success;
      written = written;
    } in
      IsSound read str d → IsSound read str (write_some str ret d)
unfolding write_some
write_some-IsSound read str none location written fd start end success v = v
write_some-IsSound read str (some ret) location written fd start end success v =
    let more = min ret (min (end - start) 1024) in
    record {
      content =
          ap (λ (t : Text). t ++ take more (drop start str)) v.content
          ∙ take-drop start more (start + more) str refl;
      before_end = omega (arith, v.before_end);
      inside = v.inside;
      unread = v.unread;
      finished = λ e. omega (arith, v.finished e);
    }

set_success-IsSound :
    (read : Bool) (str : Text) (d : Dump)
    → IsSound read str d
    → IsSound read str (record d { success = d.start == d.end })
set_success-IsSound read str d v = record {
  content = v.content;
  before_end = v.before_end;
  inside = v.inside;
  unread = v.unread;
  finished = λ e. ground (arith, e);
}

opened-IsSound :
    (read : Bool) (str : Text) (d : Dump)
    → IsSound read str d
    → IsSound read str (record d { fd = true })
opened-IsSound read str d v = record {
  content = v.content;
  before_end = v.before_end;
  inside = v.inside;
  unread = v.unread;
  finished = v.finished;
}

if-IsSound :
    (read : Bool) (str : Text) (b : Bool) (d e : Dump)
    → IsSound read str d
    → IsSound read str e
    → IsSound read str (if b then d else e)
if-IsSound read str true d e v w = v
if-IsSound read str false d e v w = w

write_open-IsSound :
    (read : Bool) (str : Text) (ret : Option ℕ) (d : Dump)
    → IsSound read str d
    → IsSound read str (write_open str ret d)
unfolding write_open
write_open-IsSound read str ret d v =
    set_success-IsSound read str (write_some str ret (record d { fd = true })) (
      write_some-IsSound read str ret d.location d.written true d.start d.end d.success
        (opened-IsSound read str d v))

pub write_dump-IsSound :
    (read : Bool) (str : Text) (opens : Bool) (ret : Option ℕ) (d : Dump)
    → IsSound read str d
    → IsSound read str (write_dump str opens ret d)
unfolding write_dump
write_dump-IsSound read str opens ret d v =
    if-IsSound read str d.success d (if d.fd || opens then write_open str ret d else d) v (
      if-IsSound read str (d.fd || opens) (write_open str ret d) d
        (write_open-IsSound read str ret d v) v)

-- The end that a `dump` sets, whose value depends on whether the file was read.
abbrev pub dump_end : Bool → Text → ℕ
dump_end read str = if read then length str else 0

new_dump-IsSound :
    (read : Bool) (str location : Text) → IsSound read str (new_dump location (dump_end read str))
new_dump-IsSound true str location = record {
  content = refl;
  before_end = omega arith;
  inside = omega arith;
  unread = λ e. absurd (ground arith);
  finished = λ e. absurd (ground arith);
}
new_dump-IsSound false str location = record {
  content = refl;
  before_end = omega arith;
  inside = omega arith;
  unread = λ e. refl;
  finished = λ e. absurd (ground arith);
}

-- Another end for a dump that is not written yet.
moved-IsSound :
    (read : Bool) (str : Text) (d : Dump)
    → d.success ≡ false
    → IsSound read str d
    → IsSound read str (record d { end = dump_end read str })
moved-IsSound true str d s v = record {
  content = v.content;
  before_end = omega (arith, v.before_end, v.inside);
  inside = omega arith;
  unread = λ e. absurd (ground arith);
  finished = λ e. absurd (ground arith);
}
moved-IsSound false str d s v = record {
  content = v.content;
  before_end = omega (arith, v.before_end, v.unread refl);
  inside = omega arith;
  unread = λ e. refl;
  finished = λ e. absurd (ground arith);
}

pub add_dump-AllSound :
    (read : Bool) (str location : Text) (i : ℕ) (ds ds' : List Dump)
    → AllSound read str ds
    → add_dump location (dump_end read str) i ds ≡ some ds'
    → AllSound read str ds'
unfolding add_dump
add_dump-AllSound read str location i [] ds' v e = elim (Bool-cases (ltb i 64)) [
  | inl room ↦
      let p : some (new_dump location (dump_end read str) ∷ []) ≡ some ds' =
        rw (add_dump, room) at e in
      let q : new_dump location (dump_end read str) ∷ [] ≡ ds' = cc in
      subst (λ (l : List Dump). AllSound read str l) q (new_dump-IsSound read str location, tt)
  | inr full ↦ let p : none ≡ some ds' = rw (add_dump, full) at e in absurd (ground arith)
]
add_dump-AllSound read str location i (d ∷ ds) ds' (v, vs) e =
    elim (Bool-cases (begins_with location d.location && not d.success)) [
      | inl here ↦
          let p : some (record d { end = dump_end read str } ∷ ds) ≡ some ds' =
            rw (add_dump, here) at e in
          let q : record d { end = dump_end read str } ∷ ds ≡ ds' = cc in
          subst (λ (l : List Dump). AllSound read str l) q
            (moved-IsSound read str d (ground arith) v, vs)
      | inr later ↦ elim (Option-cases (add_dump location (dump_end read str) (i + 1) ds)) [
        | inl f ↦ let p : none ≡ some ds' = rw (add_dump, later, f) at e in absurd (ground arith)
        | inr (es, f) ↦
            let p : some (d ∷ es) ≡ some ds' = rw (add_dump, later, f) at e in
            let q : d ∷ es ≡ ds' = cc in
            subst (λ (l : List Dump). AllSound read str l) q
              (v, add_dump-AllSound read str location (i + 1) ds es vs f)
      ]
    ]
