-- ===== src/Boss/Written.antt =====
-- The dumps of MP3/server/boss.cpp over the rounds of its loop.
use ntu_sp17fall.Base.{
  ℕ, ◌≤◌, ◌≡◌, ap, ◌∙◌, ◌⊎◌, inl, inr, Bool, true, false, List, [], ◌∷◌, ◌++◌, Option, some, Text,
  length, take, arith, Bool-cases,
}
use ntu_sp17fall.Boss.Dump.{Dump, add_dump, write_dump}
use ntu_sp17fall.Boss.Sound.{
  dump_end, IsSound, AllSound, grown-IsSound, write_dump-IsSound, add_dump-AllSound,
}

-- Whether the mine's file was read whole, the bytes so far, and the dumps, after any moves: bytes come, of the
-- file or of a find; the file ends; a command; the round of one dump.
pub data Reaches : Bool → Text → List Dump → Type 0 where
  begins : Reaches false [] []
  comes :
      (read : Bool) (str more : Text) (ds : List Dump)
      → Reaches read str ds
      → Reaches read (str ++ more) ds
  reads : (str : Text) (ds : List Dump) → Reaches false str ds → Reaches true str ds
  commands :
      (read : Bool) (str location : Text) (ds ds' : List Dump)
      → add_dump location (dump_end read str) 0 ds ≡ some ds'
      → Reaches read str ds
      → Reaches read str ds'
  writes :
      (read : Bool) (str : Text) (opens : Bool) (ret : Option ℕ) (before after : List Dump)
      (d : Dump)
      → Reaches read str (before ++ (d ∷ after))
      → Reaches read str (before ++ (write_dump str opens ret d ∷ after))

AllSound-grown :
    (read : Bool) (str more : Text) (ds : List Dump)
    → AllSound read str ds
    → AllSound read (str ++ more) ds
AllSound-grown read str more [] v = tt
AllSound-grown read str more (d ∷ ds) (v, vs) =
    (grown-IsSound read str more d v, AllSound-grown read str more ds vs)

AllSound-read : (str : Text) (ds : List Dump) → AllSound false str ds → AllSound true str ds
AllSound-read str [] v = tt
AllSound-read str (d ∷ ds) (v, vs) = (
  record {
    content = v.content;
    before_end = v.before_end;
    inside = v.inside;
    unread = λ e. absurd (ground arith);
    finished = v.finished;
  },
  AllSound-read str ds vs,
)

AllSound-at :
    (read : Bool) (str : Text) (before after : List Dump) (d : Dump)
    → AllSound read str (before ++ (d ∷ after))
    → IsSound read str d
AllSound-at read str [] after d (v, vs) = v
AllSound-at read str (e ∷ before) after d (v, vs) = AllSound-at read str before after d vs

AllSound-put :
    (read : Bool) (str : Text) (before after : List Dump) (d e : Dump)
    → AllSound read str (before ++ (d ∷ after))
    → IsSound read str e
    → AllSound read str (before ++ (e ∷ after))
AllSound-put read str [] after d e (v, vs) w = (w, vs)
AllSound-put read str (c ∷ before) after d e (v, vs) w =
    (v, AllSound-put read str before after d e vs w)

Reaches-AllSound :
    (read : Bool) (str : Text) (ds : List Dump) → Reaches read str ds → AllSound read str ds
Reaches-AllSound _ _ _ begins = tt
Reaches-AllSound _ _ _ (comes read str more ds h) =
    AllSound-grown read str more ds (Reaches-AllSound read str ds h)
Reaches-AllSound _ _ _ (reads str ds h) = AllSound-read str ds (Reaches-AllSound false str ds h)
Reaches-AllSound _ _ _ (commands read str location ds ds' e h) =
    add_dump-AllSound read str location 0 ds ds' (Reaches-AllSound read str ds h) e
Reaches-AllSound _ _ _ (writes read str opens ret before after d h) =
    let vs = Reaches-AllSound read str (before ++ (d ∷ after)) h in
    AllSound-put read str before after d (write_dump str opens ret d) vs
      (write_dump-IsSound read str opens ret d (AllSound-at read str before after d vs))

-- In every state that the boss can reach, whatever `open` and `write` answer, the bytes that `write` took
-- from a dump so far, one call after the other, are those up to its `start`, each once and in order;
-- `start` is not behind the end of the dump, and that is not behind the bytes that there are; and from a
-- dump that is marked as written all the bytes up to its end were taken.
pub Reaches-written :
    (read : Bool) (str : Text) (before after : List Dump) (d : Dump)
    → Reaches read str (before ++ (d ∷ after))
    → (d.written ≡ take d.start str)
      × (d.start ≤ d.end)
      × (d.end ≤ length str)
      × ((d.success ≡ false) ⊎ (d.written ≡ take d.end str))
Reaches-written read str before after d h =
    let v =
      AllSound-at read str before after d (Reaches-AllSound read str (before ++ (d ∷ after)) h) in
    (
      v.content,
      v.before_end,
      v.inside,
      elim (Bool-cases d.success) [
        | inl e ↦ inr (v.content ∙ ap (λ (k : ℕ). take k str) (v.finished e))
        | inr e ↦ inl e
      ],
    )
