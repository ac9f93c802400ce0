-- ===== src/Miner/Queue.antt =====
-- The queue of MP3/client/miner.cpp: what stands in it, and the rounds that bring a string to its front.
use ntu_sp17fall.Base.{
  ℕ, zero, suc, ◌+◌, ◌*◌, ◌≤◌, ◌<◌, ◌≡◌, refl, ap, ◌∙◌, sym, subst, true, false, List, [], ◌∷◌,
  ◌++◌, some, Text, arith, Bool-cases, inl, inr, ◌⊎◌, ltb, length, length-append, append_assoc,
}
use ntu_sp17fall.Miner.{
  Miner, Output, singles, children_from, max_trial, try_next, md5sum, found, found_by, after_hit,
  after_miss,
}

-- A list with `w` behind `p` others.
pub record Holds (w : Text) (p : ℕ) (q : List Text) : Type 0 where
  pub before : List Text
  pub after : List Text
  pub split : q ≡ before ++ w ∷ after
  pub place : length before ≡ p

Holds-cons : (w x : Text) (p k : ℕ) (q : List Text) → suc p ≡ k → Holds w p q → Holds w k (x ∷ q)
Holds-cons w x p k q e h = record {
  before = x ∷ h.before;
  after = h.after;
  split = ap (λ (l : List Text). x ∷ l) h.split;
  place = omega (arith, h.place, e);
}

pub Holds-append :
    (w : Text) (front q : List Text) (p k : ℕ)
    → length front + p ≡ k
    → Holds w p q
    → Holds w k (front ++ q)
Holds-append w [] q p k e h = record {
  before = h.before;
  after = h.after;
  split = h.split;
  place = omega (arith, h.place, e);
}
Holds-append w (x ∷ front) q p k e h =
    Holds-cons w x (length front + p) k (front ++ q) (omega (arith, e))
      (Holds-append w front q p (length front + p) refl h)

pub Holds-children_from :
    (out : Text) (c n i p : ℕ)
    → i + p ≡ c
    → c < i + n
    → Holds (out ++ c ∷ []) p (children_from out i n)
unfolding children_from
Holds-children_from out c zero i p lo hi = absurd (omega arith)
Holds-children_from out c (suc n) i zero lo hi =
    let same : i ≡ c = omega (arith, lo) in
    record {
      before = [];
      after = children_from out (i + 1) n;
      split = ap (λ (k : ℕ). (out ++ k ∷ []) ∷ children_from out (i + 1) n) same;
      place = refl;
    }
Holds-children_from out c (suc n) i (suc p) lo hi =
    Holds-cons (out ++ c ∷ []) (out ++ i ∷ []) p (suc p) (children_from out (i + 1) n) refl
      (Holds-children_from out c n (i + 1) p (omega (arith, lo)) (omega (arith, hi)))

pub length-children_from : (out : Text) (i n : ℕ) → length (children_from out i n) ≡ n
unfolding children_from
length-children_from out i zero = refl
length-children_from out i (suc n) = omega (arith, length-children_from out (i + 1) n)

pub singles-children_from : (i n : ℕ) → singles i n ≡ children_from [] i n
unfolding singles children_from
singles-children_from i zero = refl
singles-children_from i (suc n) =
    ap (λ (l : List Text). (i ∷ []) ∷ l) (singles-children_from (i + 1) n)

module _ {ℓ} {Context : Type ℓ} (update : Context → Text → Context) (final : Context → List ℕ) where
  -- So many rounds of `try_next`, none of which faults.
  pub data Runs : ℕ → Miner Context → Miner Context → Type ℓ where
    stay : (m : Miner Context) → Runs 0 m m
    next :
        (k : ℕ) (m m' t : Miner Context) (out : List (Output Context))
        → try_next update final m ≡ some (m', out)
        → Runs k m' t
        → Runs (suc k) m t

  pub Runs-trans :
      (k j i : ℕ) (m m' t : Miner Context) → k + j ≡ i → Runs k m m' → Runs j m' t → Runs i m t
  Runs-trans _ j i _ m' t e (stay m) r = subst (λ (l : ℕ). Runs l m t) (omega (arith, e)) r
  Runs-trans _ j i _ _ t e (next k m m' m'' out f q) r =
      subst (λ (l : ℕ). Runs l m t) (omega (arith, e))
        (next (k + j) m m' t out f (Runs-trans k j (k + j) m' m'' t refl q r))

  -- `w` is what the next round tries, from a queue of `size` strings.
  pub record IsNext (w : Text) (size : ℕ) (m : Miner Context) : Type 0 where
    pub needed : m.need_to_work ≡ true
    pub rest : List Text
    pub front : m.trial ≡ w ∷ rest
    pub count : length m.trial ≡ size

  -- After `p` rounds `w` is next, if none of them, and none before, makes a find and ends the search.
  pub record Comes (w : Text) (p size : ℕ) (m : Miner Context) : Type ℓ where
    pub last : Miner Context
    pub rounds : ℕ
    pub runs : Runs rounds m last
    pub comes : ((rounds ≡ p) × IsNext w size last) ⊎ ((rounds ≤ p) × (last.need_to_work ≡ false))

  record Stepped (m : Miner Context) (x : Text) (rest : List Text) : Type ℓ where
    last : Miner Context
    out : List (Output Context)
    run : try_next update final m ≡ some (last, out)
    queue :
        (last.need_to_work ≡ false)
        ⊎ ((last.need_to_work ≡ true) × (last.trial ≡ rest ++ children_from x 0 256))

  try_next-Stepped :
      (m : Miner Context) (x : Text) (rest : List Text)
      → m.need_to_work ≡ true
      → m.trial ≡ x ∷ rest
      → length rest ≤ max_trial
      → Stepped m x rest
  unfolding try_next md5sum
  try_next-Stepped m x rest n e room =
      let few : ltb max_trial (length rest) ≡ false = ground (arith, room) in
      elim (Bool-cases (md5sum update final x m.treasure m.context).0) [
        | inl hit ↦ record {
          last = after_hit update final m rest (update m.context x);
          out = found (found_by update final m x) ∷ [];
          run = ground arith;
          queue = inl refl;
        }
        | inr miss ↦ record {
          last = after_miss update final m (rest ++ children_from x 0 256) (update m.context x);
          out = [];
          run = ground arith;
          queue = inr (n, refl);
        }
      ]

  Comes-later :
      (w : Text) (p k size : ℕ) (m m' : Miner Context) (out : List (Output Context))
      → suc p ≡ k
      → try_next update final m ≡ some (m', out)
      → Comes w p size m'
      → Comes w k size m
  Comes-later w p k size m m' out e f c = record {
    last = c.last;
    rounds = suc c.rounds;
    runs = next c.rounds m m' c.last out f c.runs;
    comes = elim c.comes [
      | inl (same, i) ↦ inl (omega (arith, same, e), i)
      | inr (few, over) ↦ inr (omega (arith, few, e), over)
    ];
  }

  Comes-over :
      (w : Text) (p size : ℕ) (m : Miner Context) → m.need_to_work ≡ false → Comes w p size m
  Comes-over w p size m over = record {
    last = m;
    rounds = 0;
    runs = stay m;
    comes = inr (omega arith, over);
  }

  -- A string that waits in the queue comes to its front, each round in front of it putting 255 more in.
  pub Holds-Comes :
      (w : Text) (before after : List Text) (p size : ℕ) (m : Miner Context)
      → m.need_to_work ≡ true
      → m.trial ≡ before ++ w ∷ after
      → length before ≡ p
      → length m.trial + 255 * p ≡ size
      → size ≤ max_trial
      → Comes w p size m
  Holds-Comes w [] after p size m n e place grown room = record {
    last = m;
    rounds = 0;
    runs = stay m;
    comes = inl (
      place,
      record { needed = n; rest = after; front = e; count = omega (arith, place, grown) },
    );
  }
  Holds-Comes w (x ∷ before) after p size m n e place grown room =
      let rest = before ++ w ∷ after in
      let count : length m.trial ≡ suc (length rest) = ap length e in
      let s = try_next-Stepped m x rest n e (omega (arith, count, grown, room)) in
      Comes-later w (length before) p size m s.last s.out place s.run (elim s.queue [
        | inl over ↦ Comes-over w (length before) size s.last over
        | inr (n', q) ↦
            let more : length s.last.trial ≡ length rest + 256 =
              ap length q
              ∙ length-append rest (children_from x 0 256)
              ∙ ap (λ (k : ℕ). length rest + k) (length-children_from x 0 256) in
            Holds-Comes w before (after ++ children_from x 0 256) (length before) size s.last n'
              (q ∙ append_assoc before (w ∷ after) (children_from x 0 256)) refl
              (omega (arith, more, count, grown, place)) room
      ])

  -- A string that comes from a queue of `n + 255 * r` brings those that are longer by a byte.
  pub Comes-child :
      (w : Text) (c n r : ℕ) (m : Miner Context)
      → let k = n + 256 * r + c in
        c < 256
        → n + 255 * k ≤ max_trial
        → Comes w r (n + 255 * r) m
        → Comes (w ++ c ∷ []) k (n + 255 * k) m
  Comes-child w c n r m lt room come = elim come.comes [
    | inr (few, over) ↦ record {
      last = come.last;
      rounds = come.rounds;
      runs = come.runs;
      comes = inr (omega (arith, few), over);
    }
    | inl (same, i) ↦
        let k = n + 256 * r + c in
        let size = length i.rest in
        let count : suc size ≡ n + 255 * r = sym (ap length i.front) ∙ i.count in
        let s = try_next-Stepped come.last w i.rest i.needed i.front (omega (arith, count, room)) in
        let later : Comes (w ++ c ∷ []) (size + c) (n + 255 * k) s.last = elim s.queue [
          | inl over ↦ Comes-over (w ++ c ∷ []) (size + c) (n + 255 * k) s.last over
          | inr (n', q) ↦
              let h =
                Holds-append (w ++ c ∷ []) i.rest (children_from w 0 256) c (size + c) refl
                  (Holds-children_from w c 256 0 c (omega arith) (omega (arith, lt))) in
              let more : length s.last.trial ≡ size + 256 =
                ap length q
                ∙ length-append i.rest (children_from w 0 256)
                ∙ ap (λ (j : ℕ). size + j) (length-children_from w 0 256) in
              Holds-Comes (w ++ c ∷ []) h.before h.after (size + c) (n + 255 * k) s.last n'
                (q ∙ h.split) h.place (omega (arith, more, count)) room
        ] in
        let all =
          Comes-later (w ++ c ∷ []) (size + c) (suc (size + c)) (n + 255 * k) come.last s.last s.out
            refl s.run later in
        record {
          last = all.last;
          rounds = come.rounds + all.rounds;
          runs =
              Runs-trans come.rounds all.rounds (come.rounds + all.rounds) m come.last all.last refl
                come.runs all.runs;
          comes = elim all.comes [
            | inl (there, i') ↦ inl (omega (arith, same, there, count), i')
            | inr (few, over) ↦ inr (omega (arith, same, few, count), over)
          ];
        }
  ]
