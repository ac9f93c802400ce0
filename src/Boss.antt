-- ===== src/Boss.antt =====
-- MP3/server/boss.cpp: the server that hands the search for a treasure to its miners.
-- The context of MD5 and `MD5_Update` are OpenSSL's: the type `Context` and the argument `update`.
pub mod Dump
pub mod Sound
pub mod Written
use native.Mathlib.Nat.{add-mul, one-mul, zero-mul, mul-le-mul_right, mul-div-le}
use ntu_sp17fall.Base.{
  ℕ, zero, suc, ◌+◌, ◌*◌, ◌/◌, ◌<◌, ◌≤◌, ◌≡◌, refl, Bool, true, false, ◌&&◌, List, [], ◌∷◌, ◌++◌,
  Option, none, some, Text, ltb, leb, if◌then◌else◌, ◌==◌, arith, Bool-cases, inl, inr, ◌⊎◌, ap,
  ◌∙◌, ltb→lt,
}

-- The jobs of the miners `ind`, `ind + 1`, ...: the first bytes from the start up to before the end.
unfoldable pub jobs_from : ℕ → ℕ → ℕ → List (ℕ × ℕ)
jobs_from interval ind zero = []
jobs_from interval ind (suc rounds) =
    (ind * interval, if rounds == 0 then 256 else (ind + 1) * interval)
    ∷ jobs_from interval (ind + 1) rounds

-- A division by zero is `none`.
unfoldable pub first_jobs : ℕ → Option (List (ℕ × ℕ))
unfolding jobs_from
first_jobs num_miners =
    if num_miners == 0 then none else some (jobs_from (256 / num_miners) 0 num_miners)

-- How many jobs hold a byte.
unfoldable pub holders : ℕ → List (ℕ × ℕ) → ℕ
holders b [] = 0
holders b ((start, end) ∷ jobs) = (if leb start b && ltb b end then 1 else 0) + holders b jobs

-- `server` of the source with `str`, `bytes` and `READ_FILE`; `str` is its bytes so far.
pub record Mine {ℓ} (Context : Type ℓ) : Type ℓ where
  pub treasure : ℕ
  pub context : Context
  pub str : Text
  pub read_file : Bool

-- What a miner writes: `get` with the string found and the miner's name.
pub record Find {ℓ} (Context : Type ℓ) : Type ℓ where
  pub treasure : ℕ
  pub context : Context
  pub cur : Text
  pub name : Text

module _ {ℓ} {Context : Type ℓ} (update : Context → Text → Context) where
  -- The head of a round of the loop; the result says whether jobs are to be assigned. `block` is what
  -- `fread` gives.
  unfoldable pub read_block : Mine Context → Text → Mine Context × Bool
  read_block m block = if m.read_file then (m, false) else elim block [
    | [] ↦ (record m { read_file = true }, true)
    | c ∷ cs ↦ (record m { context = update m.context (c ∷ cs); str = m.str ++ c ∷ cs }, false)
  ]

module _ {ℓ} {Context : Type ℓ} where
  -- The loop over the descriptors that can be read. The first find that is better ends it.
  unfoldable pub take_finds : Mine Context → List (Find Context) → Mine Context × Option Text
  take_finds m [] = (m, none)
  take_finds m (get ∷ gets) =
      let rest = take_finds m gets in
      if ltb m.treasure get.treasure
      then (
        record m { treasure = get.treasure; context = get.context; str = m.str ++ get.cur },
        some get.name,
      )
      else rest

  unfoldable pub no_better : ℕ → List (Find Context) → Bool
  no_better best [] = true
  no_better best (get ∷ gets) = leb get.treasure best && no_better best gets

  pub record Taken (m : Mine Context) (gets : List (Find Context)) : Type ℓ where
    pub before : List (Find Context)
    pub get : Find Context
    pub after : List (Find Context)
    pub split : gets ≡ before ++ get ∷ after
    pub late : no_better m.treasure before ≡ true
    pub better : m.treasure < get.treasure
    pub result : take_finds m gets ≡ (
      record m { treasure = get.treasure; context = get.context; str = m.str ++ get.cur },
      some get.name,
    )

  -- Either no find is better and nothing changes, or the first that is better is taken over whole: its
  -- treasure, its context and, behind the string so far, its string.
  pub take_finds_lem :
      (m : Mine Context) (gets : List (Find Context))
      → ((no_better m.treasure gets ≡ true) × (take_finds m gets ≡ (m, none))) ⊎ Taken m gets
  unfolding take_finds no_better
  take_finds_lem m [] = inl (refl, refl)
  take_finds_lem m (get ∷ gets) = elim (Bool-cases (ltb m.treasure get.treasure)) [
    | inl e ↦ inr (record {
      before = [];
      get = get;
      after = gets;
      split = refl;
      late = refl;
      better = ltb→lt m.treasure get.treasure e;
      result = rw e refl;
    })
    | inr e ↦ elim (take_finds_lem m gets) [
      | inl (old, same) ↦ inl (ground arith, rw (e, same) refl)
      | inr t ↦ inr (record {
        before = get ∷ t.before;
        get = t.get;
        after = t.after;
        split = ap (λ (l : List (Find Context)). get ∷ l) t.split;
        late = let old = t.late in ground arith;
        better = t.better;
        result = rw (e, t.result) refl;
      })
    ]
  ]

split-count :
    (start end b h : ℕ)
    → start ≤ end
    → h ≡ (if leb end b then 1 else 0)
    → (if leb start b && ltb b end then 1 else 0) + h ≡ (if leb start b then 1 else 0)
split-count start end b h s e = ground arith

next_start : (ind interval : ℕ) → (ind + 1) * interval ≡ ind * interval + interval
next_start ind interval =
    add-mul ind 1 interval ∙ ap (λ (k : ℕ). ind * interval + k) (one-mul interval)

jobs_from-holders :
    (interval ind rounds b : ℕ)
    → b < 256
    → ind * interval ≤ 256
    → (ind + suc rounds) * interval ≤ 256
    → holders b (jobs_from interval ind (suc rounds)) ≡ (if leb (ind * interval) b then 1 else 0)
unfolding holders jobs_from
jobs_from-holders interval ind zero b lt at fits = ground arith
jobs_from-holders interval ind (suc rounds) b lt at fits =
    let more : (ind + 1) + suc rounds ≡ ind + suc (suc rounds) = omega arith in
    let next = next_start ind interval in
    let le : (ind + 1) * interval ≤ (ind + suc (suc rounds)) * interval =
      mul-le-mul_right {m = ind + 1} {n = ind + suc (suc rounds)} interval (omega arith) in
    let rest = jobs_from-holders interval (ind + 1) rounds b lt (omega arith) (rw more fits) in
    let others : (suc rounds == 0) ≡ false = ground arith in
    rw others (split-count (ind * interval) ((ind + 1) * interval) b _ (omega arith) rest)

-- With any number of miners but 0, the jobs are made, and every byte is in the job of exactly one miner.
pub first_jobs_lem :
    (num_miners b : ℕ)
    → 0 < num_miners
    → b < 256
    → (jobs : List (ℕ × ℕ)) × (first_jobs num_miners ≡ some jobs) × (holders b jobs ≡ 1)
unfolding first_jobs
first_jobs_lem zero b r lt = absurd (omega arith)
first_jobs_lem (suc n) b r lt =
    let interval = 256 / suc n in
    let whole : (0 + suc n) * interval ≤ 256 =
      let e : 0 + suc n ≡ suc n = omega arith in rw e (mul-div-le 256 (suc n)) in
    let zero_start : 0 * interval ≡ 0 = zero-mul interval in
    let one = jobs_from-holders interval 0 n b lt (omega arith) whole in
    (jobs_from interval 0 (suc n), ground arith, one ∙ rw zero_start (ground arith))
