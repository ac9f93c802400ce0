-- ===== src/Config/RoundTrip.antt =====
-- The configuration of MP5: lines with a key, '=' and a value, read as `parse_arg` reads them.
use ntu_sp17fall.Base.{
  ℕ, zero, suc, ◌≤◌, ◌<◌, ◌≡◌, refl, Bool, true, false, ◌&&◌, List, [], ◌∷◌, ◌++◌, some, Text, ◌==◌,
  length, lacks, arith, length-append,
}
use ntu_sp17fall.Config.{get_delim, read_pairs, read_config}

-- A key that ends the loop at once, or holds the delimiter, cannot be read back.
unfoldable pub plain_pair : Text × Text → Bool
unfolding lacks
plain_pair ([], val) = false
plain_pair (c ∷ cs, val) = lacks b'=' (c ∷ cs) && lacks 10 val

unfoldable pub plain_pairs : List (Text × Text) → Bool
unfolding plain_pair
plain_pairs [] = true
plain_pairs (p ∷ ps) = plain_pair p && plain_pairs ps

unfoldable pub config_text : List (Text × Text) → Text
config_text [] = []
config_text ((key, val) ∷ ps) = key ++ (b'=' ∷ (val ++ (10 ∷ config_text ps)))

get_delim_end : (d : ℕ) (r : Text) → get_delim d (d ∷ r) ≡ ([], r)
unfolding get_delim
get_delim_end d [] = refl
get_delim_end d (e ∷ r) = ground arith

get_delim_step :
    (d x e : ℕ) (t a r : Text)
    → (x == d) ≡ false
    → get_delim d (e ∷ t) ≡ (a, r)
    → get_delim d (x ∷ e ∷ t) ≡ (x ∷ a, r)
unfolding get_delim
get_delim_step d x e t a r h g = rw (h, g) refl

get_delim_lem : (d : ℕ) (a r : Text) → lacks d a ≡ true → get_delim d (a ++ d ∷ r) ≡ (a, r)
unfolding lacks
get_delim_lem d [] r h = get_delim_end d r
get_delim_lem d (x ∷ []) r h = get_delim_step d x d r [] r (ground arith) (get_delim_end d r)
get_delim_lem d (x ∷ y ∷ a) r h =
    get_delim_step d x y (a ++ d ∷ r) (y ∷ a) r (ground arith)
      (get_delim_lem d (y ∷ a) r (ground arith))

read_pairs_step :
    (fuel c : ℕ) (cs val t rest : Text) (e : ℕ) (u : Text) (ps : List (Text × Text))
    → get_delim b'=' t ≡ (c ∷ cs, e ∷ u)
    → get_delim 10 (e ∷ u) ≡ (val, rest)
    → read_pairs fuel rest ≡ some ps
    → read_pairs (suc fuel) t ≡ some ((c ∷ cs, val) ∷ ps)
unfolding read_pairs
read_pairs_step fuel c cs val t rest e u ps k v r = rw (read_pairs, k, k, k, v, r, k, v) refl

read_pairs-config_text :
    (ps : List (Text × Text)) (fuel : ℕ)
    → length ps < fuel
    → plain_pairs ps ≡ true
    → read_pairs fuel (config_text ps) ≡ some ps
unfolding config_text plain_pairs
read_pairs-config_text ps zero l h = absurd (omega arith)
read_pairs-config_text [] (suc fuel) l h = unfold read_pairs get_delim in refl
read_pairs-config_text (([], val) ∷ ps) (suc fuel) l h = absurd (ground arith)
read_pairs-config_text ((c ∷ cs, []) ∷ ps) (suc fuel) l h =
    let rest = read_pairs-config_text ps fuel (omega arith) (ground arith) in
    read_pairs_step fuel c cs [] (config_text ((c ∷ cs, []) ∷ ps)) (config_text ps) 10
      (config_text ps) ps (get_delim_lem b'=' (c ∷ cs) (10 ∷ config_text ps) (ground arith))
      (get_delim_end 10 (config_text ps)) rest
read_pairs-config_text ((c ∷ cs, d ∷ ds) ∷ ps) (suc fuel) l h =
    let rest = read_pairs-config_text ps fuel (omega arith) (ground arith) in
    read_pairs_step fuel c cs (d ∷ ds) (config_text ((c ∷ cs, d ∷ ds) ∷ ps)) (config_text ps) d
      (ds ++ 10 ∷ config_text ps) ps
      (get_delim_lem b'=' (c ∷ cs) (d ∷ ds ++ 10 ∷ config_text ps) (ground arith))
      (get_delim_lem 10 (d ∷ ds) (config_text ps) (ground arith)) rest

length-config_text : (ps : List (Text × Text)) → length ps ≤ length (config_text ps)
unfolding config_text
length-config_text [] = omega arith
length-config_text ((key, val) ∷ ps) =
    rw
      (
        config_text,
        length-append key (b'=' ∷ (val ++ (10 ∷ config_text ps))),
        length-append val (10 ∷ config_text ps),
      )
      (omega (arith, length-config_text ps))

-- A file of lines with a key, '=' and a value, where no key is empty or has a '=' and no value has a
-- line feed, is read back as those pairs, without a fault.
pub read_config-config_text :
    (ps : List (Text × Text)) → plain_pairs ps ≡ true → read_config (config_text ps) ≡ some ps
unfolding read_config
read_config-config_text ps h =
    read_pairs-config_text ps (suc (length (config_text ps))) (omega (arith, length-config_text ps))
      h
