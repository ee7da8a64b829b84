-- ===== src/Flags/Laws.antt =====
-- What `ParseFlagMap` accepts, and what the map that it returns holds.
use mathlib.Core.Option.{or_else}
use notation.Base.{
  Bool-cases, inl, inr, not, ◌||◌, ◌≡◌, refl, ◌∙◌, true, false, Option, none, some, List, [], ◌∷◌,
  ◌++◌, map, All, is_empty, arith, ◌==◌, text_eq, nat_eq, contains, if◌then◌else◌, Text, ok, err,
  new,
}
use notation.Base.Strings.{cut, cut-append, cut-lacks, cut-of_lacks}
use notation.Base.Dict.{Dict, lookup, insert, lookup-insert}
use notation.Flags.{bad_pair, parse_pairs, parse_flag_map}

-- A key and a value that can be written as a flag.
pub record IsPair (kv : Text × Text) : Type 0 where
  pub key : is_empty kv.0 ≡ false
  pub val : is_empty kv.1 ≡ false
  pub lacks : contains kv.0 b'=' ≡ false

abbrev pub write_pair : Text × Text → Text
write_pair (key, val) = key ++ b'=' ∷ val

-- The flag is a key and a value.
abbrev pub IsFlag : Text → Type 0
IsFlag flag = (kv : Text × Text) × (flag ≡ write_pair kv) × IsPair kv

-- The value of the last flag for `k`, in the order of the command line.
unfoldable pub last_value : Text → List Text → Option Text
last_value k [] = none
last_value k (flag ∷ c) =
    or_else (last_value k c) (if (cut b'=' flag).0 == k then some (cut b'=' flag).1 else none)

IsFlag-parts :
    (flag : Text)
    → IsFlag flag
    → ((cut b'=' flag).2 ≡ true)
      × (is_empty (cut b'=' flag).0 ≡ false)
      × (is_empty (cut b'=' flag).1 ≡ false)
IsFlag-parts flag ((key, val), e, p) =
    rw (e, cut-of_lacks b'=' key val p.lacks) (refl, p.key, p.val)

parse_pairs-cons :
    (m m' : Dict) (flag : Text) (c : List Text) (name : Text)
    → parse_pairs m (flag ∷ c) name ≡ ok m'
    → ((cut b'=' flag).2 ≡ true)
      × (is_empty (cut b'=' flag).0 ≡ false)
      × (is_empty (cut b'=' flag).1 ≡ false)
      × (parse_pairs (insert (cut b'=' flag).0 (cut b'=' flag).1 m) c name ≡ ok m')
unfolding parse_pairs
parse_pairs-cons m m' flag c name h = ground arith

parse_pairs-ok :
    (m m' : Dict) (c : List Text) (name : Text)
    → parse_pairs m c name ≡ ok m'
    → All IsFlag c × ((k : Text) → lookup k m' ≡ or_else (last_value k c) (lookup k m))
unfolding last_value or_else
parse_pairs-ok m m' [] name h = (tt, λ k. unfold parse_pairs in ground arith)
parse_pairs-ok m m' (flag ∷ c) name h =
    let s = parse_pairs-cons m m' flag c name h in
    let rest = parse_pairs-ok (insert (cut b'=' flag).0 (cut b'=' flag).1 m) m' c name s.3 in
    (
      (
        (
          ((cut b'=' flag).0, (cut b'=' flag).1),
          cut-append b'=' flag s.0,
          record { key = s.1; val = s.2; lacks = cut-lacks b'=' flag },
        ),
        rest.0,
      ),
      λ k. rest.1 k ∙ rw lookup-insert (ground arith),
    )

-- If `ParseFlagMap` succeeds, then every flag is a key, an equals sign and a value, neither of
-- them empty, and the map gives each key the value of the last flag for it, and nothing to other
-- keys.
pub parse_flag_map-ok :
    (c : List Text) (name : Text) (m : Dict)
    → parse_flag_map c name ≡ ok m
    → All IsFlag c × ((k : Text) → lookup k m ≡ last_value k c)
unfolding parse_flag_map lookup or_else
parse_flag_map-ok c name m h =
    let r = parse_pairs-ok [] m c name h in (r.0, λ k. r.1 k ∙ ground arith)

-- The assignments of the pairs, in order.
abbrev pub assign : Dict → List (Text × Text) → Dict
assign m [] = m
assign m ((key, val) ∷ kvs) = assign (insert key val m) kvs

parse_pairs-write :
    (m : Dict) (kvs : List (Text × Text)) (name : Text)
    → All IsPair kvs
    → parse_pairs m (map write_pair kvs) name ≡ ok (assign m kvs)
unfolding parse_pairs
parse_pairs-write m [] name h = refl
parse_pairs-write m ((key, val) ∷ kvs) name (p, h) =
    rw (cut-of_lacks b'=' key val p.lacks)
      (ground (arith, p.key, p.val, parse_pairs-write (insert key val m) kvs name h))

-- Pairs of non-empty keys without an equals sign and non-empty values (which may hold equals
-- signs), written as flags, are read back as the map of these assignments.
pub parse_flag_map-write :
    (kvs : List (Text × Text)) (name : Text)
    → All IsPair kvs
    → parse_flag_map (map write_pair kvs) name ≡ ok (assign [] kvs)
unfolding parse_flag_map
parse_flag_map-write kvs name h = parse_pairs-write [] kvs name h

bad_test :
    (flag : Text)
    → ¬ IsFlag flag
    → (not (cut b'=' flag).2 || is_empty (cut b'=' flag).0 || is_empty (cut b'=' flag).1) ≡ true
bad_test flag bad =
    elim (Bool-cases
      (not (cut b'=' flag).2 || is_empty (cut b'=' flag).0 || is_empty (cut b'=' flag).1)) [
        | inl yes_bad ↦ yes_bad
        | inr fine ↦ absurd (
            bad (
              ((cut b'=' flag).0, (cut b'=' flag).1),
              cut-append b'=' flag (ground arith),
              record { key = ground arith; val = ground arith; lacks = cut-lacks b'=' flag },
            ))
      ]

parse_pairs-err :
    (m : Dict) (before : List Text) (flag : Text) (after : List Text) (name : Text)
    → ¬ IsFlag flag
    → parse_pairs m (before ++ flag ∷ after) name ≡ err (new (bad_pair name))
unfolding parse_pairs
parse_pairs-err m [] flag after name bad = rw (bad_test flag bad)
parse_pairs-err m (x ∷ before) flag after name bad =
    ground
      (arith, parse_pairs-err (insert (cut b'=' x).0 (cut b'=' x).1 m) before flag after name bad)

-- One flag that is no pair, wherever it stands, makes the whole parse fail with the error that
-- names the option.
pub parse_flag_map-err :
    (before : List Text) (flag : Text) (after : List Text) (name : Text)
    → ¬ IsFlag flag
    → parse_flag_map (before ++ flag ∷ after) name ≡ err (new (bad_pair name))
unfolding parse_flag_map
parse_flag_map-err before flag after name bad = parse_pairs-err [] before flag after name bad

parse_pairs-total :
    (m : Dict) (c : List Text) (name : Text)
    → All IsFlag c
    → (m' : Dict) × (parse_pairs m c name ≡ ok m')
unfolding parse_pairs
parse_pairs-total m [] name h = (m, refl)
parse_pairs-total m (flag ∷ c) name (f, h) =
    let parts = IsFlag-parts flag f in
    let rest = parse_pairs-total (insert (cut b'=' flag).0 (cut b'=' flag).1 m) c name h in
    (rest.0, ground (arith, parts, rest.1))

-- Flags that are all pairs are read.
pub parse_flag_map-total :
    (c : List Text) (name : Text) → All IsFlag c → (m : Dict) × (parse_flag_map c name ≡ ok m)
unfolding parse_flag_map
parse_flag_map-total c name h = parse_pairs-total [] c name h
