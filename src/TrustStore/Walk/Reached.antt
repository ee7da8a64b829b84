-- ===== src/TrustStore/Walk/Reached.antt =====
-- What a successful walk prints of the files that can be reached.
use mathlib.Core.List.{append_assoc}
use mathlib.Core.List.{Memᴰ}
use notation.Base.{
  ◌≡◌, sym, ap, subst, ◌∙◌, ℕ, zero, suc, ◌+◌, ◌≤◌, true, some, List, [], ◌∷◌, ◌++◌, length, arith,
  Text, Result, ok,
}
use notation.Base.Exec.{Cmd, World, act, done, bind-inv, ◌>>=◌, branch-true}
use notation.Disk.{Entry, file, directory, Disk, look}
use notation.Disk.Paths.{FilePath, path_instance, is_below, is_below-cons}
use notation.TrustStore.{TrustLib, Certificate}
use notation.TrustStore.Walk.{read_dir, visit, walk, for_each, print_if_certs, children}
use notation.TrustStore.Walk.Children.{children-look}
use notation.TrustStore.Walk.Laws.{
  IsCertified, IsListed, IsListing, IsListing-walk, IsListing-for_each, path_lines,
}

-- A file that can be reached downwards from a directory.
pub data Holds (d : Disk) : FilePath → FilePath → Type 0 where
  here : (p : FilePath) (c : Text) (t : Text) → look (c ∷ p) d ≡ some (file t) → Holds d p (c ∷ p)
  deeper :
      (p : FilePath) (c : Text) {target : FilePath}
      → look (c ∷ p) d ≡ some directory
      → Holds d (c ∷ p) target
      → Holds d p target

longer : {d : Disk} {p q : FilePath} → Holds d p q → suc (length p) ≤ length q
longer (here p c t h) = ground arith
longer (deeper p c h k) = let l = longer k in ground arith

-- A line is among those on stdout.
pub record IsPrinted (line : Text) (stdout : List Text) : Type 0 where
  pub before : List Text
  pub after : List Text
  pub split : stdout ≡ before ++ line ∷ after

more : (line : Text) (s t u : List Text) → t ≡ s ++ u → IsPrinted line s → IsPrinted line t
more line s t u e i = record {
  before = i.before;
  after = i.after ++ u;
  split = e ∙ ap (λ x. x ++ u) i.split ∙ append_assoc i.before (line ∷ i.after) u;
}

-- The run of a loop's body on one of the items, and what the loop prints afterwards.
record IsRunOf (d : Disk) {A : Type 0} (f : A → Cmd Disk (Unit {0})) (a : A) (w' : World Disk)
    : Type 0 where
  v : World Disk
  v' : World Disk
  same : v.ext ≡ d
  runs : f a v ≡ (ok tt, v')
  rest : List Text
  goes_on : w'.stdout ≡ v'.stdout ++ rest

module _ (show_path : FilePath → Text) (d : Disk) (Good : FilePath → Type 0) {A : Type 0}
    (f : A → Cmd Disk (Unit {0})) (lists : (a : A) → IsListing show_path d Good (f a)) where
  for_each-at :
      (a : A) (items : List A) (w w' : World Disk) {x : Unit {0}}
      → Memᴰ a items
      → w.ext ≡ d
      → for_each f items w ≡ (ok x, w')
      → IsRunOf d f a w'
  unfolding for_each
  for_each-at a [] w w' m e h = elim m [ ]
  for_each-at a (b ∷ items) w w' (Memᴰ.head i) e h =
      let r = bind-inv (f b) (λ _. for_each f items) w h in
      let l = (lists b).at w e in
      let same : r.mid.ext ≡ d = ap (λ (p : _ × World Disk). p.1.ext) (sym r.first) ∙ l.3 in
      let l' = (IsListing-for_each show_path d Good f items lists).at r.mid same in
      record {
        v = w;
        v' = r.mid;
        same = e;
        runs = ap (λ (y : A). f y w) i ∙ r.first;
        rest = path_lines show_path l'.0;
        goes_on = sym (ap (λ (p : _ × World Disk). p.1.stdout) r.second) ∙ l'.2;
      }
  for_each-at a (b ∷ items) w w' (Memᴰ.tail m) e h =
      let r = bind-inv (f b) (λ _. for_each f items) w h in
      let l = (lists b).at w e in
      let same : r.mid.ext ≡ d = ap (λ (p : _ × World Disk). p.1.ext) (sym r.first) ∙ l.3 in
      for_each-at a items r.mid w' m same r.second

module _ (lib : TrustLib) (show_path : FilePath → Text) (root : FilePath) (max_depth : ℕ)
    (d : Disk) where
  abbrev Listed : FilePath → Type 0
  Listed = IsListed lib d root max_depth

  -- A walk over a file prints it.
  file-printed :
      (fuel : ℕ) (path : FilePath) (t : Text) (v v' : World Disk) {x : Unit {0}}
      → IsCertified lib d path
      → 1 ≤ fuel
      → v.ext ≡ d
      → walk lib show_path fuel max_depth path (file t) v ≡ (ok x, v')
      → IsPrinted (show_path path ++ 10 ∷ []) v'.stdout
  unfolding walk visit print_if_certs ◌>>=◌
  file-printed zero path t v v' c f e h = absurd (omega arith)
  file-printed (suc fuel) path t v v' (c, cs, certs) f e h =
      let read : lib.read_certificate_file path v.ext ≡ ok (c ∷ cs) =
        ap (lib.read_certificate_file path) e ∙ certs in
      let r = bind-inv (visit lib show_path max_depth path (file t)) (λ _. done) v h in
      let run =
        ap (λ (certs : Result (List Certificate)). print_if_certs lib show_path path certs v)
          (sym read)
        ∙ r.first in
      record {
        before = v.stdout;
        after = [];
        split =
            sym (ap (λ (p : _ × World Disk). p.1.stdout) r.second)
            ∙ sym (ap (λ (p : _ × World Disk). p.1.stdout) run);
      }

  read_dir_inv :
      (path : FilePath) (w : World Disk) {entries : List (Text × Entry)} {w' : World Disk}
      → act (read_dir lib show_path path) w ≡ (ok entries, w')
      → (children path w.ext ≡ entries) × (w'.ext ≡ w.ext)
  unfolding read_dir
  read_dir_inv path w h = (ground arith, ground arith)

  -- The entries that a walk has got, and what it did with them.
  record IsWalked (fuel : ℕ) (path : FilePath) (w' : World Disk) : Type 0 where
    entries : List (Text × Entry)
    mid : World Disk
    same : mid.ext ≡ d
    got : children path d ≡ entries
    walked :
        for_each
          (λ (child : Text × Entry). walk lib show_path fuel max_depth (child.0 ∷ path) child.1)
          entries
          mid
        ≡ (ok tt, w')

  walk_inv :
      (fuel : ℕ) (path : FilePath) (w w' : World Disk) {x : Unit {0}}
      → length path ≤ max_depth
      → w.ext ≡ d
      → walk lib show_path (suc fuel) max_depth path directory w ≡ (ok x, w')
      → IsWalked fuel path w'
  unfolding walk visit
  walk_inv fuel path w w' s e h =
      let below = λ (entries : List (Text × Entry)).
        for_each
          (λ (child : Text × Entry). walk lib show_path fuel max_depth (child.0 ∷ path) child.1)
          entries in
      let r1 = bind-inv _ _ w h in
      let go : r1.value ≡ true = let seen = ap (λ p. p.0) r1.first in ground arith in
      let stay : r1.mid.ext ≡ w.ext = sym (ap (λ (p : _ × World Disk). p.1.ext) r1.first) in
      let r2 = bind-inv (act (read_dir lib show_path path)) below r1.mid (
        sym (branch-true (act (read_dir lib show_path path) >>= below) done r1.mid r1.value go)
        ∙ r1.second) in
      let c = read_dir_inv path r1.mid r2.first in
      record {
        entries = r2.value;
        mid = r2.mid;
        same = c.1 ∙ stay ∙ e;
        got = ap (children path) (sym (stay ∙ e)) ∙ c.0;
        walked = r2.second;
      }

  -- What a successful walk over a directory did with one of its entries.
  child_run :
      (fuel : ℕ) (path : FilePath) (name : Text) (e : Entry) (w w' : World Disk) {x : Unit {0}}
      → look (name ∷ path) d ≡ some e
      → length path ≤ max_depth
      → is_below root path ≡ true
      → w.ext ≡ d
      → walk lib show_path (suc fuel) max_depth path directory w ≡ (ok x, w')
      → IsRunOf d
          (λ (child : Text × Entry). walk lib show_path fuel max_depth (child.0 ∷ path) child.1)
          (name, e)
          w'
  child_run fuel path name e w w' there l b same h =
      let walked = walk_inv fuel path w w' l same h in
      for_each-at show_path d Listed
        (λ (child : Text × Entry). walk lib show_path fuel max_depth (child.0 ∷ path) child.1)
        (λ child.
          IsListing-walk lib show_path root max_depth d fuel (child.0 ∷ path) child.1
            (is_below-cons root child.0 path b) (ground arith))
        (name, e) walked.entries walked.mid w'
        (subst (λ es. Memᴰ (name, e) es) walked.got (children-look name path d e there)) walked.same
        walked.walked

  pub reached :
      (fuel : ℕ) (path target : FilePath) (w w' : World Disk) {x : Unit {0}}
      → Holds d path target
      → IsCertified lib d target
      → length target ≤ suc max_depth
      → is_below root path ≡ true
      → max_depth + 2 ≤ fuel + length path
      → w.ext ≡ d
      → walk lib show_path fuel max_depth path directory w ≡ (ok x, w')
      → IsPrinted (show_path target ++ 10 ∷ []) w'.stdout
  reached zero path target w w' there c s b f e h = let l = longer there in absurd (omega arith)
  reached (suc fuel) path target w w' (here _ name t found) c s b f e h =
      let run = child_run fuel path name (file t) w w' found (ground arith) b e h in
      more (show_path target ++ 10 ∷ []) run.v'.stdout w'.stdout run.rest run.goes_on
        (file-printed fuel (name ∷ path) t run.v run.v' c (omega arith) run.same run.runs)
  reached (suc fuel) path target w w' (deeper _ name found further) c s b f e h =
      let l = longer further in
      let run = child_run fuel path name directory w w' found (ground arith) b e h in
      more (show_path target ++ 10 ∷ []) run.v'.stdout w'.stdout run.rest run.goes_on (
        reached fuel (name ∷ path) target run.v run.v' further c s (is_below-cons root name path b)
          (ground arith) run.same run.runs)
