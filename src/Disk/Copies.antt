-- ===== src/Disk/Copies.antt =====
-- `CopyToDir` of internal/osutil/file.go: what it writes, and what it keeps.
use notation.Base.{
  Bool-cases, ◌≡◌, Option-cases, inl, inr, sym, ap, subst, ◌∙◌, false, Option, none, some, [], ◌∷◌,
  arith, Text, Result, ok,
}
use notation.Base.Errors.{Fault}
use notation.Base.Exec.{World, act, act-inv, lift-inv, bind-inv, ◌>>=◌}
use notation.Disk.{
  Entry, file, directory, Disk, Op, look, stat, mkdir_all, create, chmod, copy, open_file,
  copy_to_dir,
}
use notation.Disk.Laws.{look-write}
use notation.Disk.Paths.{FilePath, path_instance, paths_eq, paths_eq_iff, base}

-- Two entries of which one is there have different paths.
pub apart :
    (q p : FilePath) (e : Entry) (d : Disk)
    → look q d ≡ some e
    → look p d ≡ none
    → paths_eq q p ≡ false
apart q p e d there gone = elim (Bool-cases (paths_eq q p)) [
  | inl same ↦ let path = ap (λ (r : FilePath). look r d) ((paths_eq_iff q p).0 same) in absurd (cc)
  | inr other ↦ other
]

module _ (q : FilePath) (e : Entry) where
  pub act-keeps :
      {A : Type 0} (f : Disk → Result A × Disk) (w : World Disk) {a : A} {w' : World Disk}
      → look q (f w.ext).1 ≡ some e
      → act f w ≡ (ok a, w')
      → look q w'.ext ≡ some e
  act-keeps f w h run = ap (λ (v : World Disk). look q v.ext) (sym (act-inv f w run).1) ∙ h

module _ (denied : Op → FilePath → Option Fault) (q : FilePath) (e : Entry) where
  stat-keeps :
      (p : FilePath) (w : World Disk) {x : Entry} {w' : World Disk}
      → look q w.ext ≡ some e
      → act (stat denied p) w ≡ (ok x, w')
      → look q w'.ext ≡ some e
  unfolding stat
  stat-keeps p w h run = ground arith

  open-keeps :
      (p : FilePath) (w : World Disk) {x : Unit {0}} {w' : World Disk}
      → look q w.ext ≡ some e
      → act (open_file denied p) w ≡ (ok x, w')
      → look q w'.ext ≡ some e
  unfolding open_file
  open-keeps p w h run = ground arith

  chmod-keeps :
      (p : FilePath) (w : World Disk) {x : Unit {0}} {w' : World Disk}
      → look q w.ext ≡ some e
      → act (chmod denied p) w ≡ (ok x, w')
      → look q w'.ext ≡ some e
  unfolding chmod
  chmod-keeps p w h run = ground arith

  pub mkdir_all-keeps :
      (p : FilePath) (d : Disk) → look q d ≡ some e → look q (mkdir_all denied p d).1 ≡ some e
  unfolding mkdir_all
  mkdir_all-keeps [] d h = h
  mkdir_all-keeps (c ∷ p) d h = ground (
    arith,
    mkdir_all-keeps p d h,
    paths_eq_iff q (c ∷ p),
    look-write q (c ∷ p) directory (mkdir_all denied p d).1,
  )

  pub create-keeps :
      (p : FilePath) (d : Disk)
      → paths_eq q p ≡ false
      → look q d ≡ some e
      → look q (create denied p d).1 ≡ some e
  unfolding create
  create-keeps p d n h = ground (arith, look-write q p (file []) d)

  pub copy-keeps :
      (src p : FilePath) (d : Disk)
      → paths_eq q p ≡ false
      → look q d ≡ some e
      → look q (copy denied src p d).1 ≡ some e
  unfolding copy
  copy-keeps src p d n h = elim (Option-cases (look src d)) [
    | inl gone ↦ ground arith
    | inr (file t, there) ↦ ground (arith, look-write q p (file t) d)
    | inr (directory, there) ↦ ground arith
  ]

  opened :
      (p : FilePath) (w v u : World Disk) {x y : Unit {0}}
      → act (create denied p) w ≡ (ok x, v)
      → act (chmod denied p) v ≡ (ok y, u)
      → look p u.ext ≡ some (file [])
  unfolding create chmod
  opened p w v u made changed = ground (arith, look-write p p (file []) w.ext, paths_eq_iff p p)

  -- An entry that is there when `CopyToDir` comes to its io.Copy.
  record IsAtCopy (src dst : FilePath) (x : Unit {0}) (w' : World Disk) : Type 0 where
    at : World Disk
    kept : look q at.ext ≡ some e
    target : look (base src ∷ dst) at.ext ≡ some (file [])
    copies : act (copy denied src (base src ∷ dst)) at ≡ (ok x, w')

  -- Until then `CopyToDir` keeps every entry but the one at its target.
  copy_to_dir-IsAtCopy :
      (src dst : FilePath) (w w' : World Disk) {x : Unit {0}}
      → paths_eq q (base src ∷ dst) ≡ false
      → look q w.ext ≡ some e
      → copy_to_dir denied src dst w ≡ (ok x, w')
      → IsAtCopy src dst x w'
  unfolding copy_to_dir
  copy_to_dir-IsAtCopy src dst w w' n h run =
      let r1 = bind-inv _ _ w run in
      let r2 = bind-inv _ _ r1.mid r1.second in
      let r3 = bind-inv _ _ r2.mid r2.second in
      let r4 = bind-inv _ _ r3.mid r3.second in
      let r5 = bind-inv _ _ r4.mid r4.second in
      let r6 = bind-inv _ _ r5.mid r5.second in
      let target = base src ∷ dst in
      let h1 = stat-keeps src w h r1.first in
      let h2 =
        subst (λ (v : World Disk). look q v.ext ≡ some e) (lift-inv _ r1.mid r2.first).1 h1 in
      let h3 = open-keeps src r2.mid h2 r3.first in
      let h4 =
        act-keeps q e (mkdir_all denied dst) r3.mid (mkdir_all-keeps dst r3.mid.ext h3) r4.first in
      let h5 =
        act-keeps q e (create denied target) r4.mid (create-keeps target r4.mid.ext n h4)
          r5.first in
      let h6 = chmod-keeps target r5.mid h5 r6.first in
      record {
        at = r6.mid;
        kept = h6;
        target = opened target r4.mid r5.mid r6.mid r5.first r6.first;
        copies = r6.second;
      }

  pub copy_to_dir-keeps :
      (src dst : FilePath) (w w' : World Disk) {x : Unit {0}}
      → paths_eq q (base src ∷ dst) ≡ false
      → look q w.ext ≡ some e
      → copy_to_dir denied src dst w ≡ (ok x, w')
      → look q w'.ext ≡ some e
  copy_to_dir-keeps src dst w w' n h run =
      let r = copy_to_dir-IsAtCopy src dst w w' n h run in
      act-keeps q e (copy denied src (base src ∷ dst)) r.at
        (copy-keeps src (base src ∷ dst) r.at.ext n r.kept) r.copies

-- The source of a copy is a file, and the target holds the same bytes.
module _ (denied : Op → FilePath → Option Fault) where
  source_inv :
      (src dst : FilePath) (w w' : World Disk) {x : Unit {0}}
      → copy_to_dir denied src dst w ≡ (ok x, w')
      → (t : Text) × (look src w.ext ≡ some (file t))
  unfolding copy_to_dir ◌>>=◌ stat
  source_inv src dst w w' run = elim (Option-cases (look src w.ext)) [
    | inl gone ↦ absurd (ground arith)
    | inr (file t, there) ↦ (t, there)
    | inr (directory, there) ↦ absurd (ground arith)
  ]

  copied :
      (src p : FilePath) (t : Text) (w : World Disk) {x : Unit {0}} {w' : World Disk}
      → look src w.ext ≡ some (file t)
      → look p w.ext ≡ some (file [])
      → act (copy denied src p) w ≡ (ok x, w')
      → look p w'.ext ≡ some (file t)
  unfolding copy
  copied src p t w there target run =
      ground (arith, look-write p p (file t) w.ext, paths_eq_iff p p)

  pub copy_to_dir-look :
      (src dst : FilePath) (w w' : World Disk) {x : Unit {0}}
      → look (base src ∷ dst) w.ext ≡ none
      → copy_to_dir denied src dst w ≡ (ok x, w')
      → look (base src ∷ dst) w'.ext ≡ look src w.ext
  copy_to_dir-look src dst w w' fresh run =
      let (t, there) = source_inv src dst w w' run in
      let n = apart src (base src ∷ dst) (file t) w.ext there fresh in
      let r = copy_to_dir-IsAtCopy denied src (file t) src dst w w' n there run in
      copied src (base src ∷ dst) t r.at r.kept r.target r.copies ∙ sym there
