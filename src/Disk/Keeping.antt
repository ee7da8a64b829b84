-- ===== src/Disk/Keeping.antt =====
-- Commands that keep an entry of the disk, however they end.
use notation.Base.{
  ◌≡◌, refl, ap, ◌∙◌, Bool, true, false, Option, some, List, ◌∷◌, inl, inr, arith, Text, Result, ok,
  err,
}
use notation.Base.Errors.{Fault}
use notation.Base.Exec.{
  World, Cmd, pure, lift, act, try, print, print_all, done, branch, fail_if, Result-cases, pair_eq,
  bind-ok, bind-err, ◌>>=◌,
}
use notation.Disk.{Disk, Entry, Op, look, stat, open_file, chmod, copy_to_dir}
use notation.Disk.Copies.{mkdir_all-keeps, create-keeps, copy-keeps}
use notation.Disk.Paths.{FilePath, path_instance, paths_eq, base}

module _ (q : FilePath) (e : Entry) where
  -- The entry at `q` is there after the command too, whether it succeeds or not.
  pub record IsKeeping {A : Type 0} (m : Cmd Disk A) : Type 0 where
    pub at : (w : World Disk) → look q w.ext ≡ some e → look q (m w).1.ext ≡ some e

  -- A step, and what follows if it succeeds.
  pub bind-keeps :
      {A B : Type 0} (m : Cmd Disk A) (f : A → Cmd Disk B) (w : World Disk)
      → look q (m w).1.ext ≡ some e
      → ((a : A) → m w ≡ (ok a, (m w).1) → look q (f a (m w).1).1.ext ≡ some e)
      → look q ((m >>= f) w).1.ext ≡ some e
  bind-keeps m f w kept later = elim (Result-cases (m w).0) [
    | inl (a, good) ↦
        let run : m w ≡ (ok a, (m w).1) = pair_eq good refl in
        ap (λ (r : _ × World Disk). look q r.1.ext) (bind-ok m f w a (m w).1 run) ∙ later a run
    | inr (x, bad) ↦
        let run : m w ≡ (err x, (m w).1) = pair_eq bad refl in
        ap (λ (r : _ × World Disk). look q r.1.ext) (bind-err m f w x (m w).1 run) ∙ kept
  ]

  pub IsKeeping-bind :
      {A B : Type 0} (m : Cmd Disk A) (f : A → Cmd Disk B)
      → IsKeeping m
      → ((a : A) → IsKeeping (f a))
      → IsKeeping (m >>= f)
  IsKeeping-bind m f k l = record {
    at = λ w h. bind-keeps m f w (k.at w h) (λ a run. (l a).at (m w).1 (k.at w h));
  }

  pub IsKeeping-pure : {A : Type 0} (a : A) → IsKeeping (pure a)
  IsKeeping-pure a = record { at = λ w h. h }

  pub IsKeeping-lift : {A : Type 0} (r : Result A) → IsKeeping (lift r)
  IsKeeping-lift r = record { at = λ w h. h }

  pub IsKeeping-act :
      {A : Type 0} (f : Disk → Result A × Disk)
      → ((d : Disk) → look q d ≡ some e → look q (f d).1 ≡ some e)
      → IsKeeping (act f)
  IsKeeping-act f k = record { at = λ w h. k w.ext h }

  pub IsKeeping-branch :
      {A : Type 0} (b : Bool) (m n : Cmd Disk A)
      → IsKeeping m
      → IsKeeping n
      → IsKeeping (branch b m n)
  IsKeeping-branch true m n k l = record { at = λ w h. k.at w h }
  IsKeeping-branch false m n k l = record { at = λ w h. l.at w h }

  pub IsKeeping-try : {A : Type 0} (m : Cmd Disk A) → IsKeeping m → IsKeeping (try m)
  IsKeeping-try m k = record { at = λ w h. k.at w h }

  pub IsKeeping-fail_if : (b : Bool) (x : Fault) → IsKeeping (fail_if b x)
  IsKeeping-fail_if true x = record { at = λ w h. h }
  IsKeeping-fail_if false x = record { at = λ w h. h }

  pub IsKeeping-print : (t : Text) → IsKeeping (print t)
  IsKeeping-print t = record { at = λ w h. h }

  pub IsKeeping-print_all : (ts : List Text) → IsKeeping (print_all ts)
  IsKeeping-print_all ts = record { at = λ w h. h }

  pub IsKeeping-done : IsKeeping done
  IsKeeping-done = record { at = λ w h. h }

  pub stat-kept :
      (denied : Op → FilePath → Option Fault) (p : FilePath) (d : Disk)
      → look q d ≡ some e
      → look q (stat denied p d).1 ≡ some e
  unfolding stat
  stat-kept denied p d h = ground arith

  pub open_file-kept :
      (denied : Op → FilePath → Option Fault) (p : FilePath) (d : Disk)
      → look q d ≡ some e
      → look q (open_file denied p d).1 ≡ some e
  unfolding open_file
  open_file-kept denied p d h = ground arith

  pub chmod-kept :
      (denied : Op → FilePath → Option Fault) (p : FilePath) (d : Disk)
      → look q d ≡ some e
      → look q (chmod denied p d).1 ≡ some e
  unfolding chmod
  chmod-kept denied p d h = ground arith

pub ruleset keeping_rules = (
  IsKeeping-pure, IsKeeping-lift, IsKeeping-act, IsKeeping-branch, IsKeeping-try, IsKeeping-bind,
  IsKeeping-fail_if, IsKeeping-print, IsKeeping-print_all, IsKeeping-done, stat-kept,
  open_file-kept, chmod-kept,
)

-- `CopyToDir` keeps every entry but the one at its target.
pub copy_to_dir-IsKeeping :
    (q : FilePath) (e : Entry) (denied : Op → FilePath → Option Fault) (src dst : FilePath)
    → paths_eq q (base src ∷ dst) ≡ false
    → IsKeeping q e (copy_to_dir denied src dst)
unfolding copy_to_dir
copy_to_dir-IsKeeping q e denied src dst n =
    search (keeping_rules, mkdir_all-keeps, create-keeps, copy-keeps) depth 16
