-- ===== src/Disk.antt =====
-- The file system as package os shows it, and internal/osutil/file.go on top of it.
-- A path holds the components of a cleaned absolute path, the last one first.
pub mod Paths
pub mod Laws
pub mod Copies
pub mod Files
pub mod Keeping
use notation.Base.{
  Bool, true, false, not, ◌&&◌, ◌||◌, Option, none, some, List, [], ◌∷◌, ◌==◌, text_eq,
  if◌then◌else◌, Text, codes, Result, ok, err, new,
}
use notation.Base.Errors.{Fault, not_exist}
use notation.Base.Exec.{Cmd, pure, lift, act, ◌>>=◌, ◌>>◌}
use notation.Disk.Paths.{FilePath, path_instance, is_below, base, dir}

pub data Entry : Type 0 where
  file : Text → Entry
  directory : Entry

abbrev pub Disk : Type 0
Disk = List (FilePath × Entry)

unfoldable pub look : FilePath → Disk → Option Entry
look p [] = none
look p ((q, e) ∷ d) = if p == q then some e else look p d

unfoldable pub write : FilePath → Entry → Disk → Disk
write p e [] = (p, e) ∷ []
write p e ((q, f) ∷ d) = if p == q then (p, e) ∷ d else (q, f) ∷ write p e d

-- Without the entries for which the test holds.
unfoldable pub without : (FilePath → Bool) → Disk → Disk
without gone [] = []
without gone ((q, e) ∷ d) = let rest = without gone d in if gone q then rest else (q, e) ∷ rest

-- The calls that the system may refuse for reasons of its own, such as permissions.
pub data Op : Type 0 where
  stat_op open_op read_op mkdir_op create_op write_op chmod_op copy_op remove_op : Op

-- The root is always there.
unfoldable pub is_dir : FilePath → Disk → Bool
is_dir [] d = true
is_dir (c ∷ p) d = elim (look (c ∷ p) d) [
  | some directory ↦ true
  | some (file t) ↦ false
  | none ↦ false
]

unfoldable pub missing : Fault
missing = not_exist (codes "no such file or directory")

-- Whether an entry lies below.
unfoldable pub has_child : FilePath → Disk → Bool
has_child p [] = false
has_child p ((q, e) ∷ d) = is_below p q && not (q == p) || has_child p d

-- What the write to an open file does: to one that is still there.
unfoldable pub put : FilePath → Text → Disk → Disk
put p t d = elim (look p d) [ some (file old) ↦ write p (file t) d | some directory ↦ d | none ↦ d ]

-- `denied` is what the system refuses.
module _ (denied : Op → FilePath → Option Fault) where
  abbrev pub allow : {A : Type 0} → Op → FilePath → Result A × Disk → Disk → Result A × Disk
  allow op p r d = elim (denied op p) [ some e ↦ (err e, d) | none ↦ r ]

  -- os.Stat
  unfoldable pub stat : FilePath → Disk → Result Entry × Disk
  unfolding missing
  stat p d = allow stat_op p (elim (look p d) [ some e ↦ (ok e, d) | none ↦ (err missing, d) ]) d

  -- os.MkdirAll, from the root down
  unfoldable pub mkdir_all : FilePath → Disk → Result (Unit {0}) × Disk
  mkdir_all [] d = (ok tt, d)
  mkdir_all (c ∷ p) d =
      let (r, d') = mkdir_all p d in
      elim r [
        | err e ↦ (err e, d')
        | ok _ ↦ elim (look (c ∷ p) d') [
          | some directory ↦ (ok tt, d')
          | some (file t) ↦ (err (new (codes "not a directory")), d')
          | none ↦ allow mkdir_op (c ∷ p) (ok tt, write (c ∷ p) directory d') d'
        ]
      ]

  -- os.Create
  unfoldable pub create : FilePath → Disk → Result (Unit {0}) × Disk
  unfolding missing is_dir
  create p d =
      if is_dir (dir p) d
      then (elim (look p d) [
        | some directory ↦ (err (new (codes "is a directory")), d)
        | some (file t) ↦ allow create_op p (ok tt, write p (file []) d) d
        | none ↦ allow create_op p (ok tt, write p (file []) d) d
      ])
      else (err missing, d)

  -- File.Chmod
  unfoldable pub chmod : FilePath → Disk → Result (Unit {0}) × Disk
  chmod p d = allow chmod_op p (ok tt, d) d

  -- io.Copy between two open files
  unfoldable pub copy : FilePath → FilePath → Disk → Result (Unit {0}) × Disk
  unfolding missing put
  copy src dst d =
      allow copy_op dst
        (elim (look src d) [
          | some (file t) ↦ (ok tt, put dst t d)
          | some directory ↦ (err (new (codes "is a directory")), d)
          | none ↦ (err missing, d)
        ])
        d

  -- os.RemoveAll
  unfoldable pub remove_all : FilePath → Disk → Result (Unit {0}) × Disk
  remove_all p d = allow remove_op p (ok tt, without (is_below p) d) d

  -- os.Remove, of a file or of an empty directory
  unfoldable pub remove : FilePath → Disk → Result (Unit {0}) × Disk
  unfolding missing has_child
  remove p d = elim (look p d) [
    | none ↦ (err missing, d)
    | some e ↦
        allow remove_op p
          (if has_child p d
            then (err (new (codes "directory not empty")), d)
            else (ok tt, without (λ q. q == p) d))
          d
  ]

  -- os.Open, of a file that os.Stat has seen
  unfoldable pub open_file : FilePath → Disk → Result (Unit {0}) × Disk
  unfolding missing
  open_file p d =
      allow open_op p (elim (look p d) [ some e ↦ (ok tt, d) | none ↦ (err missing, d) ]) d

  regular : FilePath → Entry → Result (Unit {0})
  regular src (file t) = ok tt
  regular src directory = err (new (codes "source is not a regular file"))

  -- `CopyToDir`, without the number of bytes
  unfoldable pub copy_to_dir : FilePath → FilePath → Cmd Disk (Unit {0})
  unfolding regular
  copy_to_dir src dst = do
    entry ← act (stat src)
    lift (regular src entry)
    act (open_file src)
    act (mkdir_all dst)
    act (create (base src ∷ dst))
    act (chmod (base src ∷ dst))
    act (copy src (base src ∷ dst))

  -- `IsRegularFile`
  unfoldable pub is_regular_file : FilePath → Cmd Disk Bool
  is_regular_file path = do
    entry ← act (stat path)
    pure (elim entry [ file t ↦ true | directory ↦ false ])
