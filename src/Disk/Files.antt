-- ===== src/Disk/Files.antt =====
-- Reading and writing whole files: os.ReadFile, and `WriteFile` and `WriteFileWithPermission` of
-- internal/osutil/file.go. Permissions are not modelled.
use notation.Base.{
  ◌≡◌, Bool, false, Option, none, some, [], arith, Text, codes, Result, ok, err, new,
}
use notation.Base.Errors.{Fault}
use notation.Base.Exec.{Cmd, World, act, bind-inv, branch, ◌>>◌}
use notation.Disk.{
  Entry, file, directory, Disk, Op, read_op, write_op, look, put, missing, allow, create, mkdir_all,
}
use notation.Disk.Laws.{look-write}
use notation.Disk.Copies.{mkdir_all-keeps, create-keeps, act-keeps}
use notation.Disk.Paths.{FilePath, path_instance, paths_eq, paths_eq_iff, dir}

module _ (denied : Op → FilePath → Option Fault) where
  -- os.ReadFile
  unfoldable pub read_file : FilePath → Disk → Result Text × Disk
  unfolding missing
  read_file p d =
      allow denied read_op p
        (elim (look p d) [
          | some (file t) ↦ (ok t, d)
          | some directory ↦ (err (new (codes "is a directory")), d)
          | none ↦ (err missing, d)
        ])
        d

  -- The write to an open file.
  unfoldable pub write_to : FilePath → Text → Disk → Result (Unit {0}) × Disk
  unfolding put
  write_to p t d = allow denied write_op p (ok tt, put p t d) d

  -- `WriteFile`; os.WriteFile creates or empties the file before it writes.
  unfoldable pub write_file : FilePath → Text → Cmd Disk (Unit {0})
  write_file path content = do
    act (mkdir_all denied (dir path))
    act (create denied path)
    act (write_to path content)

  -- os.OpenFile with O_CREATE and O_EXCL
  unfoldable pub create_new : FilePath → Disk → Result (Unit {0}) × Disk
  unfolding create
  create_new path d = elim (look path d) [
    | some e ↦ (err (new (codes "file exists")), d)
    | none ↦ create denied path d
  ]

  -- `WriteFileWithPermission`
  unfoldable pub write_file_with_permission : FilePath → Text → Bool → Cmd Disk (Unit {0})
  unfolding create_new
  write_file_with_permission path content overwrite = do
    act (mkdir_all denied (dir path))
    branch overwrite (act (create denied path)) (act (create_new path))
    act (write_to path content)

  created :
      (p : FilePath) (w v : World Disk) {x : Unit {0}}
      → act (create denied p) w ≡ (ok x, v)
      → look p v.ext ≡ some (file [])
  unfolding create
  created p w v made = ground (arith, look-write p p (file []) w.ext, paths_eq_iff p p)

  written :
      (p : FilePath) (t old : Text) (w v : World Disk) {x : Unit {0}}
      → look p w.ext ≡ some (file old)
      → act (write_to p t) w ≡ (ok x, v)
      → look p v.ext ≡ some (file t)
  unfolding write_to
  written p t old w v there made = ground (arith, look-write p p (file t) w.ext, paths_eq_iff p p)

  write_to-keeps :
      (q : FilePath) (e : Entry) (p : FilePath) (t : Text) (d : Disk)
      → paths_eq q p ≡ false
      → look q d ≡ some e
      → look q (write_to p t d).1 ≡ some e
  unfolding write_to
  write_to-keeps q e p t d n h = ground (arith, look-write q p (file t) d)

  -- A successful `WriteFile` leaves the data in its file, and every other entry as it was.
  pub look-write_file :
      (path : FilePath) (content : Text) (w w' : World Disk) {x : Unit {0}}
      → write_file path content w ≡ (ok x, w')
      → (look path w'.ext ≡ some (file content))
        × ((q : FilePath) (e : Entry)
            → paths_eq q path ≡ false
            → look q w.ext ≡ some e
            → look q w'.ext ≡ some e)
  unfolding write_file
  look-write_file path content w w' run =
      let r1 = bind-inv _ _ w run in
      let r2 = bind-inv _ _ r1.mid r1.second in
      (
        written path content [] r2.mid w' (created path r1.mid r2.mid r2.first) r2.second,
        λ q e n h.
            let h1 =
              act-keeps q e (mkdir_all denied (dir path)) w
                (mkdir_all-keeps denied q e (dir path) w.ext h) r1.first in
            let h2 =
              act-keeps q e (create denied path) r1.mid
                (create-keeps denied q e path r1.mid.ext n h1) r2.first in
            act-keeps q e (write_to path content) r2.mid
              (write_to-keeps q e path content r2.mid.ext n h2) r2.second,
      )
