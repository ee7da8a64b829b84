-- ===== src/Disk/Laws.antt =====
-- What the file system holds after writing and removing.
use notation.Base.{
  ◌≡◌, refl, Bool, none, some, [], ◌∷◌, arith, ◌==◌, if◌then◌else◌, ap, Bool-cases, inl, inr,
}
use notation.Disk.Paths.{FilePath, path_instance, paths_eq, paths_eq_iff}
use notation.Disk.{Entry, Disk, look, write, without}

pub look-write :
    (q p : FilePath) (e : Entry) (d : Disk)
    → look q (write p e d) ≡ (if q == p then some e else look q d)
unfolding look write
look-write q p e [] = refl
look-write q p e ((r, f) ∷ d) =
    ground (arith, look-write q p e d, paths_eq_iff q p, paths_eq_iff q r, paths_eq_iff p r)

pub look-without :
    (q : FilePath) (gone : FilePath → Bool) (d : Disk)
    → look q (without gone d) ≡ (if gone q then none else look q d)
unfolding look without
look-without q gone [] = ground arith
look-without q gone ((r, f) ∷ d) = elim (Bool-cases (paths_eq q r)) [
  | inl same ↦
      let e = ap gone ((paths_eq_iff q r).0 same) in ground (arith, e, look-without q gone d)
  | inr other ↦ ground (arith, look-without q gone d)
]
