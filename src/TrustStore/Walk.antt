-- ===== src/TrustStore/Walk.antt =====
-- `ListCerts` of cmd/notation/internal/truststore/truststore.go, over filepath.WalkDir, which
-- visits a directory before its entries, in the order of their names.
pub mod Laws
pub mod Fuel
pub mod Children
pub mod Reached
pub mod Complete
use notation.Base.{
  ℕ, zero, suc, ◌+◌, Bool, true, false, not, ◌||◌, ◌&&◌, Option, none, some, List, [], ◌∷◌, ◌++◌,
  length, ltb, leb, ◌==◌, nat_eq, if◌then◌else◌, Text, Result, ok, err,
}
use notation.Base.Exec.{Cmd, pure, fail, act, print, done, branch, ◌>>=◌, ◌>>◌}
use notation.Disk.{Entry, file, directory, Disk, Op, open_op, stat, allow}
use notation.Disk.Paths.{FilePath, path_instance}
use notation.TrustStore.{TrustLib, Certificate}

-- The order of strings in Go.
unfoldable pub text_leb : Text → Text → Bool
text_leb [] t = true
text_leb (x ∷ s) [] = false
text_leb (x ∷ s) (y ∷ t) = ltb x y || (x == y) && text_leb s t

unfoldable pub insert_entry : Text × Entry → List (Text × Entry) → List (Text × Entry)
insert_entry entry [] = entry ∷ []
insert_entry entry (other ∷ entries) =
    let rest = insert_entry entry entries in
    if text_leb entry.0 other.0 then entry ∷ other ∷ entries else other ∷ rest

unfoldable pub child_of : FilePath → FilePath × Entry → Option (Text × Entry)
child_of path ([], e) = none
child_of path (c ∷ p, e) = if p == path then some (c, e) else none

unfoldable pub children : FilePath → Disk → List (Text × Entry)
unfolding insert_entry text_leb child_of
children path [] = []
children path (entry ∷ d) = elim (child_of path entry) [
  | some child ↦ insert_entry child (children path d)
  | none ↦ children path d
]

unfoldable pub for_each : {S A : Type 0} → (A → Cmd S (Unit {0})) → List A → Cmd S (Unit {0})
for_each f [] = done
for_each f (a ∷ rest) = do f a; for_each f rest

module _ (lib : TrustLib) (show_path : FilePath → Text) where
  -- os.ReadDir
  unfoldable pub read_dir : FilePath → Disk → Result (List (Text × Entry)) × Disk
  read_dir path d = allow lib.denied open_op path (ok (children path d), d) d

  unfoldable pub print_if_certs : FilePath → Result (List Certificate) → Cmd Disk Bool
  print_if_certs path (err e) = fail e
  print_if_certs path (ok []) = pure true
  print_if_certs path (ok (c ∷ cs)) = do print (show_path path ++ 10 ∷ []); pure true

  -- The function that `ListCerts` gives to WalkDir; false stands for fs.SkipDir. A path has as
  -- many separators as components, and the Info of an entry does not fail.
  unfoldable pub visit : ℕ → FilePath → Entry → Cmd Disk Bool
  unfolding print_if_certs
  visit max_depth path directory w = (ok (not (ltb max_depth (length path))), w)
  visit max_depth path (file t) w = print_if_certs path (lib.read_certificate_file path w.ext) w

  -- WalkDir below an entry that is there.
  unfoldable pub walk : ℕ → ℕ → FilePath → Entry → Cmd Disk (Unit {0})
  unfolding visit for_each
  walk zero max_depth path e = done
  walk (suc fuel) max_depth path (file t) = visit max_depth path (file t) >> done
  walk (suc fuel) max_depth path directory = do
    go ← visit max_depth path directory
    branch go
        (do
          entries ← act (read_dir path)
          for_each (λ child. walk fuel max_depth (child.0 ∷ path) child.1) entries)
        done

  -- `ListCerts`. Two levels of fuel more than the depth are enough, since deeper directories are
  -- skipped.
  unfoldable pub list_certs_in : FilePath → ℕ → Cmd Disk (Unit {0})
  unfolding walk
  list_certs_in root depth = do
    e ← act (stat lib.denied root)
    walk (depth + 2) (length root + depth) root e
