-- ===== src/Tests/Policy.antt =====
-- Runs of cmd/notation/policy. A policy is valid if it is not empty.
use notation.Base.{
  ◌≡◌, refl, true, false, none, [], ◌∷◌, ◌++◌, Text, codes, ok, err, new, bytes_eq, if◌then◌else◌,
  is_empty,
}
use notation.Base.Exec.{World, ◌>>=◌}
use notation.Disk.{Disk, file, look, write, create, mkdir_all}
use notation.Disk.Paths.{FilePath, dir, paths_eq}
use notation.Disk.Files.{read_file, write_to, write_file}
use notation.Policy.{PolicyLib, imported, run_import, run_show, may_overwrite, import_from}
use notation.Policy.Laws.{IsImported}
use notation.Policy.Imports.{run_import-unasked, run_import-run_show}

abbrev policy_path : FilePath
policy_path = (b't' ∷ []) ∷ []

abbrev source : Text
source = b's' ∷ []

-- The policy that is there cannot be parsed.
abbrev lib : PolicyLib Text
lib = record {
  locate = λ t. t ∷ [];
  policy_path = ok policy_path;
  load_document = λ d. err (new (codes "malformed"));
  unmarshal = λ t. ok t;
  validate = λ t. if is_empty t then err (new (codes "empty")) else ok tt;
  denied = λ op path. none;
  input = ok none;
}

abbrev policy : Text
policy = b'{' ∷ b'}' ∷ []

abbrev start : World Disk
start = record {
  stdout = [];
  stderr = [];
  transport = none;
  ext = ((source ∷ []), file policy) ∷ (policy_path, file (b'?' ∷ [])) ∷ [];
}

abbrev after_import : World Disk
after_import = (run_import lib (record { file_path = source; force = false }) start).1

import_it :
    run_import lib (record { file_path = source; force = false }) start ≡ (ok tt, after_import)
unfolding run_import ◌>>=◌ may_overwrite import_from read_file write_file write_to look write create
    mkdir_all bytes_eq paths_eq dir
import_it = refl

run_import-unasked_example :
    IsImported lib (source ∷ []) start after_import
    × (after_import.stdout ≡ start.stdout ++ imported ∷ [])
run_import-unasked_example = run_import-unasked lib source start after_import refl import_it

abbrev after_force : World Disk
after_force = (run_import lib (record { file_path = source; force = true }) start).1

force_it : run_import lib (record { file_path = source; force = true }) start ≡ (ok tt, after_force)
unfolding run_import ◌>>=◌ may_overwrite import_from read_file write_file write_to look write create
    mkdir_all bytes_eq paths_eq dir
force_it = refl

run_import-run_show_example :
    run_show lib after_force
    ≡ (ok tt, record after_force { stdout = after_force.stdout ++ policy ∷ [] })
unfolding look bytes_eq paths_eq
run_import-run_show_example =
    run_import-run_show lib source start after_force policy refl (λ path e. refl) force_it
