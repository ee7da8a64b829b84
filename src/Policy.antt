-- ===== src/Policy.antt =====
-- cmd/notation/policy: importing and showing the trust policy. The trust policy document is
-- notation-go's, a parameter.
pub mod Laws
pub mod Imports
use notation.Base.{
  Bool, true, false, not, Option, [], ◌∷◌, ◌++◌, Text, codes, Result, ok, err, wrap,
}
use notation.Base.Errors.{Fault, error_text}
use notation.Base.Exec.{
  Cmd, pure, fail, lift, act, warn, print, done, branch, and_then, ◌>>=◌, ◌>>◌,
}
use notation.Confirm.{Input, ask_for_confirmation}
use notation.Disk.{Disk, Op}
use notation.Disk.Paths.{FilePath}
use notation.Disk.Files.{read_file, write_file}

-- `importOpts`
pub record ImportOpts : Type 0 where
  pub file_path : Text
  pub force : Bool

-- What lies outside of the two commands; `Document` is trustpolicy.Document of notation-go.
pub record PolicyLib (Document : Type 0) : Type 0 where
  -- the path of a file name, from the working directory
  pub locate : Text → FilePath
  -- dir.ConfigFS().SysPath(dir.PathTrustPolicy)
  pub policy_path : Result FilePath
  -- trustpolicy.LoadDocument, without its document
  pub load_document : Disk → Result (Unit {0})
  -- json.Unmarshal, and Validate
  pub unmarshal : Text → Result Document
  pub validate : Document → Result (Unit {0})
  pub denied : Op → FilePath → Option Fault
  -- the next line of stdin
  pub input : Input

-- An error with a text in front.
abbrev pub explained : {A : Type 0} → Text → Result A → Result A
explained prefix (ok a) = ok a
explained prefix (err e) = err (wrap prefix e)

abbrev pub explaining : {S A : Type 0} → Text → Cmd S A → Cmd S A
explaining prefix m w = let (r, w') = m w in (explained prefix r, w')

abbrev pub overwrite_prompt : Text
overwrite_prompt = codes "Existing trust policy configuration found, do you want to overwrite it?"

abbrev pub imported : Text
imported = codes "Trust policy configuration imported successfully.\n"

module _ {Document : Type 0} (lib : PolicyLib Document) where
  -- Whether to go on without --force.
  unfoldable pub ask_to_overwrite : Cmd Disk Bool
  ask_to_overwrite w = elim (lib.load_document w.ext) [
    | ok _ ↦ ask_for_confirmation lib.input overwrite_prompt false w
    | err e ↦ (ok true, w)
  ]

  -- The warning with --force, which ends without a newline.
  unfoldable pub may_overwrite : Bool → Cmd Disk Bool
  unfolding ask_to_overwrite
  may_overwrite force = branch (not force) ask_to_overwrite (do
    warn (codes "Warning: existing trust policy configuration file will be overwritten")
    pure true)

  -- The part of `runImport` from reading the configuration on.
  unfoldable pub import_from : FilePath → Cmd Disk (Unit {0})
  import_from source = do
    policy_json ←
        explaining (codes "failed to read trust policy file: ") (act (read_file lib.denied source))
    doc ← lift (
        explained (codes "failed to parse trust policy configuration: ")
          (lib.unmarshal policy_json))
    lift (explained (codes "failed to validate trust policy: ") (lib.validate doc))
    policy_path ←
        lift (explained (codes "failed to obtain path of trust policy file: ") lib.policy_path)
    explaining (codes "failed to write trust policy file: ")
        (write_file lib.denied policy_path policy_json)
    print imported

  -- `runImport`
  unfoldable pub run_import : ImportOpts → Cmd Disk (Unit {0})
  unfolding may_overwrite
  run_import opts = do
    confirmed ← may_overwrite opts.force
    branch confirmed (import_from (lib.locate opts.file_path)) done

  -- The error of a policy that does not parse or is not valid.
  unfoldable pub check_policy : Text → Result (Unit {0})
  check_policy policy_json = and_then (lib.unmarshal policy_json) lib.validate

  unfoldable pub warn_invalid : Result (Unit {0}) → Cmd Disk (Unit {0})
  warn_invalid (ok _) = done
  warn_invalid (err e) = do
    warn (codes "Error: " ++ error_text e ++ 10 ∷ [])
    warn (
        codes
          "Existing trust policy configuration is invalid, you may update or create a new one via `notation policy import <path-to-policy.json>`\n")

  -- `runShow`
  unfoldable pub run_show : Cmd Disk (Unit {0})
  unfolding check_policy warn_invalid
  run_show = do
    policy_path ← lift (
        explained (codes "failed to obtain path of trust policy configuration file: ")
          lib.policy_path)
    policy_json ←
        explaining
          (codes
            "failed to load trust policy configuration, you may import one via `notation policy import <path-to-policy.json>`: ")
          (act (read_file lib.denied policy_path))
    warn_invalid (check_policy policy_json)
    print policy_json
