-- ===== src/Verify.antt =====
-- cmd/notation/verify.go: `notation verify`, with `PrintMetadataMap` of internal/ioutil/print.go.
-- notation.Verify and the verifier are notation-go's, parameters.
pub mod Laws
pub mod Progress
use notation.Base.{
  ℕ, Bool, not, Option, none, some, List, [], ◌∷◌, ◌++◌, is_empty, text_eq, if◌then◌else◌, Text,
  codes, Result, ok, err, new, wrap,
}
use notation.Base.Dict.{Dict}
use notation.Base.Strings.{quote}
use notation.Base.Errors.{Fault, error_text, as_verification_failed}
use notation.Base.Exec.{Cmd, pure, fail, lift, act, warn, print, ◌>>=◌, ◌>>◌}
use notation.Flags.{LoggingFlagOpts, set_logger_level, parse_flag_map}
use notation.Experimental.{check_flags_and_warn}
use notation.Manifest.{
  InputType, oci_layout_input, Repository, resolve_reference, resolve_artifact_digest_reference,
}
use notation.Remote.{SecureFlagOpts, RegistryLib, Settings}
use notation.Registry.{get_repository}

-- `verifyOpts`
pub record VerifyOpts : Type 0 where
  pub logging : LoggingFlagOpts
  pub secure : SecureFlagOpts
  pub reference : Text
  pub plugin_config : List Text
  pub user_metadata : List Text
  pub oci_layout : Bool
  pub trust_policy_scope : Text
  pub input_type : InputType

-- math.MaxInt64
abbrev pub max_signature_attempts : ℕ
max_signature_attempts = 9223372036854775807

-- notation.VerifyOptions of notation-go
pub record VerifyOptions : Type 0 where
  pub artifact_reference : Text
  pub plugin_config : Dict
  pub max_signature_attempts : ℕ
  pub user_metadata : Dict

-- notation.ValidationResult and notation.VerificationOutcome of notation-go, as far as they are
-- read: whether the level equals trustpolicy.LevelSkip, and the map that `UserMetadata` returns.
pub record ValidationResult : Type 0 where
  pub type : Text
  pub action : Text
  pub error : Option Fault

pub record VerificationOutcome : Type 0 where
  pub verification_results : List ValidationResult
  pub level_is_skip : Bool
  pub user_metadata : Dict

-- `Args` of the command
unfoldable pub verify_args : List Text → VerifyOpts → Result VerifyOpts
verify_args [] opts = err (new (codes "missing reference"))
verify_args (reference ∷ rest) opts = ok (record opts { reference = reference })

-- `PreRunE` of the command
unfoldable pub verify_pre_run :
    {S : Type 0} → Text → (Text → Bool) → Text → VerifyOpts → Cmd S VerifyOpts
verify_pre_run env changed path opts = do
  check_flags_and_warn env changed path (codes "oci-layout" ∷ codes "scope" ∷ [])
  pure (if opts.oci_layout then record opts { input_type = oci_layout_input } else opts)

failed_for : Text → Fault
failed_for print_out =
    new (codes "signature verification failed for all the signatures associated with " ++ print_out)

-- `checkVerificationFailure`, on the outcomes and the error of notation.Verify
unfoldable pub check_verification_failure :
    List VerificationOutcome → Text → Option Fault → Result (Unit {0})
unfolding failed_for
check_verification_failure outcomes print_out (some e) =
    if not (as_verification_failed e)
    then err (wrap (codes "signature verification failed: ") e)
    else err (failed_for print_out)
check_verification_failure [] print_out none = err (failed_for print_out)
check_verification_failure (o ∷ os) print_out none = ok tt

-- `PrintMetadataMap`: the cells of each row. How tabwriter aligns them is not modelled, nor the
-- order in which Go walks a map.
unfoldable pub print_metadata_map : Dict → List Text
print_metadata_map [] = []
print_metadata_map ((k, v) ∷ metadata) = (k ++ 9 ∷ v ++ 9 ∷ 10 ∷ []) ∷ print_metadata_map metadata

-- `printMetadataIfPresent`: what it writes
unfoldable pub metadata_lines : Dict → List Text
unfolding print_metadata_map
metadata_lines metadata =
    if is_empty metadata
    then []
    else codes "\nThe artifact was signed with the following user metadata.\n"
      ∷ codes "\nKEY\tVALUE\t\n"
      ∷ print_metadata_map metadata

-- The warnings for the results that failed and were logged
unfoldable pub warnings : List ValidationResult → List Text
warnings [] = []
warnings (r ∷ rs) = elim r.error [
  | none ↦ warnings rs
  | some e ↦
      (codes "Warning: "
        ++ r.type
        ++ codes " was set to "
        ++ quote r.action
        ++ codes " and failed with error: "
        ++ error_text e
        ++ 10 ∷ [])
      ∷ warnings rs
]

pub skipped : Text → Text
skipped print_out =
    codes "Trust policy is configured to skip signature verification for " ++ print_out ++ 10 ∷ []

pub verified : Text → Text
verified print_out = codes "Successfully verified signature for " ++ print_out ++ 10 ∷ []

-- What `reportVerificationSuccess` writes to stdout for the first outcome
unfoldable pub report : VerificationOutcome → Text → List Text
unfolding metadata_lines
report outcome print_out =
    if outcome.level_is_skip
    then skipped print_out ∷ []
    else verified print_out ∷ metadata_lines outcome.user_metadata

-- `reportVerificationSuccess`; reading the first of no outcomes panics.
unfoldable pub report_verification_success :
    {S : Type 0} → List VerificationOutcome → Text → Cmd S (Unit {0})
unfolding report warnings
report_verification_success [] print_out w = (err (new (codes "panic: index out of range")), w)
report_verification_success (outcome ∷ rest) print_out w = (
  ok tt,
  record w {
    stdout = w.stdout ++ report outcome print_out;
    stderr = w.stderr ++ warnings outcome.verification_results;
  },
)

-- The warning for a tag.
pub tag_warning : Text → Text
tag_warning ref =
    codes "Warning: Always verify the artifact using digest(@sha256:...) rather than a tag(:"
    ++ ref
    ++ codes
        ") because resolved digest may not point to the same signed artifact, as tags are mutable.\n"

-- The outside world of `notation verify`.
pub record VerifyLib (S Verifier : Type 0) : Type 0 where
  pub registry : RegistryLib S
  pub stat_is_dir : Text → S → Result Bool
  pub is_digest : Text → Bool
  -- verifier.NewFromConfig
  pub new_from_config : S → Result Verifier × S
  -- notation.Verify: the outcomes and the error
  pub verify :
      Verifier → Repository S → VerifyOptions → S → (List VerificationOutcome × Option Fault) × S

module _ {S Verifier : Type 0} (lib : VerifyLib S Verifier) (settings : Settings) where
  -- notation.Verify, whose error is kept as a value
  unfoldable pub call_verify :
      Verifier → Repository S → VerifyOptions → Cmd S (List VerificationOutcome × Option Fault)
  call_verify verifier sig_repo options w =
      let (r, s) = lib.verify verifier sig_repo options w.ext in (ok r, record w { ext = s })

  -- `runVerify`
  unfoldable pub run_verify : VerifyOpts → Cmd S (Unit {0})
  run_verify opts = do
    verifier ← act lib.new_from_config
    configs ← lift (parse_flag_map opts.plugin_config (codes "plugin-config"))
    user_metadata ← lift (parse_flag_map opts.user_metadata (codes "user-metadata"))
    sig_repo ←
        get_repository lib.registry settings (set_logger_level opts.logging) opts.input_type
          opts.reference opts.secure
    resolved ←
        resolve_reference lib.registry.parse_reference lib.stat_is_dir lib.is_digest opts.input_type
          opts.reference sig_repo (some (λ ref desc. warn (tag_warning ref)))
    found ← call_verify verifier sig_repo (record {
      artifact_reference = resolve_artifact_digest_reference resolved.1 opts.trust_policy_scope;
      plugin_config = configs;
      max_signature_attempts = max_signature_attempts;
      user_metadata = user_metadata;
    })
    lift (check_verification_failure found.0 resolved.1 found.1)
    report_verification_success found.0 resolved.1
