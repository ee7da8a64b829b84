-- ===== src/Tests/Verify.antt =====
-- Runs of cmd/notation/verify.go. The verifier finds one signature, with user metadata.
use notation.Base.{
  ◌≡◌, ◌↔◌, refl, ℕ, ◌+◌, false, some, none, Option, List, [], ◌∷◌, Text, ok, bytes_eq,
}
use notation.Base.Errors.{Fault}
use notation.Base.Exec.{World, traced, default_transport, ◌>>=◌}
use notation.Base.Quiet.{SilentFailure}
use notation.Flags.{parse_flag_map, set_logger_level}
use notation.Manifest.{registry_input, resolve_reference, resolve_artifact_digest_reference}
use notation.Registry.{get_repository}
use notation.Verify.{
  VerifyOpts, VerifyLib, VerificationOutcome, run_verify, report, tag_warning,
  check_verification_failure, report_verification_success, call_verify,
}
use notation.Verify.Laws.{
  IsVerified, run_verify-IsVerified, run_verify-SilentFailure, check_verification_failure-ok,
}
use notation.Tests.Manifest.{stat_is_dir, is_digest, start, tag, resolved}
use notation.Tests.Registry.{registry_lib, settings, secure}

abbrev pub outcome : VerificationOutcome
outcome = record {
  verification_results = [];
  level_is_skip = false;
  user_metadata = (b'k' ∷ [], b'v' ∷ []) ∷ [];
}

abbrev pub lib : VerifyLib ℕ Text
lib = record {
  registry = registry_lib;
  stat_is_dir = stat_is_dir;
  is_digest = is_digest;
  new_from_config = λ calls. (ok [], calls);
  verify = λ verifier repository options calls. ((outcome ∷ [], none), calls + 10);
}

abbrev pub opts : VerifyOpts
opts = record {
  logging = record { debug = false; verbose = false };
  secure = secure;
  reference = tag;
  plugin_config = [];
  user_metadata = [];
  oci_layout = false;
  trust_policy_scope = [];
  input_type = registry_input;
}

abbrev verified_world : World ℕ
verified_world = record {
  stdout = report outcome resolved;
  stderr = tag_warning tag ∷ [];
  transport = some (traced default_transport);
  ext = 11;
}

run : run_verify lib settings opts start ≡ (ok tt, verified_world)
unfolding run_verify get_repository ◌>>=◌ bytes_eq resolve_reference parse_flag_map
    resolve_artifact_digest_reference check_verification_failure report_verification_success
    call_verify set_logger_level
run = refl

run_verify-IsVerified_example : IsVerified lib settings opts start verified_world
run_verify-IsVerified_example = run_verify-IsVerified lib settings opts start verified_world run

run_verify-SilentFailure_example : SilentFailure (run_verify lib settings opts)
run_verify-SilentFailure_example = run_verify-SilentFailure lib settings opts

abbrev outcomes : List VerificationOutcome
outcomes = outcome ∷ []

abbrev no_error : Option Fault
no_error = none

check_verification_failure-ok_applied :
    (check_verification_failure outcomes resolved no_error ≡ ok tt) ↔ (
      (no_error ≡ none)
      × ((first : VerificationOutcome) × (rest : List VerificationOutcome) × (outcomes
            ≡ first ∷ rest)))
check_verification_failure-ok_applied = check_verification_failure-ok outcomes resolved no_error
