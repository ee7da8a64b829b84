-- ===== src/Tests/Progress.antt =====
-- Runs of `notation sign` and `notation verify` to the end.
use notation.Base.{inl, ◌≡◌, refl, ◌∷◌, [], ok, codes, bytes_eq, ℕ}
use notation.Base.Exec.{World, ◌>>=◌}
use notation.Manifest.{Reference}
use notation.Sign.{sign_run, success}
use notation.Sign.Failures.{sign_run-IsAccepted}
use notation.Sign.Progress.{IsAnswered as IsSignable, sign_run-success}
use notation.Verify.{run_verify, report}
use notation.Verify.Progress.{IsAnswered as IsVerifiable, run_verify-success}
use notation.Signer.{get_signer}
use notation.Tests.Manifest.{start, tag, image, resolved}
use notation.Tests.Registry.{settings}
use notation.Tests.Sign.{lib as sign_lib, opts as sign_opts, signed, run_with_checks}
use notation.Tests.Verify.{lib as verify_lib, opts as verify_opts, outcome}

abbrev parsed : Reference
parsed = record { registry = b'r' ∷ []; repository = b'n' ∷ []; reference = tag }

answered : IsSignable sign_lib settings sign_opts start
unfolding codes bytes_eq get_signer ◌>>=◌
answered = record {
  registry = refl;
  image = refl;
  config = inl refl;
  username = refl;
  reference = refl;
  signer = b'p' ∷ [];
  ready = start;
  gets_signer = refl;
  ref = parsed;
  parses = refl;
  tagged = refl;
  desc = image;
  resolves = λ remote same. refl;
  signs = λ repo options s same. refl;
}

sign_run-success_example :
    (w' : World ℕ) × (sign_run sign_lib settings sign_opts start ≡ (ok tt, w'))
    × (w'.stdout ≡ success resolved ∷ [])
unfolding answered
sign_run-success_example =
    sign_run-success sign_lib settings sign_opts start
      (sign_run-IsAccepted sign_lib settings sign_opts start signed run_with_checks) answered

verifiable : IsVerifiable verify_lib settings verify_opts start
unfolding bytes_eq
verifiable = record {
  registry = refl;
  config = inl refl;
  username = refl;
  reference = refl;
  verifier = [];
  gets_verifier = refl;
  ref = parsed;
  parses = refl;
  tagged = refl;
  desc = image;
  resolves = λ remote same. refl;
  outcome = outcome;
  outcomes = [];
  verifies = λ repo options s same. refl;
}

run_verify-success_example :
    (w' : World ℕ) × (run_verify verify_lib settings verify_opts start ≡ (ok tt, w'))
    × (w'.stdout ≡ report outcome resolved)
unfolding verifiable
run_verify-success_example =
    run_verify-success verify_lib settings verify_opts start tt tt verifiable
