-- ===== src/Verify/Laws.antt =====
-- What a successful `notation verify` has established, and what a failing one prints.
use notation.Base.{
  ◌≡◌, ◌↔◌, refl, sym, ap, subst, ◌∙◌, Option, none, some, List, [], ◌∷◌, ◌++◌, arith, Text, codes,
  ok,
}
use notation.Base.Errors.{Fault, as_verification_failed}
use notation.Base.Exec.{World, Cmd, lift, bind-inv, lift-inv, ◌>>=◌, ◌>>◌}
use notation.Base.Quiet.{
  Quiet, Quiet-act, Quiet-lift, Quiet-stdout, SilentFailure, SilentFailure-bind,
}
use notation.Flags.{set_logger_level, parse_flag_map}
use notation.Manifest.{Descriptor, Repository, resolve_artifact_digest_reference}
use notation.Manifest.Laws.{IsResolved, resolve_reference-ok, resolve_reference-Quiet}
use notation.Remote.{Settings}
use notation.Registry.Quiet.{get_repository-Quiet}
use notation.Verify.{
  VerifyOpts, VerifyOptions, VerificationOutcome, VerifyLib, check_verification_failure, report,
  report_verification_success, tag_warning, call_verify, run_verify, max_signature_attempts,
}

-- `checkVerificationFailure` passes exactly the calls of notation.Verify that returned no error
-- and at least one outcome.
pub check_verification_failure-ok :
    (outcomes : List VerificationOutcome) (print_out : Text) (error : Option Fault)
    → (check_verification_failure outcomes print_out error ≡ ok tt) ↔ (
        (error ≡ none)
        × ((first : VerificationOutcome) × (rest : List VerificationOutcome) × (outcomes
              ≡ first ∷ rest)))
unfolding check_verification_failure
check_verification_failure-ok [] print_out none = (λ h. absurd (cc), λ h. absurd (cc (h.1.2)))
check_verification_failure-ok (o ∷ os) print_out none = (λ h. (refl, (o, os, refl)), λ h. refl)
check_verification_failure-ok outcomes print_out (some e) =
    (λ h. absurd (unfold as_verification_failed in ground arith), λ h. absurd (cc (h.0)))

-- A call of notation.Verify that the command reports as a success.
abbrev pub Succeeds : List VerificationOutcome × Option Fault → Text → List Text → Type 0
Succeeds ([], error) print_out lines = ⊥
Succeeds (first ∷ rest, error) print_out lines = (error ≡ none) × (lines ≡ report first print_out)

conclude : {S : Type 0} → List VerificationOutcome × Option Fault → Text → Cmd S (Unit {0})
conclude found print_out = do
  lift (check_verification_failure found.0 print_out found.1)
  report_verification_success found.0 print_out

conclude_inv :
    {S : Type 0} (found : List VerificationOutcome × Option Fault) (print_out : Text) (w : World S)
    {x : Unit {0}} {w' : World S}
    → conclude found print_out w ≡ (ok x, w')
    → ((lines : List Text) × Succeeds found print_out lines × (w'.stdout ≡ w.stdout ++ lines))
      × (w'.ext ≡ w.ext)
unfolding conclude ◌>>=◌ report_verification_success check_verification_failure
conclude_inv ([], none) print_out w h = absurd (cc)
conclude_inv ([], some e) print_out w h = absurd (ground arith)
conclude_inv (o ∷ os, none) print_out w h =
    ((report o print_out, (refl, refl), ground arith), ground arith)
conclude_inv (o ∷ os, some e) print_out w h = absurd (ground arith)

conclude-SilentFailure :
    {S : Type 0} (found : List VerificationOutcome × Option Fault) (print_out : Text)
    → SilentFailure {S = S} (conclude found print_out)
unfolding conclude ◌>>=◌ report_verification_success check_verification_failure
conclude-SilentFailure ([], none) print_out = record { at = λ w w' e h. ground arith }
conclude-SilentFailure ([], some x) print_out = record { at = λ w w' e h. ground arith }
conclude-SilentFailure (o ∷ os, none) print_out = record { at = λ w w' e h. absurd (cc) }
conclude-SilentFailure (o ∷ os, some x) print_out = record { at = λ w w' e h. ground arith }

call_verify-inv :
    {S Verifier : Type 0} (lib : VerifyLib S Verifier) (settings : Settings) (v : Verifier)
    (repo : Repository S) (options : VerifyOptions) (w : World S)
    {found : List VerificationOutcome × Option Fault} {w' : World S}
    → call_verify lib settings v repo options w ≡ (ok found, w')
    → ((lib.verify v repo options w.ext).0 ≡ found)
      × (record w { ext = (lib.verify v repo options w.ext).1 } ≡ w')
unfolding call_verify
call_verify-inv lib settings v repo options w h = ground arith

call_verify-Quiet :
    {S Verifier : Type 0} (lib : VerifyLib S Verifier) (settings : Settings) (v : Verifier)
    (repo : Repository S) (options : VerifyOptions)
    → Quiet (call_verify lib settings v repo options)
unfolding call_verify
call_verify-Quiet lib settings v repo options = record { at = λ w. refl }

module _ {S Verifier : Type 0} (lib : VerifyLib S Verifier) (settings : Settings) where
  -- What a successful run has established.
  pub record IsVerified (opts : VerifyOpts) (w w' : World S) : Type 0 where
    pub verifier : Verifier
    pub repo : Repository S
    pub options : VerifyOptions
    pub desc : Descriptor
    pub resolved : Text
    pub before : World S
    pub at : World S
    pub lines : List Text
    pub plugin_config :
        parse_flag_map opts.plugin_config (codes "plugin-config") ≡ ok options.plugin_config
    pub user_metadata :
        parse_flag_map opts.user_metadata (codes "user-metadata") ≡ ok options.user_metadata
    pub resolves :
        IsResolved lib.registry.parse_reference lib.stat_is_dir lib.is_digest repo opts.input_type
          opts.reference before at desc resolved
    pub intended :
        options.artifact_reference
        ≡ resolve_artifact_digest_reference resolved opts.trust_policy_scope
    pub attempts : options.max_signature_attempts ≡ max_signature_attempts
    pub verifies : Succeeds (lib.verify verifier repo options at.ext).0 resolved lines
    pub ext_after : w'.ext ≡ (lib.verify verifier repo options at.ext).1
    pub printed : w'.stdout ≡ w.stdout ++ lines

  -- If `notation verify` succeeds, then notation.Verify was called with the plugin config and
  -- the user metadata of the flags and math.MaxInt64 signature attempts, for the digest
  -- reference to which the user's reference was resolved (under the scope of the flag, if there
  -- is one); it returned no error and at least one outcome, and what is printed to stdout is the
  -- report of the first outcome and nothing else.
  pub run_verify-IsVerified :
      (opts : VerifyOpts) (w w' : World S) {x : Unit {0}}
      → run_verify lib settings opts w ≡ (ok x, w')
      → IsVerified opts w w'
  unfolding run_verify conclude
  run_verify-IsVerified opts w w' h =
      let r1 = bind-inv _ _ w h in
      let r2 = bind-inv _ _ r1.mid r1.second in
      let r3 = bind-inv _ _ r2.mid r2.second in
      let r4 = bind-inv _ _ r3.mid r3.second in
      let r5 = bind-inv _ _ r4.mid r4.second in
      let r6 = bind-inv _ _ r5.mid r5.second in
      let options : VerifyOptions = record {
        artifact_reference = resolve_artifact_digest_reference r5.value.1 opts.trust_policy_scope;
        plugin_config = r2.value;
        max_signature_attempts = max_signature_attempts;
        user_metadata = r3.value;
      } in
      let q1 = Quiet-stdout w (Quiet-act lib.new_from_config) r1.first in
      let c2 = lift-inv _ r1.mid r2.first in
      let c3 = lift-inv _ r2.mid r3.first in
      let q4 =
        Quiet-stdout r3.mid
          (get_repository-Quiet lib.registry settings (set_logger_level opts.logging) opts.secure
            opts.input_type opts.reference)
          r4.first in
      let c5 =
        resolve_reference-ok lib.registry.parse_reference lib.stat_is_dir lib.is_digest r4.value
          opts.input_type opts.reference tag_warning r4.mid r5.mid r5.value.0 r5.value.1 r5.first in
      let c6 = call_verify-inv lib settings r1.value r4.value options r5.mid r6.first in
      let c7 = conclude_inv r6.value r5.value.1 r6.mid r6.second in
      record {
        verifier = r1.value;
        repo = r4.value;
        options = options;
        desc = r5.value.0;
        resolved = r5.value.1;
        before = r4.mid;
        at = r5.mid;
        lines = c7.0.0;
        plugin_config = c2.0;
        user_metadata = c3.0;
        resolves = c5.0;
        attempts = refl;
        intended = refl;
        verifies = subst (λ f. Succeeds f r5.value.1 c7.0.0) (sym c6.0) c7.0.1;
        ext_after = c7.1 ∙ sym (ap (λ (v : World S). v.ext) c6.1);
        printed =
            c7.0.2
            ∙ ap (λ (t : List Text). t ++ c7.0.0)
                (sym (ap (λ (v : World S). v.stdout) c6.1)
                  ∙ c5.1
                  ∙ q4
                  ∙ sym (ap (λ (v : World S). v.stdout) (c2.1 ∙ c3.1))
                  ∙ q1);
      }

  -- A `notation verify` that fails, for whatever reason, has printed nothing to stdout: no success
  -- message, and no metadata.
  pub run_verify-SilentFailure : (opts : VerifyOpts) → SilentFailure (run_verify lib settings opts)
  unfolding run_verify conclude
  run_verify-SilentFailure opts = SilentFailure-bind _ _ (Quiet-act lib.new_from_config) λ v.
      SilentFailure-bind _ _ (Quiet-lift _) λ configs.
        SilentFailure-bind _ _ (Quiet-lift _) λ metadata.
          SilentFailure-bind _ _
            (get_repository-Quiet lib.registry settings (set_logger_level opts.logging) opts.secure
              opts.input_type opts.reference)
            λ repo.
              SilentFailure-bind _ _
                (resolve_reference-Quiet lib.registry.parse_reference lib.stat_is_dir lib.is_digest
                  repo opts.input_type opts.reference tag_warning)
                λ resolved.
                  SilentFailure-bind _ _ (call_verify-Quiet lib settings v repo _)
                    λ found. conclude-SilentFailure found resolved.1
