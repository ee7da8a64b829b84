-- ===== src/Verify/Progress.antt =====
-- When `notation verify` gets to the end.
use notation.Base.{
  ◌≡◌, refl, ◌∙◌, false, none, List, [], ◌∷◌, ◌++◌, All, is_empty, text_eq, if◌then◌else◌, Text,
  codes, ok,
}
use notation.Base.Exec.{World, lift, bind-ok}
use notation.Flags.{set_logger_level}
use notation.Flags.Laws.{IsFlag, parse_flag_map-total}
use notation.Manifest.{
  Descriptor, Reference, Repository, registry_input, resolve_artifact_digest_reference,
}
use notation.Manifest.Laws.{resolve_reference-registry}
use notation.Remote.{Remote, Settings, set_http_debug_log}
use notation.Registry.Progress.{HasConfig, plain_known, flag_remote, get_repository-flags}
use notation.Verify.{
  VerifyOpts, VerifyOptions, VerifyLib, VerificationOutcome, run_verify, call_verify,
  max_signature_attempts, report, tag_warning, warnings, check_verification_failure,
  report_verification_success,
}

passed :
    {S : Type 0} (outcome : VerificationOutcome) (outcomes : List VerificationOutcome) (ref : Text)
    (w : World S)
    → lift (check_verification_failure (outcome ∷ outcomes) ref none) w ≡ (ok tt, w)
unfolding check_verification_failure
passed outcome outcomes ref w = refl

reported :
    {S : Type 0} (outcome : VerificationOutcome) (outcomes : List VerificationOutcome) (ref : Text)
    (w : World S)
    → report_verification_success (outcome ∷ outcomes) ref w ≡ (
      ok tt,
      record w {
        stdout = w.stdout ++ report outcome ref;
        stderr = w.stderr ++ warnings outcome.verification_results;
      },
    )
unfolding report_verification_success
reported outcome outcomes ref w = refl

module _ {S Verifier : Type 0} (lib : VerifyLib S Verifier) (settings : Settings)
    (opts : VerifyOpts) (w : World S) where
  -- What `notation verify` asks of the outside for a reference to a registry and a credential of
  -- the flags; the config was loaded, unless the flag --plain-http is given. The last answer is that a signature is valid.
  pub record IsAnswered : Type 0 where
    pub registry : opts.input_type ≡ registry_input
    pub config : HasConfig settings opts.secure
    pub username : is_empty opts.secure.username ≡ false
    pub reference : is_empty opts.reference ≡ false
    pub verifier : Verifier
    pub gets_verifier : (lib.new_from_config w.ext).0 ≡ ok verifier
    pub ref : Reference
    pub parses : lib.registry.parse_reference opts.reference ≡ ok ref
    pub tagged : is_empty ref.reference ≡ false
    pub desc : Descriptor
    pub resolves :
        (remote : Remote)
        → remote.reference ≡ ref
        → ((lib.registry.new_repository remote false).resolve ref.reference
            (lib.new_from_config w.ext).1).0
          ≡ ok desc
    pub outcome : VerificationOutcome
    pub outcomes : List VerificationOutcome
    pub verifies :
        (repo : Repository S) (options : VerifyOptions) (s : S)
        → options.artifact_reference
          ≡ resolve_artifact_digest_reference
              ((ref.registry ++ b'/' ∷ ref.repository) ++ b'@' ∷ desc.digest)
              opts.trust_policy_scope
        → (lib.verify verifier repo options s).0 ≡ (outcome ∷ outcomes, none)

  called :
      (a : IsAnswered) (options : VerifyOptions) (repo : Repository S) (v : World S)
      → options.artifact_reference
        ≡ resolve_artifact_digest_reference
            ((a.ref.registry ++ b'/' ∷ a.ref.repository) ++ b'@' ∷ a.desc.digest)
            opts.trust_policy_scope
      → call_verify lib settings a.verifier repo options v ≡ (
        ok (a.outcome ∷ a.outcomes, none),
        record v { ext = (lib.verify a.verifier repo options v.ext).1 },
      )
  unfolding call_verify
  called a options repo v asked = rw (a.verifies repo options v.ext asked) refl

  -- For a reference to a registry, with a user name among the flags and with plugin configs and
  -- user metadata that are all pairs of a key and a value, and where --plain-http is given or
  -- config.json could be loaded: if a verifier is found, the reference
  -- is parsed and resolved, and notation.Verify returns an outcome and no error for the resolved
  -- digest (or the one named by the scope), then `notation verify` gets to its end without an
  -- error, and reports the first outcome for the resolved digest.
  pub run_verify-success :
      All IsFlag opts.plugin_config
      → All IsFlag opts.user_metadata
      → (a : IsAnswered)
      → (w' : World S) × (run_verify lib settings opts w ≡ (ok tt, w'))
        × (w'.stdout
            ≡ w.stdout
              ++ report a.outcome
                  ((a.ref.registry ++ b'/' ∷ a.ref.repository) ++ b'@' ∷ a.desc.digest))
  unfolding run_verify
  run_verify-success configs metadata a =
      let ref = a.ref in
      let level = set_logger_level opts.logging in
      let plugin_config = parse_flag_map-total opts.plugin_config (codes "plugin-config") configs in
      let user_metadata =
        parse_flag_map-total opts.user_metadata (codes "user-metadata") metadata in
      let plain = plain_known settings opts.secure ref.registry a.config in
      let repo =
        lib.registry.new_repository
          (flag_remote lib.registry settings level opts.secure ref plain.0) false in
      let resolved = (ref.registry ++ b'/' ∷ ref.repository) ++ b'@' ∷ a.desc.digest in
      let w1 : World S = record w { ext = (lib.new_from_config w.ext).1 } in
      let w2 : World S = record w1 { transport = set_http_debug_log level w.transport } in
      let w3 : World S = record w2 {
        stderr =
            w2.stderr
            ++ (if lib.is_digest ref.reference then [] else tag_warning ref.reference ∷ []);
        ext = (repo.resolve ref.reference w2.ext).1;
      } in
      let options : VerifyOptions = record {
        artifact_reference = resolve_artifact_digest_reference resolved opts.trust_policy_scope;
        plugin_config = plugin_config.0;
        max_signature_attempts = max_signature_attempts;
        user_metadata = user_metadata.0;
      } in
      let w4 : World S = record w3 { ext = (lib.verify a.verifier repo options w3.ext).1 } in
      (
        record w4 {
          stdout = w4.stdout ++ report a.outcome resolved;
          stderr = w4.stderr ++ warnings a.outcome.verification_results;
        },
        bind-ok _ _ w a.verifier w1 (rw a.gets_verifier refl)
            ∙ bind-ok _ _ w1 plugin_config.0 w1 (rw plugin_config.1 refl)
            ∙ bind-ok _ _ w1 user_metadata.0 w1 (rw user_metadata.1 refl)
            ∙ bind-ok _ _ w1 repo w2 (
                rw a.registry (
                  get_repository-flags lib.registry settings level opts.secure opts.reference ref
                    plain.0 w1 a.username a.parses plain.1))
            ∙ bind-ok _ _ w2 (a.desc, resolved) w3
                (rw a.registry (
                  resolve_reference-registry lib.registry.parse_reference lib.stat_is_dir
                    lib.is_digest repo opts.reference tag_warning w2 a.reference a.parses a.tagged
                    (a.resolves _ refl)))
            ∙ bind-ok (call_verify lib settings a.verifier repo options) _ w3
                (a.outcome ∷ a.outcomes, none) w4 (called a options repo w3 refl)
            ∙ bind-ok _ _ w4 tt w4 (passed a.outcome a.outcomes resolved w4)
            ∙ reported a.outcome a.outcomes resolved w4,
        refl,
      )
