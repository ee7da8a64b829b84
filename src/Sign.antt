-- ===== src/Sign.antt =====
-- cmd/notation/sign.go: `notation sign`. Signing itself is notation.Sign of notation-go, a
-- parameter; cobra calls `sign_args`, `sign_pre_run` and `sign_run` in this order.
pub mod Laws
pub mod Failures
pub mod Progress
use notation.Base.{
  ℕ, Bool, not, Option, some, List, [], ◌∷◌, ◌++◌, ◌==◌, text_eq, contains, if◌then◌else◌, Text,
  codes, Result, ok, err, new,
}
use notation.Base.Strings.{has_infix}
use notation.Base.Dict.{Dict}
use notation.Base.Errors.{error_text, as_push_signature_failed}
use notation.Base.Exec.{
  Cmd, pure, fail, lift, act, try, warn, print, and_then, branch, fail_if, ◌>>=◌, ◌>>◌,
}
use notation.Flags.{LoggingFlagOpts, set_logger_level, parse_flag_map}
use notation.Experimental.{check_flags_and_warn}
use notation.Envelope.{EnvelopeTypes, get_envelope_media_type}
use notation.Manifest.{InputType, oci_layout_input, Repository, resolve_reference}
use notation.Remote.{SecureFlagOpts, RegistryLib, Settings}
use notation.Registry.{get_repository_for_sign}
use notation.Signer.{SignerFlagOpts, SignerLib, get_signer}

-- time.Duration, in nanoseconds; `negative n` is -(n + 1).
pub data Duration : Type 0 where
  nanoseconds negative : ℕ → Duration

-- `signOpts`
pub record SignOpts : Type 0 where
  pub logging : LoggingFlagOpts
  pub signer : SignerFlagOpts
  pub secure : SecureFlagOpts
  pub expiry : Duration
  pub plugin_config : List Text
  pub user_metadata : List Text
  pub reference : Text
  pub signature_manifest : Text
  pub oci_layout : Bool
  pub input_type : InputType

-- notation.SignOptions of notation-go
pub record SignOptions : Type 0 where
  pub artifact_reference : Text
  pub signature_media_type : Text
  pub expiry_duration : Duration
  pub plugin_config : Dict
  pub user_metadata : Dict

abbrev pub signature_manifest_artifact : Text
signature_manifest_artifact = codes "artifact"

abbrev pub signature_manifest_image : Text
signature_manifest_image = codes "image"

abbrev pub referrers_tag_schema_delete_error : Text
referrers_tag_schema_delete_error = codes "failed to delete dangling referrers index"

-- `validateSignatureManifest`
unfoldable pub validate_signature_manifest : Text → Bool
unfolding contains
validate_signature_manifest = contains (signature_manifest_artifact ∷ signature_manifest_image ∷ [])

-- `Args` of the command
unfoldable pub sign_args : List Text → SignOpts → Result SignOpts
sign_args [] opts = err (new (codes "missing reference"))
sign_args (reference ∷ rest) opts = ok (record opts { reference = reference })

-- `PreRunE` of the command, from NOTATION_EXPERIMENTAL and the flags that were set
unfoldable pub sign_pre_run : {S : Type 0} → Text → (Text → Bool) → Text → SignOpts → Cmd S SignOpts
sign_pre_run env changed path opts = do
  check_flags_and_warn env changed path (codes "signature-manifest" ∷ codes "oci-layout" ∷ [])
  pure (if opts.oci_layout then record opts { input_type = oci_layout_input } else opts)

-- `prepareSigningOpts`
unfoldable pub prepare_signing_opts : EnvelopeTypes → SignOpts → Result SignOptions
prepare_signing_opts types opts =
    and_then (get_envelope_media_type types opts.signer.signature_format) λ media_type.
      and_then (parse_flag_map opts.plugin_config (codes "plugin-config")) λ plugin_config.
        and_then (parse_flag_map opts.user_metadata (codes "user-metadata")) λ user_metadata.
          ok (record {
            artifact_reference = [];
            signature_media_type = media_type;
            expiry_duration = opts.expiry;
            plugin_config = plugin_config;
            user_metadata = user_metadata;
          })

-- The warning for a tag.
pub tag_warning : Text → Text
tag_warning ref =
    codes "Warning: Always sign the artifact using digest(@sha256:...) rather than a tag(:"
    ++ ref
    ++ codes
        ") because tags are mutable and a tag reference can point to a different artifact than the one signed.\n"

pub success : Text → Text
success resolved_ref = codes "Successfully signed " ++ resolved_ref ++ 10 ∷ []

garbage_warning : Text
garbage_warning =
    codes
      "Warning: Removal of outdated referrers index from remote registry failed. Garbage collection may be required.\n"

pub artifact_hint : Text
artifact_hint =
    codes
      ". Possible reason: OCI artifact manifest is not supported. Try removing the flag `--signature-manifest artifact` to store signatures using OCI image manifest"

-- What is made of the result of notation.Sign.
unfoldable pub conclude : {S : Type 0} → Bool → Text → Result (Unit {0}) → Cmd S (Unit {0})
unfolding garbage_warning
conclude oci_image_manifest resolved_ref (ok _) = print (success resolved_ref)
conclude oci_image_manifest resolved_ref (err e) =
    branch (as_push_signature_failed e)
      (branch (not oci_image_manifest) (fail (new (error_text e ++ artifact_hint))) (
        branch (has_infix referrers_tag_schema_delete_error (error_text e))
          (do warn garbage_warning; print (success resolved_ref)) (fail e)))
      (fail e)

-- The outside world of `notation sign`.
pub record SignLib (S Plugin Signer : Type 0) : Type 0 where
  pub registry : RegistryLib S
  pub signers : SignerLib S Plugin Signer
  pub envelopes : EnvelopeTypes
  -- os.Stat of the layout with IsDir, and whether digest.Parse succeeds
  pub stat_is_dir : Text → S → Result Bool
  pub is_digest : Text → Bool
  -- notation.Sign, whose descriptor the program ignores
  pub sign : Signer → Repository S → SignOptions → S → Result (Unit {0}) × S

module _ {S Plugin Signer : Type 0} (lib : SignLib S Plugin Signer) (settings : Settings) where
  -- `runSign`
  unfoldable pub run_sign : SignOpts → Cmd S (Unit {0})
  run_sign opts = do
    signer ← get_signer lib.signers opts.signer
    sig_repo ←
        get_repository_for_sign lib.registry settings (set_logger_level opts.logging)
          opts.input_type opts.reference opts.secure
          (opts.signature_manifest == signature_manifest_image)
    sign_opts ← lift (prepare_signing_opts lib.envelopes opts)
    resolved ←
        resolve_reference lib.registry.parse_reference lib.stat_is_dir lib.is_digest opts.input_type
          opts.reference sig_repo (some (λ ref desc. warn (tag_warning ref)))
    result ← try (
        act
          (lib.sign signer sig_repo (record sign_opts { artifact_reference = resolved.0.digest })))
    conclude (opts.signature_manifest == signature_manifest_image) resolved.1 result

  -- `RunE` of the command
  unfoldable pub sign_run : SignOpts → Cmd S (Unit {0})
  unfolding run_sign
  sign_run opts = do
    fail_if (not (validate_signature_manifest opts.signature_manifest)) (
        new (
          codes "signature manifest must be one of the following [artifact image] but got "
          ++ opts.signature_manifest))
    run_sign opts
