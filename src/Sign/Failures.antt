-- ===== src/Sign/Failures.antt =====
-- Flags with which `notation sign` never signs.
use notation.Base.{Bool, true, not, All, ◌≡◌, ◌||◌, false, ◌==◌, text_eq, arith, codes, ok}
use notation.Base.Exec.{World, bind-inv, fail_if-inv}
use notation.Envelope.{EnvelopeTypes, jws, cose, get_envelope_media_type}
use notation.Flags.{parse_flag_map}
use notation.Flags.Laws.{IsFlag, parse_flag_map-ok}
use notation.Remote.{Settings}
use notation.Sign.{
  SignOpts, SignOptions, SignLib, prepare_signing_opts, sign_run, validate_signature_manifest,
}
use notation.Sign.Laws.{run_sign-IsSigned}

-- The flags of a signing that can succeed.
pub record IsAccepted (opts : SignOpts) : Type 0 where
  pub format : (opts.signer.signature_format == jws || opts.signer.signature_format == cose) ≡ true
  pub manifest : validate_signature_manifest opts.signature_manifest ≡ true
  pub plugin_config : All IsFlag opts.plugin_config
  pub user_metadata : All IsFlag opts.user_metadata

not-false : (b : Bool) → not b ≡ false → b ≡ true
not-false b h = ground arith

prepared_format :
    (types : EnvelopeTypes) (opts : SignOpts) (options : SignOptions)
    → prepare_signing_opts types opts ≡ ok options
    → (opts.signer.signature_format == jws || opts.signer.signature_format == cose) ≡ true
unfolding prepare_signing_opts get_envelope_media_type
prepared_format types opts options h = ground arith

prepared_flags :
    (types : EnvelopeTypes) (opts : SignOpts) (options : SignOptions)
    → prepare_signing_opts types opts ≡ ok options
    → (parse_flag_map opts.plugin_config (codes "plugin-config") ≡ ok options.plugin_config)
      × (parse_flag_map opts.user_metadata (codes "user-metadata") ≡ ok options.user_metadata)
unfolding prepare_signing_opts
prepared_flags types opts options h = ground arith

module _ {S Plugin Signer : Type 0} (lib : SignLib S Plugin Signer) (settings : Settings) where
  -- `notation sign` succeeds only with the signature format jws or cose, the signature manifest
  -- image or artifact, and plugin configs and user metadata that are all pairs of a key and a
  -- value.
  pub sign_run-IsAccepted :
      (opts : SignOpts) (w w' : World S) {x : Unit {0}}
      → sign_run lib settings opts w ≡ (ok x, w')
      → IsAccepted opts
  unfolding sign_run
  sign_run-IsAccepted opts w w' h =
      let r = bind-inv _ _ w h in
      let signed = run_sign-IsSigned lib settings opts r.mid w' r.second in
      let flags = prepared_flags lib.envelopes opts signed.options signed.prepared in
      record {
        format = prepared_format lib.envelopes opts signed.options signed.prepared;
        manifest = not-false _ (fail_if-inv _ _ w r.first).0;
        plugin_config = (parse_flag_map-ok _ _ _ flags.0).0;
        user_metadata = (parse_flag_map-ok _ _ _ flags.1).0;
      }
