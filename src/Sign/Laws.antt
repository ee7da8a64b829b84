-- ===== src/Sign/Laws.antt =====
-- What a successful `notation sign` has done.
use notation.Base.{
  ◌≡◌, sym, ap, subst, ◌∙◌, Bool, true, List, [], ◌∷◌, ◌++◌, ◌==◌, text_eq, arith, Text, codes,
  Result, ok, err,
}
use notation.Base.Strings.{has_infix}
use notation.Base.Errors.{Fault, error_text, as_push_signature_failed}
use notation.Base.Exec.{World, bind-inv, lift-inv, try-act-inv, ◌>>=◌}
use notation.Base.Quiet.{Quiet-stdout}
use notation.Flags.{set_logger_level, parse_flag_map}
use notation.Envelope.{EnvelopeTypes, get_envelope_media_type}
use notation.Signer.{get_signer}
use notation.Manifest.{Descriptor, Repository}
use notation.Manifest.Laws.{IsResolved, resolve_reference-ok}
use notation.Remote.{Settings}
use notation.Registry.Quiet.{get_repository_for_sign-Quiet}
use notation.Signer.Quiet.{get_signer-Quiet}
use notation.Sign.{
  SignOpts, SignOptions, SignLib, prepare_signing_opts, signature_manifest_image,
  referrers_tag_schema_delete_error, success, conclude, run_sign, tag_warning,
}

-- A failure that `notation sign` reports as a success: the signature was pushed as an OCI image
-- manifest, and only the removal of the old referrers index failed.
pub record IsTolerated (oci_image_manifest : Bool) (e : Fault) : Type 0 where
  pub push_failed : as_push_signature_failed e ≡ true
  pub image : oci_image_manifest ≡ true
  pub delete_failed : has_infix referrers_tag_schema_delete_error (error_text e) ≡ true

-- The result of notation.Sign with which the command succeeds.
abbrev pub Passes : Bool → Result (Unit {0}) → Type 0
Passes oci_image_manifest (ok _) = Unit
Passes oci_image_manifest (err e) = IsTolerated oci_image_manifest e

conclude_inv :
    {S : Type 0} (image : Bool) (ref : Text) (r : Result (Unit {0})) (w : World S) {x : Unit {0}}
    {w' : World S}
    → conclude image ref r w ≡ (ok x, w')
    → Passes image r × (w'.stdout ≡ w.stdout ++ success ref ∷ []) × (w'.ext ≡ w.ext)
unfolding conclude ◌>>=◌
conclude_inv image ref (ok _) w h = (tt, ground arith, ground arith)
conclude_inv image ref (err e) w h = (
  record { push_failed = ground arith; image = ground arith; delete_failed = ground arith },
  ground arith,
  ground arith,
)

-- The options for notation.Sign are those of the flags.
pub record IsOptionsOf (types : EnvelopeTypes) (opts : SignOpts) (options : SignOptions)
    : Type 0 where
  pub media_type :
      get_envelope_media_type types opts.signer.signature_format ≡ ok options.signature_media_type
  pub expiry : options.expiry_duration ≡ opts.expiry
  pub plugin_config :
      parse_flag_map opts.plugin_config (codes "plugin-config") ≡ ok options.plugin_config
  pub user_metadata :
      parse_flag_map opts.user_metadata (codes "user-metadata") ≡ ok options.user_metadata

prepare_inv :
    (types : EnvelopeTypes) (opts : SignOpts) (options : SignOptions)
    → prepare_signing_opts types opts ≡ ok options
    → IsOptionsOf types opts options
unfolding prepare_signing_opts
prepare_inv types opts options h = record {
  media_type = ground arith;
  expiry = ground arith;
  plugin_config = ground arith;
  user_metadata = ground arith;
}

module _ {S Plugin Signer : Type 0} (lib : SignLib S Plugin Signer) (settings : Settings) where
  -- What a successful run leaves behind.
  pub record IsSigned (opts : SignOpts) (w w' : World S) : Type 0 where
    pub signer : Signer
    pub repo : Repository S
    pub options : SignOptions
    pub desc : Descriptor
    pub resolved : Text
    pub before : World S
    pub at : World S
    pub gets_signer : (get_signer lib.signers opts.signer w).0 ≡ ok signer
    pub given : IsOptionsOf lib.envelopes opts options
    pub prepared : prepare_signing_opts lib.envelopes opts ≡ ok options
    pub resolves :
        IsResolved lib.registry.parse_reference lib.stat_is_dir lib.is_digest repo opts.input_type
          opts.reference before at desc resolved
    pub signs :
        Passes
          (opts.signature_manifest == signature_manifest_image)
          (lib.sign signer repo (record options { artifact_reference = desc.digest }) at.ext).0
    pub ext_after :
        w'.ext
        ≡ (lib.sign signer repo (record options { artifact_reference = desc.digest }) at.ext).1
    pub printed : w'.stdout ≡ w.stdout ++ success resolved ∷ []

  -- If `notation sign` succeeds, then notation.Sign was called with the signer and the options of
  -- the flags (the envelope, the expiry, the plugin config and the user metadata) for the digest to
  -- which the repository resolved the user's reference, never for a tag, and this call was the
  -- last act on the outside world. It succeeded, or it failed only to remove the old
  -- referrers index of a signature stored as an OCI image manifest. The one thing printed to
  -- stdout is the success message with that digest.
  pub run_sign-IsSigned :
      (opts : SignOpts) (w w' : World S) {x : Unit {0}}
      → run_sign lib settings opts w ≡ (ok x, w')
      → IsSigned opts w w'
  unfolding run_sign
  run_sign-IsSigned opts w w' h =
      let image = opts.signature_manifest == signature_manifest_image in
      let r1 = bind-inv _ _ w h in
      let r2 = bind-inv _ _ r1.mid r1.second in
      let r3 = bind-inv _ _ r2.mid r2.second in
      let r4 = bind-inv _ _ r3.mid r3.second in
      let r5 = bind-inv _ _ r4.mid r4.second in
      let q1 = Quiet-stdout w (get_signer-Quiet lib.signers opts.signer) r1.first in
      let q2 =
        Quiet-stdout r1.mid
          (get_repository_for_sign-Quiet lib.registry settings (set_logger_level opts.logging)
            opts.secure opts.input_type opts.reference image)
          r2.first in
      let c3 = lift-inv _ r2.mid r3.first in
      let c4 =
        resolve_reference-ok lib.registry.parse_reference lib.stat_is_dir lib.is_digest r2.value
          opts.input_type opts.reference tag_warning r3.mid r4.mid r4.value.0 r4.value.1 r4.first in
      let c5 =
        try-act-inv
          (lib.sign r1.value r2.value (record r3.value { artifact_reference = r4.value.0.digest }))
          r4.mid r5.first in
      let c6 = conclude_inv image r4.value.1 r5.value r5.mid r5.second in
      record {
        signer = r1.value;
        repo = r2.value;
        options = r3.value;
        desc = r4.value.0;
        resolved = r4.value.1;
        before = r3.mid;
        at = r4.mid;
        gets_signer = ap (λ (p : Result Signer × World S). p.0) r1.first;
        given = prepare_inv lib.envelopes opts r3.value c3.0;
        prepared = c3.0;
        resolves = c4.0;
        signs = subst (Passes image) (sym c5.0) c6.0;
        ext_after = c6.2 ∙ sym (ap (λ (v : World S). v.ext) c5.1);
        printed =
            c6.1
            ∙ ap (λ (t : List Text). t ++ success r4.value.1 ∷ [])
                (sym (ap (λ (v : World S). v.stdout) c5.1)
                  ∙ c4.1
                  ∙ sym (ap (λ (v : World S). v.stdout) c3.1)
                  ∙ q2
                  ∙ q1);
      }
