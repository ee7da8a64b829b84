-- ===== src/Sign/Progress.antt =====
-- When `notation sign` gets to the end.
use notation.Base.{
  ◌≡◌, refl, ap, ◌∙◌, Bool, true, false, List, [], ◌∷◌, ◌++◌, is_empty, ◌==◌, text_eq, arith,
  if◌then◌else◌, Text, codes, ok, ◌||◌, Bool-cases, inl, inr,
}
use notation.Base.Exec.{World, bind-ok, fail_if-ok}
use notation.Flags.{set_logger_level}
use notation.Flags.Laws.{parse_flag_map-total}
use notation.Manifest.{Descriptor, Reference, Repository, registry_input}
use notation.Manifest.Laws.{resolve_reference-registry}
use notation.Remote.{Remote, Settings, set_http_debug_log}
use notation.Registry.Progress.{HasConfig, plain_known, flag_remote, get_repository_for_sign-flags}
use notation.Base.Quiet.{Quiet-stdout}
use notation.Signer.{get_signer}
use notation.Signer.Quiet.{get_signer-Quiet}
use notation.Envelope.{EnvelopeTypes, jws, cose, get_envelope_media_type}
use notation.Sign.{
  SignOpts, SignOptions, SignLib, prepare_signing_opts, signature_manifest_image, success, conclude,
  run_sign, sign_run, tag_warning,
}
use notation.Sign.Failures.{IsAccepted}

media_type-known :
    (types : EnvelopeTypes) (format : Text)
    → (format == jws || format == cose) ≡ true
    → (t : Text) × (get_envelope_media_type types format ≡ ok t)
unfolding get_envelope_media_type
media_type-known types format known = elim (Bool-cases (format == jws)) [
  | inl is_jws ↦ (types.jws_type, rw is_jws refl)
  | inr is_cose ↦ (types.cose_type, ground arith)
]

prepare-accepted :
    (types : EnvelopeTypes) (opts : SignOpts)
    → IsAccepted opts
    → (options : SignOptions) × (prepare_signing_opts types opts ≡ ok options)
unfolding prepare_signing_opts
prepare-accepted types opts a =
    let plugin_config =
      parse_flag_map-total opts.plugin_config (codes "plugin-config") a.plugin_config in
    let user_metadata =
      parse_flag_map-total opts.user_metadata (codes "user-metadata") a.user_metadata in
    let media_type = media_type-known types opts.signer.signature_format a.format in
    (
      record {
        artifact_reference = [];
        signature_media_type = media_type.0;
        expiry_duration = opts.expiry;
        plugin_config = plugin_config.0;
        user_metadata = user_metadata.0;
      },
      rw (media_type.1, plugin_config.1, user_metadata.1) refl,
    )

concluded :
    {S : Type 0} (image : Bool) (ref : Text) (w : World S)
    → conclude image ref (ok tt) w ≡ (ok tt, record w { stdout = w.stdout ++ success ref ∷ [] })
unfolding conclude
concluded image ref w = refl

module _ {S Plugin Signer : Type 0} (lib : SignLib S Plugin Signer) (settings : Settings)
    (opts : SignOpts) (w : World S) where
  -- What `notation sign` asks of the outside for a reference to a registry, a credential and an
  -- image manifest of the flags; the config was loaded, unless the flag --plain-http is given.
  pub record IsAnswered : Type 0 where
    pub registry : opts.input_type ≡ registry_input
    pub image : (opts.signature_manifest == signature_manifest_image) ≡ true
    pub config : HasConfig settings opts.secure
    pub username : is_empty opts.secure.username ≡ false
    pub reference : is_empty opts.reference ≡ false
    pub signer : Signer
    pub ready : World S
    pub gets_signer : get_signer lib.signers opts.signer w ≡ (ok signer, ready)
    pub ref : Reference
    pub parses : lib.registry.parse_reference opts.reference ≡ ok ref
    pub tagged : is_empty ref.reference ≡ false
    pub desc : Descriptor
    pub resolves :
        (remote : Remote)
        → remote.reference ≡ ref
        → ((lib.registry.new_repository remote true).resolve ref.reference ready.ext).0 ≡ ok desc
    pub signs :
        (repo : Repository S) (options : SignOptions) (s : S)
        → options.artifact_reference ≡ desc.digest
        → (lib.sign signer repo options s).0 ≡ ok tt

  -- For a reference to a registry, with a user name and the image manifest among flags that can
  -- be accepted, and where --plain-http is given or config.json could be loaded: if a signer is found, the reference is parsed and resolved and notation.Sign
  -- accepts the resolved digest, then `notation sign` gets to its end without an error, and
  -- prints its success message with that digest.
  pub sign_run-success :
      IsAccepted opts
      → (a : IsAnswered)
      → (w' : World S) × (sign_run lib settings opts w ≡ (ok tt, w'))
        × (w'.stdout
            ≡ w.stdout
              ++ success ((a.ref.registry ++ b'/' ∷ a.ref.repository) ++ b'@' ∷ a.desc.digest) ∷ [])
  unfolding sign_run run_sign
  sign_run-success accepted a =
      let ref = a.ref in
      let options = prepare-accepted lib.envelopes opts accepted in
      let plain = plain_known settings opts.secure ref.registry a.config in
      let remote =
        flag_remote lib.registry settings (set_logger_level opts.logging) opts.secure ref plain.0 in
      let repo = lib.registry.new_repository remote true in
      let w2 : World S = record a.ready {
        transport = set_http_debug_log (set_logger_level opts.logging) a.ready.transport;
      } in
      let found = a.resolves remote refl in
      let resolved = (ref.registry ++ b'/' ∷ ref.repository) ++ b'@' ∷ a.desc.digest in
      let w3 : World S = record w2 {
        stderr =
            w2.stderr
            ++ (if lib.is_digest ref.reference then [] else tag_warning ref.reference ∷ []);
        ext = (repo.resolve ref.reference w2.ext).1;
      } in
      let final = record options.0 { artifact_reference = a.desc.digest } in
      let w4 : World S = record w3 { ext = (lib.sign a.signer repo final w3.ext).1 } in
      (
        record w4 { stdout = w4.stdout ++ success resolved ∷ [] },
        bind-ok _ _ w tt w (fail_if-ok _ _ w (rw accepted.manifest refl))
            ∙ bind-ok _ _ w a.signer a.ready a.gets_signer
            ∙ bind-ok _ _ a.ready repo w2 (
                rw (a.registry, a.image)
                  (get_repository_for_sign-flags lib.registry settings
                    (set_logger_level opts.logging) opts.secure opts.reference ref plain.0 a.ready
                    a.username a.parses plain.1))
            ∙ bind-ok _ _ w2 options.0 w2 (rw options.1 refl)
            ∙ bind-ok _ _ w2 (a.desc, resolved) w3
                (rw a.registry (
                  resolve_reference-registry lib.registry.parse_reference lib.stat_is_dir
                    lib.is_digest repo opts.reference tag_warning w2 a.reference a.parses a.tagged
                    found))
            ∙ bind-ok _ _ w3 (ok tt) w4 (rw (a.signs repo final w3.ext refl) refl)
            ∙ concluded (opts.signature_manifest == signature_manifest_image) resolved w4,
        ap (λ (t : List Text). t ++ success resolved ∷ [])
            (Quiet-stdout w (get_signer-Quiet lib.signers opts.signer) a.gets_signer),
      )
