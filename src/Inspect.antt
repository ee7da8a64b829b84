-- ===== src/Inspect.antt =====
-- cmd/notation/inspect.go: `notation inspect`. Envelopes are parsed by notation-core-go,
-- algorithms named by notation-go, and JSON written by encoding/json: parameters.
pub mod Output
pub mod Laws
pub mod Readings
pub mod Shown
pub mod Fingerprints
use notation.Base.{
  ℕ, Bool, true, false, not, ◌&&◌, some, List, [], ◌∷◌, ◌++◌, map, ◌==◌, text_eq, Text, codes,
  Result, ok, err, new,
}
use notation.Base.Errors.{Fault, error_text}
use notation.Base.Exec.{
  Cmd, pure, fail, lift, act, warn, print, print_all, and_then, branch, fail_if, ◌>>=◌, ◌>>◌,
}
use notation.Flags.{LoggingFlagOpts, set_logger_level}
use notation.Envelope.{descriptor_from_signature_payload}
use notation.Manifest.{
  Pages, stop, hand_over, Descriptor, Repository, registry_input, resolve_reference,
}
use notation.Remote.{SecureFlagOpts, RegistryLib, Settings}
use notation.Registry.{get_remote_repository}
use notation.Inspect.Output.{
  EnvelopeContent, SignatureOutput, InspectOutput, output_json, output_plaintext,
  get_signed_attributes, get_unsigned_attributes, get_certificates, output_tree,
}
use notation.Tree.{print_tree}

-- `inspectOpts`
pub record InspectOpts : Type 0 where
  pub logging : LoggingFlagOpts
  pub secure : SecureFlagOpts
  pub reference : Text
  pub output_format : Text

-- `Args` of the command
unfoldable pub inspect_args : List Text → InspectOpts → Result InspectOpts
inspect_args [] opts = err (new (codes "missing reference"))
inspect_args (reference ∷ rest) opts = ok (record opts { reference = reference })

-- The outside world of `notation inspect`.
pub record InspectLib (S Envelope : Type 0) : Type 0 where
  pub registry : RegistryLib S
  pub stat_is_dir : Text → S → Result Bool
  pub is_digest : Text → Bool
  -- registry.ArtifactTypeNotation of notation-go
  pub artifact_type : Text
  -- signature.ParseEnvelope from the media type, and Content
  pub parse_envelope : Text → Text → Result Envelope
  pub content : Envelope → Result EnvelopeContent
  -- json.Unmarshal of a payload
  pub unmarshal : Text → Result Descriptor
  -- proto.EncodeSigningAlgorithm
  pub encode_signing_algorithm : ℕ → Result Text
  -- sha1.Sum
  pub sha1 : Text → Text
  -- json.MarshalIndent
  pub marshal_indent : InspectOutput → Result Text

-- `output.Signatures` and `skippedSignatures`
pub record Collected : Type 0 where
  pub signatures : List SignatureOutput
  pub skipped : Bool

abbrev pub line : Text → Text
line t = t ++ 10 ∷ []

-- The warning for a tag.
pub tag_warning : Text → Text
tag_warning ref =
    codes "Warning: Always inspect the artifact using digest(@sha256:...) rather than a tag(:"
    ++ ref
    ++ codes
        ") because resolved digest may not point to the same signed artifact, as tags are mutable.\n"

pub fetch_warning : Descriptor → Fault → Text
fetch_warning desc e =
    codes "Warning: unable to fetch signature "
    ++ desc.digest
    ++ codes " due to error: "
    ++ error_text e
    ++ 10 ∷ []

-- `logSkippedSignature`
pub skip_warning : Descriptor → Fault → Text
skip_warning desc e =
    codes "Warning: Skipping signature "
    ++ desc.digest
    ++ codes " because of error: "
    ++ error_text e
    ++ 10 ∷ []

module _ {S Envelope : Type 0} (lib : InspectLib S Envelope) where
  -- From a fetched blob to what is displayed of it; each error skips the signature.
  unfoldable pub read_signature : Text → Descriptor → Text × Descriptor → Result SignatureOutput
  read_signature output_format sig_manifest_desc (sig_blob, sig_desc) =
      and_then (lib.parse_envelope sig_desc.media_type sig_blob) λ sig_envelope.
        and_then (lib.content sig_envelope) λ content.
          and_then (descriptor_from_signature_payload lib.unmarshal (some content.payload))
            λ artifact.
              and_then (lib.encode_signing_algorithm content.signature_algorithm) λ algorithm.
                ok (record {
                  media_type = sig_desc.media_type;
                  digest = sig_manifest_desc.digest;
                  signature_algorithm = algorithm;
                  signed_attributes = get_signed_attributes output_format content;
                  user_defined_attributes = artifact.annotations;
                  unsigned_attributes = get_unsigned_attributes content;
                  certificates = get_certificates lib.sha1 output_format content;
                  signed_artifact = record artifact { annotations = [] };
                })

  -- What the loop adds to its variables for a fetched blob.
  unfoldable pub add_reading : Descriptor → Result SignatureOutput → Collected → Cmd S Collected
  add_reading desc (ok sig) c w = (ok (record c { signatures = c.signatures ++ sig ∷ [] }), w)
  add_reading desc (err e) c w =
      (ok (record c { skipped = true }), record w { stderr = w.stderr ++ skip_warning desc e ∷ [] })

  unfoldable pub add_fetched :
      Text → Descriptor → Result (Text × Descriptor) → Collected → Cmd S Collected
  unfolding read_signature add_reading
  add_fetched output_format desc (err e) c w = (
    ok (record c { skipped = true }),
    record w { stderr = w.stderr ++ fetch_warning desc e ∷ [] },
  )
  add_fetched output_format desc (ok blob) c w =
      add_reading desc (read_signature output_format desc blob) c w

  -- The body of the loop over a page.
  unfoldable pub on_signature : Text → Repository S → Collected → Descriptor → Cmd S Collected
  unfolding add_fetched
  on_signature output_format sig_repo c desc w =
      let (r, s) = sig_repo.fetch_signature_blob desc w.ext in
      add_fetched output_format desc r c (record w { ext = s })

  -- The callback.
  unfoldable pub on_page : Text → Repository S → Collected → List Descriptor → Cmd S Collected
  on_page output_format sig_repo c [] = pure c
  on_page output_format sig_repo c (desc ∷ page) = do
    c' ← on_signature output_format sig_repo c desc
    on_page output_format sig_repo c' page

  -- The pages, each with the callback, and what the listing ends with.
  unfoldable pub on_pages : Text → Repository S → Collected → Pages S → Cmd S Collected
  on_pages output_format sig_repo c (stop r s) w = (do lift r; pure c) (record w { ext = s })
  on_pages output_format sig_repo c (hand_over descs s next) w =
      (on_page output_format sig_repo c descs >>= λ c' w'.
      on_pages output_format sig_repo c' (next w'.ext) w')
        (record w { ext = s })

  -- sigRepo.ListSignatures with the callback.
  unfoldable pub list_and_read : Text → Repository S → Descriptor → Cmd S Collected
  unfolding on_pages
  list_and_read output_format sig_repo desc w =
      on_pages output_format sig_repo (record { signatures = []; skipped = false })
        (sig_repo.list_signatures desc w.ext) w

  -- `PrintObjectAsJSON` of internal/ioutil/print.go
  abbrev pub print_object_as_json : InspectOutput → Cmd S (Unit {0})
  print_object_as_json output = do text ← lift (lib.marshal_indent output); print (line text)

  abbrev pub print_as_tree : Text → InspectOutput → Cmd S (Unit {0})
  print_as_tree ref output = do
    print (codes "Inspecting all signatures for signed artifact\n")
    print_all (map line (print_tree (output_tree lib.artifact_type ref output)))

  -- `printOutput`
  unfoldable pub print_output : Text → Text → InspectOutput → Cmd S (Unit {0})
  print_output output_format ref output =
      branch (output_format == output_json) (print_object_as_json output) (print_as_tree ref output)

  -- `runInspect`
  unfoldable pub run_inspect : Settings → InspectOpts → Cmd S (Unit {0})
  run_inspect settings opts = do
    fail_if
        (not (opts.output_format == output_json) && not (opts.output_format == output_plaintext))
        (new (codes "unrecognized output format " ++ opts.output_format))
    sig_repo ←
        get_remote_repository lib.registry settings (set_logger_level opts.logging) opts.secure
          opts.reference
    resolved ←
        resolve_reference lib.registry.parse_reference lib.stat_is_dir lib.is_digest registry_input
          opts.reference sig_repo (some (λ ref desc. warn (tag_warning ref)))
    c ← list_and_read opts.output_format sig_repo resolved.0
    print_output opts.output_format resolved.1
        (record { media_type = resolved.0.media_type; signatures = c.signatures })
    fail_if c.skipped (new (codes "at least one signature was skipped and not displayed"))
