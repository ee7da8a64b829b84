-- ===== src/Envelope.antt =====
-- internal/envelope/envelope.go: signature formats and the payload of a signature. The media types
-- of the envelopes and the decoding of JSON are parameters.
use notation.Base.{
  Option, none, some, ◌++◌, ◌==◌, text_eq, if◌then◌else◌, Text, codes, Result, ok, err, new,
}
use notation.Base.Strings.{quote}
use notation.Base.Exec.{and_then}
use notation.Manifest.{Descriptor}

abbrev pub jws : Text
jws = codes "jws"

abbrev pub cose : Text
cose = codes "cose"

abbrev pub media_type_payload_v1 : Text
media_type_payload_v1 = codes "application/vnd.cncf.notary.payload.v1+json"

-- jws.MediaTypeEnvelope and cose.MediaTypeEnvelope of notation-core-go
pub record EnvelopeTypes : Type 0 where
  pub jws_type : Text
  pub cose_type : Text

-- `GetEnvelopeMediaType`
unfoldable pub get_envelope_media_type : EnvelopeTypes → Text → Result Text
get_envelope_media_type types sig_format =
    if sig_format == jws
    then ok types.jws_type
    else if sig_format == cose
    then ok types.cose_type
    else err (new (codes "signature format " ++ quote sig_format ++ codes " not supported"))

-- signature.Payload of notation-core-go
pub record Payload : Type 0 where
  pub content_type : Text
  pub content : Text

-- `ValidatePayloadContentType`
unfoldable pub validate_payload_content_type : Payload → Result (Unit {0})
validate_payload_content_type payload =
    if payload.content_type == media_type_payload_v1
    then ok tt
    else err (
        new (codes "payload content type " ++ quote payload.content_type ++ codes " not supported"))

-- `DescriptorFromSignaturePayload`; `unmarshal` is json.Unmarshal into a `Payload`, and nil is
-- none.
unfoldable pub descriptor_from_signature_payload :
    (Text → Result Descriptor) → Option Payload → Result Descriptor
unfolding validate_payload_content_type
descriptor_from_signature_payload unmarshal none = err (new (codes "empty payload"))
descriptor_from_signature_payload unmarshal (some payload) =
    and_then (validate_payload_content_type payload) λ _. elim (unmarshal payload.content) [
      | ok desc ↦ ok desc
      | err e ↦ err (new (codes "failed to unmarshall the payload content to Payload"))
    ]
