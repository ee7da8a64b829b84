-- ===== src/Inspect/Output.antt =====
-- What `notation inspect` displays of a signature: its attributes, its certificates and the tree.
use notation.Base.{
  ℕ, Option, none, some, List, [], ◌∷◌, is_empty, ◌==◌, text_eq, if◌then◌else◌, Text, codes,
}
use notation.Base.Dict.{Dict, insert}
use notation.Base.Encodings.{decimal, hex, base64}
use notation.Base.Strings.{to_lower}
use notation.Envelope.{Payload}
use notation.Manifest.{Descriptor}
use notation.Tree.{Node, new_node, add, add_pair, at_last}

-- `OutputPlaintext` and `OutputJSON` of internal/cmd/flags.go
abbrev pub output_plaintext : Text
output_plaintext = codes "text"

abbrev pub output_json : Text
output_json = codes "json"

-- time.Time, as the two layouts print it
pub record Time : Type 0 where
  pub rfc3339 : Text
  pub ansic : Text

-- x509.Certificate, as far as it is displayed
pub record ChainCertificate : Type 0 where
  pub raw : Text
  pub subject : Text
  pub issuer : Text
  pub not_after : Time

-- signature.EnvelopeContent of notation-core-go, the fields that are read. The extended attributes
-- are as fmt.Sprint prints them.
pub record EnvelopeContent : Type 0 where
  pub payload : Payload
  pub signature_algorithm : ℕ
  pub signing_scheme : Text
  pub signing_time : Time
  pub expiry : Time
  pub extended_attributes : List (Text × Text)
  pub timestamp_signature : Option Text
  pub signing_agent : Text
  pub certificate_chain : List ChainCertificate

-- `certificateOutput`
pub record CertificateOutput : Type 0 where
  pub sha1_fingerprint : Text
  pub issued_to : Text
  pub issued_by : Text
  pub expiry : Text

-- `signatureOutput`
pub record SignatureOutput : Type 0 where
  pub media_type : Text
  pub digest : Text
  pub signature_algorithm : Text
  pub signed_attributes : Dict
  pub user_defined_attributes : Dict
  pub unsigned_attributes : Dict
  pub certificates : List CertificateOutput
  pub signed_artifact : Descriptor

-- `inspectOutput`
pub record InspectOutput : Type 0 where
  pub media_type : Text
  pub signatures : List SignatureOutput

-- `formatTimestamp`
unfoldable pub format_timestamp : Text → Time → Text
format_timestamp output_format t = if output_format == output_json then t.rfc3339 else t.ansic

-- The loop over the extended attributes.
unfoldable pub insert_all : Dict → List (Text × Text) → Dict
insert_all m [] = m
insert_all m ((k, v) ∷ attributes) = insert_all (insert k v m) attributes

-- `getSignedAttributes`
unfoldable pub get_signed_attributes : Text → EnvelopeContent → Dict
unfolding format_timestamp insert_all
get_signed_attributes output_format content =
    insert_all
      ((codes "signingScheme", content.signing_scheme)
        ∷ (codes "signingTime", format_timestamp output_format content.signing_time)
        ∷ (codes "expiry", format_timestamp output_format content.expiry)
        ∷ [])
      content.extended_attributes

agent_attribute : Dict → Text → Dict
agent_attribute m agent = if is_empty agent then m else insert (codes "signingAgent") agent m

-- `getUnsignedAttributes`
unfoldable pub get_unsigned_attributes : EnvelopeContent → Dict
unfolding agent_attribute
get_unsigned_attributes content = elim content.timestamp_signature [
  | none ↦ agent_attribute [] content.signing_agent
  | some signature ↦
      agent_attribute ((codes "timestampSignature", base64 signature) ∷ []) content.signing_agent
]

unfoldable pub certificate_outputs :
    (Text → Text) → Text → List ChainCertificate → List CertificateOutput
unfolding format_timestamp
certificate_outputs sha1 output_format [] = []
certificate_outputs sha1 output_format (cert ∷ chain) =
    record {
      sha1_fingerprint = to_lower (hex (sha1 cert.raw));
      issued_to = cert.subject;
      issued_by = cert.issuer;
      expiry = format_timestamp output_format cert.not_after;
    }
    ∷ certificate_outputs sha1 output_format chain

-- `getCertificates`
unfoldable pub get_certificates : (Text → Text) → Text → EnvelopeContent → List CertificateOutput
unfolding certificate_outputs
get_certificates sha1 output_format content =
    certificate_outputs sha1 output_format content.certificate_chain

add_pairs : Node → Dict → Node
add_pairs n [] = n
add_pairs n ((k, v) ∷ m) = add_pairs (add_pair n k v) m

-- `addMapToTree`
unfoldable pub add_map_to_tree : Dict → Node → Node
unfolding add_pairs
add_map_to_tree [] n = add n (codes "(empty)")
add_map_to_tree (entry ∷ m) n = add_pairs n (entry ∷ m)

add_certificates : List CertificateOutput → Node → Node
add_certificates [] n = n
add_certificates (cert ∷ certs) n = add_certificates certs (
    at_last (add_pair n (codes "SHA1 fingerprint") cert.sha1_fingerprint) λ cert_node.
      add_pair
        (add_pair (add_pair cert_node (codes "issued to") cert.issued_to) (codes "issued by")
          cert.issued_by)
        (codes "expiry") cert.expiry)

add_artifact : Descriptor → Node → Node
add_artifact artifact n =
    add_pair
      (add_pair (add_pair n (codes "media type") artifact.media_type) (codes "digest")
        artifact.digest)
      (codes "size") (decimal artifact.size)

-- The children of a signature's node, in their order.
signature_details : SignatureOutput → Node → Node
unfolding add_certificates add_artifact
signature_details sig n0 =
    let n1 = add_pair n0 (codes "media type") sig.media_type in
    let n2 = add_pair n1 (codes "signature algorithm") sig.signature_algorithm in
    let n3 = at_last (add n2 (codes "signed attributes")) (add_map_to_tree sig.signed_attributes) in
    let n4 =
      at_last (add n3 (codes "user defined attributes"))
        (add_map_to_tree sig.user_defined_attributes) in
    let n5 =
      at_last (add n4 (codes "unsigned attributes")) (add_map_to_tree sig.unsigned_attributes) in
    let n6 = at_last (add n5 (codes "certificates")) (add_certificates sig.certificates) in
    at_last (add n6 (codes "signed artifact")) (add_artifact sig.signed_artifact)

-- The loop over the signatures.
unfoldable pub add_signatures : List SignatureOutput → Node → Node
unfolding signature_details
add_signatures [] n = n
add_signatures (sig ∷ sigs) n =
    add_signatures sigs (at_last (add n sig.digest) (signature_details sig))

-- The tree that `printOutput` builds.
unfoldable pub output_tree : Text → Text → InspectOutput → Node
unfolding add_signatures
output_tree artifact_type ref output =
    at_last (add (new_node ref) artifact_type) (add_signatures output.signatures)
