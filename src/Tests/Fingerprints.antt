-- ===== src/Tests/Fingerprints.antt =====
-- Runs of `getCertificates` of cmd/notation/inspect.go, with a hash that has the length of SHA-1.
use notation.Base.{◌≡◌, refl, ℕ, zero, suc, [], ◌∷◌, none, All, replicate, Text}
use notation.Inspect.Output.{Time, ChainCertificate, EnvelopeContent, get_certificates}
use notation.Inspect.Fingerprints.{
  IsByte, HasHexDigits, sums, get_certificates-digits, get_certificates-same,
}

abbrev sha1 : Text → Text
sha1 t = replicate 20 0xaf

bytes : (n : ℕ) → All IsByte (replicate n 0xaf)
bytes zero = tt
bytes (suc n) = (refl, bytes n)

sha1-bytes : (t : Text) → All IsByte (sha1 t)
sha1-bytes t = bytes 20

abbrev never : Time
never = record { rfc3339 = []; ansic = [] }

abbrev certificate : Text → ChainCertificate
certificate raw = record { raw = raw; subject = []; issuer = []; not_after = never }

abbrev content : Text → EnvelopeContent
content raw = record {
  payload = record { content_type = []; content = [] };
  signature_algorithm = 1;
  signing_scheme = [];
  signing_time = never;
  expiry = never;
  extended_attributes = [];
  timestamp_signature = none;
  signing_agent = [];
  certificate_chain = certificate raw ∷ [];
}

get_certificates-digits_example : All HasHexDigits (get_certificates sha1 [] (content []))
get_certificates-digits_example =
    get_certificates-digits sha1 sha1-bytes [] (λ t. refl) (content [])

get_certificates-same_applied : sums sha1 (content []) ≡ sums sha1 (content (b'x' ∷ []))
unfolding get_certificates
get_certificates-same_applied =
    get_certificates-same sha1 sha1-bytes [] (content []) (content (b'x' ∷ [])) refl
