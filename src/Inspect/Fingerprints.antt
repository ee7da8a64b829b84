-- ===== src/Inspect/Fingerprints.antt =====
-- The fingerprints of the certificates that `notation inspect` displays.
use Prim.Native.Nat.{◌*◌, ◌/◌, ◌%◌}
use notation.Base.{
  ◌≡◌, refl, ap, ◌∙◌, true, ◌&&◌, ◌||◌, ℕ, List, [], ◌∷◌, All, length, ltb, leb, arith, Text, map,
}
use notation.Base.Strings.{to_lower, lower_byte}
use notation.Base.Encodings.{hex, hex_digit}
use notation.Inspect.Output.{
  ChainCertificate, CertificateOutput, EnvelopeContent, certificate_outputs, get_certificates,
}

-- A byte, and a digit of lower-case hexadecimal.
abbrev pub IsByte : ℕ → Type 0
IsByte x = ltb x 256 ≡ true

abbrev pub IsHexDigit : ℕ → Type 0
IsHexDigit c = (leb b'0' c && leb c b'9' || leb b'a' c && leb c b'f') ≡ true

abbrev pub HasHexDigits : CertificateOutput → Type 0
HasHexDigits cert = (length cert.sha1_fingerprint ≡ 40) × All IsHexDigit cert.sha1_fingerprint

hex-length : (s : Text) → length (to_lower (hex s)) ≡ 2 * length s
unfolding hex to_lower
hex-length [] = refl
hex-length (x ∷ s) = omega (arith, hex-length s)

digit-IsHexDigit : (d : ℕ) → ltb d 16 ≡ true → IsHexDigit (lower_byte (hex_digit d))
unfolding lower_byte hex_digit
digit-IsHexDigit d h = ground arith

hex-digits : (s : Text) → All IsByte s → All IsHexDigit (to_lower (hex s))
unfolding hex to_lower
hex-digits [] h = tt
hex-digits (x ∷ s) (b, h) = (
  digit-IsHexDigit (x / 16) (ground arith),
  (digit-IsHexDigit (x % 16) (ground arith), hex-digits s h),
)

digit-same :
    (d e : ℕ)
    → ltb d 16 ≡ true
    → ltb e 16 ≡ true
    → lower_byte (hex_digit d) ≡ lower_byte (hex_digit e)
    → d ≡ e
unfolding lower_byte hex_digit
digit-same d e h k same = ground arith

-- Hexadecimal tells two texts of bytes apart.
hex-same : (s t : Text) → All IsByte s → All IsByte t → to_lower (hex s) ≡ to_lower (hex t) → s ≡ t
unfolding hex to_lower
hex-same [] [] h k same = refl
hex-same [] (y ∷ t) h k same = absurd (cc)
hex-same (x ∷ s) [] h k same = absurd (cc)
hex-same (x ∷ s) (y ∷ t) (b, h) (c, k) same =
    let high : x / 16 ≡ y / 16 = digit-same (x / 16) (y / 16) (ground arith) (ground arith) (cc) in
    let low : x % 16 ≡ y % 16 = digit-same (x % 16) (y % 16) (ground arith) (ground arith) (cc) in
    let rest : s ≡ t = hex-same s t h k (cc) in let first : x ≡ y = omega arith in cc

-- The fingerprints that are displayed, and the SHA-1 sums of the chain.
abbrev pub fingerprints : List CertificateOutput → List Text
fingerprints = map (λ (cert : CertificateOutput). cert.sha1_fingerprint)

abbrev pub sums : (Text → Text) → EnvelopeContent → List Text
sums sha1 content = map (λ (cert : ChainCertificate). sha1 cert.raw) content.certificate_chain

module _ (sha1 : Text → Text) (sum_bytes : (t : Text) → All IsByte (sha1 t))
    (output_format : Text) where
  module _ (sum_length : (t : Text) → length (sha1 t) ≡ 20) where
    chain_digits :
        (chain : List ChainCertificate)
        → All HasHexDigits (certificate_outputs sha1 output_format chain)
    unfolding certificate_outputs
    chain_digits [] = tt
    chain_digits (cert ∷ chain) = (
      (
        hex-length (sha1 cert.raw) ∙ ap (λ n. 2 * n) (sum_length cert.raw),
        hex-digits (sha1 cert.raw) (sum_bytes cert.raw),
      ),
      chain_digits chain,
    )

    -- Where SHA-1 gives 20 bytes, as it does, every fingerprint that `getCertificates` displays
    -- has 40 digits of lower-case hexadecimal.
    pub get_certificates-digits :
        (content : EnvelopeContent) → All HasHexDigits (get_certificates sha1 output_format content)
    unfolding get_certificates
    get_certificates-digits content = chain_digits content.certificate_chain

  chain_same :
      (chain chain' : List ChainCertificate)
      → fingerprints (certificate_outputs sha1 output_format chain)
        ≡ fingerprints (certificate_outputs sha1 output_format chain')
      → map (λ (cert : ChainCertificate). sha1 cert.raw) chain
        ≡ map (λ (cert : ChainCertificate). sha1 cert.raw) chain'
  unfolding certificate_outputs
  chain_same [] [] same = refl
  chain_same [] (cert' ∷ chain') same = absurd (cc)
  chain_same (cert ∷ chain) [] same = absurd (cc)
  chain_same (cert ∷ chain) (cert' ∷ chain') same =
      let first : sha1 cert.raw ≡ sha1 cert'.raw =
        hex-same (sha1 cert.raw) (sha1 cert'.raw) (sum_bytes cert.raw) (sum_bytes cert'.raw) (cc) in
      let rest = chain_same chain chain' (cc) in cc

  -- Two chains of certificates are displayed with the same fingerprints only if their SHA-1 sums
  -- are the same, one by one.
  pub get_certificates-same :
      (content content' : EnvelopeContent)
      → fingerprints (get_certificates sha1 output_format content)
        ≡ fingerprints (get_certificates sha1 output_format content')
      → sums sha1 content ≡ sums sha1 content'
  unfolding get_certificates
  get_certificates-same content content' same =
      chain_same content.certificate_chain content'.certificate_chain same
