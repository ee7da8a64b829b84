-- ===== src/Tests/Keeping.antt =====
-- A run of `notation cert add` that fails, as there is a certificate of that name already.
use notation.Base.{◌≡◌, refl, some, none, [], ◌∷◌, codes, Text, ok, bytes_eq}
use notation.Base.Exec.{World}
use notation.Disk.{Disk, file, look}
use notation.Disk.Paths.{FilePath, join, paths_eq}
use notation.TrustStore.{TrustLib, Certificate, store_items}
use notation.Cert.{CertAddOpts, add_certs}
use notation.Cert.Keeping.{add_certs-kept}

abbrev config : FilePath
config = (b'c' ∷ []) ∷ []

abbrev source : Text
source = b's' ∷ []

abbrev certificate : Certificate
certificate = record {
  issuer = [];
  subject = [];
  not_before = [];
  not_after = [];
  is_ca = [];
  sha1_thumbprint = [];
}

abbrev lib : TrustLib
lib = record {
  types = codes "ca" ∷ [];
  abs = λ t. ok (t ∷ config);
  sys_path = λ items. (join config items, none);
  read_certificate_file = λ path disk. ok (certificate ∷ []);
  denied = λ op path. none;
  input = ok none;
}

-- The certificate in the named store "a", beside the one that is to be added.
abbrev target : FilePath
target = source ∷ join config (store_items (codes "ca") (b'a' ∷ []))

abbrev stored : Disk
stored = (target, file (b'o' ∷ [])) ∷ (source ∷ config, file (b'n' ∷ [])) ∷ []

abbrev start : World Disk
start = record { stdout = []; stderr = []; transport = none; ext = stored }

abbrev opts : CertAddOpts
opts = record { store_type = codes "ca"; named_store = b'a' ∷ []; path = source ∷ [] }

there : look target stored ≡ some (file (b'o' ∷ []))
unfolding look paths_eq bytes_eq join codes
there = refl

add_certs-kept_example : look target (add_certs lib opts start).1.ext ≡ some (file (b'o' ∷ []))
add_certs-kept_example =
    add_certs-kept lib opts start (add_certs lib opts start).1 (add_certs lib opts start).0 target
      (file (b'o' ∷ [])) (λ p. refl) refl there
