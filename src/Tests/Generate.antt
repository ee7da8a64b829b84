-- ===== src/Tests/Generate.antt =====
-- A run of cmd/notation/cert/generateTest.go. Keys are texts, and the configuration is in "/c".
use notation.Base.{◌≡◌, refl, false, none, some, [], ◌∷◌, Text, codes, ok, bytes_eq}
use notation.Base.Exec.{World, ◌>>=◌}
use notation.Disk.{
  Disk, directory, file, look, write, create, mkdir_all, stat, copy_to_dir, copy, chmod, open_file,
}
use notation.Disk.Paths.{FilePath, dir, paths_eq, join, is_valid_file_name, base}
use notation.Disk.Files.{write_file_with_permission, write_to, create_new}
use notation.Signer.{SigningKeys}
use notation.Keys.{KeyLib}
use notation.TrustStore.{
  TrustLib, Certificate, add_cert, check_store, refuse_existing, read_certs, is_valid_store_type,
  sys_path_or_fail,
}
use notation.Cert.Generate.{GenerateLib, CertGenerateTestOpts, generate_test_cert, write_pair}
use notation.Cert.Fresh.{IsRefusal, generate_test_cert-IsRefusal}

abbrev config : FilePath
config = (b'c' ∷ []) ∷ []

abbrev certificate : Certificate
certificate = record {
  issuer = [];
  subject = [];
  not_before = [];
  not_after = [];
  is_ca = [];
  sha1_thumbprint = [];
}

abbrev trust : TrustLib
trust = record {
  types = codes "ca" ∷ [];
  abs = λ t. ok (t ∷ config);
  sys_path = λ items. (join config items, none);
  read_certificate_file = λ path disk. ok (certificate ∷ []);
  denied = λ op path. none;
  input = ok none;
}

abbrev no_keys : SigningKeys
no_keys = record { default_key = none; keys = [] }

-- The configuration of the signing keys is not on this disk.
abbrev keys : KeyLib Disk
keys = record {
  load_exec_save = λ f s. let ((r, left), s') = f no_keys s in (r, s');
  load_signing_keys = λ s. (ok no_keys, s);
  add_plugin = λ key_name id plugin plugin_config is_default left s. ((ok tt, left), s);
  update_default = λ key_name left. (ok tt, left);
  remove = λ names left. (ok names, left);
}

abbrev lib : GenerateLib Text
lib = record {
  keys = keys;
  generate_key = λ bits. ok (b'k' ∷ []);
  marshal_pkcs8 = λ key. ok key;
  pem_encode = λ kind bytes. bytes;
  self_signed = λ key name. record { raw = name; not_after = [] };
  local_key_path = λ name. (b'p' ∷ name, b'q' ∷ name);
  add = λ name key_path cert_path is_default left s. ((ok tt, left), s);
}

abbrev opts : CertGenerateTestOpts
opts = record { name = b'n' ∷ []; bits = 8; is_default = false }

abbrev show_path : FilePath → Text
show_path [] = []
show_path (c ∷ p) = c

abbrev start : World Disk
start = record { stdout = []; stderr = []; transport = none; ext = (config, directory) ∷ [] }

-- The key file of the name is there.
abbrev with_key : World Disk
with_key = record start {
  ext = (join config ((b'p' ∷ b'n' ∷ []) ∷ []), file (b'k' ∷ [])) ∷ start.ext;
}

key_there : look (join config ((b'p' ∷ b'n' ∷ []) ∷ [])) with_key.ext ≡ some (file (b'k' ∷ []))
unfolding look paths_eq bytes_eq join
key_there = refl

generate_test_cert-IsRefusal_example :
    IsRefusal (generate_test_cert lib trust show_path opts) with_key
generate_test_cert-IsRefusal_example =
    generate_test_cert-IsRefusal lib trust show_path opts with_key (file (b'k' ∷ [])) key_there

abbrev generated : World Disk
generated = (generate_test_cert lib trust show_path opts start).1

generate : generate_test_cert lib trust show_path opts start ≡ (ok tt, generated)
unfolding generate_test_cert ◌>>=◌ write_pair write_file_with_permission write_to create_new look
    write create mkdir_all bytes_eq paths_eq dir join is_valid_file_name codes add_cert check_store
    refuse_existing read_certs is_valid_store_type sys_path_or_fail stat base copy_to_dir open_file
    chmod copy
generate = refl
