-- ===== src/Cert/Generate.antt =====
-- cmd/notation/cert/generateTest.go. The keys, the certificates and their encodings are those of
-- the Go library and of notation-core-go's testhelper, the places of the files and the list of
-- signing keys notation-go's: parameters.
use notation.Base.{
  Bool, true, false, not, List, [], ◌∷◌, ◌++◌, ℕ, Text, codes, Result, ok, err, new,
}
use notation.Base.Errors.{error_text}
use notation.Base.Exec.{Cmd, lift, act, print, done, branch, fail_if, and_then, ◌>>=◌, ◌>>◌}
use notation.Base.Encodings.{decimal}
use notation.Disk.{Disk}
use notation.Disk.Files.{write_file_with_permission}
use notation.Disk.Paths.{FilePath, is_valid_file_name}
use notation.Keys.{Exec, KeyLib}
use notation.TrustStore.{TrustLib, add_cert, sys_path_or_fail}

-- `certGenerateTestOpts`, with a number of bits that is not negative
pub record CertGenerateTestOpts : Type 0 where
  pub name : Text
  pub bits : ℕ
  pub is_default : Bool

-- `Args` of `notation cert generate-test`
unfoldable pub generate_test_args : List Text → CertGenerateTestOpts → Result CertGenerateTestOpts
generate_test_args [] opts = err (new (codes "missing certificate common_name"))
generate_test_args (arg ∷ args) opts = ok (record opts { name = arg })

-- A self-signed certificate: its DER bytes, and the end of its validity as it is printed.
pub record RsaCertTuple : Type 0 where
  pub raw : Text
  pub not_after : Text

pub record GenerateLib (PrivateKey : Type 0) : Type 1 where
  pub keys : KeyLib Disk
  -- rsa.GenerateKey, with the random bytes of this run
  pub generate_key : ℕ → Result PrivateKey
  pub marshal_pkcs8 : PrivateKey → Result Text
  -- pem.EncodeToMemory of a type and bytes
  pub pem_encode : Text → Text → Text
  pub self_signed : PrivateKey → Text → RsaCertTuple
  -- dir.LocalKeyPath: the paths of the key and of its certificate
  pub local_key_path : Text → Text × Text
  -- The Add of the signing keys
  pub add : Text → FilePath → FilePath → Bool → Exec Disk (Unit {0})

-- `fmt.Errorf(prefix + "%v", err)`
unfoldable pub or_reason : Text → Cmd Disk (Unit {0}) → Cmd Disk (Unit {0})
or_reason prefix m w =
    let (r, w') = m w in
    elim r [ ok u ↦ (ok u, w') | err e ↦ (err (new (prefix ++ error_text e)), w') ]

module _ {PrivateKey : Type 0} (lib : GenerateLib PrivateKey) where
  -- `generateTestKey`
  unfoldable pub generate_test_key : ℕ → Result (PrivateKey × Text)
  generate_test_key bits = and_then (lib.generate_key bits) (λ key.
      and_then (lib.marshal_pkcs8 key)
        (λ key_bytes. ok (key, lib.pem_encode (codes "PRIVATE KEY") key_bytes)))

  -- `generateCertPEM`
  unfoldable pub generate_cert_pem : RsaCertTuple → Text
  generate_cert_pem tuple = lib.pem_encode (codes "CERTIFICATE") tuple.raw

  -- `generateSelfSignedCert`
  unfoldable pub generate_self_signed_cert : PrivateKey → Text → RsaCertTuple × Text
  unfolding generate_cert_pem
  generate_self_signed_cert key name =
      (lib.self_signed key name, generate_cert_pem (lib.self_signed key name))

  -- The two files, the key first.
  unfoldable pub write_pair :
      TrustLib → (FilePath → Text) → FilePath → FilePath → Text → Text → Cmd Disk (Unit {0})
  unfolding or_reason
  write_pair trust show_path key_path cert_path key_bytes cert_bytes = do
    or_reason (codes "failed to write key file: ")
        (write_file_with_permission trust.denied key_path key_bytes false)
    print (codes "wrote key: " ++ show_path key_path ++ 10 ∷ [])
    or_reason (codes "failed to write certificate file: ")
        (write_file_with_permission trust.denied cert_path cert_bytes false)
    print (codes "wrote certificate: " ++ show_path cert_path ++ 10 ∷ [])

  -- `generateTestCert`
  unfoldable pub generate_test_cert :
      TrustLib → (FilePath → Text) → CertGenerateTestOpts → Cmd Disk (Unit {0})
  unfolding generate_test_key generate_self_signed_cert write_pair
  generate_test_cert trust show_path opts = do
    fail_if (not (is_valid_file_name opts.name))
        (new (codes "name needs to follow [a-zA-Z0-9_.-]+ format"))
    print (codes "generating RSA Key with " ++ decimal opts.bits ++ codes " bits\n")
    key ← lift (generate_test_key opts.bits)
    print (
        codes "generated certificate expiring on "
        ++ (generate_self_signed_cert key.0 opts.name).0.not_after
        ++ 10 ∷ [])
    key_path ← sys_path_or_fail trust ((lib.local_key_path opts.name).0 ∷ [])
    cert_path ← sys_path_or_fail trust ((lib.local_key_path opts.name).1 ∷ [])
    write_pair trust show_path key_path cert_path key.1
        (generate_self_signed_cert key.0 opts.name).1
    act (lib.keys.load_exec_save (lib.add opts.name key_path cert_path opts.is_default))
    add_cert trust (show_path cert_path) (codes "ca") opts.name true
    print (opts.name ++ codes ": added to the key list\n")
    branch opts.is_default (print (opts.name ++ codes ": mark as default signing key\n")) done
