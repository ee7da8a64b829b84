-- ===== src/TrustStore.antt =====
-- cmd/notation/internal/truststore/truststore.go: certificates under
-- truststore/x509/<type>/<named store>. The reading of certificates is notation-core-go's, the
-- location of the configuration notation-go's: parameters.
pub mod Removal
pub mod Addition
pub mod Walk
use notation.Base.{
  Bool, not, Option, none, some, List, [], ◌∷◌, ◌++◌, is_empty, text_eq, contains, if◌then◌else◌,
  Text, codes, Result, ok, err, new,
}
use notation.Base.Strings.{quote}
use notation.Base.Errors.{Fault, is_not_exist}
use notation.Base.Exec.{Cmd, fail, lift, act, print, done, branch, fail_if, ◌>>=◌, ◌>>◌}
use notation.Confirm.{Input, ask_for_confirmation}
use notation.Disk.{Disk, Op, stat, remove, remove_all, copy_to_dir}
use notation.Disk.Paths.{FilePath, path_instance, base, is_valid_file_name}

-- `CheckNonErrNotExistError`
unfoldable pub check_non_err_not_exist_error : Option Fault → Result (Unit {0})
check_non_err_not_exist_error none = ok tt
check_non_err_not_exist_error (some e) = if is_not_exist e then ok tt else err e

-- truststore.Types of notation-go: the supported store types
unfoldable pub is_valid_store_type : List Text → Text → Bool
unfolding contains
is_valid_store_type types store_type = contains types store_type

-- x509.Certificate, the fields that are shown, as they are printed
pub record Certificate : Type 0 where
  pub issuer : Text
  pub subject : Text
  pub not_before : Text
  pub not_after : Text
  pub is_ca : Text
  pub sha1_thumbprint : Text

-- What lies outside of this file.
pub record TrustLib : Type 0 where
  pub types : List Text
  -- filepath.Abs, from the working directory
  pub abs : Text → Result FilePath
  -- dir.ConfigFS().SysPath: the path, and the error beside it
  pub sys_path : List Text → FilePath × Option Fault
  -- corex509.ReadCertificateFile
  pub read_certificate_file : FilePath → Disk → Result (List Certificate)
  pub denied : Op → FilePath → Option Fault
  -- the next line of stdin
  pub input : Input

abbrev pub store_items : Text → Text → List Text
store_items store_type named_store =
    codes "truststore" ∷ codes "x509" ∷ store_type ∷ named_store ∷ []

-- `showCert`: the lines that it prints
unfoldable pub show_cert : Certificate → List Text
show_cert c =
    (codes "Issuer: " ++ c.issuer ++ 10 ∷ [])
    ∷ (codes "Subject: " ++ c.subject ++ 10 ∷ [])
    ∷ (codes "Valid from: " ++ c.not_before ++ 10 ∷ [])
    ∷ (codes "Valid to: " ++ c.not_after ++ 10 ∷ [])
    ∷ (codes "IsCA: " ++ c.is_ca ++ 10 ∷ [])
    ∷ (codes "SHA1 Thumbprint: " ++ c.sha1_thumbprint ++ 10 ∷ [])
    ∷ []

abbrev separator : Text
separator =
    codes "--------------------------------------------------------------------------------\n"

show_each : List Certificate → List Text
show_each [] = []
show_each (c ∷ []) = show_cert c
show_each (c ∷ d ∷ cs) = show_cert c ++ separator ∷ show_each (d ∷ cs)

-- `ShowCerts`
unfoldable pub show_certs : List Certificate → List Text
unfolding show_cert show_each
show_certs certs = codes "Certificate details\n" ∷ separator ∷ show_each certs

module _ (lib : TrustLib) where
  -- os.Stat with a nil error means that the certificate is there.
  unfoldable pub refuse_existing : FilePath → Cmd Disk (Unit {0})
  refuse_existing path w = elim (stat lib.denied path w.ext).0 [
    | ok e ↦ (err (new (codes "certificate already exists in the Trust Store")), w)
    | err e ↦ (ok tt, w)
  ]

  unfoldable pub read_certs : FilePath → Cmd Disk (List Certificate)
  read_certs path w = (lib.read_certificate_file path w.ext, w)

  -- The checks of the arguments in `AddCert`.
  unfoldable pub check_store : Text → Text → Cmd Disk (Unit {0})
  unfolding is_valid_store_type
  check_store store_type named_store = do
    fail_if (is_empty store_type) (new (codes "store type cannot be empty"))
    fail_if (not (is_valid_store_type lib.types store_type))
        (new (codes "unsupported store type: " ++ store_type))
    fail_if (not (is_valid_file_name named_store))
        (new (codes "named store name needs to follow [a-zA-Z0-9_.-]+ format"))

  -- `AddCert`
  unfoldable pub add_cert : Text → Text → Text → Bool → Cmd Disk (Unit {0})
  unfolding refuse_existing read_certs check_store check_non_err_not_exist_error
  add_cert path store_type named_store display = do
    cert_path ← lift (lib.abs path)
    check_store store_type named_store
    certs ← read_certs cert_path
    fail_if (is_empty certs) (new (codes "no valid certificate found in the file"))
    lift (check_non_err_not_exist_error (lib.sys_path (store_items store_type named_store)).1)
    refuse_existing (base cert_path ∷ (lib.sys_path (store_items store_type named_store)).0)
    copy_to_dir lib.denied cert_path (lib.sys_path (store_items store_type named_store)).0
    branch display
        (print (
          codes "Successfully added "
          ++ base cert_path
          ++ codes " to named store "
          ++ named_store
          ++ codes " of type "
          ++ store_type
          ++ 10 ∷ []))
        done

  unfoldable pub sys_path_or_fail : List Text → Cmd Disk FilePath
  sys_path_or_fail items w = elim (lib.sys_path items).1 [
    | some e ↦ (err e, w)
    | none ↦ (ok (lib.sys_path items).0, w)
  ]

  -- What `DeleteAllCerts` and `DeleteCert` do once it is confirmed.
  unfoldable pub delete_path :
      (FilePath → Disk → Result (Unit {0}) × Disk) → FilePath → Text → Cmd Disk (Unit {0})
  delete_path delete path name = do
    act (stat lib.denied path)
    act (delete path)
    print (codes "Successfully deleted " ++ name ++ 10 ∷ [])

  -- `DeleteAllCerts`; `show_path` is the text of a path.
  unfoldable pub delete_all_certs : (FilePath → Text) → Text → Text → Bool → Cmd Disk (Unit {0})
  unfolding sys_path_or_fail delete_path
  delete_all_certs show_path store_type named_store confirmed = do
    path ← sys_path_or_fail (store_items store_type named_store)
    confirmed' ←
        ask_for_confirmation lib.input
          (codes "Are you sure you want to delete all certificates in "
            ++ quote named_store
            ++ codes " of type "
            ++ quote store_type
            ++ b'?' ∷ [])
          confirmed
    branch confirmed' (delete_path (remove_all lib.denied) path (show_path path)) done

  -- `DeleteCert`
  unfoldable pub delete_cert : Text → Text → Text → Bool → Cmd Disk (Unit {0})
  unfolding sys_path_or_fail delete_path
  delete_cert store_type named_store cert confirmed = do
    path ← sys_path_or_fail (store_items store_type named_store ++ cert ∷ [])
    confirmed' ←
        ask_for_confirmation lib.input
          (codes "Are you sure you want to delete "
            ++ quote cert
            ++ codes " in "
            ++ quote named_store
            ++ codes " of type "
            ++ quote store_type
            ++ b'?' ∷ [])
          confirmed
    branch confirmed' (delete_path (remove lib.denied) path cert) done
