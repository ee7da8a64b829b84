-- ===== src/Cert.antt =====
-- cmd/notation/cert: adding, deleting and showing certificates of the trust store.
pub mod Laws
pub mod Single
pub mod Lists
pub mod Generate
pub mod Fresh
pub mod Keeping
use notation.Base.{
  Bool, false, not, Option, none, some, List, [], ◌∷◌, ◌++◌, is_empty, if◌then◌else◌, map, Text,
  codes, Result, ok, err, new, wrap,
}
use notation.Base.Strings.{quote}
use notation.Base.Errors.{Fault, error_text}
use notation.Base.Exec.{Cmd, pure, try, print_all, done, branch, fail_if, ◌>>=◌, ◌>>◌}
use notation.Disk.{Disk}
use notation.Disk.Paths.{FilePath, is_valid_file_name}
use notation.TrustStore.{
  TrustLib, is_valid_store_type, check_store, add_cert, delete_all_certs, delete_cert, show_certs,
}

-- `certAddOpts`
pub record CertAddOpts : Type 0 where
  pub store_type : Text
  pub named_store : Text
  pub path : List Text

-- `certDeleteOpts`
pub record CertDeleteOpts : Type 0 where
  pub store_type : Text
  pub named_store : Text
  pub cert : Text
  pub all : Bool
  pub confirmed : Bool

-- `certShowOpts`, without the logging options
pub record CertShowOpts : Type 0 where
  pub store_type : Text
  pub named_store : Text
  pub cert : Text

-- `Args` of `notation cert add`
unfoldable pub add_args : List Text → CertAddOpts → Result CertAddOpts
add_args [] opts = err (new (codes "missing certificate path"))
add_args (p ∷ ps) opts = ok (record opts { path = p ∷ ps })

-- `Args` of `notation cert delete`
unfoldable pub delete_args : List Text → CertDeleteOpts → Result CertDeleteOpts
delete_args [] opts =
    if opts.all
    then ok opts
    else err (
        new (
          codes
            "delete requires either the certificate file name that needs to be deleted or --all flag to delete all certificates in the given named trust store"))
delete_args (arg ∷ args) opts =
    if opts.all
    then err (
        new (
          codes
            "cannot delete a single certificate file when --all flag is set. use --help flag for more details"))
    else ok (record opts { cert = arg })

-- `Args` of `notation cert show`
unfoldable pub show_args : List Text → CertShowOpts → Result CertShowOpts
show_args [] opts = err (new (codes "missing certificate file name"))
show_args (arg ∷ []) opts = ok (record opts { cert = arg })
show_args (arg ∷ arg' ∷ args) opts = err (new (codes "show only supports single certificate file"))

-- What the loop of `addCerts` has collected; a failure is kept with its error.
pub record Added : Type 0 where
  pub success : List Text
  pub failure : List (Text × Fault)

unfoldable pub record_result : Added → Text → Result (Unit {0}) → Added
record_result added p (ok _) = record added { success = added.success ++ p ∷ [] }
record_result added p (err e) = record added { failure = added.failure ++ (p, e) ∷ [] }

-- The lines of the error, one for each failure.
failure_lines : List (Text × Fault) → Text
failure_lines [] = []
failure_lines ((p, e) ∷ failures) =
    p ++ codes ", with error " ++ quote (error_text e) ++ 10 ∷ failure_lines failures

module _ (lib : TrustLib) where
  -- The loop of `addCerts`.
  unfoldable pub add_each : Text → Text → Added → List Text → Cmd Disk Added
  unfolding record_result
  add_each store_type named_store added [] = pure added
  add_each store_type named_store added (p ∷ ps) = do
    result ← try (add_cert lib p store_type named_store false)
    add_each store_type named_store (record_result added p result) ps

  -- What `addCerts` writes, and how it ends.
  unfoldable pub conclude_add : Text → Text → Added → Cmd Disk (Unit {0})
  unfolding failure_lines
  conclude_add store_type named_store added = do
    branch (is_empty added.success) done (
        print_all (
          (codes "Successfully added following certificates to named store "
            ++ named_store
            ++ codes " of type "
            ++ store_type
            ++ codes ":\n")
          ∷ map (λ p. p ++ 10 ∷ []) added.success))
    fail_if (not (is_empty added.failure)) (
        new (
          codes "Failed to add following certificates to named store "
          ++ named_store
          ++ codes " of type "
          ++ store_type
          ++ codes ":\n"
          ++ failure_lines added.failure))

  -- `addCerts`
  unfoldable pub add_certs : CertAddOpts → Cmd Disk (Unit {0})
  unfolding conclude_add
  add_certs opts = do
    check_store lib opts.store_type opts.named_store
    added ←
        add_each opts.store_type opts.named_store (record { success = []; failure = [] }) opts.path
    conclude_add opts.store_type opts.named_store added

  unfoldable pub wrapped : Text → Cmd Disk (Unit {0}) → Cmd Disk (Unit {0})
  wrapped prefix m w =
      let (r, w') = m w in elim r [ ok _ ↦ (ok tt, w') | err e ↦ (err (wrap prefix e), w') ]

  -- The checks of `deleteCerts`, the name before the type.
  unfoldable pub check_delete : Text → Text → Cmd Disk (Unit {0})
  check_delete store_type named_store = do
    fail_if (not (is_valid_file_name named_store))
        (new (codes "named store name needs to follow [a-zA-Z0-9_.-]+ format"))
    fail_if (is_empty store_type) (new (codes "store type cannot be empty"))
    fail_if (not (is_valid_store_type lib.types store_type))
        (new (codes "unsupported store type: " ++ store_type))

  -- `deleteCerts`
  unfoldable pub delete_certs : (FilePath → Text) → CertDeleteOpts → Cmd Disk (Unit {0})
  unfolding wrapped check_delete
  delete_certs show_path opts = do
    check_delete opts.store_type opts.named_store
    branch opts.all
        (wrapped (codes "failed to delete the named trust store: ")
          (delete_all_certs lib show_path opts.store_type opts.named_store opts.confirmed))
        (do
          fail_if (is_empty opts.cert)
              (new (codes "to delete a specific certificate, certificate fileName cannot be empty"))
          wrapped (codes "failed to delete the certificate file: ")
              (delete_cert lib opts.store_type opts.named_store opts.cert opts.confirmed))

  failed_to_show : Text → Fault → Fault
  failed_to_show cert e = new (
      codes "failed to show details of certificate "
      ++ cert
      ++ codes ", with error: "
      ++ error_text e)

  -- Reading and printing, with the errors that name the certificate.
  unfoldable pub show_at : Text → FilePath × Option Fault → Cmd Disk (Unit {0})
  unfolding failed_to_show
  show_at cert (path, some e) w = (err (failed_to_show cert e), w)
  show_at cert (path, none) w = elim (lib.read_certificate_file path w.ext) [
    | err e ↦ (err (failed_to_show cert e), w)
    | ok [] ↦ (err (failed_to_show cert (new (codes "no valid certificate found in the file"))), w)
    | ok (c ∷ cs) ↦ (ok tt, record w { stdout = w.stdout ++ show_certs (c ∷ cs) })
  ]

  -- `showCerts`
  unfoldable pub show_cert_file : CertShowOpts → Cmd Disk (Unit {0})
  unfolding show_at
  show_cert_file opts = do
    check_store lib opts.store_type opts.named_store
    fail_if (is_empty opts.cert) (new (codes "certificate fileName cannot be empty"))
    show_at opts.cert (
        lib.sys_path
          (codes "truststore" ∷ codes "x509" ∷ opts.store_type ∷ opts.named_store ∷ opts.cert ∷ []))
