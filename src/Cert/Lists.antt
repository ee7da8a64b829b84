-- ===== src/Cert/Lists.antt =====
-- cmd/notation/cert/list.go
use notation.Base.{
  not, ◌&&◌, Option, none, some, List, [], ◌∷◌, ◌++◌, is_empty, ℕ, Text, codes, Result, ok, err,
  new,
}
use notation.Base.Errors.{Fault, error_text}
use notation.Base.Exec.{Cmd, lift, try, branch, ◌>>=◌, ◌>>◌}
use notation.Disk.{Disk}
use notation.Disk.Paths.{FilePath}
use notation.TrustStore.{TrustLib, check_non_err_not_exist_error}
use notation.TrustStore.Walk.{for_each, list_certs_in}

-- `certListOpts`, without the logging options
pub record CertListOpts : Type 0 where
  pub store_type : Text
  pub named_store : Text

error_of : {A : Type 0} → Result A → Option Fault
error_of (ok a) = none
error_of (err e) = some e

explained : Text → Result (Unit {0}) → Result (Unit {0})
explained message (ok u) = ok u
explained message (err e) = err (new (message ++ codes ", with error: " ++ error_text e))

module _ (lib : TrustLib) (show_path : FilePath → Text) where
  -- The listing of a directory below truststore/x509, which need not be there.
  unfoldable pub list_at : List Text → ℕ → Text → Cmd Disk (Unit {0})
  unfolding error_of explained
  list_at items depth message = do
    lift
        (check_non_err_not_exist_error (lib.sys_path (codes "truststore" ∷ codes "x509" ∷ items)).1)
    result ← try (
        list_certs_in lib show_path (lib.sys_path (codes "truststore" ∷ codes "x509" ∷ items)).0
          depth)
    lift (explained message (check_non_err_not_exist_error (error_of result)))

  -- `listCerts`
  unfoldable pub list_certs : CertListOpts → Cmd Disk (Unit {0})
  unfolding list_at
  list_certs opts =
      branch (is_empty opts.named_store && is_empty opts.store_type)
        (list_at [] 2 (codes "failed to list all certificates stored in the trust store"))
        (branch (not (is_empty opts.named_store) && not (is_empty opts.store_type))
          (list_at (opts.store_type ∷ opts.named_store ∷ []) 0 (
            codes "failed to list all certificates stored in the named store "
            ++ opts.named_store
            ++ codes " of type "
            ++ opts.store_type))
          (branch (not (is_empty opts.store_type))
            (list_at (opts.store_type ∷ []) 1
              (codes "failed to list all certificates stored of type " ++ opts.store_type))
            (for_each
              (λ t. list_at (t ∷ opts.named_store ∷ []) 0 (
                codes "failed to list all certificates stored in the named store "
                ++ opts.named_store))
              lib.types)))
