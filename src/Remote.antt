-- ===== src/Remote.antt =====
-- The types of cmd/notation/registry.go and cmd/notation/common.go, the libraries behind them, and
-- the pure parts of registry.go and of internal/version.
pub mod Hosts
use notation.Base.{
  Bool, true, false, not, ◌&&◌, Option, none, some, [], ◌∷◌, ◌++◌, is_empty, ◌==◌, text_eq, nat_eq,
  if◌then◌else◌, Text, codes, Result, ok, err, new,
}
use notation.Base.Errors.{Fault, as_response, as_code, referrers_api_not_supported}
use notation.Base.Exec.{Transport, default_transport, traced, try, ◌>>=◌, ◌>>◌}
use notation.Flags.{Level, info_level}
use notation.Auth.{Config, Credential, empty_credential, HelperClient, is_registry_insecure}
use notation.Auth
use notation.Manifest.{Reference, Repository}
use notation.Remote.Hosts.{split_host}

-- `GetVersion` of internal/version, from its variables `Version` and `BuildMetadata`
unfoldable pub get_version : Text → Text → Text
get_version version build_metadata =
    if is_empty build_metadata then version else version ++ b'+' ∷ build_metadata

-- `SecureFlagOpts` of cmd/notation/common.go
pub record SecureFlagOpts : Type 0 where
  pub username : Text
  pub password : Text
  pub plain_http : Bool

-- `ApplyFlags` of SecureFlagOpts: the options before the flags are read, from the environment.
unfoldable pub secure_defaults : (Text → Text) → SecureFlagOpts
secure_defaults getenv = record {
  username = getenv (codes "NOTATION_USERNAME");
  password = getenv (codes "NOTATION_PASSWORD");
  plain_http = false;
}

-- auth.Client of oras-go, as the program builds it
pub record AuthClient : Type 0 where
  pub credential : Text → Credential
  pub client_id : Text
  pub user_agent : Text

-- remote.Repository and remote.Registry of oras-go, as the program builds them
pub record Remote : Type 0 where
  pub client : AuthClient
  pub reference : Reference
  pub plain_http : Bool

-- The libraries behind this file.
pub record RegistryLib (S : Type 0) : Type 0 where
  -- registry.ParseReference, remote.NewRegistry with its Reference, and Reference.Host
  pub parse_reference : Text → Result Reference
  pub new_registry : Text → Result Reference
  pub host : Reference → Text
  -- remote.Repository.SetReferrersCapability, and Referrers for the digest
  pub set_referrers_capability : Remote → Bool → Result (Unit {0})
  pub referrers : Remote → Text → S → Result (Unit {0}) × S
  -- remote.Registry.Ping
  pub ping : Remote → S → Result (Unit {0}) × S
  -- NewRepositoryWithOptions and NewOCIRepository of notation-go; the flag is OCIImageManifest
  pub new_repository : Remote → Bool → Repository S
  pub new_oci_repository : Text → Bool → S → Result (Repository S) × S
  -- what docker-credential-helpers does
  pub helpers : HelperClient S

-- What the process has read before: `configInfo` as the later callers of `LoadConfigOnce` find it,
-- where none stands for nil (the first call is made while the commands are set up, for the flags of
-- `sign`); what `loadConfig` of pkg/auth returns; and the version.
pub record Settings : Type 0 where
  pub config : Option Config
  pub auth_config : Result Config
  pub version : Text

-- `setHttpDebugLog` on http.DefaultClient, the client of every new auth.Client. The logger is a
-- logrus logger only where `SetLoggerLevel` made one.
unfoldable pub set_http_debug_log : Option Level → Option Transport → Option Transport
set_http_debug_log (some info_level) t = t
set_http_debug_log level none = some (traced default_transport)
set_http_debug_log level (some t) = some (traced t)

-- `cred` before the saved credentials are asked for
unfoldable pub flag_credential : SecureFlagOpts → Credential
flag_credential opts =
    if is_empty opts.username
    then record empty_credential { refresh_token = opts.password }
    else record empty_credential { username = opts.username; password = opts.password }

-- cred == auth.EmptyCredential
unfoldable pub is_empty_credential : Credential → Bool
is_empty_credential c =
    is_empty c.username
    && is_empty c.password
    && is_empty c.refresh_token
    && is_empty c.access_token

-- The panic of the Go runtime that ends the process, as the error of the model.
abbrev pub nil_panic : Fault
nil_panic = new (codes "panic: runtime error: invalid memory address or nil pointer dereference")

-- `plainHTTP`. `LoadConfigOnce` reports no error to a caller after the first one.
unfoldable pub use_plain_http : Settings → SecureFlagOpts → Text → Result Bool
unfolding is_registry_insecure
use_plain_http settings opts registry =
    if opts.plain_http
    then ok true
    else (elim (is_registry_insecure (settings.config, none) registry) [
      | none ↦ err nil_panic
      | some listed ↦ ok (if listed then true else split_host registry == codes "localhost")
    ])

abbrev pub zero_digest : Text
zero_digest = codes "sha256:0000000000000000000000000000000000000000000000000000000000000000"

-- `isErrorCode`
unfoldable pub is_error_code : Fault → Text → Bool
is_error_code e code = elim (as_code e) [ some c ↦ c == code | none ↦ false ]

-- errcode.ErrorCodeNameUnknown
abbrev pub name_unknown : Text
name_unknown = codes "NAME_UNKNOWN"

-- What `pingReferrersAPI` makes of an error of the Referrers API.
unfoldable pub referrers_error : Fault → Fault
unfolding is_error_code
referrers_error e = elim (as_response e) [
  | none ↦ e
  | some status ↦
      if not (status == 404)
      then e
      else if is_error_code e name_unknown
      then e
      else referrers_api_not_supported (
          codes
            "Target registry does not support the Referrers API. Try removing the flag `--signature-manifest artifact` to store signatures using OCI image manifest")
]
