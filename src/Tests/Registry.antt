-- ===== src/Tests/Registry.antt =====
-- Runs of cmd/notation/registry.go and of internal/experimental. The registry answers every call.
use notation.Base.{
  ◌≡◌, ◌↔◌, refl, ℕ, suc, ◌++◌, Bool, true, false, not, ◌&&◌, some, none, List, [], ◌∷◌, Text,
  codes, Result, ok, err, bytes_eq, ◌==◌, text_eq, if◌then◌else◌,
}
use notation.Base.Exec.{World, ◌>>=◌, traced, default_transport}
use notation.Base.Errors.{credentials_config_not_set}
use notation.Experimental.{check_flags_and_warn, experimental_warning}
use notation.Experimental.Laws.{any_changed, check_flags_and_warn-stops}
use notation.Auth.{empty_credential, Credential}
use notation.Manifest.{Reference}
use notation.Remote.{RegistryLib, Settings, SecureFlagOpts, AuthClient}
use notation.Registry.{get_auth_client, get_remote_repository_for_sign}
use notation.Registry.Laws.{
  IsClient, IsPinged, get_auth_client-IsClient, get_remote_repository_for_sign-IsPinged,
}
use notation.Tests.Manifest.{repo, parse_reference, start}

-- The world outside counts the calls of the registry.
abbrev pub registry_lib : RegistryLib ℕ
registry_lib = record {
  parse_reference = parse_reference;
  new_registry = parse_reference;
  host = λ ref. ref.registry;
  set_referrers_capability = λ remote capable. ok tt;
  referrers = λ remote digest calls. (ok tt, suc calls);
  ping = λ remote calls. (ok tt, suc calls);
  new_repository = λ remote image. repo;
  new_oci_repository = λ path image calls. (ok repo, calls);
  helpers = record {
    store = λ program server c calls. (ok tt, calls);
    get = λ program server calls. (ok (record { username = []; secret = [] }), calls);
    erase = λ program server calls. (ok tt, calls);
  };
}

abbrev pub settings : Settings
settings = record {
  config = none;
  auth_config = err credentials_config_not_set;
  version = b'1' ∷ [];
}

abbrev pub secure : SecureFlagOpts
secure = record { username = b'u' ∷ []; password = b'p' ∷ []; plain_http = true }

abbrev reference : Reference
reference = record { registry = b'r' ∷ []; repository = b'n' ∷ []; reference = b'v' ∷ [] }

abbrev credential : Credential
credential = record empty_credential { username = b'u' ∷ []; password = b'p' ∷ [] }

abbrev client : AuthClient
client = record {
  credential = λ host. if host == b'r' ∷ [] then credential else empty_credential;
  client_id = codes "notation";
  user_agent = codes "notation/" ++ b'1' ∷ [];
}

abbrev debugged : World ℕ
debugged = record start { transport = some (traced default_transport) }

connect :
    get_auth_client registry_lib settings none secure reference start
    ≡ (ok (client, true), debugged)
unfolding get_auth_client
connect = refl

get_auth_client-IsClient_example :
    IsClient registry_lib settings none secure reference start debugged client true
get_auth_client-IsClient_example =
    get_auth_client-IsClient registry_lib settings none secure reference start debugged client true
      connect

abbrev pinged : World ℕ
pinged = record debugged { ext = 1 }

ping :
    get_remote_repository_for_sign registry_lib settings none secure (b'v' ∷ []) false start
    ≡ (ok repo, pinged)
unfolding get_remote_repository_for_sign ◌>>=◌
ping = refl

get_remote_repository_for_sign-IsPinged_example :
    IsPinged registry_lib settings none secure (b'v' ∷ []) repo
get_remote_repository_for_sign-IsPinged_example =
    get_remote_repository_for_sign-IsPinged registry_lib settings none secure (b'v' ∷ []) start
      pinged repo ping

abbrev one : Text
one = b'1' ∷ []

abbrev changed : Text → Bool
changed flag = true

abbrev flags : List Text
flags = (b'f' ∷ []) ∷ []

abbrev warned : World ℕ
warned = record start { stderr = experimental_warning ∷ [] }

abbrev pass : Result (Unit {0})
pass = ok tt

check_flags : check_flags_and_warn one changed [] flags start ≡ (pass, warned)
unfolding check_flags_and_warn codes bytes_eq
check_flags = refl

check_flags_and_warn-stops_applied :
    ((pass ≡ ok tt) ↔ ((any_changed changed flags && not (one == codes "1")) ≡ false))
    × (warned.stdout ≡ start.stdout)
    × (warned.stderr
        ≡ start.stderr
          ++ (if any_changed changed flags && (one == codes "1")
              then experimental_warning ∷ []
              else []))
check_flags_and_warn-stops_applied =
    check_flags_and_warn-stops one changed [] flags start warned pass check_flags
