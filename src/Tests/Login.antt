-- ===== src/Tests/Login.antt =====
-- Runs of cmd/notation/login.go and logout.go. The helper keeps the last credential it was given.
use notation.Base.{
  inl, inr, ◌≡◌, ◌≢◌, refl, Bool, true, false, some, none, Option, [], ◌∷◌, ◌++◌, Text, codes, ok,
  err, new, bytes_eq,
}
use notation.Base.Errors.{credentials_not_found}
use notation.Base.Exec.{World, ◌>>=◌}
use notation.Auth
use notation.Auth.{Config, HelperClient, HelperCredentials, empty_credential, token_username}
use notation.Auth.Laws.{IsLawful}
use notation.Manifest.{stop, Reference, Repository}
use notation.Remote.{
  RegistryLib, Settings, SecureFlagOpts, AuthClient, flag_credential, is_empty_credential,
}
use notation.Registry.{get_auth_client, get_registry_client}
use notation.Login.{
  LoginOpts, LogoutOpts, LoginLib, complete, validate_auth_config, run_login, run_logout,
}
use notation.Base.Strings.{trim_space, trim_suffix}
use notation.Base.Dict.{lookup}
use notation.Login.Laws.{IsLoggedIn, run_login-IsLoggedIn}
use notation.Login.Session.{IsForgetful, run_login-get_auth_client, run_logout-get_auth_client}
use notation.Tests.Manifest.{image, parse_reference}

abbrev password : Text
password = b'p' ∷ []

abbrev Kept : Type 0
Kept = Option HelperCredentials

abbrev helpers : HelperClient Kept
helpers = record {
  store = λ program server c s. (ok tt, some c);
  get = λ program server s. (elim s [ some c ↦ ok c | none ↦ err credentials_not_found ], s);
  erase = λ program server s. (ok tt, none);
}

helpers-IsLawful : IsLawful helpers
helpers-IsLawful = record { gives_back = λ program server c s h. refl }

helpers-IsForgetful : IsForgetful helpers
helpers-IsForgetful = record { forgets = λ program server s h. refl }

abbrev repo : Repository Kept
repo = record {
  resolve = λ t s. (ok image, s);
  list_signatures = λ d s. stop (ok tt) s;
  fetch_signature_blob = λ d s. (ok ([], d), s);
}

abbrev registry_lib : RegistryLib Kept
registry_lib = record {
  parse_reference = parse_reference;
  new_registry = parse_reference;
  host = λ ref. ref.registry;
  set_referrers_capability = λ remote capable. ok tt;
  referrers = λ remote digest s. (ok tt, s);
  ping = λ remote s. (ok tt, s);
  new_repository = λ remote _. repo;
  new_oci_repository = λ path _ s. (ok repo, s);
  helpers = helpers;
}

abbrev server : Text
server = b'r' ∷ []

abbrev config : Config
config = record {
  insecure_registries = [];
  credentials_store = b'h' ∷ [];
  credential_helpers = [];
  signature_format = [];
}

abbrev settings : Settings
settings = record { config = some config; auth_config = ok config; version = b'1' ∷ [] }

-- Stdin holds the password and a newline.
abbrev login_lib : LoginLib Kept
login_lib = record {
  registry = registry_lib;
  read_stdin = λ s. (ok (password ++ 10 ∷ []), s);
  read_string = λ s. (ok (b'u' ∷ 10 ∷ []), s);
  read_rest = λ s. (ok (password ++ 10 ∷ []), s);
  is_terminal = false;
  read_terminal = λ s. (err (new []), s);
}

abbrev no_flags : SecureFlagOpts
no_flags = record { username = []; password = []; plain_http = true }

abbrev login : LoginOpts
login = record {
  logging = record { debug = false; verbose = false };
  secure = no_flags;
  password_stdin = false;
  server = server;
}

abbrev logout : LogoutOpts
logout = record { logging = record { debug = false; verbose = false }; server = server }

abbrev start : World Kept
start = record { stdout = []; stderr = []; transport = none; ext = none }

abbrev given : SecureFlagOpts
given = record { username = b'u' ∷ []; password = password; plain_http = true }

abbrev asked : World Kept
asked = (complete login_lib settings no_flags start).1

ask : complete login_lib settings no_flags start ≡ (ok given, asked)
unfolding complete ◌>>=◌ bytes_eq codes trim_space trim_suffix
ask = refl

abbrev logged_in : World Kept
logged_in = (run_login login_lib settings login start).1

log_in : run_login login_lib settings login start ≡ (ok tt, logged_in)
unfolding run_login complete validate_auth_config get_registry_client Auth.store ◌>>=◌ bytes_eq
    codes trim_space Auth.get_credentials_store lookup
log_in = refl

run_login-IsLoggedIn_example : IsLoggedIn login_lib settings login start logged_in
run_login-IsLoggedIn_example = run_login-IsLoggedIn login_lib settings login start logged_in log_in

abbrev reference : Reference
reference = record { registry = server; repository = b'n' ∷ []; reference = [] }

not_a_token : b'u' ∷ [] ≢ token_username
unfolding codes
not_a_token h = cc

run_login-get_auth_client_example :
    (r : IsLoggedIn login_lib settings login start logged_in) × (r.secure ≡ given)
    × (r.remote.client.credential r.remote.reference.registry ≡ flag_credential given)
    × (client : AuthClient) × (plain : Bool) × ((get_auth_client registry_lib settings none no_flags
          reference logged_in).0
        ≡ ok (client, plain))
    × (client.credential server ≡ flag_credential given)
unfolding is_empty_credential flag_credential
run_login-get_auth_client_example =
    run_login-get_auth_client login_lib settings login given start asked logged_in none no_flags
      reference logged_in helpers-IsLawful ask not_a_token refl log_in (refl, refl) refl refl
      (inr (config, refl))

abbrev logged_out : World Kept
logged_out = (run_logout login_lib settings logout logged_in).1

log_out : run_logout login_lib settings logout logged_in ≡ (ok tt, logged_out)
unfolding run_logout Auth.erase ◌>>=◌ Auth.get_credentials_store lookup bytes_eq codes
log_out = refl

run_logout-get_auth_client_example :
    (client : AuthClient) × (plain : Bool) × ((get_auth_client registry_lib settings none no_flags
        reference logged_out).0
      ≡ ok (client, plain))
    × (client.credential server ≡ empty_credential)
run_logout-get_auth_client_example =
    run_logout-get_auth_client login_lib settings logout logged_in logged_out none no_flags
      reference logged_out helpers-IsForgetful log_out (refl, refl) refl refl (inl refl)
