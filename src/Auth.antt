-- ===== src/Auth.antt =====
-- pkg/auth and pkg/configutil: which credential helper serves a registry, and how credentials are
-- kept in it. The helper programs, the config of notation-go and the decoding of JSON are
-- parameters.
pub mod Laws
pub mod Once
use notation.Base.{
  Bool, true, false, not, ◌||◌, Option, none, some, List, [], ◌∷◌, ◌++◌, is_empty, ◌==◌, text_eq,
  if◌then◌else◌, Text, codes, Result, ok, err, new, wrap,
}
use notation.Base.Strings.{equal_fold, to_lower}
use notation.Base.Dict.{Dict, lookup}
use notation.Base.Errors.{Fault, credentials_config_not_set, is_not_exist, is_credentials_not_found}
use notation.Base.Exec.{Cmd, fail, act, ◌>>=◌, ◌>>◌}

-- config.Config of notation-go, the fields that the program reads
pub record Config : Type 0 where
  pub insecure_registries : List Text
  pub credentials_store : Text
  pub credential_helpers : Dict
  pub signature_format : Text

-- The signature format that `LoadConfigOnce` puts into the config.
unfoldable pub with_format : Config → Config
with_format c =
    let format = to_lower c.signature_format in
    record c { signature_format = if is_empty format then codes "jws" else format }

-- The body of `LoadConfigOnce`, on what config.LoadConfig returns.
unfoldable pub load_config_once : Result Config → Result Config
unfolding with_format
load_config_once (err e) = err e
load_config_once (ok c) = ok (with_format c)

unfoldable pub any_equal_fold : List Text → Text → Bool
any_equal_fold [] target = false
any_equal_fold (registry ∷ rs) target =
    let rest = any_equal_fold rs target in if equal_fold registry target then true else rest

-- A pointer and an error, as `LoadConfigOnce` returns them.
abbrev pub Answer : Type 0
Answer = Option Config × Option Fault

-- `IsRegistryInsecure` on what `LoadConfigOnce` returns; none stands for the panic of a nil
-- pointer that is dereferenced.
unfoldable pub is_registry_insecure : Answer → Text → Option Bool
unfolding any_equal_fold
is_registry_insecure (p, some e) target = some false
is_registry_insecure (some c, none) target = some (any_equal_fold c.insecure_registries target)
is_registry_insecure (none, none) target = none

-- `DockerConfigFile`
pub record DockerConfigFile : Type 0 where
  pub credentials_store : Text
  pub credential_helpers : Dict

-- How json.Decoder.Decode ends.
pub data Decoded : Type 0 where
  decoded : DockerConfigFile → Decoded
  end_of_file : Decoded
  bad_json : Fault → Decoded

-- `loadFromReader`, on an empty receiver
unfoldable pub load_from_reader : Decoded → Result DockerConfigFile
load_from_reader (decoded c) = ok c
load_from_reader end_of_file = ok (record { credentials_store = []; credential_helpers = [] })
load_from_reader (bad_json e) = err e

-- `getDockerConfigDir`, from the value of DOCKER_CONFIG and os.UserHomeDir
unfoldable pub get_docker_config_dir : Text → Result Text → Result Text
get_docker_config_dir env home =
    if is_empty env
    then (elim home [
      | ok dir ↦ ok (dir ++ codes "/.docker")
      | err e ↦ err (wrap (codes "Could not get home directory, ") e)
    ])
    else ok env

-- `LoadDockerConfig`; `open_file` is os.Open followed by the decoder.
unfoldable pub load_docker_config :
    Text → Result Text → (Text → Result Decoded) → Result DockerConfigFile
unfolding get_docker_config_dir load_from_reader
load_docker_config env home open_file = elim (get_docker_config_dir env home) [
  | err e ↦ err e
  | ok dir ↦
      let filename = dir ++ codes "/config.json" in
      elim (open_file filename) [
        | err e ↦ err (wrap (filename ++ codes ": ") e)
        | ok d ↦ elim (load_from_reader d) [
          | err e ↦ err (wrap (filename ++ codes ": ") e)
          | ok c ↦ ok c
        ]
      ]
]

-- `containsAuth`
unfoldable pub contains_auth : Config → Bool
contains_auth c = not (is_empty c.credentials_store) || not (is_empty c.credential_helpers)

-- `loadDockerCredentials`
unfoldable pub load_docker_credentials : Result DockerConfigFile → Result Config
load_docker_credentials (err e) = err e
load_docker_credentials (ok d) = ok (record {
  insecure_registries = [];
  credentials_store = d.credentials_store;
  credential_helpers = d.credential_helpers;
  signature_format = [];
})

abbrev use_if_auth : Config → Result Config
use_if_auth c = if contains_auth c then ok c else err credentials_config_not_set

docker_or_fail : Result Config → Result Config
unfolding contains_auth
docker_or_fail (err e) = if is_not_exist e then err credentials_config_not_set else err e
docker_or_fail (ok c) = use_if_auth c

-- `LoadConfig`, on what its two variables `loadOrDefault` and `loadDockerConfig` return. The first
-- may return nil without an error.
unfoldable pub load_config : Result (Option Config) → Result DockerConfigFile → Result Config
unfolding docker_or_fail load_docker_credentials contains_auth
load_config (err e) docker = err e
load_config (ok none) docker = docker_or_fail (load_docker_credentials docker)
load_config (ok (some c)) docker =
    if contains_auth c then ok c else docker_or_fail (load_docker_credentials docker)

-- `getConfiguredCredentialStore`
unfoldable pub get_configured_credential_store : Config → Text → Text
get_configured_credential_store c registry_hostname =
    if is_empty registry_hostname
    then c.credentials_store
    else (elim (lookup registry_hostname c.credential_helpers) [
      | some helper ↦ helper
      | none ↦ c.credentials_store
    ])

-- auth.Credential of oras-go
pub record Credential : Type 0 where
  pub username : Text
  pub password : Text
  pub refresh_token : Text
  pub access_token : Text

-- auth.EmptyCredential
abbrev pub empty_credential : Credential
empty_credential = record { username = []; password = []; refresh_token = []; access_token = [] }

-- credentials.Credentials of docker-credential-helpers, without its ServerURL
pub record HelperCredentials : Type 0 where
  pub username : Text
  pub secret : Text

-- client.Store, client.Get and client.Erase: the program's name, the server's address.
pub record HelperClient (S : Type 0) : Type 0 where
  pub store : Text → Text → HelperCredentials → S → Result (Unit {0}) × S
  pub get : Text → Text → S → Result HelperCredentials × S
  pub erase : Text → Text → S → Result (Unit {0}) × S

abbrev pub token_username : Text
token_username = codes "<token>"

-- `newCredentialFromDockerCreds`
unfoldable pub new_credential_from_docker_creds : HelperCredentials → Credential
new_credential_from_docker_creds d =
    if d.username == token_username
    then record empty_credential { refresh_token = d.secret }
    else record empty_credential { username = d.username; password = d.secret }

-- The credentials that `Store` hands to the helper.
unfoldable pub helper_credentials : Credential → HelperCredentials
helper_credentials c =
    if is_empty c.refresh_token
    then record { username = c.username; secret = c.password }
    else record { username = token_username; secret = c.refresh_token }

-- The name of the program, `newNativeAuthStore`
unfoldable pub new_native_auth_store : Text → Text
new_native_auth_store helper_suffix = codes "docker-credential-" ++ helper_suffix

-- `GetCredentialsStore`, on what `loadConfig` returns: the program that serves the registry.
unfoldable pub get_credentials_store : Result Config → Text → Result Text
unfolding get_configured_credential_store new_native_auth_store
get_credentials_store (err e) registry_hostname =
    err (wrap (codes "failed to load config file, error: ") e)
get_credentials_store (ok c) registry_hostname =
    let helper = get_configured_credential_store c registry_hostname in
    if is_empty helper
    then err (
        new (
          codes "could not get the configured credentials store for registry: "
          ++ registry_hostname))
    else ok (new_native_auth_store helper)

module _ {S : Type 0} (client : HelperClient S) (program : Text) where
  -- `nativeAuthStore.Store`
  unfoldable pub store : Text → Credential → Cmd S (Unit {0})
  unfolding helper_credentials
  store server_address c = act (client.store program server_address (helper_credentials c))

  -- `nativeAuthStore.Get`
  unfoldable pub get : Text → Cmd S Credential
  unfolding new_credential_from_docker_creds
  get server_address w =
      let (r, s) = client.get program server_address w.ext in
      elim r [
        | ok d ↦ (ok (new_credential_from_docker_creds d), record w { ext = s })
        | err e ↦
            if is_credentials_not_found e
            then (ok empty_credential, record w { ext = s })
            else (err e, record w { ext = s })
      ]

  -- `nativeAuthStore.Erase`
  unfoldable pub erase : Text → Cmd S (Unit {0})
  erase server_address = act (client.erase program server_address)
