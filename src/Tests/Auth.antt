-- ===== src/Tests/Auth.antt =====
-- Runs of pkg/auth. The credential helper keeps the last credential that it is given.
use notation.Base.{
  ◌≡◌, ◌≢◌, refl, ◌⊎◌, true, false, some, none, [], ◌∷◌, Text, codes, Result, ok, err, is_empty,
}
use notation.Base.Errors.{Fault, not_exist, credentials_config_not_set, is_not_exist}
use notation.Base.Exec.{World}
use notation.Auth.{
  Config, DockerConfigFile, Credential, HelperCredentials, HelperClient, contains_auth, load_config,
  token_username, store, get,
}
use notation.Auth.Laws.{FromDocker, IsLawful, kept, load_config-ok, load_config-err, get-store}

abbrev name : Text
name = b'n' ∷ []

abbrev docker : DockerConfigFile
docker = record { credentials_store = name; credential_helpers = [] }

abbrev config : Config
config = record {
  insecure_registries = [];
  credentials_store = name;
  credential_helpers = [];
  signature_format = [];
}

abbrev empty_config : Config
empty_config = record config { credentials_store = [] }

load_from_docker : load_config (ok none) (ok docker) ≡ ok config
unfolding load_config
load_from_docker = refl

load_config-ok_example :
    (contains_auth config ≡ true)
    × ((ok none ≡ ok (some config)) ⊎ FromDocker (ok none) (ok docker) config)
load_config-ok_example = load_config-ok (ok none) (ok docker) config load_from_docker

abbrev absent : Result DockerConfigFile
absent = err (not_exist name)

load_without_docker : load_config (ok (some empty_config)) absent ≡ err credentials_config_not_set
unfolding load_config is_not_exist
load_without_docker = refl

load_config-err_applied :
    ((credentials_config_not_set ≡ credentials_config_not_set)
      × ((d : DockerConfigFile) × (absent ≡ ok d)
          × (is_empty d.credentials_store ≡ true)
          × (is_empty d.credential_helpers ≡ true)))
    ⊎ ((credentials_config_not_set ≡ credentials_config_not_set)
        × ((e' : Fault) × (absent ≡ err e') × (is_not_exist e' ≡ true)))
    ⊎ ((absent ≡ err credentials_config_not_set)
        × (is_not_exist credentials_config_not_set ≡ false))
unfolding contains_auth
load_config-err_applied =
    load_config-err empty_config absent credentials_config_not_set refl load_without_docker

abbrev client : HelperClient HelperCredentials
client = record {
  store = λ program server c s. (ok tt, c);
  get = λ program server s. (ok s, s);
  erase = λ program server s. (ok tt, s);
}

client-IsLawful : IsLawful client
client-IsLawful = record { gives_back = λ program server c s h. refl }

abbrev credential : Credential
credential = record { username = name; password = name; refresh_token = []; access_token = [] }

abbrev start : World HelperCredentials
start = record {
  stdout = [];
  stderr = [];
  transport = none;
  ext = record { username = []; secret = [] };
}

abbrev stored : World HelperCredentials
stored = record start { ext = record { username = name; secret = name } }

store_it : store client name name credential start ≡ (ok tt, stored)
unfolding store
store_it = refl

other_name : name ≢ token_username
unfolding codes
other_name h = cc

get-store_example : (get client name name stored).0 ≡ ok (kept credential)
get-store_example =
    get-store client client-IsLawful name name credential start stored other_name store_it
