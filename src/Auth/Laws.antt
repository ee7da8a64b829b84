-- ===== src/Auth/Laws.antt =====
-- Which config is used, which helper serves a registry, and that credentials come back from it.
use notation.Base.{
  Bool-cases, ◌≡◌, ◌≢◌, ◌⊎◌, inl, inr, refl, true, false, Option, none, some, [], is_empty, arith,
  text_eq, bytes_eq_iff, bytes_eq_refl, if◌then◌else◌, Text, Result, ok, err,
}
use notation.Base.Errors.{Fault, credentials_config_not_set, is_not_exist}
use notation.Base.Exec.{World}
use notation.Auth.{
  Config, DockerConfigFile, contains_auth, load_docker_credentials, load_config, Credential,
  HelperCredentials, HelperClient, token_username, new_credential_from_docker_creds,
  helper_credentials, store, get,
}

-- Where `LoadConfig` may find its result.
abbrev pub FromDocker : Result (Option Config) → Result DockerConfigFile → Config → Type 0
FromDocker own docker c =
    ((own ≡ ok none) ⊎ ((c' : Config) × (own ≡ ok (some c')) × (contains_auth c' ≡ false)))
    × ((d : DockerConfigFile) × (docker ≡ ok d) × (ok c ≡ load_docker_credentials (ok d)))

-- If `LoadConfig` succeeds, then the config names a credential store or helper; it is notation's
-- own, or else Docker's, and Docker's only if notation's own names none.
pub load_config-ok :
    (own : Result (Option Config)) (docker : Result DockerConfigFile) (c : Config)
    → load_config own docker ≡ ok c
    → (contains_auth c ≡ true) × ((own ≡ ok (some c)) ⊎ FromDocker own docker c)
unfolding load_config
load_config-ok (err e) docker c h = cc
load_config-ok (ok none) (err e) c h = ground arith
load_config-ok (ok none) (ok d) c h = (ground arith, inr (inl refl, (d, refl, ground arith)))
load_config-ok (ok (some own)) (err e) c h = (ground arith, inl (ground arith))
load_config-ok (ok (some own)) (ok d) c h = elim (Bool-cases (contains_auth own)) [
  | inl given ↦ (ground arith, inl (ground arith))
  | inr missing ↦ (ground arith, inr (inr (own, refl, missing), (d, refl, ground arith)))
]

-- If notation's own config names no store or helper and `LoadConfig` fails, then the error says
-- that the credentials store was not set up, and Docker's config is missing or names none either;
-- or it is the error with which Docker's config could not be read.
pub load_config-err :
    (own : Config) (docker : Result DockerConfigFile) (e : Fault)
    → contains_auth own ≡ false
    → load_config (ok (some own)) docker ≡ err e
    → ((e ≡ credentials_config_not_set)
        × ((d : DockerConfigFile) × (docker ≡ ok d)
            × (is_empty d.credentials_store ≡ true)
            × (is_empty d.credential_helpers ≡ true)))
      ⊎ ((e ≡ credentials_config_not_set)
          × ((e' : Fault) × (docker ≡ err e') × (is_not_exist e' ≡ true)))
      ⊎ ((docker ≡ err e) × (is_not_exist e ≡ false))
unfolding load_config
load_config-err own (err e') e missing h = elim (Bool-cases (is_not_exist e')) [
  | inl absent ↦ inr (inl (ground arith, (e', refl, absent)))
  | inr present ↦ inr (inr (ground arith, ground arith))
]
load_config-err own (ok d) e missing h = inl (ground arith, (d, refl, ground arith, ground arith))

-- What the helper gives back of a credential: the token alone, or the name and password.
unfoldable pub kept : Credential → Credential
kept c =
    if is_empty c.refresh_token
    then record {
      username = c.username;
      password = c.password;
      refresh_token = [];
      access_token = [];
    }
    else record { username = []; password = []; refresh_token = c.refresh_token; access_token = [] }

-- A helper program gives back what was stored last for the same server.
pub record IsLawful {S : Type 0} (client : HelperClient S) : Type 0 where
  pub gives_back :
      (program server : Text) (c : HelperCredentials) (s : S)
      → (client.store program server c s).0 ≡ ok tt
      → (client.get program server (client.store program server c s).1).0 ≡ ok c

round_trip :
    (c : Credential)
    → c.username ≢ token_username
    → new_credential_from_docker_creds (helper_credentials c) ≡ kept c
unfolding new_credential_from_docker_creds helper_credentials kept
round_trip c h =
    ground (arith, bytes_eq_iff c.username token_username, bytes_eq_refl token_username)

-- With a helper program that keeps what it is given, `Get` after a successful `Store` returns the
-- refresh token, if there is one, or the user name and password. The name "<token>" is excepted.
pub get-store :
    {S : Type 0} (client : HelperClient S)
    → IsLawful client
    → (program server : Text) (c : Credential) (w w' : World S) {x : Unit {0}}
    → c.username ≢ token_username
    → store client program server c w ≡ (ok x, w')
    → (get client program server w').0 ≡ ok (kept c)
unfolding store get
get-store client lawful program server c w w' name h =
    ground (arith, lawful.gives_back program server (helper_credentials c) w.ext, round_trip c name)
