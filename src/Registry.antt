-- ===== src/Registry.antt =====
-- cmd/notation/registry.go and internal/version: how the command reaches a registry, over plain
-- HTTP or not, and which credential it shows to whom. oras-go, notation-go's repositories and the
-- credential helpers are parameters.
pub mod Laws
pub mod Quiet
pub mod Progress
use notation.Base.{
  Bool, true, false, not, Option, [], ◌++◌, is_empty, ◌==◌, text_eq, nat_eq, if◌then◌else◌, Text,
  codes, ok, err, new,
}
use notation.Base.Errors.{is_config_not_set}
use notation.Base.Exec.{Cmd, pure, fail, lift, act, done, try, branch, ◌>>=◌, ◌>>◌}
use notation.Flags.{Level}
use notation.Auth.{Credential, empty_credential, get_credentials_store}
use notation.Auth
use notation.Manifest.{
  InputType, registry_input, oci_layout_input, other_input, Reference, Repository,
  parse_oci_layout_reference,
}
use notation.Remote.{
  SecureFlagOpts, AuthClient, Remote, RegistryLib, Settings, set_http_debug_log, flag_credential,
  is_empty_credential, use_plain_http, zero_digest, referrers_error,
}

module _ {S : Type 0} (lib : RegistryLib S) (settings : Settings) where
  -- `getSavedCreds`
  unfoldable pub get_saved_creds : Text → Cmd S Credential
  get_saved_creds server_address w =
      elim (get_credentials_store settings.auth_config server_address) [
        | err e ↦ (err e, w)
        | ok program ↦ Auth.get lib.helpers program server_address w
      ]

  -- The credential: that of the flags, or the saved one. A local registry may need none.
  unfoldable pub choose_credential : SecureFlagOpts → Text → Cmd S Credential
  unfolding flag_credential is_empty_credential get_saved_creds
  choose_credential opts registry w =
      let cred = flag_credential opts in
      let (r, w') = get_saved_creds registry w in
      if is_empty_credential cred
      then (elim r [
        | ok c ↦ (ok c, w')
        | err e ↦ if is_config_not_set e then (ok empty_credential, w') else (err e, w')
      ])
      else (ok cred, w)

  -- The `Credential` function of the client.
  unfoldable pub credential_for : Text → Credential → Text → Credential
  credential_for host cred registry = if registry == host then cred else empty_credential

  -- `getAuthClient`
  unfoldable pub get_auth_client :
      Option Level → SecureFlagOpts → Reference → Cmd S (AuthClient × Bool)
  unfolding choose_credential credential_for set_http_debug_log use_plain_http
  get_auth_client level opts ref w =
      let (r, w') = choose_credential opts ref.registry w in
      elim (use_plain_http settings opts ref.registry) [
        | err e ↦ (err e, w)
        | ok plain ↦ elim r [
          | err e ↦ (err e, w')
          | ok cred ↦ (
            ok (
              record {
                credential = credential_for (lib.host ref) cred;
                client_id = codes "notation";
                user_agent = codes "notation/" ++ settings.version;
              },
              plain,
            ),
            record w' { transport = set_http_debug_log level w'.transport },
          )
        ]
      ]

  -- `getRepositoryClient`
  unfoldable pub get_repository_client : Option Level → SecureFlagOpts → Reference → Cmd S Remote
  unfolding get_auth_client
  get_repository_client level opts ref = do
    client ← get_auth_client level opts ref
    pure (record { client = client.0; reference = ref; plain_http = client.1 })

  -- `getRegistryClient`
  unfoldable pub get_registry_client : Option Level → SecureFlagOpts → Text → Cmd S Remote
  unfolding get_auth_client
  get_registry_client level opts server_address = do
    ref ← lift (lib.new_registry server_address)
    client ← get_auth_client level opts ref
    pure (record { client = client.0; reference = ref; plain_http = client.1 })

  -- `getRemoteRepository`; notation-go's NewRepository has the default options.
  unfoldable pub get_remote_repository : Option Level → SecureFlagOpts → Text → Cmd S (Repository S)
  unfolding get_repository_client
  get_remote_repository level opts reference = do
    ref ← lift (lib.parse_reference reference)
    remote ← get_repository_client level opts ref
    pure (lib.new_repository remote false)

  -- `pingReferrersAPI`
  unfoldable pub ping_referrers_api : Remote → Cmd S (Unit {0})
  unfolding referrers_error
  ping_referrers_api remote w = elim (lib.set_referrers_capability remote true) [
    | err e ↦ (err e, w)
    | ok _ ↦
        let (r, s) = lib.referrers remote zero_digest w.ext in
        elim r [
          | ok _ ↦ (ok tt, record w { ext = s })
          | err e ↦ (err (referrers_error e), record w { ext = s })
        ]
  ]

  -- `getRemoteRepositoryForSign`
  unfoldable pub get_remote_repository_for_sign :
      Option Level → SecureFlagOpts → Text → Bool → Cmd S (Repository S)
  unfolding get_repository_client ping_referrers_api
  get_remote_repository_for_sign level opts reference oci_image_manifest = do
    ref ← lift (lib.parse_reference reference)
    remote ← get_repository_client level opts ref
    branch oci_image_manifest done (ping_referrers_api remote)
    pure (lib.new_repository remote oci_image_manifest)

  abbrev oci_repository : Text → Bool → Cmd S (Repository S)
  oci_repository reference oci_image_manifest = do
    parts ← lift (parse_oci_layout_reference reference)
    act (lib.new_oci_repository parts.0 oci_image_manifest)

  -- `getRepository`
  unfoldable pub get_repository :
      Option Level → InputType → Text → SecureFlagOpts → Cmd S (Repository S)
  unfolding get_remote_repository
  get_repository level registry_input reference opts = get_remote_repository level opts reference
  get_repository level oci_layout_input reference opts = oci_repository reference false
  get_repository level (other_input n) reference opts = fail (new (codes "unsupported input type"))

  -- `getRepositoryForSign`
  unfoldable pub get_repository_for_sign :
      Option Level → InputType → Text → SecureFlagOpts → Bool → Cmd S (Repository S)
  unfolding get_remote_repository_for_sign
  get_repository_for_sign level registry_input reference opts oci_image_manifest =
      get_remote_repository_for_sign level opts reference oci_image_manifest
  get_repository_for_sign level oci_layout_input reference opts oci_image_manifest =
      oci_repository reference oci_image_manifest
  get_repository_for_sign level (other_input n) reference opts oci_image_manifest =
      fail (new (codes "unsupported input type"))
