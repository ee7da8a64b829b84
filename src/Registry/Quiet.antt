-- ===== src/Registry/Quiet.antt =====
-- Connecting to a repository prints nothing to stdout.
use notation.Base.{Option, Text, arith}
use notation.Base.Exec.{◌>>=◌}
use notation.Base.Quiet.{Quiet, quiet_rules}
use notation.Flags.{Level}
use notation.Auth
use notation.Manifest.{InputType, registry_input, oci_layout_input, other_input, Reference}
use notation.Remote.{Remote, RegistryLib, Settings, SecureFlagOpts}
use notation.Registry.{
  get_repository_for_sign, get_repository, get_remote_repository, get_remote_repository_for_sign,
  ping_referrers_api, get_repository_client,
}

module _ {S : Type 0} (lib : RegistryLib S) (settings : Settings) (level : Option Level)
    (opts : SecureFlagOpts) where
  get_repository_client-Quiet :
      (ref : Reference) → Quiet (get_repository_client lib settings level opts ref)
  unfolding get_repository_client
  get_repository_client-Quiet ref = record { at = λ w. unfold Auth.get ◌>>=◌ in ground arith }

  ping_referrers_api-Quiet : (remote : Remote) → Quiet (ping_referrers_api lib settings remote)
  unfolding ping_referrers_api
  ping_referrers_api-Quiet remote = record { at = λ w. ground arith }

  get_remote_repository_for_sign-Quiet :
      (reference : Text) (image : _)
      → Quiet (get_remote_repository_for_sign lib settings level opts reference image)
  unfolding get_remote_repository_for_sign
  get_remote_repository_for_sign-Quiet reference image =
      search (quiet_rules, get_repository_client-Quiet, ping_referrers_api-Quiet) depth 8

  pub get_remote_repository-Quiet :
      (reference : Text) → Quiet (get_remote_repository lib settings level opts reference)
  unfolding get_remote_repository
  get_remote_repository-Quiet reference = search (quiet_rules, get_repository_client-Quiet) depth 8

  pub get_repository_for_sign-Quiet :
      (input : InputType) (reference : Text) (image : _)
      → Quiet (get_repository_for_sign lib settings level input reference opts image)
  unfolding get_repository_for_sign
  get_repository_for_sign-Quiet registry_input reference image =
      get_remote_repository_for_sign-Quiet reference image
  get_repository_for_sign-Quiet oci_layout_input reference image = search quiet_rules
  get_repository_for_sign-Quiet (other_input n) reference image = search quiet_rules

  pub get_repository-Quiet :
      (input : InputType) (reference : Text)
      → Quiet (get_repository lib settings level input reference opts)
  unfolding get_repository
  get_repository-Quiet registry_input reference = get_remote_repository-Quiet reference
  get_repository-Quiet oci_layout_input reference = search quiet_rules
  get_repository-Quiet (other_input n) reference = search quiet_rules
