-- ===== src/Registry/Progress.antt =====
-- How a registry is reached with a credential of the flags.
use notation.Base.{
  ◌≡◌, refl, Bool, true, false, Option, some, ◌++◌, is_empty, arith, text_eq, Text, codes, ok,
  if◌then◌else◌, ◌==◌, ◌⊎◌, inl, inr, Bool-cases,
}
use notation.Auth.{Config, any_equal_fold, is_registry_insecure}
use notation.Remote.Hosts.{split_host}
use notation.Base.Exec.{World, ◌>>=◌}
use notation.Flags.{Level}
use notation.Manifest.{Reference, registry_input}
use notation.Remote.{
  SecureFlagOpts, AuthClient, Remote, RegistryLib, Settings, flag_credential, set_http_debug_log,
  use_plain_http,
}
use notation.Registry.{credential_for, get_auth_client, get_repository, get_repository_for_sign}

-- Either the flag asks for plain HTTP, or a config was loaded.
abbrev pub HasConfig : Settings → SecureFlagOpts → Type 0
HasConfig settings opts = (opts.plain_http ≡ true) ⊎ ((c : Config) × (settings.config ≡ some c))

-- Then it is known whether a registry is reached over plain HTTP.
pub plain_known :
    (settings : Settings) (opts : SecureFlagOpts) (registry : Text)
    → HasConfig settings opts
    → (plain : Bool) × (use_plain_http settings opts registry ≡ ok plain)
unfolding use_plain_http is_registry_insecure
plain_known settings opts registry (inl flag) = (true, rw flag refl)
plain_known settings opts registry (inr (c, loaded)) = elim (Bool-cases opts.plain_http) [
  | inl flag ↦ (true, rw flag refl)
  | inr no_flag ↦ (
    if any_equal_fold c.insecure_registries registry
        then true
        else split_host registry == codes "localhost",
    rw (no_flag, loaded) refl,
  )
]

module _ {S : Type 0} (lib : RegistryLib S) (settings : Settings) (level : Option Level)
    (opts : SecureFlagOpts) where
  -- The client with the credential of the flags.
  abbrev pub flag_client : Reference → AuthClient
  flag_client ref = record {
    credential = credential_for lib settings (lib.host ref) (flag_credential opts);
    client_id = codes "notation";
    user_agent = codes "notation/" ++ settings.version;
  }

  abbrev pub flag_remote : Reference → Bool → Remote
  flag_remote ref plain = record { client = flag_client ref; reference = ref; plain_http = plain }

  get_auth_client-flags :
      (ref : Reference) (plain : Bool) (w : World S)
      → is_empty opts.username ≡ false
      → use_plain_http settings opts ref.registry ≡ ok plain
      → get_auth_client lib settings level opts ref w ≡ (
        ok (flag_client ref, plain),
        record w { transport = set_http_debug_log level w.transport },
      )
  unfolding get_auth_client
  get_auth_client-flags ref plain w named known = ground arith

  -- With a user name of the flags, no helper is asked, and nothing but the trace is set up.
  pub get_repository_for_sign-flags :
      (reference : Text) (ref : Reference) (plain : Bool) (w : World S)
      → is_empty opts.username ≡ false
      → lib.parse_reference reference ≡ ok ref
      → use_plain_http settings opts ref.registry ≡ ok plain
      → get_repository_for_sign lib settings level registry_input reference opts true w ≡ (
        ok (lib.new_repository (flag_remote ref plain) true),
        record w { transport = set_http_debug_log level w.transport },
      )
  unfolding get_repository_for_sign ◌>>=◌
  get_repository_for_sign-flags reference ref plain w named parsed known =
      rw (parsed, get_auth_client-flags ref plain w named known) refl

  pub get_repository-flags :
      (reference : Text) (ref : Reference) (plain : Bool) (w : World S)
      → is_empty opts.username ≡ false
      → lib.parse_reference reference ≡ ok ref
      → use_plain_http settings opts ref.registry ≡ ok plain
      → get_repository lib settings level registry_input reference opts w ≡ (
        ok (lib.new_repository (flag_remote ref plain) false),
        record w { transport = set_http_debug_log level w.transport },
      )
  unfolding get_repository ◌>>=◌
  get_repository-flags reference ref plain w named parsed known =
      rw (parsed, get_auth_client-flags ref plain w named known) refl
