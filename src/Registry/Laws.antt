-- ===== src/Registry/Laws.antt =====
-- Which credential goes to which host, when a connection is plain, and what signing asks of the
-- registry.
use notation.Base.{
  ◌≡◌, ◌≢◌, sym, ap, ◌∙◌, Bool, true, false, ◌||◌, Option, none, some, arith, ◌==◌, text_eq,
  bytes_eq_iff, bytes_eq_refl, Text, codes, ok,
}
use notation.Base.Exec.{World, ◌>>=◌, bind-inv, branch, done, lift-inv, pure-inv}
use notation.Flags.{Level}
use notation.Auth
use notation.Auth.{
  Credential, empty_credential, Config, any_equal_fold, is_registry_insecure, get_credentials_store,
}
use notation.Manifest.{Reference, Repository}
use notation.Remote.{
  SecureFlagOpts, AuthClient, Remote, RegistryLib, Settings, flag_credential, is_empty_credential,
  zero_digest,
}
use notation.Remote.Hosts.{split_host}
use notation.Registry.{
  get_auth_client, get_repository_client, ping_referrers_api, get_remote_repository_for_sign,
}

-- The registry is in the list of insecure registries of a config that was loaded.
abbrev pub is_listed : Option Config → Text → Bool
is_listed none registry = false
is_listed (some c) registry = any_equal_fold c.insecure_registries registry

module _ {S : Type 0} (lib : RegistryLib S) (settings : Settings) (level : Option Level)
    (opts : SecureFlagOpts) where
  -- What `getAuthClient` may return for `ref`.
  pub record IsClient (ref : Reference) (w w' : World S) (client : AuthClient) (plain : Bool)
      : Type 0 where
    pub other_hosts :
        (host : Text) → host ≢ lib.host ref → client.credential host ≡ empty_credential
    pub from_flags :
        is_empty_credential (flag_credential opts) ≡ false
        → (client.credential (lib.host ref) ≡ flag_credential opts) × (w'.ext ≡ w.ext)
    pub from_helper :
        (program : Text) (cred : Credential)
        → is_empty_credential (flag_credential opts) ≡ true
        → get_credentials_store settings.auth_config ref.registry ≡ ok program
        → (Auth.get lib.helpers program ref.registry w).0 ≡ ok cred
        → client.credential (lib.host ref) ≡ cred
    pub plain_only_if :
        plain ≡ true
        → (opts.plain_http
            || is_listed settings.config ref.registry
            || (split_host ref.registry == codes "localhost"))
          ≡ true
    pub silent : (w'.stdout ≡ w.stdout) × (w'.stderr ≡ w.stderr)

  -- The client that `getAuthClient` returns shows a credential to no host but that of the
  -- reference. That host is shown the credential of the flags, if there is one, and no helper is
  -- asked then; otherwise the one that the registry's helper returns. HTTP without TLS is used
  -- only if the flag, the list of insecure registries or the host name localhost asks for it.
  pub get_auth_client-IsClient :
      (ref : Reference) (w w' : World S) (client : AuthClient) (plain : Bool)
      → get_auth_client lib settings level opts ref w ≡ (ok (client, plain), w')
      → IsClient ref w w' client plain
  get_auth_client-IsClient ref w w' client plain h = record {
    other_hosts =
        λ host ne. unfold get_auth_client in ground (arith, bytes_eq_iff host (lib.host ref));
    from_flags = λ given. unfold get_auth_client in ground (arith, bytes_eq_refl (lib.host ref));
    from_helper = λ program cred none_given helped got.
        unfold get_auth_client in ground (arith, bytes_eq_refl (lib.host ref));
    plain_only_if = λ p. unfold get_auth_client is_registry_insecure in ground arith;
    silent = unfold get_auth_client Auth.get in ground arith;
  }

  -- A repository that the Referrers API of its registry has answered for.
  pub record IsPinged (reference : Text) (repo : Repository S) : Type 0 where
    pub remote : Remote
    pub at : World S
    pub parsed : lib.parse_reference reference ≡ ok remote.reference
    pub capable : lib.set_referrers_capability remote true ≡ ok tt
    pub answered : (lib.referrers remote zero_digest at.ext).0 ≡ ok tt
    pub repository : repo ≡ lib.new_repository remote false

  ping_inv :
      (remote : Remote) (w : World S) {x : Unit {0}} {w' : World S}
      → branch false done (ping_referrers_api lib settings remote) w ≡ (ok x, w')
      → (lib.set_referrers_capability remote true ≡ ok tt)
        × ((lib.referrers remote zero_digest w.ext).0 ≡ ok tt)
  unfolding ping_referrers_api
  ping_inv remote w h = ground arith

  client_inv :
      (ref : Reference) (w : World S) {remote : Remote} {w' : World S}
      → get_repository_client lib settings level opts ref w ≡ (ok remote, w')
      → remote.reference ≡ ref
  unfolding get_repository_client ◌>>=◌
  client_inv ref w h = ground arith

  -- With the OCI artifact manifest, a repository for signing is returned only if the registry has
  -- answered the Referrers API without an error, for the reference that the user named.
  pub get_remote_repository_for_sign-IsPinged :
      (reference : Text) (w w' : World S) (repo : Repository S)
      → get_remote_repository_for_sign lib settings level opts reference false w ≡ (ok repo, w')
      → IsPinged reference repo
  unfolding get_remote_repository_for_sign
  get_remote_repository_for_sign-IsPinged reference w w' repo h =
      let r1 = bind-inv _ _ w h in
      let r2 = bind-inv _ _ r1.mid r1.second in
      let r3 = bind-inv _ _ r2.mid r2.second in
      let pinged = ping_inv r2.value r2.mid r3.first in
      record {
        remote = r2.value;
        at = r2.mid;
        parsed = (lift-inv _ w r1.first).0 ∙ ap ok (sym (client_inv r1.value r1.mid r2.first));
        capable = pinged.0;
        answered = pinged.1;
        repository = sym (pure-inv _ r3.mid r3.second).0;
      }
