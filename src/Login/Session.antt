-- ===== src/Login/Session.antt =====
-- From a login to the clients of later commands, and to a logout.
use mathlib.Core.Path.{ap₂}
use notation.Base.{
  ◌≡◌, ◌≢◌, sym, ap, ◌∙◌, Bool, false, Option, [], ◌++◌, arith, Text, codes, Result, ok, err,
  text_eq, bytes_eq_refl, bytes_eq_iff,
}
use notation.Base.Exec.{World, lift-inv, act-inv, bind-inv}
use notation.Base.Errors.{credentials_not_found, is_credentials_not_found}
use notation.Flags.{Level}
use notation.Auth
use notation.Auth.{
  Credential, empty_credential, HelperClient, get_credentials_store, token_username,
  helper_credentials, new_credential_from_docker_creds, HelperCredentials,
}
use notation.Auth.Laws.{IsLawful}
use notation.Manifest.{Reference}
use notation.Remote.{
  SecureFlagOpts, RegistryLib, Settings, AuthClient, flag_credential, is_empty_credential,
}
use notation.Registry.{get_auth_client, choose_credential, credential_for}
use notation.Login.{
  LoginOpts, LoginLib, LogoutOpts, new_credential_from_input, complete, run_login, run_logout,
}
use notation.Registry.Progress.{HasConfig, plain_known}
use notation.Login.Laws.{IsLoggedIn, run_login-IsLoggedIn}

-- Flags that give no credential.
abbrev pub HasNoCredential : SecureFlagOpts → Type 0
HasNoCredential opts = (opts.username ≡ []) × (opts.password ≡ [])

-- A helper forgets what it is told to erase, and says so.
pub record IsForgetful {S : Type 0} (client : HelperClient S) : Type 0 where
  pub forgets :
      (program server : Text) (s : S)
      → (client.erase program server s).0 ≡ ok tt
      → (client.get program server (client.erase program server s).1).0 ≡ err credentials_not_found

input_kept :
    (username password : Text) (plain : Bool)
    → username ≢ token_username
    → new_credential_from_docker_creds
        (helper_credentials (new_credential_from_input username password))
      ≡ flag_credential (record { username = username; password = password; plain_http = plain })
unfolding new_credential_from_docker_creds helper_credentials new_credential_from_input
    flag_credential
input_kept username password plain h =
    ground (arith, bytes_eq_iff username token_username, bytes_eq_refl token_username)

module _ {S : Type 0} (lib : RegistryLib S) (settings : Settings) (level : Option Level) where
  chosen :
      (opts : SecureFlagOpts) (registry program : Text) (d : HelperCredentials) (w : World S)
      → HasNoCredential opts
      → get_credentials_store settings.auth_config registry ≡ ok program
      → (lib.helpers.get program registry w.ext).0 ≡ ok d
      → (choose_credential lib settings opts registry w).0 ≡ ok (new_credential_from_docker_creds d)
  unfolding choose_credential Auth.get
  chosen opts registry program d w (u, p) helped got = ground arith

  -- A client of a command without credential flags, where the credential is known.
  client_of_choice :
      (opts : SecureFlagOpts) (ref : Reference) (cred : Credential) (w : World S)
      → HasConfig settings opts
      → (choose_credential lib settings opts ref.registry w).0 ≡ ok cred
      → (client : AuthClient) × (plain : Bool) × ((get_auth_client lib settings level opts ref w).0
          ≡ ok (client, plain))
        × (client.credential (lib.host ref) ≡ cred)
  unfolding get_auth_client
  client_of_choice opts ref cred w has h =
      let known = plain_known settings opts ref.registry has in
      (
        record {
          credential = credential_for lib settings (lib.host ref) cred;
          client_id = codes "notation";
          user_agent = codes "notation/" ++ settings.version;
        },
        known.0,
        (let shown = known.1 in ground arith),
        unfold credential_for in ground (arith, bytes_eq_refl (lib.host ref)),
      )

  chosen_nothing :
      (opts : SecureFlagOpts) (registry program : Text) (w : World S)
      → HasNoCredential opts
      → get_credentials_store settings.auth_config registry ≡ ok program
      → (lib.helpers.get program registry w.ext).0 ≡ err credentials_not_found
      → (choose_credential lib settings opts registry w).0 ≡ ok empty_credential
  unfolding choose_credential Auth.get is_credentials_not_found
  chosen_nothing opts registry program w (u, p) helped got = ground arith

ok_input :
    {S A : Type 0} {a b : A} {v w : World S}
    → ◌≡◌ {A = Result A × World S} (ok a, v) (ok b, w)
    → a ≡ b
ok_input h = cc

module _ {S : Type 0} (lib : LoginLib S) (settings : Settings) where
  -- After a successful `notation login`, with a helper that keeps what it is given, a later
  -- command without credential flags gets a client for the same server, and the client shows to
  -- the host the very credential that the login has shown to it with its ping: that of the user
  -- name and password which were given to the login, not both empty. The user name "<token>" is
  -- excepted, nothing outside has changed since the login, and the config was loaded, unless the
  -- later command is given --plain-http.
  pub run_login-get_auth_client :
      (login : LoginOpts) (secure : SecureFlagOpts) (w asked w' : World S) {x : Unit {0}}
      (level : Option Level) (opts : SecureFlagOpts) (ref : Reference) (v : World S)
      → IsLawful lib.registry.helpers
      → complete lib settings login.secure w ≡ (ok secure, asked)
      → secure.username ≢ token_username
      → is_empty_credential (flag_credential secure) ≡ false
      → run_login lib settings login w ≡ (ok x, w')
      → HasNoCredential opts
      → ref.registry ≡ login.server
      → v.ext ≡ w'.ext
      → HasConfig settings opts
      → (r : IsLoggedIn lib settings login w w') × (r.secure ≡ secure)
        × (r.remote.client.credential (lib.registry.host r.remote.reference)
            ≡ flag_credential secure)
        × (client : AuthClient) × (plain : Bool) × ((get_auth_client lib.registry settings level
              opts ref v).0
            ≡ ok (client, plain))
        × (client.credential (lib.registry.host ref) ≡ flag_credential secure)
  run_login-get_auth_client login secure w asked w' level opts ref v lawful given name full h
        none_given same_server same_ext has =
      let r = run_login-IsLoggedIn lib settings login w w' h in
      let s : r.secure ≡ secure = ok_input (sym r.input ∙ given) in
      let c = new_credential_from_input r.secure.username r.secure.password in
      let got =
        lawful.gives_back r.program login.server (helper_credentials c)
          (lib.registry.ping r.remote r.connected.ext).1 r.stored in
      let seen : (lib.registry.helpers.get r.program ref.registry v.ext).0
          ≡ ok (helper_credentials c) =
        ap (λ (p : Text × S). (lib.registry.helpers.get r.program p.0 p.1).0)
          (ap₂ (λ (a : Text) (b : S). (a, b)) same_server (same_ext ∙ r.ext_after))
        ∙ got in
      let helped = ap (get_credentials_store settings.auth_config) same_server ∙ r.helped in
      let kept_credential =
        input_kept r.secure.username r.secure.password r.secure.plain_http
          (λ e. name (ap (λ (o : SecureFlagOpts). o.username) (sym s) ∙ e)) in
      let shown = r.shows.from_flags (ap (λ o. is_empty_credential (flag_credential o)) s ∙ full) in
      let (client, plain, gets, later) =
        client_of_choice lib.registry settings level opts ref (flag_credential secure) v has (
          chosen lib.registry settings level opts ref.registry r.program (helper_credentials c) v
            none_given helped seen
          ∙ ap ok (kept_credential ∙ ap flag_credential s)) in
      (r, s, shown.0 ∙ ap flag_credential s, client, plain, gets, later)

  -- After a successful `notation logout`, with a helper that forgets what it erases, a later
  -- command without credential flags gets a client for the same server that shows the host no
  -- credential, if nothing outside has changed since and the config was loaded, unless the later
  -- command is given --plain-http.
  pub run_logout-get_auth_client :
      (logout : LogoutOpts) (w w' : World S) {x : Unit {0}} (level : Option Level)
      (opts : SecureFlagOpts) (ref : Reference) (v : World S)
      → IsForgetful lib.registry.helpers
      → run_logout lib settings logout w ≡ (ok x, w')
      → HasNoCredential opts
      → ref.registry ≡ logout.server
      → v.ext ≡ w'.ext
      → HasConfig settings opts
      → (client : AuthClient) × (plain : Bool) × ((get_auth_client lib.registry settings level opts
            ref v).0
          ≡ ok (client, plain))
        × (client.credential (lib.registry.host ref) ≡ empty_credential)
  unfolding run_logout Auth.erase
  run_logout-get_auth_client logout w w' level opts ref v forgetful h none_given same_server
        same_ext has =
      let r1 = bind-inv _ _ w h in
      let r2 = bind-inv _ _ r1.mid r1.second in
      let c1 = lift-inv (get_credentials_store settings.auth_config logout.server) w r1.first in
      let c2 = act-inv (lib.registry.helpers.erase r1.value logout.server) r1.mid r2.first in
      let after : v.ext ≡ (lib.registry.helpers.erase r1.value logout.server r1.mid.ext).1 =
        same_ext
        ∙ sym (ap (λ (p : _ × World S). p.1.ext) r2.second)
        ∙ sym (ap (λ (u : World S). u.ext) c2.1) in
      let seen : (lib.registry.helpers.get r1.value ref.registry v.ext).0
          ≡ err credentials_not_found =
        ap (λ (p : Text × S). (lib.registry.helpers.get r1.value p.0 p.1).0)
          (ap₂ (λ (a : Text) (b : S). (a, b)) same_server after)
        ∙ forgetful.forgets r1.value logout.server r1.mid.ext c2.0 in
      client_of_choice lib.registry settings level opts ref empty_credential v has (
        chosen_nothing lib.registry settings level opts ref.registry r1.value v none_given
          (ap (get_credentials_store settings.auth_config) same_server ∙ c1.0) seen)
