-- ===== src/Login/Laws.antt =====
-- What a successful `notation login` has done.
use notation.Base.{
  ◌≡◌, inl, inr, is_empty, text_eq, true, false, if◌then◌else◌, sym, ap, ◌∙◌, List, [], ◌∷◌, ◌++◌,
  arith, Text, codes, ok,
}
use notation.Base.Strings.{trim_space}
use notation.Base.Exec.{
  World, Result-cases, pure-inv, branch, pure, ◌>>=◌, Cmd, bind-inv, act-inv, lift-inv,
}
use notation.Flags.{set_logger_level}
use notation.Auth
use notation.Auth.{Credential, get_credentials_store, helper_credentials}
use notation.Remote.{SecureFlagOpts, Settings, Remote}
use notation.Registry.Laws.{IsClient, get_auth_client-IsClient}
use notation.Registry.{get_registry_client, get_auth_client}
use notation.Login.{
  LoginOpts, LoginLib, new_credential_from_input, complete, validate_auth_config, login_store,
  failing, run_login, read_line, read_username_from_prompt, read_password_from_prompt,
}

module _ {S : Type 0} (lib : LoginLib S) where
  -- The world outside once the user name is known.
  abbrev pub after_username : SecureFlagOpts → S → S
  after_username given s = if is_empty given.username then (lib.read_string s).1 else s

  -- The user name and the password come from the flags, or else from the prompts: a line without
  -- the space around it, what is typed on the terminal, or the rest of stdin as one line.
  pub record IsInput (given secure : SecureFlagOpts) (s : S) : Type 0 where
    pub username_flag : is_empty given.username ≡ false → secure.username ≡ given.username
    pub username_read :
        is_empty given.username ≡ true
        → (line : Text) × ((lib.read_string s).0 ≡ ok line) × (secure.username ≡ trim_space line)
    pub password_flag : is_empty given.password ≡ false → secure.password ≡ given.password
    pub password_typed :
        is_empty given.password ≡ true
        → lib.is_terminal ≡ true
        → (lib.read_terminal (after_username given s)).0 ≡ ok secure.password
    pub password_read :
        is_empty given.password ≡ true
        → lib.is_terminal ≡ false
        → (bytes : Text) × ((lib.read_rest (after_username given s)).0 ≡ ok bytes)
          × (secure.password ≡ read_line bytes)
    pub plain_flag : secure.plain_http ≡ given.plain_http

module _ {S : Type 0} (lib : LoginLib S) (settings : Settings) where
  username_inv :
      (given : SecureFlagOpts) (w : World S) {username : Text} {w' : World S}
      → branch
          (is_empty given.username)
          (read_username_from_prompt lib settings)
          (pure given.username)
          w
        ≡ (ok username, w')
      → (is_empty given.username ≡ false → username ≡ given.username)
        × (is_empty given.username ≡ true
            → (line : Text) × ((lib.read_string w.ext).0 ≡ ok line) × (username ≡ trim_space line))
        × (w'.ext ≡ after_username lib given w.ext)
  unfolding read_username_from_prompt ◌>>=◌
  username_inv given w h = (
    λ e. ground arith,
    λ e. elim (Result-cases (lib.read_string w.ext).0) [
      | inl (line, got) ↦ (line, got, ground arith)
      | inr (x, bad) ↦ absurd (ground arith)
    ],
    ground arith,
  )

  password_inv :
      (given : SecureFlagOpts) (w : World S) {password : Text} {w' : World S}
      → branch
          (is_empty given.password)
          (read_password_from_prompt lib settings)
          (pure given.password)
          w
        ≡ (ok password, w')
      → (is_empty given.password ≡ false → password ≡ given.password)
        × (is_empty given.password ≡ true
            → lib.is_terminal ≡ true
            → (lib.read_terminal w.ext).0 ≡ ok password)
        × (is_empty given.password ≡ true
            → lib.is_terminal ≡ false
            → (bytes : Text) × ((lib.read_rest w.ext).0 ≡ ok bytes) × (password ≡ read_line bytes))
  unfolding read_password_from_prompt ◌>>=◌
  password_inv given w h = (
    λ e. ground arith,
    λ e t. ground arith,
    λ e t. elim (Result-cases (lib.read_rest w.ext).0) [
      | inl (bytes, got) ↦ (bytes, got, ground arith)
      | inr (x, bad) ↦ absurd (ground arith)
    ],
  )

  -- Where the user name and the password come from.
  complete-IsInput :
      (given : SecureFlagOpts) (w : World S) {secure : SecureFlagOpts} {w' : World S}
      → complete lib settings given w ≡ (ok secure, w')
      → IsInput lib given secure w.ext
  unfolding complete
  complete-IsInput given w {secure} h =
      let r1 = bind-inv _ _ w h in
      let r2 = bind-inv _ _ r1.mid r1.second in
      let u = username_inv given w r1.first in
      let p = password_inv given r1.mid r2.first in
      let same = (pure-inv {S = S} _ r2.mid r2.second).0 in
      let name : secure.username ≡ r1.value = sym (ap (λ (o : SecureFlagOpts). o.username) same) in
      let word : secure.password ≡ r2.value = sym (ap (λ (o : SecureFlagOpts). o.password) same) in
      record {
        username_flag = λ e. name ∙ u.0 e;
        username_read = λ e. let (line, got, trimmed) = u.1 e in (line, got, name ∙ trimmed);
        password_flag = λ e. word ∙ p.0 e;
        password_typed =
            λ e t. ap (λ (s : S). (lib.read_terminal s).0) (sym u.2) ∙ p.1 e t ∙ ap ok (sym word);
        password_read = λ e t.
            let (bytes, got, line) = p.2 e t in
            (bytes, ap (λ (s : S). (lib.read_rest s).0) (sym u.2) ∙ got, word ∙ line);
        plain_flag = sym (ap (λ (o : SecureFlagOpts). o.plain_http) same);
      }

  client_inv :
      (level : _) (secure : SecureFlagOpts) (server : Text) (w : World S) {remote : Remote}
      {w' : World S}
      → get_registry_client lib.registry settings level secure server w ≡ (ok remote, w')
      → (lib.registry.new_registry server ≡ ok remote.reference)
        × (get_auth_client lib.registry settings level secure remote.reference w
            ≡ (ok (remote.client, remote.plain_http), w'))
  unfolding get_registry_client ◌>>=◌
  client_inv level secure server w h = ground arith

  -- What a successful run leaves behind.
  pub record IsLoggedIn (opts : LoginOpts) (w w' : World S) : Type 0 where
    pub secure : SecureFlagOpts
    pub remote : Remote
    pub program : Text
    pub asked : World S
    pub connected : World S
    pub typed : IsInput lib opts.secure secure w.ext
    pub at_server : lib.registry.new_registry opts.server ≡ ok remote.reference
    pub shows :
        IsClient lib.registry settings
          (set_logger_level opts.logging)
          secure
          remote.reference
          asked
          connected
          remote.client
          remote.plain_http
    pub input : complete lib settings opts.secure w ≡ (ok secure, asked)
    pub connects :
        get_registry_client lib.registry settings
          (set_logger_level opts.logging)
          secure
          opts.server
          asked
        ≡ (ok remote, connected)
    pub pinged : (lib.registry.ping remote connected.ext).0 ≡ ok tt
    pub helped : get_credentials_store settings.auth_config opts.server ≡ ok program
    pub stored :
        (lib.registry.helpers.store program opts.server
          (helper_credentials (new_credential_from_input secure.username secure.password))
          (lib.registry.ping remote connected.ext).1).0
        ≡ ok tt
    pub ext_after :
        w'.ext
        ≡ (lib.registry.helpers.store program opts.server
            (helper_credentials (new_credential_from_input secure.username secure.password))
            (lib.registry.ping remote connected.ext).1).1
    pub succeeded : (out : List Text) × (w'.stdout ≡ out ++ codes "Login Succeeded\n" ∷ [])

  login_store_inv :
      (server program : Text)
      → login_store lib settings server ≡ ok program
      → get_credentials_store settings.auth_config server ≡ ok program
  unfolding login_store
  login_store_inv server program h = ground arith

  failing_inv :
      (prefix : Text) (m : Cmd S (Unit {0})) (w : World S) {x : Unit {0}} {w' : World S}
      → failing prefix m w ≡ (ok x, w')
      → m w ≡ (ok tt, w')
  failing_inv prefix m w h = ground arith

  store_inv :
      (program server : Text) (c : Credential) (w : World S) {w' : World S}
      → Auth.store lib.registry.helpers program server c w ≡ (ok tt, w')
      → ((lib.registry.helpers.store program server (helper_credentials c) w.ext).0 ≡ ok tt)
        × (w'.ext ≡ (lib.registry.helpers.store program server (helper_credentials c) w.ext).1)
  unfolding Auth.store
  store_inv program server c w h =
      let r = act-inv (lib.registry.helpers.store program server (helper_credentials c)) w h in
      (r.0, sym (ap (λ (v : World S). v.ext) r.1))

  -- If `notation login` succeeds, then the user name and the password are those of the flags or,
  -- where these are missing, of the prompts, and the registry of the server has answered a ping
  -- of a client that shows them to its host, or the saved credential where both are empty, and
  -- nothing to other hosts. Only after that the user name and the password were handed to the
  -- server's helper, which took them, and nothing outside changed since. The last thing printed
  -- is the success message.
  pub run_login-IsLoggedIn :
      (opts : LoginOpts) (w w' : World S) {x : Unit {0}}
      → run_login lib settings opts w ≡ (ok x, w')
      → IsLoggedIn opts w w'
  unfolding run_login validate_auth_config
  run_login-IsLoggedIn opts w w' h =
      let r1 = bind-inv _ _ w h in
      let r2 = bind-inv _ _ r1.mid r1.second in
      let v1 = bind-inv _ _ r1.mid r2.first in
      let r3 = bind-inv _ _ r2.mid r2.second in
      let r4 = bind-inv _ _ r3.mid r3.second in
      let server =
        client_inv (set_logger_level opts.logging) r1.value opts.server r1.mid v1.first in
      let ping = act-inv (lib.registry.ping v1.value) v1.mid v1.second in
      let c3 = lift-inv (login_store lib settings opts.server) r2.mid r3.first in
      let credential = new_credential_from_input r1.value.username r1.value.password in
      let c4 = store_inv r3.value opts.server credential r3.mid (
        failing_inv (codes "failed to store credentials: ")
          (Auth.store lib.registry.helpers r3.value opts.server credential) r3.mid r4.first) in
      let same : r3.mid.ext ≡ (lib.registry.ping v1.value v1.mid.ext).1 =
        sym (ap (λ (v : World S). v.ext) (ping.1 ∙ c3.1)) in
      let run = lib.registry.helpers.store r3.value opts.server (helper_credentials credential) in
      record {
        secure = r1.value;
        remote = v1.value;
        program = r3.value;
        asked = r1.mid;
        connected = v1.mid;
        typed = complete-IsInput opts.secure w r1.first;
        at_server = server.0;
        shows =
            get_auth_client-IsClient lib.registry settings (set_logger_level opts.logging) r1.value
              v1.value.reference r1.mid v1.mid v1.value.client v1.value.plain_http server.1;
        input = r1.first;
        connects = v1.first;
        pinged = ping.0;
        helped = login_store_inv opts.server r3.value c3.0;
        stored = ap (λ (s : S). (run s).0) (sym same) ∙ c4.0;
        ext_after =
            sym (ap (λ (p : _ × World S). p.1.ext) r4.second)
            ∙ c4.1
            ∙ ap (λ (s : S). (run s).1) same;
        succeeded = (r4.mid.stdout, sym (ap (λ (p : _ × World S). p.1.stdout) r4.second));
      }
