-- ===== src/Login.antt =====
-- cmd/notation/login.go and cmd/notation/logout.go. Reading from stdin and from the terminal are
-- parameters, as are the registry and the credential helpers.
pub mod Lines
pub mod Laws
pub mod Session
use notation.Base.{
  Bool, List, [], ◌∷◌, ◌++◌, is_empty, if◌then◌else◌, Text, codes, Result, ok, err, new, wrap,
}
use notation.Base.Errors.{error_text}
use notation.Base.Exec.{Cmd, pure, lift, act, print, branch, ◌>>=◌, ◌>>◌}
use notation.Base.Strings.{trim_suffix, trim_space}
use notation.Flags.{LoggingFlagOpts, set_logger_level}
use notation.Auth.{Credential, get_credentials_store}
use notation.Auth
use notation.Remote.{SecureFlagOpts, RegistryLib, Settings}
use notation.Registry.{get_registry_client}

-- `loginOpts`
pub record LoginOpts : Type 0 where
  pub logging : LoggingFlagOpts
  pub secure : SecureFlagOpts
  pub password_stdin : Bool
  pub server : Text

-- `logoutOpts`
pub record LogoutOpts : Type 0 where
  pub logging : LoggingFlagOpts
  pub server : Text

-- The outside world of the two commands.
pub record LoginLib (S : Type 0) : Type 0 where
  pub registry : RegistryLib S
  -- io.ReadAll(os.Stdin)
  pub read_stdin : S → Result Text × S
  -- ReadString('\n') and io.ReadAll of the bufio.Reader
  pub read_string : S → Result Text × S
  pub read_rest : S → Result Text × S
  -- term.IsTerminal of stdin, and term.ReadPassword
  pub is_terminal : Bool
  pub read_terminal : S → Result Text × S

-- `Args` of the commands
unfoldable pub login_args : List Text → LoginOpts → Result LoginOpts
login_args [] opts = err (new (codes "no hostname specified"))
login_args (server ∷ rest) opts = ok (record opts { server = server })

unfoldable pub logout_args : List Text → LogoutOpts → Result LogoutOpts
logout_args [] opts = err (new (codes "no hostname specified"))
logout_args (server ∷ rest) opts = ok (record opts { server = server })

-- `readLine`, on all bytes of its reader
unfoldable pub read_line : Text → Text
read_line password_bytes = trim_suffix 13 (trim_suffix 10 password_bytes)

-- `newCredentialFromInput`
unfoldable pub new_credential_from_input : Text → Text → Credential
new_credential_from_input username password = record {
  username = username;
  password = password;
  refresh_token = if is_empty username then password else [];
  access_token = [];
}

abbrev wrapping : {S : Type 0} → Text → Cmd S Text → Cmd S Text
wrapping prefix m w =
    let (r, w') = m w in elim r [ ok t ↦ (ok t, w') | err e ↦ (err (wrap prefix e), w') ]

abbrev pub failing : {S : Type 0} → Text → Cmd S (Unit {0}) → Cmd S (Unit {0})
failing prefix m w =
    let (r, w') = m w in
    elim r [ ok _ ↦ (ok tt, w') | err e ↦ (err (new (prefix ++ error_text e)), w') ]

module _ {S : Type 0} (lib : LoginLib S) (settings : Settings) where
  -- `readPassword`, the body of `PreRunE`
  unfoldable pub read_password : LoginOpts → Cmd S LoginOpts
  unfolding read_line
  read_password opts =
      branch opts.password_stdin
        (do
          bytes ← act lib.read_stdin
          pure (record opts { secure = record opts.secure { password = read_line bytes } }))
        (pure opts)

  -- `readUsernameFromPrompt`
  unfoldable pub read_username_from_prompt : Cmd S Text
  read_username_from_prompt = do
    print (codes "Username: ")
    username ← wrapping (codes "error reading username: ") (act lib.read_string)
    pure (trim_space username)

  -- `readPasswordFromPrompt`
  unfoldable pub read_password_from_prompt : Cmd S Text
  unfolding read_line
  read_password_from_prompt = do
    print (codes "Password: ")
    password ←
        branch lib.is_terminal (wrapping (codes "error reading password: ") (act lib.read_terminal))
          (do
            bytes ← wrapping (codes "error reading password: ") (act lib.read_rest)
            pure (read_line bytes))
    print (10 ∷ [])
    pure password

  -- The prompts for what the flags leave out.
  unfoldable pub complete : SecureFlagOpts → Cmd S SecureFlagOpts
  unfolding read_username_from_prompt read_password_from_prompt
  complete secure = do
    username ← branch (is_empty secure.username) read_username_from_prompt (pure secure.username)
    password ← branch (is_empty secure.password) read_password_from_prompt (pure secure.password)
    pure (record secure { username = username; password = password })

  -- `validateAuthConfig`
  unfoldable pub validate_auth_config : LoggingFlagOpts → SecureFlagOpts → Text → Cmd S (Unit {0})
  validate_auth_config logging secure server_address = do
    registry ←
        get_registry_client lib.registry settings (set_logger_level logging) secure server_address
    act (lib.registry.ping registry)

  -- auth.GetCredentialsStore with its error in the text of a new one
  unfoldable pub login_store : Text → Result Text
  login_store server_address = elim (get_credentials_store settings.auth_config server_address) [
    | ok program ↦ ok program
    | err e ↦ err (new (codes "could not get the credentials store: " ++ error_text e))
  ]

  -- `runLogin`
  unfoldable pub run_login : LoginOpts → Cmd S (Unit {0})
  unfolding login_store
  run_login opts = do
    secure ← complete opts.secure
    validate_auth_config opts.logging secure opts.server
    program ← lift (login_store opts.server)
    failing (codes "failed to store credentials: ") (
        Auth.store lib.registry.helpers program opts.server
          (new_credential_from_input secure.username secure.password))
    print (codes "Login Succeeded\n")

  -- `runLogout`
  unfoldable pub run_logout : LogoutOpts → Cmd S (Unit {0})
  run_logout opts = do
    program ← lift (get_credentials_store settings.auth_config opts.server)
    Auth.erase lib.registry.helpers program opts.server
    print (codes "Logout Succeeded\n")
