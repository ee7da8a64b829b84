-- ===== src/Commands/Options.antt =====
-- The flags that commands share: internal/cmd/flags.go, internal/cmd/options.go, common.go of
-- cmd/notation, and `HideFlags` of internal/experimental.
use notation.Base.{false, List, [], ◌∷◌, ◌++◌, if◌then◌else◌, Text, codes, Result}
use notation.Auth.{Config}
use notation.Experimental.{is_disabled}
use notation.Inspect.Output.{output_plaintext, output_json}
use notation.Signer.{default_signature_format}
use notation.Commands.{
  Flag, Command, string_var, bool_var, duration_var, string_array_var, flag, add_flag, exclude,
  require_together,
}

-- `SetPflagKey` and its like
unfoldable pub pflag_key : Flag
pflag_key = flag (codes "key") (codes "k") (string_var []) (
    codes
      "signing key name, for a key previously added to notation's key list. This is mutually exclusive with the --id and --plugin flags")

unfoldable pub pflag_signature_format : Result Config → Flag
pflag_signature_format config =
    flag (codes "signature-format") [] (string_var (default_signature_format config))
      (codes "signature envelope format, options: \"jws\", \"cose\"")

unfoldable pub pflag_id : Flag
pflag_id =
    flag (codes "id") [] (string_var [])
      (codes "key id (required if --plugin is set). This is mutually exclusive with the --key flag")

unfoldable pub pflag_plugin : Flag
pflag_plugin = flag (codes "plugin") [] (string_var []) (
    codes
      "signing plugin name (required if --id is set). This is mutually exclusive with the --key flag")

unfoldable pub pflag_expiry : Flag
pflag_expiry = flag (codes "expiry") (codes "e") (duration_var 0) (
    codes
      "optional expiry that provides a \"best by use\" time for the artifact. The duration is specified in minutes(m) and/or hours(h). For example: 12h, 30m, 3h20m")

-- No command has this flag.
abbrev pflag_reference : Flag
pflag_reference = flag (codes "reference") (codes "r") (string_var []) (codes "original reference")

unfoldable pub pflag_plugin_config : Flag
pflag_plugin_config = flag (codes "plugin-config") [] string_array_var (
    codes
      "{key}={value} pairs that are passed as it is to a plugin, refer plugin's documentation to set appropriate values")

unfoldable pub pflag_user_metadata : Text → Flag
pflag_user_metadata usage = flag (codes "user-metadata") (codes "m") string_array_var usage

unfoldable pub user_metadata_sign_usage : Text
user_metadata_sign_usage = codes "{key}={value} pairs that are added to the signature payload"

unfoldable pub user_metadata_verify_usage : Text
user_metadata_verify_usage =
    codes
      "user defined {key}={value} pairs that must be present in the signature for successful verification if provided"

unfoldable pub pflag_output : Text → Flag
pflag_output usage = flag (codes "output") (codes "o") (string_var output_plaintext) usage

unfoldable pub output_usage : Text
output_usage =
    codes "output format, options: '"
    ++ output_json
    ++ codes "', '"
    ++ output_plaintext
    ++ codes "'"

-- `ApplyFlagsToCommand` of SignerFlagOpts
unfoldable pub apply_signer_flags : Result Config → Command → Command
unfolding pflag_key pflag_signature_format pflag_id pflag_plugin
apply_signer_flags config c0 =
    let c1 = add_flag pflag_key c0 in
    let c2 = add_flag (pflag_signature_format config) c1 in
    let c3 = add_flag pflag_id c2 in
    let c4 = add_flag pflag_plugin c3 in
    let c5 = require_together (codes "id" ∷ codes "plugin" ∷ []) c4 in
    let c6 = exclude (codes "key" ∷ codes "id" ∷ []) c5 in
    exclude (codes "key" ∷ codes "plugin" ∷ []) c6

-- `ApplyFlags` of LoggingFlagOpts
unfoldable pub apply_logging_flags : Command → Command
apply_logging_flags c =
    add_flag (flag (codes "verbose") (codes "v") (bool_var false) (codes "verbose mode"))
      (add_flag (flag (codes "debug") (codes "d") (bool_var false) (codes "debug mode")) c)

-- `setflagUsername`, `setFlagPassword` and `setFlagPlainHTTP`
unfoldable pub flag_username : Flag
flag_username =
    flag (codes "username") (codes "u") (string_var [])
      (codes "username for registry operations (default to $NOTATION_USERNAME if not specified)")

unfoldable pub flag_password : Flag
flag_password =
    flag (codes "password") (codes "p") (string_var [])
      (codes "password for registry operations (default to $NOTATION_PASSWORD if not specified)")

unfoldable pub flag_plain_http : Flag
flag_plain_http =
    flag (codes "plain-http") [] (bool_var false) (codes "registry access via plain HTTP")

-- `ApplyFlags` of SecureFlagOpts, the flags
unfoldable pub apply_secure_flags : Command → Command
unfolding flag_username flag_password flag_plain_http
apply_secure_flags c = add_flag flag_plain_http (add_flag flag_password (add_flag flag_username c))

-- `HideFlags`, from the value of NOTATION_EXPERIMENTAL
unfoldable pub hide_flags : Text → List Text → Command → Command
unfolding is_disabled
hide_flags env names c = if is_disabled env then record c { hidden = c.hidden ++ names } else c
