-- ===== src/Commands/Sessions.antt =====
-- The set-up of `notation login`, `logout`, `key`, `plugin`, `version` and `policy`.
use notation.Base.{false, [], ◌∷◌, codes}
use notation.Commands.{
  Flag, Command, CommandTree, cons, nil, below, leaf, own_args, no_args, exact_args, string_var,
  bool_var, command, flag, add_flag, mark_required,
}
use notation.Commands.Options.{pflag_plugin_config, apply_logging_flags, apply_secure_flags}

-- `loginCommand`
unfoldable pub login_command : Command
unfolding apply_logging_flags apply_secure_flags
login_command =
    let c0 =
      record (command (codes "login [flags] <server>") (codes "Login to registry") (
        codes
          "Log in to an OCI registry\n\nExample - Login with provided username and password:\n\tnotation login -u <user> -p <password> registry.example.com\n\nExample - Login using $NOTATION_USERNAME $NOTATION_PASSWORD variables:\n\tnotation login registry.example.com")) {
            args = own_args;
          } in
    add_flag
      (flag (codes "password-stdin") [] (bool_var false) (codes "take the password from stdin"))
      (apply_secure_flags (apply_logging_flags c0))

-- `logoutCommand`
unfoldable pub logout_command : Command
unfolding apply_logging_flags
logout_command =
    apply_logging_flags
      (record (command (codes "logout [flags] <server>")
        (codes "Log out from the logged in registries") []) { args = own_args })

-- `setKeyDefaultFlag` of key.go
unfoldable pub key_default_flag : Flag
key_default_flag = flag (codes "default") [] (bool_var false) (codes "mark as default")

-- `keyAddCommand`
unfoldable pub key_add_command : Command
unfolding apply_logging_flags pflag_plugin_config key_default_flag
key_add_command =
    let c0 =
      record (command (codes "add --plugin <plugin_name> [flags] <key_name>")
        (codes "Add key to signing key list") []) { args = own_args } in
    let c1 =
      add_flag (flag (codes "plugin") [] (string_var []) (codes "signing plugin name"))
        (apply_logging_flags c0) in
    let c2 = mark_required (codes "plugin") c1 in
    let c3 =
      add_flag (flag (codes "id") [] (string_var []) (codes "key id (required if --plugin is set)"))
        c2 in
    add_flag key_default_flag (add_flag pflag_plugin_config c3)

-- `keyUpdateCommand`
unfoldable pub key_update_command : Command
unfolding apply_logging_flags key_default_flag
key_update_command = add_flag key_default_flag (
    apply_logging_flags
      (record (command (codes "update [flags] <key_name>") (codes "Update key in signing key list")
        []) { aliases = codes "set" ∷ []; args = own_args }))

-- `keyListCommand`
unfoldable pub key_list_command : Command
key_list_command = record (command (codes "list [flags]") (codes "List keys used for signing") []) {
  aliases = codes "ls" ∷ [];
}

-- `keyDeleteCommand`
unfoldable pub key_delete_command : Command
unfolding apply_logging_flags
key_delete_command =
    apply_logging_flags
      (record (command (codes "delete [flags] <key_name>...")
        (codes "Delete key from signing key list") []) { args = own_args })

-- `keyCommand`
unfoldable pub key_command : CommandTree
unfolding key_add_command key_update_command key_list_command key_delete_command
key_command =
    below
      (command (codes "key") (codes "Manage keys used for signing") (
        codes
          "Manage keys used for signing\n\nExample - Add a key to signing key list:\n  notation key add --plugin <plugin_name> --id <key_id> <key_name>\n\nExample - List keys used for signing:\n  notation key ls\n\nExample - Update the default signing key:\n  notation key set --default <key_name>\n\nExample - Delete the key from signing key list:\n  notation key delete <key_name>...\n"))
      (cons (leaf key_add_command) (
        cons (leaf key_update_command)
          (cons (leaf key_list_command) (cons (leaf key_delete_command) nil))))

-- `pluginListCommand`
unfoldable pub plugin_list_command : Command
plugin_list_command =
    record (command (codes "list [flags]") (codes "List installed plugins") (
      codes
        "List installed plugins\n\nExample - List installed Notation plugins:\n  notation plugin ls\n")) {
          aliases = codes "ls" ∷ [];
        }

-- `pluginCommand`
unfoldable pub plugin_command : CommandTree
unfolding plugin_list_command
plugin_command =
    below (command (codes "plugin") (codes "Manage plugins") [])
      (cons (leaf plugin_list_command) nil)

-- `versionCommand`
unfoldable pub version_command : Command
version_command =
    record (command (codes "version") (codes "Show the notation version information") []) {
      args = no_args;
    }

-- `showCmd` and `importCmd` of cmd/notation/policy
unfoldable pub show_cmd : Command
show_cmd =
    record (command (codes "show [flags]") (codes "Show trust policy configuration") (
      codes
        "Show trust policy configuration.\n\n** This command is in preview and under development. **\n\nExample - Show current trust policy configuration:\n  notation policy show\n\nExample - Save current trust policy configuration to a file:\n  notation policy show > my_policy.json\n")) {
          args = exact_args 0;
        }

unfoldable pub import_cmd : Command
import_cmd =
    add_flag
      (flag (codes "force") [] (bool_var false)
        (codes "override the existing trust policy configuration, never prompt"))
      (record (command (codes "import [flags] <file_path>")
        (codes "Import trust policy configuration from a JSON file")
        (codes
          "Import trust policy configuration from a JSON file.\n\n** This command is in preview and under development. **\n\nExample - Import trust policy configuration from a file:\n  notation policy import my_policy.json\n")) {
            args = exact_args 1;
          })

-- `Cmd` of cmd/notation/policy
unfoldable pub policy_cmd : CommandTree
unfolding show_cmd import_cmd
policy_cmd =
    below
      (command (codes "policy [command]") (codes "Manage trust policy configuration")
        (codes "Manage trust policy configuration for signature verification."))
      (cons (leaf show_cmd) (cons (leaf import_cmd) nil))
