-- ===== src/Commands/Root.antt =====
-- `main` of cmd/notation/main.go: the tree of all commands, and the exit status.
use notation.Base.{ℕ, [], Text, codes, Result, ok, err}
use notation.Auth.{Config}
use notation.Commands.{CommandTree, cons, nil, below, leaf, command}
use notation.Commands.Artifacts.{sign_command, verify_command, list_command, inspect_command}
use notation.Commands.Sessions.{
  login_command, logout_command, key_command, plugin_command, version_command, policy_cmd,
}
use notation.Commands.Certs.{cert_cmd}

-- The command that `main` builds, from NOTATION_EXPERIMENTAL and the configuration
unfoldable pub root_command : Text → Result Config → CommandTree
unfolding sign_command verify_command list_command inspect_command login_command logout_command
    key_command plugin_command version_command policy_cmd cert_cmd
root_command env config =
    below (command (codes "notation") (codes "Notation - a tool to sign and verify artifacts") []) (
      cons (leaf (sign_command env config)) (
        cons (leaf (verify_command env)) (
          cons (leaf (list_command env)) (
            cons cert_cmd (
              cons policy_cmd (
                cons key_command (
                  cons plugin_command (
                    cons (leaf login_command) (
                      cons (leaf logout_command)
                        (cons (leaf version_command) (cons (leaf inspect_command) nil)))))))))))

-- The exit status of the process, from what Execute returns
unfoldable pub exit_status : Result (Unit {0}) → ℕ
exit_status (ok _) = 0
exit_status (err e) = 1
