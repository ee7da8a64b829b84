-- ===== src/Commands/Certs.antt =====
-- The set-up of the commands of cmd/notation/cert.
use notation.Base.{false, [], ◌∷◌, codes}
use notation.Commands.{
  Flag, Command, CommandTree, cons, nil, below, leaf, own_args, string_var, bool_var, int_var,
  command, flag, add_flag, mark_required,
}
use notation.Commands.Options.{apply_logging_flags}

-- The flags --type and --store, which four commands define in the same words.
unfoldable pub type_flag : Flag
type_flag =
    flag (codes "type") (codes "t") (string_var [])
      (codes "specify trust store type, options: ca, signingAuthority")

unfoldable pub store_flag : Flag
store_flag = flag (codes "store") (codes "s") (string_var []) (codes "specify named store")

-- `certAddCommand`
unfoldable pub cert_add_command : Command
unfolding type_flag store_flag
cert_add_command =
    let c0 =
      record (command (codes "add --type <type> --store <name> [flags] <cert_path>...")
        (codes "Add certificates to the trust store.")
        (codes
          "Add certificates to the trust store\n\nExample - Add a certificate to the \"ca\" type of a named store \"acme-rockets\":\n  notation cert add --type ca --store acme-rockets acme-rockets.crt\n\nExample - Add a certificate to the \"signingAuthority\" type of a named store \"wabbit-networks\":\n  notation cert add --type signingAuthority --store wabbit-networks wabbit-networks.pem\n")) {
            args = own_args;
          } in
    mark_required (codes "store")
      (mark_required (codes "type") (add_flag store_flag (add_flag type_flag c0)))

-- `certListCommand`
unfoldable pub cert_list_command : Command
unfolding type_flag store_flag apply_logging_flags
cert_list_command =
    let c0 =
      record (command (codes "list") (codes "List certificates in the trust store.") (
        codes
          "List certificates in the trust store\n\nExample - List all certificate files stored in the trust store\n  notation cert ls\n\nExample - List all certificate files of trust store \"acme-rockets\"\n  notation cert ls --store \"acme-rockets\"\n\nExample - List all certificate files from trust store of type \"ca\"\n  notation cert ls --type ca\n\nExample - List all certificate files from trust store \"wabbit-networks\" of type \"signingAuthority\"\n  notation cert ls --type signingAuthority --store \"wabbit-networks\"\n")) {
            aliases = codes "ls" ∷ [];
          } in
    add_flag store_flag (add_flag type_flag (apply_logging_flags c0))

-- `certShowCommand`
unfoldable pub cert_show_command : Command
unfolding type_flag store_flag apply_logging_flags
cert_show_command =
    let c0 =
      record (command (codes "show --type <type> --store <name> [flags] <cert_fileName>")
        (codes
          "Show certificate details given trust store type, named store, and certificate file name. If the certificate file contains multiple certificates, then all certificates are displayed.")
        (codes
          "Show certificate details of given trust store name, trust store type, and certificate file name. If the certificate file contains multiple certificates, then all certificates are displayed\n\nExample - Show details of certificate \"cert1.pem\" with type \"ca\" from trust store \"acme-rockets\":\n  notation cert show --type ca --store acme-rockets cert1.pem\n\nExample - Show details of certificate \"cert2.pem\" with type \"signingAuthority\" from trust store \"wabbit-networks\":\n  notation cert show --type signingAuthority --store wabbit-networks cert2.pem\n")) {
            args = own_args;
          } in
    mark_required (codes "store") (
      mark_required (codes "type")
        (add_flag store_flag (add_flag type_flag (apply_logging_flags c0))))

-- `certDeleteCommand`
unfoldable pub cert_delete_command : Command
unfolding type_flag store_flag
cert_delete_command =
    let c0 =
      record (command
        (codes "delete --type <type> --store <name> [flags] (--all | <cert_fileName>)")
        (codes "Delete certificates from the trust store.")
        (codes
          "Delete certificates from the trust store\n\nExample - Delete all certificates with \"ca\" type from the trust store \"acme-rockets\":\n  notation cert delete --type ca --store acme-rockets --all\n\nExample - Delete certificate \"cert1.pem\" with \"signingAuthority\" type from trust store wabbit-networks:\n  notation cert delete --type signingAuthority --store wabbit-networks cert1.pem\n\nExample - Delete all certificates with \"ca\" type from the trust store \"acme-rockets\", without prompt for confirmation:\n  notation cert delete --type ca --store acme-rockets -y --all \n")) {
            args = own_args;
          } in
    let c1 =
      add_flag
        (flag (codes "all") (codes "a") (bool_var false)
          (codes "delete all certificates in the named store"))
        (add_flag store_flag (add_flag type_flag c0)) in
    let c2 =
      add_flag
        (flag (codes "yes") (codes "y") (bool_var false) (codes "do not prompt for confirmation"))
        c1 in
    mark_required (codes "store") (mark_required (codes "type") c2)

-- `setKeyDefaultFlag` of cert/generateTest.go
unfoldable pub test_key_default_flag : Flag
test_key_default_flag =
    flag (codes "default") [] (bool_var false) (codes "mark as default signing key")

-- `certGenerateTestCommand`
unfoldable pub cert_generate_test_command : Command
unfolding test_key_default_flag
cert_generate_test_command =
    let c0 =
      record (command (codes "generate-test [flags] <common_name>")
        (codes "Generate a test RSA key and a corresponding self-signed certificate.")
        (codes
          "Generate a test RSA key and a corresponding self-signed certificate\n\nExample - Generate a test RSA key and a corresponding self-signed certificate named \"wabbit-networks.io\":\n  notation cert generate-test \"wabbit-networks.io\"\n\nExample - Generate a test RSA key and a corresponding self-signed certificate, set RSA key as a default signing key:\n  notation cert generate-test --default \"wabbit-networks.io\"\n")) {
            args = own_args;
          } in
    add_flag test_key_default_flag
      (add_flag (flag (codes "bits") (codes "b") (int_var 2048) (codes "RSA key bits")) c0)

-- `Cmd` of cmd/notation/cert
unfoldable pub cert_cmd : CommandTree
unfolding cert_add_command cert_list_command cert_show_command cert_delete_command
    cert_generate_test_command
cert_cmd =
    below
      (record (command (codes "certificate") (codes "Manage certificates in trust store")
        (codes "Manage certificates in trust store for signature verification.")) {
          aliases = codes "cert" ∷ [];
        })
      (cons (leaf cert_add_command) (
        cons (leaf cert_list_command) (
          cons (leaf cert_show_command)
            (cons (leaf cert_delete_command) (cons (leaf cert_generate_test_command) nil)))))
