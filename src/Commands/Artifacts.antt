-- ===== src/Commands/Artifacts.antt =====
-- The set-up of `notation sign`, `verify`, `list` and `inspect`, with the functions that they
-- give to cobra.
use notation.Base.{false, [], ◌∷◌, Text, codes, Result}
use notation.Auth.{Config}
use notation.Commands.{
  Command, own_args, string_var, bool_var, string_array_var, command, flag, add_flag,
  require_together,
}
use notation.Commands.Options.{
  pflag_expiry, pflag_plugin_config, pflag_user_metadata, user_metadata_sign_usage,
  user_metadata_verify_usage, pflag_output, output_usage, apply_signer_flags, apply_logging_flags,
  apply_secure_flags, hide_flags,
}
use notation.Sign.{signature_manifest_image}

-- `signCommand`, from NOTATION_EXPERIMENTAL and the configuration
unfoldable pub sign_command : Text → Result Config → Command
unfolding apply_logging_flags apply_signer_flags apply_secure_flags pflag_expiry pflag_plugin_config
    pflag_user_metadata user_metadata_sign_usage hide_flags
sign_command env config =
    let c0 =
      record (command (codes "sign [flags] <reference>") (codes "Sign artifacts") (
        codes
          "Sign artifacts\n\nPrerequisite: a signing key needs to be configured using the command \"notation key\".\n\nExample - Sign an OCI artifact using the default signing key, with the default JWS envelope, and use OCI image manifest to store the signature:\n  notation sign <registry>/<repository>@<digest>\n\nExample - Sign an OCI artifact using the default signing key, with the COSE envelope:\n  notation sign --signature-format cose <registry>/<repository>@<digest> \n\nExample - Sign an OCI artifact using a specified key\n  notation sign --key <key_name> <registry>/<repository>@<digest>\n\nExample - Sign an OCI artifact identified by a tag (Notation will resolve tag to digest)\n  notation sign <registry>/<repository>:<tag>\n\nExample - Sign an OCI artifact stored in a registry and specify the signature expiry duration, for example 24 hours\n  notation sign --expiry 24h <registry>/<repository>@<digest>\n\nExample - [Experimental] Sign an OCI artifact referenced in an OCI layout\n  notation sign --oci-layout \"<oci_layout_path>@<digest>\"\n\nExample - [Experimental] Sign an OCI artifact identified by a tag and referenced in an OCI layout\n  notation sign --oci-layout \"<oci_layout_path>:<tag>\"\n\nExample - [Experimental] Sign an OCI artifact and use OCI artifact manifest to store the signature:\n  notation sign --signature-manifest artifact <registry>/<repository>@<digest>\n")) {
            args = own_args;
          } in
    let c1 = apply_secure_flags (apply_signer_flags config (apply_logging_flags c0)) in
    let c2 = add_flag pflag_plugin_config (add_flag pflag_expiry c1) in
    let c3 =
      add_flag
        (flag (codes "signature-manifest") [] (string_var signature_manifest_image)
          (codes "[Experimental] manifest type for signature. options: \"image\", \"artifact\""))
        c2 in
    let c4 = add_flag (pflag_user_metadata user_metadata_sign_usage) c3 in
    let c5 =
      add_flag
        (flag (codes "oci-layout") [] (bool_var false)
          (codes "[Experimental] sign the artifact stored as OCI image layout"))
        c4 in
    hide_flags env (codes "signature-manifest" ∷ codes "oci-layout" ∷ []) c5

-- `verifyCommand`
unfoldable pub verify_command : Text → Command
unfolding apply_logging_flags apply_secure_flags pflag_user_metadata user_metadata_verify_usage
    hide_flags
verify_command env =
    let c0 =
      record (command (codes "verify [reference]") (codes "Verify OCI artifacts") (
        codes
          "Verify OCI artifacts\n\nPrerequisite: added a certificate into trust store and created a trust policy.\n\nExample - Verify a signature on an OCI artifact identified by a digest:\n  notation verify <registry>/<repository>@<digest>\n\nExample - Verify a signature on an OCI artifact identified by a tag  (Notation will resolve tag to digest):\n  notation verify <registry>/<repository>:<tag>\n\nExample - [Experimental] Verify a signature on an OCI artifact referenced in an OCI layout using trust policy statement specified by scope.\n  notation verify --oci-layout <registry>/<repository>@<digest> --scope <trust_policy_scope>\n\nExample - [Experimental] Verify a signature on an OCI artifact identified by a tag and referenced in an OCI layout using trust policy statement specified by scope.\n  notation verify --oci-layout <registry>/<repository>:<tag> --scope <trust_policy_scope>\n")) {
            args = own_args;
          } in
    let c1 = apply_secure_flags (apply_logging_flags c0) in
    let c2 =
      add_flag
        (flag (codes "plugin-config") [] string_array_var (
          codes
            "{key}={value} pairs that are passed as it is to a plugin, if the verification is associated with a verification plugin, refer plugin documentation to set appropriate values"))
        c1 in
    let c3 = add_flag (pflag_user_metadata user_metadata_verify_usage) c2 in
    let c4 =
      add_flag
        (flag (codes "oci-layout") [] (bool_var false)
          (codes "[Experimental] verify the artifact stored as OCI image layout"))
        c3 in
    let c5 =
      add_flag
        (flag (codes "scope") [] (string_var []) (
          codes
            "[Experimental] set trust policy scope for artifact verification, required and can only be used when flag \"--oci-layout\" is set"))
        c4 in
    hide_flags env (codes "oci-layout" ∷ codes "scope" ∷ [])
      (require_together (codes "oci-layout" ∷ codes "scope" ∷ []) c5)

-- `listCommand`
unfoldable pub list_command : Text → Command
unfolding apply_logging_flags apply_secure_flags hide_flags
list_command env =
    let c0 =
      record (command (codes "list [flags] <reference>")
        (codes "List signatures of the signed artifact")
        (codes "List all the signatures associated with signed artifact")) {
          aliases = codes "ls" ∷ [];
          args = own_args;
        } in
    let c1 = apply_secure_flags (apply_logging_flags c0) in
    let c2 =
      add_flag
        (flag (codes "oci-layout") [] (bool_var false)
          (codes "[Experimental] list signatures stored in OCI image layout"))
        c1 in
    hide_flags env (codes "oci-layout" ∷ []) c2

-- `inspectCommand`
unfoldable pub inspect_command : Command
unfolding apply_logging_flags apply_secure_flags pflag_output output_usage
inspect_command =
    let c0 =
      record (command (codes "inspect [reference]")
        (codes "Inspect all signatures associated with the signed artifact")
        (codes
          "Inspect all signatures associated with the signed artifact.\n\nExample - Inspect signatures on an OCI artifact identified by a digest:\n  notation inspect <registry>/<repository>@<digest>\n\nExample - Inspect signatures on an OCI artifact identified by a tag  (Notation will resolve tag to digest):\n  notation inspect <registry>/<repository>:<tag>\n\nExample - Inspect signatures on an OCI artifact identified by a digest and output as json:\n  notation inspect --output json <registry>/<repository>@<digest>\n")) {
            args = own_args;
          } in
    add_flag (pflag_output output_usage) (apply_secure_flags (apply_logging_flags c0))
