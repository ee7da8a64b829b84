-- ===== src/Signer.antt =====
-- internal/cmd/signer.go and `ResolveKey` of pkg/configutil: from the flags to a signer. Plugins,
-- signers and signing keys are notation-go's: parameters.
pub mod Quiet
use notation.Base.{
  not, ◌&&◌, Option, none, some, List, [], is_empty, if◌then◌else◌, Text, codes, Result, ok, err,
  new,
}
use notation.Base.Dict.{Dict}
use notation.Auth.{Config}
use notation.Envelope.{jws}
use notation.Base.Exec.{Cmd, fail, lift, act, branch, ◌>>=◌}

-- `SignerFlagOpts` of internal/cmd/options.go
pub record SignerFlagOpts : Type 0 where
  pub key : Text
  pub signature_format : Text
  pub key_id : Text
  pub plugin_name : Text

-- The default of `SetPflagSignatureFormat` of internal/cmd/flags.go, from the configuration.
unfoldable pub default_signature_format : Result Config → Text
default_signature_format (err e) = jws
default_signature_format (ok config) =
    if is_empty config.signature_format then jws else config.signature_format

-- config.X509KeyPair, config.ExternalKey and config.KeySuite of notation-go
pub record X509KeyPair : Type 0 where
  pub key_path : Text
  pub certificate_path : Text

pub record ExternalKey : Type 0 where
  pub id : Text
  pub plugin_name : Text
  pub plugin_config : Dict

pub record KeySuite : Type 0 where
  pub name : Text
  pub x509_key_pair : Option X509KeyPair
  pub external_key : Option ExternalKey

-- config.SigningKeys of notation-go
pub record SigningKeys : Type 0 where
  pub default_key : Option Text
  pub keys : List KeySuite

-- The plugin manager, the signers and the signing keys of notation-go.
pub record SignerLib (S Plugin Signer : Type 0) : Type 0 where
  pub get_plugin : Text → S → Result Plugin × S
  pub new_from_plugin : Plugin → Text → Dict → Result Signer
  pub new_from_files : Text → Text → S → Result Signer × S
  pub load_signing_keys : S → Result SigningKeys × S
  pub get_default : SigningKeys → Result KeySuite
  pub get_key : SigningKeys → Text → Result KeySuite

module _ {S Plugin Signer : Type 0} (lib : SignerLib S Plugin Signer) where
  -- `ResolveKey`
  unfoldable pub resolve_key : Text → Cmd S KeySuite
  resolve_key name = do
    signing_keys ← act lib.load_signing_keys
    lift (if is_empty name then lib.get_default signing_keys else lib.get_key signing_keys name)

  -- A signer from a plugin.
  unfoldable pub plugin_signer : Text → Text → Dict → Cmd S Signer
  plugin_signer plugin_name key_id plugin_config = do
    plugin ← act (lib.get_plugin plugin_name)
    lift (lib.new_from_plugin plugin key_id plugin_config)

  -- A signer from a key of the list.
  unfoldable pub key_signer : KeySuite → Cmd S Signer
  unfolding plugin_signer
  key_signer key = elim key.x509_key_pair [
    | some pair ↦ act (lib.new_from_files pair.key_path pair.certificate_path)
    | none ↦ elim key.external_key [
      | some ext ↦ plugin_signer ext.plugin_name ext.id ext.plugin_config
      | none ↦ fail (
          new (
            codes
              "unsupported key, either provide a local key and certificate file paths, or a key name in config.json, check [DOC_PLACEHOLDER] for details"))
    ]
  ]

  -- `GetSigner`
  unfoldable pub get_signer : SignerFlagOpts → Cmd S Signer
  unfolding resolve_key plugin_signer key_signer
  get_signer opts =
      branch (not (is_empty opts.key_id) && not (is_empty opts.plugin_name) && is_empty opts.key)
        (plugin_signer opts.plugin_name opts.key_id [])
        (do key ← resolve_key opts.key; key_signer key)
