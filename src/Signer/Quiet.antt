-- ===== src/Signer/Quiet.antt =====
-- Finding a signer prints nothing to stdout.
use notation.Base.{Text, arith}
use notation.Base.Exec.{◌>>=◌}
use notation.Base.Quiet.{Quiet, quiet_rules}
use notation.Signer.{
  SignerLib, SignerFlagOpts, KeySuite, get_signer, plugin_signer, key_signer, resolve_key,
}

module _ {S Plugin Signer : Type 0} (lib : SignerLib S Plugin Signer) where
  plugin_signer-Quiet :
      (plugin_name key_id : Text) (config : _) → Quiet (plugin_signer lib plugin_name key_id config)
  unfolding plugin_signer
  plugin_signer-Quiet plugin_name key_id config = search quiet_rules

  resolve_key-Quiet : (name : Text) → Quiet (resolve_key lib name)
  unfolding resolve_key
  resolve_key-Quiet name = search quiet_rules

  key_signer-Quiet : (key : KeySuite) → Quiet (key_signer lib key)
  unfolding key_signer
  key_signer-Quiet key = record { at = λ w. unfold ◌>>=◌ in ground arith }

  pub get_signer-Quiet : (opts : SignerFlagOpts) → Quiet (get_signer lib opts)
  unfolding get_signer
  get_signer-Quiet opts =
      search (quiet_rules, plugin_signer-Quiet, resolve_key-Quiet, key_signer-Quiet)
