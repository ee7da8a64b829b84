-- ===== src/Tests/Sign.antt =====
-- Runs of cmd/notation/sign.go. Plugins and signers are their names, and signing adds 10 to the
-- calls that the world outside counts.
use notation.Base.{
  ◌≡◌, refl, ℕ, ◌+◌, false, some, none, [], ◌∷◌, Text, codes, ok, err, new, bytes_eq, contains,
}
use notation.Base.Exec.{World, traced, default_transport, ◌>>=◌}
use notation.Base.Dict.{insert}
use notation.Base.Strings.{cut}
use notation.Flags.{parse_flag_map, set_logger_level}
use notation.Envelope.{get_envelope_media_type, jws}
use notation.Manifest.{registry_input, resolve_reference}
use notation.Registry.{get_repository_for_sign}
use notation.Signer.{get_signer}
use notation.Sign.{
  SignOpts, SignLib, nanoseconds, prepare_signing_opts, run_sign, sign_run, success,
  validate_signature_manifest, tag_warning, conclude,
}
use notation.Sign.Laws.{IsSigned, run_sign-IsSigned}
use notation.Sign.Failures.{IsAccepted, sign_run-IsAccepted}
use notation.Tests.Manifest.{stat_is_dir, is_digest, start, tag, resolved}
use notation.Tests.Registry.{registry_lib, settings, secure}

abbrev pub lib : SignLib ℕ Text Text
lib = record {
  registry = registry_lib;
  signers = record {
    get_plugin = λ name calls. (ok name, calls);
    new_from_plugin = λ plugin key config. ok plugin;
    new_from_files = λ key cert calls. (ok key, calls);
    load_signing_keys = λ calls. (ok (record { default_key = none; keys = [] }), calls);
    get_default = λ keys. err (new []);
    get_key = λ keys name. err (new []);
  };
  envelopes = record { jws_type = b'j' ∷ []; cose_type = b'c' ∷ [] };
  stat_is_dir = stat_is_dir;
  is_digest = is_digest;
  sign = λ signer repository options calls. (ok tt, calls + 10);
}

abbrev pub opts : SignOpts
opts = record {
  logging = record { debug = false; verbose = false };
  signer = record { key = []; signature_format = jws; key_id = b'k' ∷ []; plugin_name = b'p' ∷ [] };
  secure = secure;
  expiry = nanoseconds 0;
  plugin_config = (b'a' ∷ b'=' ∷ b'1' ∷ []) ∷ [];
  user_metadata = [];
  reference = tag;
  signature_manifest = codes "image";
  oci_layout = false;
  input_type = registry_input;
}

abbrev pub signed : World ℕ
signed = record {
  stdout = success resolved ∷ [];
  stderr = tag_warning tag ∷ [];
  transport = some (traced default_transport);
  ext = 11;
}

run : run_sign lib settings opts start ≡ (ok tt, signed)
unfolding run_sign get_signer get_repository_for_sign ◌>>=◌ codes bytes_eq resolve_reference
    prepare_signing_opts get_envelope_media_type parse_flag_map cut insert conclude set_logger_level
run = refl

pub run_with_checks : sign_run lib settings opts start ≡ (ok tt, signed)
unfolding sign_run run_sign get_signer get_repository_for_sign ◌>>=◌ codes bytes_eq
    resolve_reference prepare_signing_opts get_envelope_media_type parse_flag_map cut insert
    conclude set_logger_level validate_signature_manifest contains
run_with_checks = refl

run_sign-IsSigned_example : IsSigned lib settings opts start signed
run_sign-IsSigned_example = run_sign-IsSigned lib settings opts start signed run

sign_run-IsAccepted_applied : IsAccepted opts
sign_run-IsAccepted_applied = sign_run-IsAccepted lib settings opts start signed run_with_checks
