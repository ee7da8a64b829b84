-- ===== src/Tests/Listing.antt =====
-- A run of cmd/notation/list.go, on a repository that lists two signatures on two pages.
use notation.Base.{◌≡◌, refl, false, ℕ, ok, [], codes, bytes_eq}
use notation.Base.Exec.{World, ◌>>=◌}
use notation.Flags.{set_logger_level}
use notation.Manifest.{registry_input, resolve_reference}
use notation.Remote.{RegistryLib}
use notation.Registry.{get_repository}
use notation.Listing.{ListOpts, run_list, drain, print_signature_manifest_digests}
use notation.Listing.Shown.{IsListed, run_list-IsListed}
use notation.Tests.Manifest.{stat_is_dir, is_digest, start, tag}
use notation.Tests.Registry.{settings, secure}
use notation.Tests.Inspect.{inspect_lib, two_pages, hand_over_all}

abbrev lib : RegistryLib ℕ
lib = (inspect_lib two_pages).registry

abbrev opts : ListOpts
opts = record {
  logging = record { debug = false; verbose = false };
  secure = secure;
  reference = tag;
  oci_layout = false;
  input_type = registry_input;
}

abbrev listed : World ℕ
listed = (run_list lib settings stat_is_dir is_digest [] opts start).1

run : run_list lib settings stat_is_dir is_digest [] opts start ≡ (ok tt, listed)
unfolding run_list get_repository ◌>>=◌ resolve_reference print_signature_manifest_digests
    set_logger_level bytes_eq codes hand_over_all drain
run = refl

run_list-IsListed_example : IsListed lib settings stat_is_dir is_digest [] opts start listed
run_list-IsListed_example =
    run_list-IsListed lib settings stat_is_dir is_digest [] opts start listed run
