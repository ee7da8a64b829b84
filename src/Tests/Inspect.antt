-- ===== src/Tests/Inspect.antt =====
-- Runs of cmd/notation/inspect.go. The repository lists two signatures on two pages, of which the
-- second cannot be fetched.
use notation.Base.{
  ◌≡◌, refl, ℕ, suc, false, some, none, List, [], ◌∷◌, ◌++◌, Text, codes, ok, err, new, bytes_eq,
  if◌then◌else◌, ◌==◌, text_eq,
}
use mathlib.Core.Option.{or_else}
use notation.Base.Dict.{lookup}
use notation.Base.Exec.{World, ◌>>=◌}
use notation.Envelope.{descriptor_from_signature_payload}
use notation.Manifest.{Pages, stop, hand_over, Repository, Descriptor, resolve_reference}
use notation.Registry.{get_remote_repository}
use notation.Inspect.{
  InspectLib, InspectOpts, run_inspect, list_and_read, on_page, on_signature, print_output,
}
use notation.Inspect.Output.{Time, EnvelopeContent, get_signed_attributes}
use notation.Inspect.Laws.{
  IsInspected, run_inspect-IsInspected, last_attribute, get_signed_attributes-lookup,
}
use notation.Inspect.Readings.{
  Listed, read_listing, read_all, collected, shown, warnings, any_skipped, list_and_read-readings,
}
use notation.Tests.Manifest.{repo, stat_is_dir, is_digest, start, tag, digest, image}
use notation.Tests.Registry.{registry_lib, settings, secure}

abbrev other : Descriptor
other = record image { digest = tag }

-- These pages, with one call outside before each of them and one at the end.
unfoldable pub hand_over_all : List (List Descriptor) → ℕ → Pages ℕ
hand_over_all [] calls = stop (ok tt) (suc calls)
hand_over_all (descs ∷ pages) calls = hand_over descs (suc calls) (hand_over_all pages)

-- A repository whose listing is of these pages.
abbrev pub listing : List (List Descriptor) → Repository ℕ
listing pages = record {
  resolve = repo.resolve;
  list_signatures = λ d. hand_over_all pages;
  fetch_signature_blob =
      λ d calls. (if d.digest == digest then ok ([], d) else err (new (codes "gone")), suc calls);
}

abbrev never : Time
never = record { rfc3339 = []; ansic = [] }

-- An extended attribute has the name of the signature's own expiry.
abbrev content : EnvelopeContent
content = record {
  payload = record {
    content_type = codes "application/vnd.cncf.notary.payload.v1+json";
    content = [];
  };
  signature_algorithm = 1;
  signing_scheme = b'x' ∷ [];
  signing_time = never;
  expiry = never;
  extended_attributes = (codes "expiry", b'z' ∷ []) ∷ [];
  timestamp_signature = none;
  signing_agent = [];
  certificate_chain = [];
}

abbrev pub inspect_lib : List (List Descriptor) → InspectLib ℕ Text
inspect_lib pages = record {
  registry = record registry_lib { new_repository = λ remote _. listing pages };
  stat_is_dir = stat_is_dir;
  is_digest = is_digest;
  artifact_type = [];
  parse_envelope = λ media_type blob. ok blob;
  content = λ envelope. ok content;
  unmarshal = λ payload. ok image;
  encode_signing_algorithm = λ algorithm. ok (b'a' ∷ []);
  sha1 = λ t. t;
  marshal_indent = λ output. ok (b'o' ∷ []);
}

abbrev opts : InspectOpts
opts = record {
  logging = record { debug = false; verbose = false };
  secure = secure;
  reference = tag;
  output_format = codes "json";
}

abbrev one_page : List (List Descriptor)
one_page = (image ∷ []) ∷ []

abbrev pub two_pages : List (List Descriptor)
two_pages = (image ∷ []) ∷ (other ∷ []) ∷ []

abbrev inspected : World ℕ
inspected = (run_inspect (inspect_lib one_page) settings opts start).1

inspect_one : run_inspect (inspect_lib one_page) settings opts start ≡ (ok tt, inspected)
unfolding run_inspect ◌>>=◌ bytes_eq codes get_remote_repository resolve_reference list_and_read
    on_page on_signature hand_over_all descriptor_from_signature_payload print_output
inspect_one = refl

inspect_two_pages :
    (run_inspect (inspect_lib two_pages) settings opts start).0
    ≡ err (new (codes "at least one signature was skipped and not displayed"))
unfolding run_inspect ◌>>=◌ bytes_eq codes get_remote_repository resolve_reference list_and_read
    on_page on_signature hand_over_all descriptor_from_signature_payload print_output
inspect_two_pages = refl

run_inspect-IsInspected_example : IsInspected (inspect_lib one_page) settings opts start inspected
run_inspect-IsInspected_example =
    run_inspect-IsInspected (inspect_lib one_page) settings opts start inspected inspect_one

-- The listing of the two pages and the fetches between them.
abbrev listed : Listed ℕ
listed =
    read_listing (inspect_lib two_pages) (codes "json") (listing two_pages)
      (hand_over_all two_pages 0)

listed_calls : listed.ext ≡ 5
unfolding read_listing read_all hand_over_all
listed_calls = refl

list_and_read-readings_example :
    list_and_read (inspect_lib two_pages) (codes "json") (listing two_pages) image start ≡ (
      collected
          (inspect_lib two_pages)
          (codes "json")
          (listing two_pages)
          listed.result
          (record { signatures = shown listed.readings; skipped = any_skipped listed.readings }),
      record start { stderr = start.stderr ++ warnings listed.readings; ext = listed.ext },
    )
list_and_read-readings_example =
    list_and_read-readings (inspect_lib two_pages) (codes "json") (listing two_pages) image start

expiry_overridden :
    lookup (codes "expiry") (get_signed_attributes (codes "json") content) ≡ some (b'z' ∷ [])
unfolding last_attribute or_else bytes_eq codes
expiry_overridden = get_signed_attributes-lookup (codes "json") (codes "expiry") content
