-- ===== src/Tests/Manifest.antt =====
-- Runs of cmd/notation/manifest.go. The registry is a repository that knows one tag.
use notation.Base.{
  ◌≡◌, ◌≢◌, refl, ℕ, ◌++◌, true, some, none, [], ◌∷◌, Text, codes, Result, ok, err, bytes_eq,
  contains, if◌then◌else◌, ◌==◌, text_eq, new, suc, Bool,
}
use notation.Base.Exec.{World, warn, ◌>>=◌}
use notation.Base.Strings.{last_index, take, drop}
use notation.Manifest.{
  stop, Descriptor, Reference, Repository, registry_input, parse_oci_layout_reference,
  resolve_reference, resolve_artifact_digest_reference,
}
use notation.Manifest.Layout.{
  IsSplit, parse_oci_layout_reference-digest, parse_oci_layout_reference-tag,
  parse_oci_layout_reference-ok, resolve_artifact_digest_reference-scope,
  resolve_artifact_digest_reference-at_in_path,
}
use notation.Manifest.Laws.{IsResolved, resolve_reference-ok, resolve_reference-registry}

abbrev layout : Text
layout = b'd' ∷ b':' ∷ b'@' ∷ b'e' ∷ []

abbrev pub digest : Text
digest = b's' ∷ b':' ∷ b'0' ∷ []

parse_digest : parse_oci_layout_reference (layout ++ b'@' ∷ digest) ≡ ok (layout, digest)
unfolding parse_oci_layout_reference last_index take drop
parse_digest = refl

parse_oci_layout_reference-digest_example :
    parse_oci_layout_reference (layout ++ b'@' ∷ digest) ≡ ok (layout, digest)
unfolding contains
parse_oci_layout_reference-digest_example =
    parse_oci_layout_reference-digest layout digest refl refl refl

parse_oci_layout_reference-tag_example :
    parse_oci_layout_reference (b'd' ∷ b':' ∷ b'e' ∷ b':' ∷ b'v' ∷ [])
    ≡ ok (b'd' ∷ b':' ∷ b'e' ∷ [], b'v' ∷ [])
unfolding contains
parse_oci_layout_reference-tag_example =
    parse_oci_layout_reference-tag (b'd' ∷ b':' ∷ b'e' ∷ []) (b'v' ∷ []) refl refl refl refl refl
      refl

parse_oci_layout_reference-ok_example : IsSplit (layout ++ b'@' ∷ digest) layout digest
parse_oci_layout_reference-ok_example =
    parse_oci_layout_reference-ok (layout ++ b'@' ∷ digest) layout digest parse_digest

resolve_artifact_digest_reference-scope_applied :
    resolve_artifact_digest_reference (b'd' ∷ b'@' ∷ digest) (b'l' ∷ []) ≡ b'l' ∷ b'@' ∷ digest
unfolding contains
resolve_artifact_digest_reference-scope_applied =
    resolve_artifact_digest_reference-scope (b'd' ∷ []) digest (b'l' ∷ []) refl

resolve_artifact_digest_reference-at_in_path_example :
    resolve_artifact_digest_reference (layout ++ b'@' ∷ digest) (b'l' ∷ []) ≢ b'l' ∷ b'@' ∷ digest
unfolding contains
resolve_artifact_digest_reference-at_in_path_example =
    resolve_artifact_digest_reference-at_in_path layout digest (b'l' ∷ []) refl refl

-- The world outside counts the calls of the registry.
abbrev pub tag : Text
tag = b'v' ∷ b'1' ∷ []

abbrev pub image : Descriptor
image = record { media_type = []; digest = digest; size = 7; annotations = [] }

abbrev pub repo : Repository ℕ
repo = record {
  resolve = λ t calls. (if t == tag then ok image else err (new (codes "not found")), suc calls);
  list_signatures = λ d calls. stop (ok tt) calls;
  fetch_signature_blob = λ d calls. (ok ([], d), calls);
}

-- The registry, the repository and the reference of any text are "r", "n" and the text.
abbrev pub parse_reference : Text → Result Reference
parse_reference t = ok (record { registry = b'r' ∷ []; repository = b'n' ∷ []; reference = t })

abbrev pub stat_is_dir : Text → ℕ → Result Bool
stat_is_dir path s = ok true

abbrev pub is_digest : Text → Bool
is_digest t = t == digest

abbrev pub start : World ℕ
start = record { stdout = []; stderr = []; transport = none; ext = 0 }

abbrev pub tag_warning : World ℕ
tag_warning = record { stdout = []; stderr = tag ∷ []; transport = none; ext = 1 }

abbrev pub resolved : Text
resolved = b'r' ∷ b'/' ∷ b'n' ∷ b'@' ∷ digest

resolve_tag :
    resolve_reference parse_reference stat_is_dir is_digest registry_input tag repo
      (some (λ ref d. warn ref))
      start
    ≡ (ok (image, resolved), tag_warning)
unfolding resolve_reference ◌>>=◌ bytes_eq
resolve_tag = refl

resolve_reference-ok_example :
    IsResolved parse_reference stat_is_dir is_digest repo registry_input tag start tag_warning image
      resolved
    × (tag_warning.stdout ≡ start.stdout)
resolve_reference-ok_example =
    resolve_reference-ok parse_reference stat_is_dir is_digest repo registry_input tag (λ t. t)
      start tag_warning image resolved resolve_tag

resolve_reference-registry_applied :
    resolve_reference parse_reference stat_is_dir is_digest registry_input tag repo
      (some (λ ref d. warn ref))
      start
    ≡ (ok (image, resolved), tag_warning)
unfolding bytes_eq
resolve_reference-registry_applied =
    resolve_reference-registry parse_reference stat_is_dir is_digest repo tag (λ t. t) start refl
      refl refl refl
