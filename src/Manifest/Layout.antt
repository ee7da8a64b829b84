-- ===== src/Manifest/Layout.antt =====
-- `parseOCILayoutReference` and `resolveArtifactDigestReference` of cmd/notation/manifest.go,
-- against the format <path>[:<tag>|@<digest>].
use mathlib.Core.List.{append_assoc, append_cancel_left}
use notation.Base.{
  Option-cases, ◌≡◌, sym, ap, ◌∙◌, ◌≢◌, ◌⊎◌, inl, inr, true, false, ◌&&◌, some, [], ◌∷◌, ◌++◌,
  is_empty, length, length-append, arith, contains, ◌==◌, nat_eq, if◌then◌else◌, Text, ok,
}
use notation.Base.Strings.{
  cut, last_index, cut-append, cut-lacks, cut-of_lacks, cut-found, last_index-none,
  last_index-append, last_index-split, lacks-of_none, take-length, drop-length,
}
use notation.Manifest.{
  drive_path, check_parts, parse_tag, parse_oci_layout_reference, resolve_artifact_digest_reference,
  slice_at,
}

-- A path and a digest without "@" are read back, whatever the path holds.
pub parse_oci_layout_reference-digest :
    (path digest : Text)
    → is_empty path ≡ false
    → is_empty digest ≡ false
    → contains digest b'@' ≡ false
    → parse_oci_layout_reference (path ++ b'@' ∷ digest) ≡ ok (path, digest)
unfolding parse_oci_layout_reference
parse_oci_layout_reference-digest path digest p d lacks =
    rw
      (
        last_index-append b'@' path digest lacks,
        parse_oci_layout_reference,
        take-length path (b'@' ∷ digest),
        drop-length b'@' path digest,
      )
      (ground arith)

contains-append :
    (c : _) (s t : Text) → contains s c ≡ false → contains t c ≡ false → contains (s ++ t) c ≡ false
unfolding contains
contains-append c [] t h k = k
contains-append c (x ∷ s) t h k = ground (arith, contains-append c s t)

-- A path and a tag without "@", the tag without ":", are read back, unless the path is a single
-- letter and the tag begins with a backslash, as in a Windows path.
pub parse_oci_layout_reference-tag :
    (path tag : Text)
    → is_empty path ≡ false
    → is_empty tag ≡ false
    → contains path b'@' ≡ false
    → contains tag b'@' ≡ false
    → contains tag b':' ≡ false
    → (length path == 1 && drive_path (path ++ b':' ∷ tag)) ≡ false
    → parse_oci_layout_reference (path ++ b':' ∷ tag) ≡ ok (path, tag)
unfolding parse_oci_layout_reference parse_tag contains
parse_oci_layout_reference-tag path tag p t path_at tag_at tag_colon drive = ground (
  arith,
  last_index-none b'@' (path ++ b':' ∷ tag)
      (contains-append b'@' path (b':' ∷ tag) path_at (ground arith)),
  last_index-append b':' path tag tag_colon,
  take-length path (b':' ∷ tag),
  drop-length b':' path tag,
)

-- What `parseOCILayoutReference` may return for `raw`.
pub record IsSplit (raw path ref : Text) : Type 0 where
  pub path_given : is_empty path ≡ false
  pub ref_given : is_empty ref ≡ false
  pub splits :
      ((raw ≡ path ++ b'@' ∷ ref) × (contains ref b'@' ≡ false))
      ⊎ ((raw ≡ path ++ b':' ∷ ref) × (contains raw b'@' ≡ false) × (contains ref b':' ≡ false))

check_parts-ok :
    (raw : Text) (parts : Text × Text) (path ref : Text)
    → check_parts raw parts ≡ ok (path, ref)
    → (is_empty path ≡ false) × (is_empty ref ≡ false) × (parts.0 ≡ path) × (parts.1 ≡ ref)
unfolding check_parts
check_parts-ok raw parts path ref h = ground arith

IsSplit-digest :
    (raw path ref : Text) (idx : _)
    → last_index b'@' raw ≡ some idx
    → check_parts raw (slice_at idx raw) ≡ ok (path, ref)
    → IsSplit raw path ref
IsSplit-digest raw path ref idx e h =
    let c = check_parts-ok raw (slice_at idx raw) path ref h in
    let s = last_index-split b'@' raw idx e in
    record { path_given = c.0; ref_given = c.1; splits = rw (← c.2, ← c.3) (inl s) }

IsSplit-tag :
    (raw path ref : Text)
    → contains raw b'@' ≡ false
    → parse_tag raw ≡ ok (path, ref)
    → IsSplit raw path ref
IsSplit-tag raw path ref no_at h = elim (Option-cases (last_index b':' raw)) [
  | inl e ↦ absurd (unfold parse_tag in (cc (rw (e, parse_tag) at h)))
  | inr (idx, e) ↦
      let c = check_parts-ok raw (slice_at idx raw) path ref (unfold parse_tag in ground arith) in
      let s = last_index-split b':' raw idx e in
      record {
        path_given = c.0;
        ref_given = c.1;
        splits = rw (← c.2, ← c.3) (inr (s.0, no_at, s.1));
      }
]

-- Whatever `parseOCILayoutReference` returns is a path and a reference, neither of them empty,
-- that the last "@" of the input separates; or the last ":", if there is no "@" in it.
pub parse_oci_layout_reference-ok :
    (raw path ref : Text) → parse_oci_layout_reference raw ≡ ok (path, ref) → IsSplit raw path ref
parse_oci_layout_reference-ok raw path ref h = elim (Option-cases (last_index b'@' raw)) [
  | inl e ↦
      IsSplit-tag raw path ref (lacks-of_none b'@' raw e)
        (unfold parse_oci_layout_reference in ground arith)
  | inr (idx, e) ↦
      IsSplit-digest raw path ref idx e (unfold parse_oci_layout_reference in ground arith)
]

-- With a scope, and a path that holds no "@", the reference that is verified is the scope and the
-- digest; without a scope it is the reference as it was resolved.
pub resolve_artifact_digest_reference-scope :
    (path digest scope : Text)
    → contains path b'@' ≡ false
    → resolve_artifact_digest_reference (path ++ b'@' ∷ digest) scope
      ≡ (if is_empty scope then path ++ b'@' ∷ digest else scope ++ b'@' ∷ digest)
unfolding resolve_artifact_digest_reference
resolve_artifact_digest_reference-scope path digest scope lacks =
    rw (cut-of_lacks b'@' path digest lacks)

cut_at_front :
    (front back path digest scope : Text)
    → path ≡ front ++ b'@' ∷ back
    → contains front b'@' ≡ false
    → is_empty scope ≡ false
    → resolve_artifact_digest_reference (path ++ b'@' ∷ digest) scope
      ≡ scope ++ b'@' ∷ (back ++ b'@' ∷ digest)
unfolding resolve_artifact_digest_reference
cut_at_front front back path digest scope e lacks given = rw (
  e,
  append_assoc front (b'@' ∷ back) (b'@' ∷ digest),
  cut-of_lacks b'@' front (back ++ b'@' ∷ digest) lacks,
  given,
)

longer : (back digest : Text) → b'@' ∷ (back ++ b'@' ∷ digest) ≢ b'@' ∷ digest
longer back digest e =
    absurd (omega (arith, ap (λ (t : Text). length t) e, length-append back (b'@' ∷ digest)))

-- If the path of the layout holds an "@", the reference that is verified under a scope is not the
-- scope and the digest: `parseOCILayoutReference` splits at the last "@", and
-- `resolveArtifactDigestReference` at the first.
pub resolve_artifact_digest_reference-at_in_path :
    (path digest scope : Text)
    → contains path b'@' ≡ true
    → is_empty scope ≡ false
    → resolve_artifact_digest_reference (path ++ b'@' ∷ digest) scope ≢ scope ++ b'@' ∷ digest
unfolding resolve_artifact_digest_reference
resolve_artifact_digest_reference-at_in_path path digest scope has given eq =
    let front = (cut b'@' path).0 in
    let back = (cut b'@' path).1 in
    let whole : path ≡ front ++ b'@' ∷ back = cut-append b'@' path (cut-found b'@' path ∙ has) in
    let result : resolve_artifact_digest_reference (path ++ b'@' ∷ digest) scope
        ≡ scope ++ b'@' ∷ (back ++ b'@' ∷ digest) =
      cut_at_front front back path digest scope whole (cut-lacks b'@' path) given in
    longer back digest
      (append_cancel_left scope (b'@' ∷ (back ++ b'@' ∷ digest)) (b'@' ∷ digest) (sym result ∙ eq))
