-- ===== src/Manifest.antt =====
-- cmd/notation/manifest.go: from what the user writes to a manifest descriptor and a digest
-- reference. References of registries are parsed by oras-go, digests by go-digest, and the
-- repository is notation-go's: these are parameters.
pub mod Laws
pub mod Layout
use notation.Base.{
  ℕ, suc, Bool, false, ◌&&◌, ◌||◌, Option, none, some, List, [], ◌∷◌, ◌++◌, is_empty, leb, ltb,
  ◌==◌, nat_eq, if◌then◌else◌, Text, codes, Result, ok, err, new, wrap,
}
use notation.Base.Strings.{cut, last_index, take, drop, quote}
use notation.Base.Dict.{Dict}
use notation.Base.Errors.{Fault, oci_layout_missing_reference}
use notation.Base.Exec.{Cmd, pure, fail, branch, fail_if, act, done, ◌>>=◌, ◌>>◌}

-- ocispec.Descriptor, the fields that the program reads
pub record Descriptor : Type 0 where
  pub media_type : Text
  pub digest : Text
  pub size : ℕ
  pub annotations : Dict

-- registry.Reference of oras-go
pub record Reference : Type 0 where
  pub registry : Text
  pub repository : Text
  pub reference : Text

-- `inputType`; the type is an int, so other numbers are possible
pub data InputType : Type 0 where
  registry_input oci_layout_input : InputType
  other_input : ℕ → InputType

-- unicode.IsLetter of a byte read as a rune
unfoldable pub is_letter : ℕ → Bool
is_letter c =
    leb b'A' c && leb c b'Z'
    || leb b'a' c && leb c b'z'
    || c == 0xaa
    || c == 0xb5
    || c == 0xba
    || leb 0xc0 c && leb c 0xff && (ltb c 0xd7 || ltb 0xd7 c) && (ltb c 0xf7 || ltb 0xf7 c)

-- len(raw) > 2 && unicode.IsLetter(rune(raw[0])) && raw[2] == '\\'
unfoldable pub drive_path : Text → Bool
drive_path (a ∷ b ∷ c ∷ rest) = is_letter a && c == 0x5c
drive_path raw = false

-- The checks at the end of `parseOCILayoutReference`.
unfoldable pub check_parts : Text → Text × Text → Result (Text × Text)
check_parts raw (path, ref) =
    if is_empty path
    then err (new (codes "found empty file path in " ++ quote raw))
    else if is_empty ref
    then err (new (codes "found empty reference in " ++ quote raw))
    else ok (path, ref)

-- raw[:idx], raw[idx+1:]
abbrev pub slice_at : ℕ → Text → Text × Text
slice_at idx raw = (take idx raw, drop (suc idx) raw)

-- The branch that looks for a tag.
unfoldable pub parse_tag : Text → Result (Text × Text)
unfolding check_parts
parse_tag raw = elim (last_index b':' raw) [
  | none ↦ err (oci_layout_missing_reference [])
  | some idx ↦
      if idx == 1 && drive_path raw
      then err (oci_layout_missing_reference [])
      else check_parts raw (slice_at idx raw)
]

-- `parseOCILayoutReference`
unfoldable pub parse_oci_layout_reference : Text → Result (Text × Text)
unfolding parse_tag check_parts
parse_oci_layout_reference raw = elim (last_index b'@' raw) [
  | some idx ↦ check_parts raw (slice_at idx raw)
  | none ↦ parse_tag raw
]

-- `resolveArtifactDigestReference`
unfoldable pub resolve_artifact_digest_reference : Text → Text → Text
resolve_artifact_digest_reference reference policy_scope =
    let (before, digest, found) = cut b'@' reference in
    if is_empty policy_scope
    then reference
    else if found
    then policy_scope ++ b'@' ∷ digest
    else reference

-- What ListSignatures of notation-go does: it hands pages to its callback and ends. After each
-- page it goes on with the world as the callback has left it.
pub data Pages (S : Type 0) : Type 0 where
  stop : Result (Unit {0}) → S → Pages S
  hand_over : List Descriptor → S → (S → Pages S) → Pages S

-- registry.Repository of notation-go, over the world outside.
pub record Repository (S : Type 0) : Type 0 where
  pub resolve : Text → S → Result Descriptor × S
  pub list_signatures : Descriptor → S → Pages S
  -- FetchSignatureBlob: the blob and its descriptor
  pub fetch_signature_blob : Descriptor → S → Result (Text × Descriptor) × S

pub failed_to_resolve : Fault → Fault
failed_to_resolve e = wrap (codes "failed to resolve user input reference: ") e

module _ {S : Type 0} where
  -- `getManifestDescriptor`
  unfoldable pub get_manifest_descriptor : Text → Repository S → Cmd S Descriptor
  get_manifest_descriptor reference sig_repo = do
    fail_if (is_empty reference) (new (codes "reference cannot be empty"))
    act (sig_repo.resolve reference)

  -- The callback for a tag; nil is allowed. `is_digest` says whether
  -- digest.Parse succeeds.
  unfoldable pub call_back :
      (Text → Bool)
      → Option (Text → Descriptor → Cmd S (Unit {0}))
      → Text
      → Descriptor
      → Cmd S (Unit {0})
  call_back is_digest none tag_or_digest desc = done
  call_back is_digest (some fn) tag_or_digest desc =
      branch (is_digest tag_or_digest) done (fn tag_or_digest desc)

  -- getManifestDescriptor with its error wrapped
  unfoldable pub describe : Text → Repository S → Cmd S Descriptor
  unfolding get_manifest_descriptor
  describe tag_or_digest sig_repo w =
      let (r, w') = get_manifest_descriptor tag_or_digest sig_repo w in
      elim r [
        | ok desc ↦ (ok desc, w')
        | err e ↦ (err (wrap (codes "failed to get manifest descriptor: ") e), w')
      ]

  -- `parse_reference` is registry.ParseReference, `stat_is_dir` is os.Stat with IsDir, and
  -- `is_digest` says whether digest.Parse succeeds.
  module _ (parse_reference : Text → Result Reference) (stat_is_dir : Text → S → Result Bool)
      (is_digest : Text → Bool) where
    -- os.Stat(layoutPath) and the check that it is a directory.
    unfoldable pub check_layout_path : Text → Cmd S (Unit {0})
    check_layout_path path w = elim (stat_is_dir path w.ext) [
      | err e ↦ (err (failed_to_resolve e), w)
      | ok is_dir ↦ if is_dir then (ok tt, w) else (
        err (new (codes "failed to resolve user input reference: input path is not a dir")),
        w,
      )
    ]

    -- The switch on the input type: the tag or digest, and what stands before the "@" of the
    -- resolved reference.
    unfoldable pub split_reference : InputType → Text → Cmd S (Text × Text)
    unfolding check_layout_path
    split_reference registry_input reference w = elim (parse_reference reference) [
      | err e ↦ (err (failed_to_resolve e), w)
      | ok ref ↦ (ok (ref.reference, ref.registry ++ b'/' ∷ ref.repository), w)
    ]
    split_reference oci_layout_input reference w = elim (parse_oci_layout_reference reference) [
      | err e ↦ (err (failed_to_resolve e), w)
      | ok (layout_path, layout_reference) ↦
          (check_layout_path layout_path >> pure (layout_reference, layout_path)) w
    ]
    split_reference (other_input n) reference w =
        (err (new (codes "unsupported user inputType")), w)

    -- `resolveReference`
    unfoldable pub resolve_reference :
        InputType
        → Text
        → Repository S
        → Option (Text → Descriptor → Cmd S (Unit {0}))
        → Cmd S (Descriptor × Text)
    unfolding split_reference describe call_back
    resolve_reference input reference sig_repo fn = do
      fail_if (is_empty reference) (new (codes "missing user input reference"))
      parts ← split_reference input reference
      desc ← describe parts.0 sig_repo
      call_back is_digest fn parts.0 desc
      pure (desc, parts.1 ++ b'@' ∷ desc.digest)
