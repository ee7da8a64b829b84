-- ===== src/Listing.antt =====
-- cmd/notation/list.go: `notation list`. The repository hands the signature manifests to a
-- callback page by page; the printing runs one digest behind, to know the last one.
pub mod Laws
pub mod Shown
use notation.Base.{
  Bool, true, false, none, List, [], ◌∷◌, ◌++◌, is_empty, map, if◌then◌else◌, Text, codes, Result,
  ok, err, new,
}
use notation.Base.Exec.{Cmd, pure, ◌>>=◌, ◌>>◌}
use notation.Flags.{LoggingFlagOpts, set_logger_level}
use notation.Experimental.{check_flags_and_warn}
use notation.Manifest.{
  Pages, stop, hand_over, InputType, oci_layout_input, Descriptor, Repository, resolve_reference,
}
use notation.Remote.{SecureFlagOpts, RegistryLib, Settings}
use notation.Registry.{get_repository}

-- `listOpts`
pub record ListOpts : Type 0 where
  pub logging : LoggingFlagOpts
  pub secure : SecureFlagOpts
  pub reference : Text
  pub oci_layout : Bool
  pub input_type : InputType

-- `Args` of the command
unfoldable pub list_args : List Text → ListOpts → Result ListOpts
list_args [] opts = err (new (codes "no reference specified"))
list_args (reference ∷ rest) opts = ok (record opts { reference = reference })

-- `PreRunE` of the command
unfoldable pub list_pre_run : {S : Type 0} → Text → (Text → Bool) → Text → ListOpts → Cmd S ListOpts
list_pre_run env changed path opts = do
  check_flags_and_warn env changed path (codes "oci-layout" ∷ [])
  pure (if opts.oci_layout then record opts { input_type = oci_layout_input } else opts)

-- The UTF-8 bytes of "└── " and of "├── ".
abbrev pub last_branch : Text
last_branch = 0xe2 ∷ 0x94 ∷ 0x94 ∷ 0xe2 ∷ 0x94 ∷ 0x80 ∷ 0xe2 ∷ 0x94 ∷ 0x80 ∷ b' ' ∷ []

abbrev pub inner_branch : Text
inner_branch = 0xe2 ∷ 0x94 ∷ 0x9c ∷ 0xe2 ∷ 0x94 ∷ 0x80 ∷ 0xe2 ∷ 0x94 ∷ 0x80 ∷ b' ' ∷ []

abbrev pub indent : Text
indent = b' ' ∷ b' ' ∷ b' ' ∷ b' ' ∷ []

-- The variables of `printSignatureManifestDigests` and what it has written.
pub record Printer : Type 0 where
  pub title_printed : Bool
  pub prev_digest : Text
  pub out : List Text

abbrev pub start : Printer
start = record { title_printed = false; prev_digest = []; out = [] }

-- `artifact_type` is registry.ArtifactTypeNotation of notation-go, and `ref` the resolved
-- reference.
module _ (artifact_type ref : Text) where
  unfoldable pub title : List Text
  title = ref ∷ (last_branch ++ artifact_type) ∷ []

  -- `printTitle`
  unfoldable pub print_title : Printer → Printer
  unfolding title
  print_title p =
      if p.title_printed then p else record p { title_printed = true; out = p.out ++ title }

  print_branch : Text → Printer → Printer
  print_branch branch p = record p { out = p.out ++ (indent ++ branch ++ p.prev_digest) ∷ [] }

  -- The body of the loop over a page.
  unfoldable pub on_manifest : Printer → Descriptor → Printer
  unfolding print_title print_branch
  on_manifest p desc =
      let p' = if is_empty p.prev_digest then p else print_branch inner_branch (print_title p) in
      record p' { prev_digest = desc.digest }

  -- The callback.
  unfoldable pub on_page : Printer → List Descriptor → Printer
  unfolding on_manifest
  on_page p [] = p
  on_page p (desc ∷ page) = on_page (on_manifest p desc) page

  unfoldable pub on_pages : Printer → List (List Descriptor) → Printer
  unfolding on_page
  on_pages p [] = p
  on_pages p (page ∷ pages) = on_pages (on_page p page) pages

  -- What follows the listing.
  unfoldable pub finish : Printer → Printer
  unfolding print_title print_branch
  finish p = if is_empty p.prev_digest then p else print_branch last_branch (print_title p)

  -- What is written, for the pages that were handed over and the way in which the listing ended.
  unfoldable pub digest_lines : List (List Descriptor) → Result (Unit {0}) → List Text
  unfolding on_pages finish
  digest_lines pages (ok _) = (finish (on_pages start pages)).out
  digest_lines pages (err e) = (on_pages start pages).out

-- A listing whose callback only prints, and so leaves the rest of the world as it is.
pub record Drained (S : Type 0) : Type 0 where
  pub pages : List (List Descriptor)
  pub result : Result (Unit {0})
  pub ext : S

unfoldable pub drain : {S : Type 0} → Pages S → Drained S
drain (stop r s) = record { pages = []; result = r; ext = s }
drain (hand_over descs s next) =
    let rest = drain (next s) in record rest { pages = descs ∷ rest.pages }

-- `printSignatureManifestDigests`
unfoldable pub print_signature_manifest_digests :
    {S : Type 0} → Text → Descriptor → Repository S → Text → Cmd S (Unit {0})
unfolding digest_lines drain
print_signature_manifest_digests artifact_type target_desc sig_repo ref w =
    let d = drain (sig_repo.list_signatures target_desc w.ext) in
    (
      d.result,
      record w {
        ext = d.ext;
        stdout =
            w.stdout ++ map (λ l. l ++ 10 ∷ []) (digest_lines artifact_type ref d.pages d.result);
      },
    )

module _ {S : Type 0} (lib : RegistryLib S) (settings : Settings)
    (stat_is_dir : Text → S → Result Bool) (is_digest : Text → Bool) (artifact_type : Text) where
  -- `runList`
  unfoldable pub run_list : ListOpts → Cmd S (Unit {0})
  unfolding print_signature_manifest_digests
  run_list opts = do
    sig_repo ←
        get_repository lib settings (set_logger_level opts.logging) opts.input_type opts.reference
          opts.secure
    resolved ←
        resolve_reference lib.parse_reference stat_is_dir is_digest opts.input_type opts.reference
          sig_repo none
    print_signature_manifest_digests artifact_type resolved.0 sig_repo resolved.1
