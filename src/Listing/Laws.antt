-- ===== src/Listing/Laws.antt =====
-- What `notation list` prints for the signatures of an artifact.
use mathlib.Core.List.{append_assoc, append-nil, flatten}
use notation.Base.{
  ◌≡◌, refl, ap, sym, ◌∙◌, Bool, true, false, Bool-cases, inl, inr, List, [], ◌∷◌, ◌++◌, is_empty,
  map, if◌then◌else◌, Text, ok,
}
use notation.Manifest.{Descriptor}
use notation.Listing.{
  Printer, last_branch, inner_branch, indent, title, on_manifest, on_page, on_pages, finish, start,
  digest_lines,
}

-- A branch for each digest that is not empty. The last digest of all is drawn as the last branch.
pub branches : List Text → List Text
branches [] = []
branches (d ∷ ds) =
    let mark = if is_empty ds then last_branch else inner_branch in
    let rest = branches ds in if is_empty d then rest else (indent ++ mark ++ d) ∷ rest

module _ (artifact_type ref : Text) where
  -- The title, unless it was printed, above the branches if there are any.
  pub header : Bool → List Text → List Text
  header titled [] = []
  header titled (b ∷ bs) = if titled then b ∷ bs else title artifact_type ref ++ b ∷ bs

  -- The whole print for the signatures of an artifact: nothing, or the title and the branches.
  pub listing : List Text → List Text
  unfolding header branches
  listing digests = header false (branches digests)

  on_page-append :
      (p : Printer) (xs ys : List Descriptor)
      → on_page artifact_type ref p (xs ++ ys)
        ≡ on_page artifact_type ref (on_page artifact_type ref p xs) ys
  unfolding on_page
  on_page-append p [] ys = refl
  on_page-append p (x ∷ xs) ys = on_page-append (on_manifest artifact_type ref p x) xs ys

  on_pages-flatten :
      (p : Printer) (pages : List (List Descriptor))
      → on_pages artifact_type ref p pages ≡ on_page artifact_type ref p (flatten pages)
  unfolding on_pages on_page flatten
  on_pages-flatten p [] = refl
  on_pages-flatten p (page ∷ pages) =
      on_pages-flatten (on_page artifact_type ref p page) pages
      ∙ sym (on_page-append p page (flatten pages))

  abbrev digests : List Descriptor → List Text
  digests ds = map (λ d. d.digest) ds

  -- What is still to be printed, with a digest waiting.
  abbrev remaining : Printer → List Descriptor → List Text
  remaining p ds = p.out ++ header p.title_printed (branches (p.prev_digest ∷ digests ds))

  branches-cons :
      (d e : Text) (ds : List Text)
      → is_empty d ≡ false
      → branches (d ∷ e ∷ ds) ≡ (indent ++ inner_branch ++ d) ∷ branches (e ∷ ds)
  unfolding branches
  branches-cons d e ds waits = rw waits refl

  branches-last :
      (d : Text) → is_empty d ≡ false → branches (d ∷ []) ≡ (indent ++ last_branch ++ d) ∷ []
  unfolding branches
  branches-last d waits = rw waits refl

  branches-skip : (d : Text) (ds : List Text) → is_empty d ≡ true → branches (d ∷ ds) ≡ branches ds
  unfolding branches
  branches-skip d ds gone = rw gone refl

  header-true : (bs : List Text) → header true bs ≡ bs
  unfolding header
  header-true [] = refl
  header-true (b ∷ bs) = refl

  one_more :
      (titled : Bool) (d : Text) (out : List Text) (e : Descriptor) (ds : List Descriptor)
      → is_empty d ≡ false
      → let p : Printer = record { title_printed = titled; prev_digest = d; out = out } in
        remaining (on_manifest artifact_type ref p e) ds ≡ remaining p (e ∷ ds)
  unfolding on_manifest header
  one_more true d out e ds waits =
      rw (waits, branches-cons d e.digest (digests ds) waits)
        (rw (header-true (branches (e.digest ∷ digests ds))) (
          append_assoc out ((indent ++ inner_branch ++ d) ∷ []) (branches (e.digest ∷ digests ds))))
  one_more false d out e ds waits =
      let bs = branches (e.digest ∷ digests ds) in
      let branch = (indent ++ inner_branch ++ d) ∷ [] in
      rw (waits, branches-cons d e.digest (digests ds) waits)
        (rw (header-true bs) (
          append_assoc (out ++ title artifact_type ref) branch bs
          ∙ append_assoc out (title artifact_type ref) (branch ++ bs)))

  none_waits :
      (p : Printer) (e : Descriptor) (ds : List Descriptor)
      → is_empty p.prev_digest ≡ true
      → remaining (on_manifest artifact_type ref p e) ds ≡ remaining p (e ∷ ds)
  unfolding on_manifest
  none_waits p e ds gone = rw (gone, branches-skip p.prev_digest (e.digest ∷ digests ds) gone) refl

  last_one :
      (titled : Bool) (d : Text) (out : List Text)
      → is_empty d ≡ false
      → let p : Printer = record { title_printed = titled; prev_digest = d; out = out } in
        (finish artifact_type ref p).out ≡ remaining p []
  unfolding finish header
  last_one true d out waits = rw (waits, branches-last d waits) refl
  last_one false d out waits =
      rw (waits, branches-last d waits)
        (append_assoc out (title artifact_type ref) ((indent ++ last_branch ++ d) ∷ []))

  no_last :
      (p : Printer)
      → is_empty p.prev_digest ≡ true
      → (finish artifact_type ref p).out ≡ remaining p []
  unfolding finish header branches
  no_last p gone = rw gone (sym (append-nil p.out))

  from_printer :
      (p : Printer) (ds : List Descriptor)
      → (finish artifact_type ref (on_page artifact_type ref p ds)).out ≡ remaining p ds
  unfolding on_page
  from_printer p [] = elim (Bool-cases (is_empty p.prev_digest)) [
    | inl gone ↦ no_last p gone
    | inr waits ↦ last_one p.title_printed p.prev_digest p.out waits
  ]
  from_printer p (e ∷ ds) =
      from_printer (on_manifest artifact_type ref p e) ds
      ∙ elim (Bool-cases (is_empty p.prev_digest)) [
        | inl gone ↦ none_waits p e ds gone
        | inr waits ↦ one_more p.title_printed p.prev_digest p.out e ds waits
      ]

  -- However the signatures are split into pages, empty ones included, a listing that succeeds
  -- prints nothing if there is no signature with a digest, and otherwise the title and one branch
  -- for each of these in their order.
  pub digest_lines-listing :
      (pages : List (List Descriptor))
      → digest_lines artifact_type ref pages (ok tt) ≡ listing (digests (flatten pages))
  unfolding digest_lines listing branches
  digest_lines-listing pages =
      ap (λ (p : Printer). (finish artifact_type ref p).out) (on_pages-flatten start pages)
      ∙ from_printer start (flatten pages)
