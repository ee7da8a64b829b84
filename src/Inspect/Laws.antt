-- ===== src/Inspect/Laws.antt =====
-- What a successful `notation inspect` displays.
use mathlib.Core.Option.{or_else}
use mathlib.Core.List.{append_assoc}
use notation.Base.{
  ◌≡◌, refl, ap, sym, ◌∙◌, ◌⊎◌, inl, inr, false, not, ◌&&◌, Option, none, some, List, [], ◌∷◌, ◌++◌,
  map, arith, ◌==◌, text_eq, bytes_eq_iff, if◌then◌else◌, Text, codes, Result, ok, err, Bool-cases,
}
use notation.Base.Dict.{Dict, lookup, insert, lookup-insert}
use notation.Base.Exec.{
  World, lift, print, print_all, branch-true, branch-false, ◌>>=◌, ◌>>◌, bind-inv, fail_if-inv,
}
use notation.Base.Quiet.{Quiet-stdout}
use notation.Flags.{set_logger_level}
use notation.Manifest.{Descriptor, Repository, registry_input}
use notation.Manifest.Laws.{IsResolved, resolve_reference-ok}
use notation.Remote.{Settings}
use notation.Registry.Quiet.{get_remote_repository-Quiet}
use notation.Tree.{print_tree}
use notation.Inspect.Output.{
  EnvelopeContent, SignatureOutput, InspectOutput, output_json, output_plaintext, format_timestamp,
  insert_all, get_signed_attributes, output_tree,
}
use notation.Inspect.{
  InspectOpts, InspectLib, print_object_as_json, print_as_tree, print_output, run_inspect,
  tag_warning, line,
}
use notation.Inspect.Readings.{Listed, read_listing}
use notation.Inspect.Shown.{list_and_read-IsShown}

-- The value of the last attribute with the name `k`.
unfoldable pub last_attribute : Text → List (Text × Text) → Option Text
last_attribute k [] = none
last_attribute k ((j, v) ∷ attributes) =
    or_else (last_attribute k attributes) (if j == k then some v else none)

lookup-insert_all :
    (k : Text) (m : Dict) (attributes : List (Text × Text))
    → lookup k (insert_all m attributes) ≡ or_else (last_attribute k attributes) (lookup k m)
unfolding insert_all last_attribute or_else
lookup-insert_all k m [] = refl
lookup-insert_all k m ((j, v) ∷ attributes) =
    lookup-insert_all k (insert j v m) attributes ∙ rw lookup-insert (ground arith)

-- A signed attribute is displayed with the value of the last extended attribute of its name; only
-- if there is none, with that of the signature's own scheme, signing time or expiry.
pub get_signed_attributes-lookup :
    (output_format k : Text) (content : EnvelopeContent)
    → lookup k (get_signed_attributes output_format content)
      ≡ or_else (last_attribute k content.extended_attributes) (
          lookup k (
            (codes "signingScheme", content.signing_scheme)
            ∷ (codes "signingTime", format_timestamp output_format content.signing_time)
            ∷ (codes "expiry", format_timestamp output_format content.expiry)
            ∷ []))
unfolding get_signed_attributes
get_signed_attributes-lookup output_format k content =
    lookup-insert_all k _ content.extended_attributes

module _ {S Envelope : Type 0} (lib : InspectLib S Envelope) where
  -- What is written to stdout in either format.
  pub Displays : Text → Text → InspectOutput → List Text → Type 0
  Displays output_format ref output lines =
      ((output_format ≡ output_json)
        × ((text : Text) × (lib.marshal_indent output ≡ ok text) × (lines ≡ line text ∷ [])))
      ⊎ ((output_format ≡ output_plaintext)
          × (lines
              ≡ codes "Inspecting all signatures for signed artifact\n"
                ∷ map line (print_tree (output_tree lib.artifact_type ref output))))

  json_inv :
      (r : Result Text) (w : World S) {x : Unit {0}} {w' : World S}
      → (lift r >>= λ text. print (line text)) w ≡ (ok x, w')
      → (text : Text) × (r ≡ ok text) × (w'.stdout ≡ w.stdout ++ line text ∷ []) × (w'.ext ≡ w.ext)
  unfolding ◌>>=◌
  json_inv (ok text) w h = (text, refl, ground arith, ground arith)
  json_inv (err e) w h = absurd (cc)

  text_inv :
      (title : Text) (lines : List Text) (w : World S) {x : Unit {0}} {w' : World S}
      → (print title >> print_all lines) w ≡ (ok x, w')
      → (w'.stdout ≡ w.stdout ++ title ∷ lines) × (w'.ext ≡ w.ext)
  unfolding ◌>>=◌
  text_inv title lines w h =
      (ground (arith, append_assoc w.stdout (title ∷ []) lines), ground arith)

  print_output_inv :
      (output_format ref : Text) (output : InspectOutput) (w : World S) {x : Unit {0}}
      {w' : World S}
      → (not (output_format == output_json) && not (output_format == output_plaintext)) ≡ false
      → print_output lib output_format ref output w ≡ (ok x, w')
      → (lines : List Text) × Displays output_format ref output lines
        × (w'.stdout ≡ w.stdout ++ lines)
        × (w'.ext ≡ w.ext)
  unfolding print_output Displays
  print_output_inv output_format ref output w known h =
      elim (Bool-cases (output_format == output_json)) [
        | inl json ↦
            let r = json_inv (lib.marshal_indent output) w (
              sym (
                branch-true (print_object_as_json lib output) (print_as_tree lib ref output) w _
                  json)
              ∙ h) in
            (
              line r.0 ∷ [],
              inl ((bytes_eq_iff output_format output_json).0 json, (r.0, r.1, refl)),
              r.2,
              r.3,
            )
        | inr text ↦
            let known' = (bytes_eq_iff output_format output_plaintext).0 (ground arith) in
            let r = text_inv _ _ w (
              sym (
                branch-false (print_object_as_json lib output) (print_as_tree lib ref output) w _
                  text)
              ∙ h) in
            (_, inr (known', refl), r.0, r.1)
      ]

  -- What a successful run leaves behind.
  pub record IsInspected (settings : Settings) (opts : InspectOpts) (w w' : World S) : Type 0 where
    pub repo : Repository S
    pub desc : Descriptor
    pub resolved : Text
    pub before : World S
    pub at : World S
    pub listed : Listed S
    pub signatures : List SignatureOutput
    pub lines : List Text
    pub resolves :
        IsResolved lib.registry.parse_reference lib.stat_is_dir lib.is_digest repo registry_input
          opts.reference before at desc resolved
    pub listing :
        listed ≡ read_listing lib opts.output_format repo (repo.list_signatures desc at.ext)
    pub ended : listed.result ≡ ok tt
    pub all_shown :
        map (λ (sig : SignatureOutput). sig.digest) signatures
        ≡ map (λ (d : Descriptor). d.digest) listed.descs
    pub displayed :
        Displays opts.output_format resolved
          (record { media_type = desc.media_type; signatures = signatures })
          lines
    pub printed : w'.stdout ≡ w.stdout ++ lines

  -- If `notation inspect` succeeds, then no signature is missing: the signatures that it displays
  -- are all those that the repository lists for the digest to which the user's reference was
  -- resolved, in their order, and what is printed to stdout is their display in the format of the
  -- flag, JSON or text, and nothing else.
  pub run_inspect-IsInspected :
      (settings : Settings) (opts : InspectOpts) (w w' : World S) {x : Unit {0}}
      → run_inspect lib settings opts w ≡ (ok x, w')
      → IsInspected settings opts w w'
  unfolding run_inspect
  run_inspect-IsInspected settings opts w w' h =
      let r1 = bind-inv _ _ w h in
      let r2 = bind-inv _ _ r1.mid r1.second in
      let r3 = bind-inv _ _ r2.mid r2.second in
      let r4 = bind-inv _ _ r3.mid r3.second in
      let r5 = bind-inv _ _ r4.mid r4.second in
      let c1 = fail_if-inv _ _ w r1.first in
      let q2 =
        Quiet-stdout r1.mid
          (get_remote_repository-Quiet lib.registry settings (set_logger_level opts.logging)
            opts.secure opts.reference)
          r2.first in
      let c3 =
        resolve_reference-ok lib.registry.parse_reference lib.stat_is_dir lib.is_digest r2.value
          registry_input opts.reference tag_warning r2.mid r3.mid r3.value.0 r3.value.1 r3.first in
      let c6 = fail_if-inv _ _ r5.mid r5.second in
      let c4 =
        list_and_read-IsShown lib opts.output_format r2.value r3.value.0 r3.mid c6.0 r4.first in
      let c5 =
        print_output_inv opts.output_format r3.value.1
          (record { media_type = r3.value.0.media_type; signatures = r4.value.signatures }) r4.mid
          c1.0 r5.first in
      record {
        repo = r2.value;
        desc = r3.value.0;
        resolved = r3.value.1;
        before = r2.mid;
        at = r3.mid;
        listed = c4.listed;
        signatures = r4.value.signatures;
        lines = c5.0;
        resolves = c3.0;
        listing = c4.listing;
        ended = c4.ended;
        all_shown = c4.all_shown;
        displayed = c5.1;
        printed =
            sym (ap (λ (v : World S). v.stdout) c6.1)
            ∙ c5.2
            ∙ ap (λ (t : List Text). t ++ c5.0)
                (c4.quiet ∙ c3.1 ∙ q2 ∙ sym (ap (λ (v : World S). v.stdout) c1.1));
      }
