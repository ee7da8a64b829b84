-- ===== src/Listing/Shown.antt =====
-- What a successful `notation list` prints.
use mathlib.Core.List.{flatten}
use notation.Base.{◌≡◌, refl, Bool, sym, ap, ◌∙◌, List, [], ◌∷◌, ◌++◌, map, Text, Result, ok}
use notation.Base.Exec.{World, bind-inv}
use notation.Base.Quiet.{Quiet-stdout}
use notation.Flags.{set_logger_level}
use notation.Manifest.{Descriptor, Repository}
use notation.Manifest.Laws.{IsResolved, resolve_reference-none}
use notation.Remote.{RegistryLib, Settings}
use notation.Registry.Quiet.{get_repository-Quiet}
use notation.Listing.{
  ListOpts, Drained, drain, digest_lines, print_signature_manifest_digests, run_list,
}
use notation.Listing.Laws.{listing, digest_lines-listing}

module _ {S : Type 0} (lib : RegistryLib S) (settings : Settings)
    (stat_is_dir : Text → S → Result Bool) (is_digest : Text → Bool) (artifact_type : Text) where
  -- What a successful run leaves behind.
  pub record IsListed (opts : ListOpts) (w w' : World S) : Type 0 where
    pub repo : Repository S
    pub desc : Descriptor
    pub resolved : Text
    pub before : World S
    pub at : World S
    pub resolves :
        IsResolved lib.parse_reference stat_is_dir is_digest repo opts.input_type opts.reference
          before at desc resolved
    pub drained : Drained S
    pub listed : drained ≡ drain (repo.list_signatures desc at.ext)
    pub ended : drained.result ≡ ok tt
    pub ext_after : w'.ext ≡ drained.ext
    pub printed :
        w'.stdout
        ≡ w.stdout
          ++ map
              (λ l. l ++ 10 ∷ [])
              (listing artifact_type resolved (map (λ d. d.digest) (flatten drained.pages)))

  print_inv :
      (desc : Descriptor) (repo : Repository S) (ref : Text) (w : World S) {x : Unit {0}}
      {w' : World S}
      → print_signature_manifest_digests artifact_type desc repo ref w ≡ (ok x, w')
      → let d = drain (repo.list_signatures desc w.ext) in
        (d.result ≡ ok tt)
        × (w'.ext ≡ d.ext)
        × (w'.stdout
            ≡ w.stdout ++ map (λ l. l ++ 10 ∷ []) (digest_lines artifact_type ref d.pages d.result))
  unfolding print_signature_manifest_digests
  print_inv desc repo ref w h = (
    ap (λ (p : Result (Unit {0}) × World S). p.0) h,
    ap (λ (p : Result (Unit {0}) × World S). p.1.ext) (sym h),
    ap (λ (p : Result (Unit {0}) × World S). p.1.stdout) (sym h),
  )

  -- If `notation list` succeeds, then it has listed the signatures of the descriptor to which
  -- the repository resolved the user's reference, the listing came to its end without an error,
  -- and the one thing printed to stdout is the tree of their digests, in their order and whatever
  -- their pages, under the resolved reference. A signature with an empty digest has no branch, and
  -- nothing is printed where no signature has a branch.
  pub run_list-IsListed :
      (opts : ListOpts) (w w' : World S) {x : Unit {0}}
      → run_list lib settings stat_is_dir is_digest artifact_type opts w ≡ (ok x, w')
      → IsListed opts w w'
  unfolding run_list
  run_list-IsListed opts w w' h =
      let r1 = bind-inv _ _ w h in
      let r2 = bind-inv _ _ r1.mid r1.second in
      let q1 =
        Quiet-stdout w
          (get_repository-Quiet lib settings (set_logger_level opts.logging) opts.secure
            opts.input_type opts.reference)
          r1.first in
      let c2 =
        resolve_reference-none lib.parse_reference stat_is_dir is_digest r1.value opts.input_type
          opts.reference r1.mid r2.mid r2.value.0 r2.value.1 r2.first in
      let c3 = print_inv r2.value.0 r1.value r2.value.1 r2.mid r2.second in
      let d = drain (r1.value.list_signatures r2.value.0 r2.mid.ext) in
      record {
        repo = r1.value;
        desc = r2.value.0;
        resolved = r2.value.1;
        before = r1.mid;
        at = r2.mid;
        resolves = c2.0;
        drained = d;
        listed = refl;
        ended = c3.0;
        ext_after = c3.1;
        printed =
            c3.2
            ∙ ap
                (λ (t : List Text).
                  t
                  ++ map (λ l. l ++ 10 ∷ [])
                      (digest_lines artifact_type r2.value.1 d.pages d.result))
                (c2.1 ∙ q1)
            ∙ ap
                (λ (r : Result (Unit {0})).
                  w.stdout
                  ++ map (λ l. l ++ 10 ∷ []) (digest_lines artifact_type r2.value.1 d.pages r))
                c3.0
            ∙ ap (λ (t : List Text). w.stdout ++ map (λ l. l ++ 10 ∷ []) t)
                (digest_lines-listing artifact_type r2.value.1 d.pages);
      }
