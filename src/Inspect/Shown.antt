-- ===== src/Inspect/Shown.antt =====
-- That nothing is missing where no signature was skipped.
use notation.Base.{
  ◌≡◌, refl, ap, sym, ◌∙◌, false, List, [], ◌∷◌, ◌++◌, map, arith, Text, Result, ok, err,
}
use notation.Base.Exec.{World}
use notation.Manifest.{Pages, stop, hand_over, Descriptor, Repository}
use notation.Inspect.Output.{SignatureOutput}
use notation.Inspect.{InspectLib, Collected, read_signature, list_and_read}
use notation.Inspect.Readings.{
  Reading, Listed, shown, any_skipped, of_result, of_fetched, read_all, read_listing, collected,
  list_and_read-readings,
}

module _ {S Envelope : Type 0} (lib : InspectLib S Envelope) (output_format : Text)
    (repo : Repository S) where
  digest_read :
      (desc : Descriptor) (blob : Text × Descriptor) (sig : SignatureOutput)
      → read_signature lib output_format desc blob ≡ ok sig
      → sig.digest ≡ desc.digest
  unfolding read_signature
  digest_read desc blob sig h = ground arith

  result_shown :
      (desc : Descriptor) (r : Result SignatureOutput) (rs : List Reading)
      → ((sig : SignatureOutput) → r ≡ ok sig → sig.digest ≡ desc.digest)
      → any_skipped (of_result lib output_format repo desc r ∷ rs) ≡ false
      → (map
            (λ (sig : SignatureOutput). sig.digest)
            (shown (of_result lib output_format repo desc r ∷ rs))
          ≡ desc.digest ∷ map (λ (sig : SignatureOutput). sig.digest) (shown rs))
        × (any_skipped rs ≡ false)
  unfolding any_skipped shown of_result
  result_shown desc (ok sig) rs d h =
      (ap (λ t. t ∷ map (λ (s : SignatureOutput). s.digest) (shown rs)) (d sig refl), h)
  result_shown desc (err e) rs d h = absurd (cc)

  one_shown :
      (desc : Descriptor) (r : Result (Text × Descriptor)) (rs : List Reading)
      → any_skipped (of_fetched lib output_format repo desc r ∷ rs) ≡ false
      → (map
            (λ (sig : SignatureOutput). sig.digest)
            (shown (of_fetched lib output_format repo desc r ∷ rs))
          ≡ desc.digest ∷ map (λ (sig : SignatureOutput). sig.digest) (shown rs))
        × (any_skipped rs ≡ false)
  unfolding any_skipped shown of_fetched of_result
  one_shown desc (err e) rs h = absurd (cc)
  one_shown desc (ok blob) rs h =
      result_shown desc (read_signature lib output_format desc blob) rs (digest_read desc blob) h

  -- The signatures of a page, before those of the later pages.
  page_shown :
      (ds : List Descriptor) (s : S) (more : List Reading) (later : List Descriptor)
      → (any_skipped more ≡ false
          → map (λ (sig : SignatureOutput). sig.digest) (shown more)
            ≡ map (λ (d : Descriptor). d.digest) later)
      → any_skipped ((read_all lib output_format repo ds s).0 ++ more) ≡ false
      → map
          (λ (sig : SignatureOutput). sig.digest)
          (shown ((read_all lib output_format repo ds s).0 ++ more))
        ≡ map (λ (d : Descriptor). d.digest) (ds ++ later)
  unfolding read_all
  page_shown [] s more later same h = same h
  page_shown (desc ∷ ds) s more later same h =
      let r = repo.fetch_signature_blob desc s in
      let one = one_shown desc r.0 ((read_all lib output_format repo ds r.1).0 ++ more) h in
      one.0 ∙ ap (λ (t : List Text). desc.digest ∷ t) (page_shown ds r.1 more later same one.1)

  -- The digests of what is shown of a listing of which nothing was skipped.
  listing_shown :
      (pages : Pages S)
      → let l = read_listing lib output_format repo pages in
        any_skipped l.readings ≡ false
        → map (λ (sig : SignatureOutput). sig.digest) (shown l.readings)
          ≡ map (λ (d : Descriptor). d.digest) l.descs
  unfolding read_listing
  listing_shown (stop r s) h = unfold shown in refl
  listing_shown (hand_over descs s next) h =
      page_shown descs s _ _ (listing_shown (next (read_all lib output_format repo descs s).1)) h

  collected_inv :
      (result : Result (Unit {0})) (x : Collected) {c : Collected}
      → collected lib output_format repo result x ≡ ok c
      → (result ≡ ok tt) × (x ≡ c)
  unfolding collected
  collected_inv (ok _) x h = (refl, ground arith)
  collected_inv (err e) x h = absurd (cc)

  -- What is known after a listing in which no signature was skipped.
  pub record IsShown (desc : Descriptor) (w : World S) (c : Collected) (w' : World S) : Type 0 where
    pub listed : Listed S
    pub listing : listed ≡ read_listing lib output_format repo (repo.list_signatures desc w.ext)
    pub ended : listed.result ≡ ok tt
    pub all_shown :
        map (λ (sig : SignatureOutput). sig.digest) c.signatures
        ≡ map (λ (d : Descriptor). d.digest) listed.descs
    pub quiet : w'.stdout ≡ w.stdout

  pub list_and_read-IsShown :
      (desc : Descriptor) (w : World S) {c : Collected} {w' : World S}
      → c.skipped ≡ false
      → list_and_read lib output_format repo desc w ≡ (ok c, w')
      → IsShown desc w c w'
  list_and_read-IsShown desc w {c} {w'} none_skipped h =
      let pages = repo.list_signatures desc w.ext in
      let l = read_listing lib output_format repo pages in
      let e = sym (list_and_read-readings lib output_format repo desc w) ∙ h in
      let got = collected_inv l.result _ (ap (λ (p : Result Collected × World S). p.0) e) in
      record {
        listed = l;
        listing = refl;
        ended = got.0;
        all_shown =
            ap (λ (x : Collected). map (λ (sig : SignatureOutput). sig.digest) x.signatures)
              (sym got.1)
            ∙ listing_shown pages (ap (λ (x : Collected). x.skipped) got.1 ∙ none_skipped);
        quiet = sym (ap (λ (p : Result Collected × World S). p.1.stdout) e);
      }
