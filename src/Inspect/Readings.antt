-- ===== src/Inspect/Readings.antt =====
-- What `notation inspect` makes of the signatures of an artifact, against a reference definition:
-- read every signature first, and sort the readings afterwards.
use mathlib.Core.Path.{ap₂}
use mathlib.Core.List.{append-nil, append_assoc}
use notation.Base.{
  ◌≡◌, refl, ap, sym, ◌∙◌, Bool, true, false, ◌||◌, List, [], ◌∷◌, ◌++◌, arith, Text, Result, ok,
  err,
}
use notation.Base.Errors.{Fault}
use notation.Base.Exec.{World, pure, ◌>>=◌, bind-ok, lift}
use notation.Manifest.{Pages, stop, hand_over, Descriptor, Repository}
use notation.Inspect.Output.{SignatureOutput}
use notation.Inspect.{
  InspectLib, Collected, read_signature, add_reading, add_fetched, on_signature, on_page, on_pages,
  list_and_read, fetch_warning, skip_warning,
}

-- How a signature was read.
pub data Reading : Type 0 where
  read : SignatureOutput → Reading
  unfetched unread : Descriptor → Fault → Reading

unfoldable pub shown : List Reading → List SignatureOutput
shown [] = []
shown (read sig ∷ rs) = sig ∷ shown rs
shown (unfetched desc e ∷ rs) = shown rs
shown (unread desc e ∷ rs) = shown rs

unfoldable pub warnings : List Reading → List Text
warnings [] = []
warnings (read sig ∷ rs) = warnings rs
warnings (unfetched desc e ∷ rs) = fetch_warning desc e ∷ warnings rs
warnings (unread desc e ∷ rs) = skip_warning desc e ∷ warnings rs

unfoldable pub any_skipped : List Reading → Bool
any_skipped [] = false
any_skipped (read sig ∷ rs) = any_skipped rs
any_skipped (unfetched desc e ∷ rs) = true
any_skipped (unread desc e ∷ rs) = true

pub record Listed (S : Type 0) : Type 0 where
  pub descs : List Descriptor
  pub readings : List Reading
  pub result : Result (Unit {0})
  pub ext : S

module _ {S Envelope : Type 0} (lib : InspectLib S Envelope) (output_format : Text)
    (repo : Repository S) where
  unfoldable pub of_result : Descriptor → Result SignatureOutput → Reading
  of_result desc (ok sig) = read sig
  of_result desc (err e) = unread desc e

  unfoldable pub of_fetched : Descriptor → Result (Text × Descriptor) → Reading
  of_fetched desc (err e) = unfetched desc e
  of_fetched desc (ok blob) = of_result desc (read_signature lib output_format desc blob)

  -- The readings of all signatures, and the outside world after their fetches.
  unfoldable pub read_all : List Descriptor → S → List Reading × S
  read_all [] s = ([], s)
  read_all (desc ∷ ds) s =
      let (r, s') = repo.fetch_signature_blob desc s in
      let (rs, s'') = read_all ds s' in (of_fetched desc r ∷ rs, s'')

  -- The state of the loop after the readings.
  unfoldable pub after : Collected → List Reading → Collected
  after c rs = record {
    signatures = c.signatures ++ shown rs;
    skipped = c.skipped || any_skipped rs;
  }

  unfoldable pub told : World S → List Reading × S → World S
  told w (rs, s) = record w { stderr = w.stderr ++ warnings rs; ext = s }

  read_step :
      (c : Collected) (desc : Descriptor) (r : Result SignatureOutput) (w : World S)
      → add_reading lib desc r c w ≡ (
        ok (after c (of_result desc r ∷ [])),
        record w { stderr = w.stderr ++ warnings (of_result desc r ∷ []) },
      )
  unfolding add_reading of_result after shown any_skipped warnings
  read_step c desc (ok sig) w = ground (arith, append-nil w.stderr)
  read_step c desc (err e) w = ground (arith, append-nil c.signatures)

  step :
      (c : Collected) (desc : Descriptor) (r : Result (Text × Descriptor)) (w : World S)
      → add_fetched lib output_format desc r c w ≡ (
        ok (after c (of_fetched desc r ∷ [])),
        record w { stderr = w.stderr ++ warnings (of_fetched desc r ∷ []) },
      )
  unfolding add_fetched after of_fetched shown any_skipped warnings
  step c desc (err e) w = ground (arith, append-nil c.signatures)
  step c desc (ok blob) w = read_step c desc (read_signature lib output_format desc blob) w

  after-cons :
      (c : Collected) (r : Reading) (rs : List Reading)
      → after (after c (r ∷ [])) rs ≡ after c (r ∷ rs)
  unfolding after shown any_skipped
  after-cons c (read sig) rs = ground (arith, append_assoc c.signatures (sig ∷ []) (shown rs))
  after-cons c (unfetched desc e) rs = ground (arith, append-nil c.signatures)
  after-cons c (unread desc e) rs = ground (arith, append-nil c.signatures)

  warnings-cons :
      (out : List Text) (r : Reading) (rs : List Reading)
      → (out ++ warnings (r ∷ [])) ++ warnings rs ≡ out ++ warnings (r ∷ rs)
  unfolding warnings
  warnings-cons out (read sig) rs = ground (arith, append-nil out)
  warnings-cons out (unfetched desc e) rs = append_assoc out (_ ∷ []) (warnings rs)
  warnings-cons out (unread desc e) rs = append_assoc out (_ ∷ []) (warnings rs)

  -- The loop over the signatures of a page.
  on_page-readings :
      (c : Collected) (ds : List Descriptor) (w : World S)
      → on_page lib output_format repo c ds w
        ≡ (ok (after c (read_all ds w.ext).0), told w (read_all ds w.ext))
  unfolding on_page read_all told after shown any_skipped warnings
  on_page-readings c [] w = ground (arith, append-nil c.signatures, append-nil w.stderr)
  on_page-readings c (desc ∷ ds) w =
      let r = repo.fetch_signature_blob desc w.ext in
      let one = of_fetched desc r.0 in
      let rest = read_all ds r.1 in
      let v = record w { stderr = w.stderr ++ warnings (one ∷ []); ext = r.1 } in
      bind-ok (on_signature lib output_format repo c desc) _ w (after c (one ∷ [])) v
        (unfold on_signature in step c desc r.0 (record w { ext = r.1 }))
      ∙ on_page-readings (after c (one ∷ [])) ds v
      ∙ ap₂ (λ (x : Collected) (t : List Text). (ok x, record w { stderr = t; ext = rest.1 }))
          (after-cons c one rest.0) (warnings-cons w.stderr one rest.0)

  append-readings :
      (c : Collected) (xs ys : List Reading) (out : List Text)
      → (after (after c xs) ys ≡ after c (xs ++ ys))
        × ((out ++ warnings xs) ++ warnings ys ≡ out ++ warnings (xs ++ ys))
  unfolding after shown any_skipped warnings
  append-readings c [] ys out = (
    ground (arith, append-nil c.signatures),
    ap (λ (t : List Text). t ++ warnings ys) (append-nil out),
  )
  append-readings c (x ∷ xs) ys out =
      let rest = append-readings (after c (x ∷ [])) xs ys (out ++ warnings (x ∷ [])) in
      (
        ap (λ (d : Collected). after d ys) (sym (after-cons c x xs))
            ∙ rest.0
            ∙ after-cons c x (xs ++ ys),
        ap (λ (t : List Text). t ++ warnings ys) (sym (warnings-cons out x xs))
            ∙ rest.1
            ∙ warnings-cons out x (xs ++ ys),
      )

  -- A whole listing: the signatures that were listed, how each was read, how the listing ended,
  -- and the outside world after it. What a page holds may depend on the fetches before it.
  unfoldable pub read_listing : Pages S → Listed S
  unfolding read_all
  read_listing (stop r s) = record { descs = []; readings = []; result = r; ext = s }
  read_listing (hand_over descs s next) =
      let (rs, s') = read_all descs s in
      let rest = read_listing (next s') in
      record rest { descs = descs ++ rest.descs; readings = rs ++ rest.readings }

  -- What `list_and_read` collects, given how the listing ends.
  unfoldable pub collected : Result (Unit {0}) → Collected → Result Collected
  collected (ok _) c = ok c
  collected (err e) c = err e

  after_ended :
      (r : Result (Unit {0})) (c : Collected) (w : World S)
      → (lift r >>= λ _. pure c) w ≡ (collected r c, w)
  unfolding ◌>>=◌ collected
  after_ended (ok _) c w = refl
  after_ended (err e) c w = refl

  on_pages-readings :
      (c : Collected) (pages : Pages S) (w : World S)
      → let l = read_listing pages in
        on_pages lib output_format repo c pages w
        ≡ (collected l.result (after c l.readings), told w (l.readings, l.ext))
  unfolding on_pages told after shown any_skipped warnings read_listing
  on_pages-readings c (stop r s) w =
      after_ended r c (record w { ext = s })
      ∙ ap₂ (λ (x : Collected) (t : List Text). (collected r x, record w { stderr = t; ext = s }))
          (ground (arith, append-nil c.signatures)) (sym (append-nil w.stderr))
  on_pages-readings c (hand_over descs s next) w =
      let rs = read_all descs s in
      let rest = read_listing (next rs.1) in
      bind-ok (on_page lib output_format repo c descs) _ (record w { ext = s }) (after c rs.0)
        (told w rs) (on_page-readings c descs (record w { ext = s }))
      ∙ on_pages-readings (after c rs.0) (next rs.1) (told w rs)
      ∙ (let q = append-readings c rs.0 rest.readings w.stderr in
          ap₂
            (λ (x : Collected) (t : List Text).
              (collected rest.result x, record w { stderr = t; ext = rest.ext }))
            q.0 q.1)

  -- However the repository splits the signatures into pages, and whatever it makes of the
  -- fetches between two pages, the loop of `notation inspect` shows exactly the signatures that
  -- can be fetched and read, in their order, and writes one warning for each of the others, in
  -- theirs; it notes a skipped signature exactly if there is such a one, and fails exactly if
  -- the listing ends with an error.
  pub list_and_read-readings :
      (desc : Descriptor) (w : World S)
      → let l = read_listing (repo.list_signatures desc w.ext) in
        list_and_read lib output_format repo desc w ≡ (
          collected l.result
              (record { signatures = shown l.readings; skipped = any_skipped l.readings }),
          record w { stderr = w.stderr ++ warnings l.readings; ext = l.ext },
        )
  unfolding list_and_read after told
  list_and_read-readings desc w =
      on_pages-readings (record { signatures = []; skipped = false })
        (repo.list_signatures desc w.ext) w
