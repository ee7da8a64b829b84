-- ===== src/Manifest/Laws.antt =====
-- `resolveReference` of cmd/notation/manifest.go: the result, the warning, and the errors.
use mathlib.Core.List.{append-nil}
use notation.Base.{
  ◌≡◌, refl, subst, sym, ap, ◌∙◌, Bool, true, false, Option, none, some, [], ◌∷◌, ◌++◌, is_empty,
  arith, if◌then◌else◌, Text, Result, ok,
}
use notation.Base.Quiet.{Quiet, quiet_rules}
use notation.Base.Exec.{
  Cmd, World, branch, done, ◌>>◌, warn, pure, ◌>>=◌, bind-ok, bind-inv, fail_if-ok, fail_if-inv,
}
use notation.Manifest.{
  Descriptor, Reference, InputType, registry_input, oci_layout_input, other_input, Repository,
  split_reference, call_back, describe, resolve_reference,
}

warn_unless :
    {S A : Type 0} (b : Bool) (t : Text) (a : A) (w : World S)
    → (branch b done (warn t) >> pure a) w
      ≡ (ok a, record w { stderr = w.stderr ++ (if b then [] else t ∷ []) })
unfolding ◌>>=◌
warn_unless true t a w = rw append-nil
warn_unless false t a w = refl

module _ {S : Type 0} (parse_reference : Text → Result Reference)
    (stat_is_dir : Text → S → Result Bool) (is_digest : Text → Bool) (repo : Repository S) where
  -- A reference with a digest behind it that the repository resolved.
  pub record IsResolved (input : InputType) (reference : Text) (w w' : World S) (desc : Descriptor)
      (resolved : Text) : Type 0 where
    pub parts : Text × Text
    pub given : is_empty reference ≡ false
    pub split :
        split_reference parse_reference stat_is_dir is_digest input reference w ≡ (ok parts, w)
    pub found : (repo.resolve parts.0 w.ext).0 ≡ ok desc
    pub named : resolved ≡ parts.1 ++ b'@' ∷ desc.digest
    pub after : w'.ext ≡ (repo.resolve parts.0 w.ext).1

  split_reference-world :
      (input : InputType) (reference : Text) (w : World S)
      → (split_reference parse_reference stat_is_dir is_digest input reference w).1 ≡ w
  unfolding split_reference ◌>>=◌
  split_reference-world registry_input reference w = ground arith
  split_reference-world oci_layout_input reference w = ground arith
  split_reference-world (other_input n) reference w = refl

  split-registry :
      (reference : Text) (w : World S) (ref : Reference)
      → parse_reference reference ≡ ok ref
      → split_reference parse_reference stat_is_dir is_digest registry_input reference w
        ≡ (ok (ref.reference, ref.registry ++ b'/' ∷ ref.repository), w)
  unfolding split_reference
  split-registry reference w ref e = rw (split_reference, e)

  describe-ok :
      (tag : Text) (w : World S) (desc : Descriptor)
      → is_empty tag ≡ false
      → (repo.resolve tag w.ext).0 ≡ ok desc
      → describe tag repo w ≡ (ok desc, record w { ext = (repo.resolve tag w.ext).1 })
  unfolding describe ◌>>=◌
  describe-ok tag w desc given found = ground arith

  split_inv :
      (input : InputType) (reference : Text) (w : World S) {parts : Text × Text} {w' : World S}
      → split_reference parse_reference stat_is_dir is_digest input reference w ≡ (ok parts, w')
      → w ≡ w'
  split_inv input reference w h =
      sym (split_reference-world input reference w)
      ∙ ap (λ (p : Result (Text × Text) × World S). p.1) h

  describe_inv :
      (tag : Text) (w : World S) {desc : Descriptor} {w' : World S}
      → describe tag repo w ≡ (ok desc, w')
      → ((repo.resolve tag w.ext).0 ≡ ok desc)
        × (w' ≡ record w { ext = (repo.resolve tag w.ext).1 })
  unfolding describe ◌>>=◌
  describe_inv tag w h = ground arith

  call_back_inv :
      (warning : Text → Text) (tag : Text) (desc : Descriptor) (w : World S) {x : Unit {0}}
      {w' : World S}
      → call_back is_digest (some (λ ref d. warn (warning ref))) tag desc w ≡ (ok x, w')
      → (w'.stdout ≡ w.stdout) × (w'.ext ≡ w.ext)
  unfolding call_back
  call_back_inv warning tag desc w h = ground arith

  split-Quiet :
      (input : InputType) (reference : Text)
      → Quiet (split_reference parse_reference stat_is_dir is_digest input reference)
  split-Quiet input reference = record {
    at = λ w. ap (λ (v : World S). v.stdout) (split_reference-world input reference w);
  }

  describe-Quiet : (tag : Text) → Quiet (describe tag repo)
  unfolding describe ◌>>=◌
  describe-Quiet tag = record { at = λ w. ground arith }

  final :
      (front : Text) (desc desc' : Descriptor) (resolved : Text) (w w' : World S)
      → pure {A = Descriptor × Text} (desc, front ++ b'@' ∷ desc.digest) w
        ≡ (ok (desc', resolved), w')
      → (desc ≡ desc') × (resolved ≡ front ++ b'@' ∷ desc.digest) × (w ≡ w')
  final front desc desc' resolved w w' h = ground arith

  -- A `resolveReference` whose callback warns prints nothing to stdout.
  pub resolve_reference-Quiet :
      (input : InputType) (reference : Text) (warning : Text → Text)
      → Quiet (
          resolve_reference parse_reference stat_is_dir is_digest input reference repo
            (some (λ ref d. warn (warning ref))))
  unfolding resolve_reference
  resolve_reference-Quiet input reference warning =
      search (quiet_rules, split-Quiet, describe-Quiet) depth 8

  -- A callback that leaves stdout and the rest of the world as they are.
  abbrev Calm : Option (Text → Descriptor → Cmd S (Unit {0})) → Type 0
  Calm fn =
      (tag : Text) (desc : Descriptor) (w w' : World S)
      → call_back is_digest fn tag desc w ≡ (ok tt, w')
      → (w'.stdout ≡ w.stdout) × (w'.ext ≡ w.ext)

  resolve_reference-Calm :
      (input : InputType) (reference : Text) (fn : Option (Text → Descriptor → Cmd S (Unit {0})))
      (w w' : World S) (desc : Descriptor) (resolved : Text)
      → Calm fn
      → resolve_reference parse_reference stat_is_dir is_digest input reference repo fn w
        ≡ (ok (desc, resolved), w')
      → IsResolved input reference w w' desc resolved × (w'.stdout ≡ w.stdout)
  unfolding resolve_reference
  resolve_reference-Calm input reference fn w w' desc resolved calm h =
      let r1 = bind-inv _ _ w h in
      let r2 = bind-inv _ _ r1.mid r1.second in
      let r3 = bind-inv _ _ r2.mid r2.second in
      let r4 = bind-inv _ _ r3.mid r3.second in
      let c1 = fail_if-inv _ _ w r1.first in
      let c2 = split_inv input reference r1.mid r2.first in
      let c3 = describe_inv r2.value.0 r2.mid r3.first in
      let c4 = calm r2.value.0 r3.value r3.mid r4.mid r4.first in
      let e = final r2.value.1 r3.value desc resolved r4.mid w' r4.second in
      let same : r1.mid ≡ w = sym c1.1 in
      let parts_at_w =
        subst
          (λ v.
            split_reference parse_reference stat_is_dir is_digest input reference v
            ≡ (ok r2.value, v))
          same (r2.first ∙ ap (λ (v : World S). (ok r2.value, v)) (sym c2)) in
      let mid : r2.mid ≡ w = sym c2 ∙ same in
      (
        record {
          parts = r2.value;
          given = c1.0;
          split = parts_at_w;
          found =
              subst (λ (v : World S). (repo.resolve r2.value.0 v.ext).0 ≡ ok desc) mid
                (c3.0 ∙ ap ok e.0);
          named = e.1 ∙ ap (λ (d : Descriptor). r2.value.1 ++ b'@' ∷ d.digest) e.0;
          after =
              ap (λ (v : World S). v.ext) (sym e.2)
              ∙ c4.1
              ∙ ap (λ (v : World S). v.ext) c3.1
              ∙ ap (λ (v : World S). (repo.resolve r2.value.0 v.ext).1) mid;
        },
        ap (λ (v : World S). v.stdout) (sym e.2)
            ∙ c4.0
            ∙ ap (λ (v : World S). v.stdout)
                (c3.1
                  ∙ ap (λ (v : World S). record v { ext = (repo.resolve r2.value.0 v.ext).1 }) mid),
      )

  -- Whatever the user's reference is, a successful `resolveReference` with a callback that warns
  -- returns the descriptor to which the repository resolved the tag or digest in it, and a
  -- reference that ends in that descriptor's digest, never in the tag. Nothing is printed to
  -- stdout.
  pub resolve_reference-ok :
      (input : InputType) (reference : Text) (warning : Text → Text) (w w' : World S)
      (desc : Descriptor) (resolved : Text)
      → resolve_reference parse_reference stat_is_dir is_digest input reference repo
          (some (λ ref d. warn (warning ref)))
          w
        ≡ (ok (desc, resolved), w')
      → IsResolved input reference w w' desc resolved × (w'.stdout ≡ w.stdout)
  resolve_reference-ok input reference warning w w' desc resolved h =
      resolve_reference-Calm input reference (some (λ ref d. warn (warning ref))) w w' desc resolved
        (λ tag d v v' e. call_back_inv warning tag d v e) h

  no_call_back_inv : Calm none
  unfolding call_back
  no_call_back_inv tag desc w w' h = ground arith

  -- The same without a callback.
  pub resolve_reference-none :
      (input : InputType) (reference : Text) (w w' : World S) (desc : Descriptor) (resolved : Text)
      → resolve_reference parse_reference stat_is_dir is_digest input reference repo none w
        ≡ (ok (desc, resolved), w')
      → IsResolved input reference w w' desc resolved × (w'.stdout ≡ w.stdout)
  resolve_reference-none input reference w w' desc resolved h =
      resolve_reference-Calm input reference none w w' desc resolved no_call_back_inv h

  -- A reference to a registry that oras-go parses and the repository resolves gives
  -- <registry>/<repository>@<digest>; the one change beside the repository's own is a warning on
  -- stderr, which is written exactly if the reference has a tag and no digest.
  pub resolve_reference-registry :
      (reference : Text) (warning : Text → Text) (w : World S) {ref : Reference} {desc : Descriptor}
      → is_empty reference ≡ false
      → parse_reference reference ≡ ok ref
      → is_empty ref.reference ≡ false
      → (repo.resolve ref.reference w.ext).0 ≡ ok desc
      → resolve_reference parse_reference stat_is_dir is_digest registry_input reference repo
          (some (λ r d. warn (warning r)))
          w
        ≡ (
          ok (desc, (ref.registry ++ b'/' ∷ ref.repository) ++ b'@' ∷ desc.digest),
          record {
            stdout = w.stdout;
            stderr =
                w.stderr ++ (if is_digest ref.reference then [] else warning ref.reference ∷ []);
            transport = w.transport;
            ext = (repo.resolve ref.reference w.ext).1;
          },
        )
  unfolding resolve_reference
  resolve_reference-registry reference warning w {ref} {desc} given parsed tagged found =
      bind-ok _ _ w tt w (fail_if-ok _ _ w given)
      ∙ bind-ok _ _ w _ w (split-registry reference w ref parsed)
      ∙ bind-ok _ _ w desc _ (describe-ok ref.reference w desc tagged found)
      ∙ warn_unless (is_digest ref.reference) (warning ref.reference) _ _
