-- ===== src/Cert/Fresh.antt =====
-- `notation cert generate-test` writes no key over another file.
use notation.Base.{
  ◌≡◌, refl, sym, ap, ◌∙◌, inl, inr, false, Option, some, Bool, List, new, ◌++◌, [], ◌∷◌, arith,
  Text, codes, ok, err,
}
use notation.Base.Exec.{
  World, Cmd, Result-cases, bind-ok, bind-err, ◌>>=◌, lift, print, fail_if, act, pair_eq,
}
use notation.Disk.{Disk, Entry, look, Op, mkdir_all}
use notation.Base.Errors.{Fault, error_text}
use notation.Disk.Files.{write_file_with_permission, create_new}
use notation.Disk.Copies.{mkdir_all-keeps}
use notation.Disk.Paths.{FilePath, dir}
use notation.TrustStore.{TrustLib, sys_path_or_fail}
use notation.Cert.Generate.{
  GenerateLib, CertGenerateTestOpts, generate_test_cert, write_pair, or_reason, generate_test_key,
}

-- Every entry of the one disk is on the other, as it was.
abbrev pub Keeps : Disk → Disk → Type 0
Keeps d d' = (q : FilePath) (e : Entry) → look q d ≡ some e → look q d' ≡ some e

-- The command fails, and every entry of the disk stays as it was.
pub record IsRefusal {A : Type 0} (m : Cmd Disk A) (w : World Disk) : Type 0 where
  pub error : Fault
  pub after : World Disk
  pub outcome : m w ≡ (err error, after)
  pub kept : Keeps w.ext after.ext

module _ {A B : Type 0} (m : Cmd Disk A) (f : A → Cmd Disk B) (w : World Disk) where
  -- The first step is the one that fails.
  first_fails : IsRefusal m w → IsRefusal (m >>= f) w
  first_fails r = record {
    error = r.error;
    after = r.after;
    outcome = bind-err m f w r.error r.after r.outcome;
    kept = r.kept;
  }

  -- If the first step succeeds, then what follows fails.
  then_fails :
      Keeps w.ext (m w).1.ext
      → ((a : A) (w' : World Disk) → m w ≡ (ok a, w') → IsRefusal (f a) w')
      → IsRefusal (m >>= f) w
  then_fails keeps later = elim (Result-cases (m w).0) [
    | inl (a, good) ↦
        let run : m w ≡ (ok a, (m w).1) = pair_eq good refl in
        let r = later a (m w).1 run in
        record {
          error = r.error;
          after = r.after;
          outcome = bind-ok m f w a (m w).1 run ∙ r.outcome;
          kept = λ q e h. r.kept q e (keeps q e h);
        }
    | inr (e, bad) ↦
        let run : m w ≡ (err e, (m w).1) = pair_eq bad refl in
        record { error = e; after = (m w).1; outcome = bind-err m f w e (m w).1 run; kept = keeps }
  ]

-- The first step leaves the disk alone.
still_then_fails :
    {A B : Type 0} (m : Cmd Disk A) (f : A → Cmd Disk B) (w : World Disk)
    → (m w).1.ext ≡ w.ext
    → ((a : A) (w' : World Disk) → w'.ext ≡ w.ext → m w ≡ (ok a, w') → IsRefusal (f a) w')
    → IsRefusal (m >>= f) w
still_then_fails m f w still later =
    then_fails m f w (λ q e h. ap (look q) still ∙ h)
      (λ a w' run. later a w' (ap (λ (p : _ × World Disk). p.1.ext) (sym run) ∙ still) run)

create_new-IsRefusal :
    (denied : Op → FilePath → Option Fault) (p : FilePath) (w : World Disk) {e : Entry}
    → look p w.ext ≡ some e
    → IsRefusal (act (create_new denied p)) w
unfolding create_new
create_new-IsRefusal denied p w there = record {
  error = new (codes "file exists");
  after = w;
  outcome = ground arith;
  kept = λ q x h. h;
}

-- Without `overwrite`, `WriteFileWithPermission` fails where there is something.
write_file_with_permission-IsRefusal :
    (denied : Op → FilePath → Option Fault) (p : FilePath) (t : Text) (w : World Disk) {e : Entry}
    → look p w.ext ≡ some e
    → IsRefusal (write_file_with_permission denied p t false) w
unfolding write_file_with_permission
write_file_with_permission-IsRefusal denied p t w {e} there =
    then_fails (act (mkdir_all denied (dir p))) _ w
      (λ q x h. mkdir_all-keeps denied q x (dir p) w.ext h)
      (λ u w' made. first_fails (act (create_new denied p)) _ w' (
        create_new-IsRefusal denied p w' (
          ap (λ (r : _ × World Disk). look p r.1.ext) (sym made)
          ∙ mkdir_all-keeps denied p e (dir p) w.ext there)))

or_reason_err :
    (prefix : Text) (m : Cmd Disk (Unit {0})) (w : World Disk) {e : Fault} {w' : World Disk}
    → m w ≡ (err e, w')
    → or_reason prefix m w ≡ (err (new (prefix ++ error_text e)), w')
unfolding or_reason
or_reason_err prefix m w h = ground arith

or_reason-IsRefusal :
    (prefix : Text) (m : Cmd Disk (Unit {0})) (w : World Disk)
    → IsRefusal m w
    → IsRefusal (or_reason prefix m) w
unfolding or_reason
or_reason-IsRefusal prefix m w r = record {
  error = new (prefix ++ error_text r.error);
  after = r.after;
  outcome = or_reason_err prefix m w r.outcome;
  kept = r.kept;
}

sys_path_still :
    (trust : TrustLib) (items : List Text) (w : World Disk)
    → (sys_path_or_fail trust items w).1.ext ≡ w.ext
unfolding sys_path_or_fail
sys_path_still trust items w = ground arith

sys_path_inv :
    (trust : TrustLib) (items : List Text) (w : World Disk) {p : FilePath} {w' : World Disk}
    → sys_path_or_fail trust items w ≡ (ok p, w')
    → (trust.sys_path items).0 ≡ p
unfolding sys_path_or_fail
sys_path_inv trust items w h = ground arith

fail_if_still : (b : Bool) (e : Fault) (w : World Disk) → (fail_if b e w).1.ext ≡ w.ext
fail_if_still b e w = ground arith

module _ {PrivateKey : Type 0} (lib : GenerateLib PrivateKey) where
  write_pair-IsRefusal :
      (trust : TrustLib) (show_path : FilePath → Text) (key_path cert_path : FilePath)
      (key cert : Text) (w : World Disk) {e : Entry}
      → look key_path w.ext ≡ some e
      → IsRefusal (write_pair lib trust show_path key_path cert_path key cert) w
  unfolding write_pair
  write_pair-IsRefusal trust show_path key_path cert_path key cert w there =
      first_fails
        (or_reason (codes "failed to write key file: ")
          (write_file_with_permission trust.denied key_path key false))
        _ w
        (or_reason-IsRefusal _ _ w
          (write_file_with_permission-IsRefusal trust.denied key_path key w there))

  -- Where there is an entry already at the path of the private key, `notation cert generate-test`
  -- ends with an error, and every entry of the disk, the key included, stays as it was.
  pub generate_test_cert-IsRefusal :
      (trust : TrustLib) (show_path : FilePath → Text) (opts : CertGenerateTestOpts)
      (w : World Disk) (key : Entry)
      → look (trust.sys_path ((lib.local_key_path opts.name).0 ∷ [])).0 w.ext ≡ some key
      → IsRefusal (generate_test_cert lib trust show_path opts) w
  unfolding generate_test_cert
  generate_test_cert-IsRefusal trust show_path opts w key there =
      let items = (lib.local_key_path opts.name).0 ∷ [] in
      still_then_fails (fail_if _ _) _ w (fail_if_still _ _ w) λ _ w1 s1 r1.
        still_then_fails (print _) _ w1 refl λ _ w2 s2 r2.
          still_then_fails (lift (generate_test_key lib opts.bits)) _ w2 refl λ pair w3 s3 r3.
            still_then_fails (print _) _ w3 refl λ _ w4 s4 r4.
              still_then_fails (sys_path_or_fail trust items) _ w4 (sys_path_still trust items w4)
                λ key_path w5 s5 r5.
                  still_then_fails (sys_path_or_fail trust _) _ w5 (sys_path_still trust _ w5)
                    λ cert_path w6 s6 r6.
                      first_fails (write_pair lib trust show_path key_path cert_path pair.1 _) _ w6
                        (write_pair-IsRefusal trust show_path key_path cert_path pair.1 _ w6 (
                          ap (λ (p : FilePath). look p w6.ext)
                            (sym (sys_path_inv trust items w4 r5))
                          ∙ ap (look (trust.sys_path items).0) (s6 ∙ s5 ∙ s4 ∙ s3 ∙ s2 ∙ s1)
                          ∙ there))
