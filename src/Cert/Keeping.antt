-- ===== src/Cert/Keeping.antt =====
-- What `notation cert add` keeps, however it ends.
use notation.Base.{◌≡◌, arith, sym, false, ap, ◌∙◌, none, some, List, [], ◌∷◌, Text, Result}
use notation.Base.Exec.{World, Cmd, try, lift, fail_if, ◌>>=◌}
use notation.Disk.{Disk, Entry, look, stat_op, copy_to_dir}
use notation.Disk.Copies.{apart}
use notation.Disk.Keeping.{
  IsKeeping, IsKeeping-bind, IsKeeping-try, IsKeeping-lift, IsKeeping-fail_if, bind-keeps,
  keeping_rules, copy_to_dir-IsKeeping,
}
use notation.Disk.Paths.{FilePath, base}
use notation.TrustStore.{TrustLib, add_cert, check_store, refuse_existing, read_certs}
use notation.TrustStore.Addition.{refuse_inv}
use notation.Cert.{CertAddOpts, Added, add_each, conclude_add, add_certs, record_result}

module _ (lib : TrustLib) (q : FilePath) (e : Entry) where
  read_certs-IsKeeping : (path : FilePath) → IsKeeping q e (read_certs lib path)
  unfolding read_certs
  read_certs-IsKeeping path = record { at = λ w h. h }

  check_store-IsKeeping :
      (store_type named_store : Text) → IsKeeping q e (check_store lib store_type named_store)
  unfolding check_store
  check_store-IsKeeping store_type named_store = search keeping_rules depth 8

  refused_or_not : (path : FilePath) (w : World Disk) → (refuse_existing lib path w).1 ≡ w
  unfolding refuse_existing
  refused_or_not path w = ground arith

  -- A copy that is made only where there is nothing yet.
  guarded-IsKeeping :
      {A : Type 0} (src dst : FilePath) (rest : Unit {0} → Cmd Disk A)
      → lib.denied stat_op (base src ∷ dst) ≡ none
      → ((u : Unit {0}) → IsKeeping q e (rest u))
      → IsKeeping q e
          (refuse_existing lib (base src ∷ dst) >>= (λ u. copy_to_dir lib.denied src dst >>= rest))
  guarded-IsKeeping src dst rest seen k = record {
    at = λ w h.
        let guard = refuse_existing lib (base src ∷ dst) in
        let still = ap (λ (v : World Disk). look q v.ext) (refused_or_not (base src ∷ dst) w) ∙ h in
        bind-keeps q e guard _ w still (λ u run.
          let gone = (refuse_inv lib (base src ∷ dst) w seen run).0 in
          (IsKeeping-bind q e (copy_to_dir lib.denied src dst) rest
              (copy_to_dir-IsKeeping q e lib.denied src dst
                (apart q (base src ∷ dst) e w.ext h gone))
              k).at
            (guard w).1 still);
  }

  add_cert-IsKeeping :
      (path store_type named_store : Text) (display : _)
      → ((p : FilePath) → lib.denied stat_op p ≡ none)
      → IsKeeping q e (add_cert lib path store_type named_store display)
  unfolding add_cert
  add_cert-IsKeeping path store_type named_store display seen =
      IsKeeping-bind q e (lift (lib.abs path)) _ (IsKeeping-lift q e _) λ cert_path.
        IsKeeping-bind q e (check_store lib store_type named_store) _
          (check_store-IsKeeping store_type named_store)
          λ _.
            IsKeeping-bind q e (read_certs lib cert_path) _ (read_certs-IsKeeping cert_path)
              λ certs. IsKeeping-bind q e (fail_if _ _) _ (IsKeeping-fail_if q e _ _) λ _.
                IsKeeping-bind q e (lift _) _ (IsKeeping-lift q e _)
                  λ _. guarded-IsKeeping cert_path _ _ (seen _) (λ u. search keeping_rules)

  add_each-IsKeeping :
      (store_type named_store : Text) (added : Added) (paths : List Text)
      → ((p : FilePath) → lib.denied stat_op p ≡ none)
      → IsKeeping q e (add_each lib store_type named_store added paths)
  unfolding add_each
  add_each-IsKeeping store_type named_store added [] seen = search keeping_rules
  add_each-IsKeeping store_type named_store added (p ∷ ps) seen =
      IsKeeping-bind q e (try (add_cert lib p store_type named_store false)) _
        (IsKeeping-try q e _ (add_cert-IsKeeping p store_type named_store false seen))
        (λ result. add_each-IsKeeping store_type named_store (record_result added p result) ps seen)

  conclude_add-IsKeeping :
      (store_type named_store : Text) (added : Added)
      → IsKeeping q e (conclude_add lib store_type named_store added)
  unfolding conclude_add
  conclude_add-IsKeeping store_type named_store added = search keeping_rules depth 8

-- However `notation cert add` ends, for whatever paths, every file and directory that was there is
-- there afterwards, as it was: no certificate replaces another one. The state of every path can be
-- asked for.
pub add_certs-kept :
    (lib : TrustLib) (opts : CertAddOpts) (w w' : World Disk) (r : Result (Unit {0})) (q : FilePath)
    (e : Entry)
    → ((p : FilePath) → lib.denied stat_op p ≡ none)
    → add_certs lib opts w ≡ (r, w')
    → look q w.ext ≡ some e
    → look q w'.ext ≡ some e
unfolding add_certs
add_certs-kept lib opts w w' r q e seen run there =
    let all : IsKeeping q e (add_certs lib opts) =
      IsKeeping-bind q e (check_store lib opts.store_type opts.named_store) _
        (check_store-IsKeeping lib q e opts.store_type opts.named_store)
        (λ _.
          IsKeeping-bind q e (add_each lib opts.store_type opts.named_store _ opts.path) _
            (add_each-IsKeeping lib q e opts.store_type opts.named_store _ opts.path seen)
            (λ added. conclude_add-IsKeeping lib q e opts.store_type opts.named_store added)) in
    ap (λ (p : _ × World Disk). look q p.1.ext) (sym run) ∙ all.at w there
