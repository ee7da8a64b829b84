-- ===== src/TrustStore/Addition.antt =====
-- What adding a certificate leaves of the trust store.
use notation.Base.{◌≡◌, sym, ap, subst, ◌∙◌, Bool, none, some, List, ◌∷◌, arith, Text, ok}
use notation.Base.Exec.{World, branch, print, done, fail_if-inv, lift-inv, bind-inv, ◌>>=◌}
use notation.Disk.{Entry, Disk, stat_op, look, stat, copy_to_dir}
use notation.Disk.Paths.{FilePath, path_instance, base}
use notation.Disk.Copies.{apart, copy_to_dir-keeps, copy_to_dir-look}
use notation.TrustStore.{
  TrustLib, Certificate, store_items, add_cert, check_store, read_certs, refuse_existing,
}

ok_inj : {A : Type 0} {a b : A} → ok a ≡ ok b → a ≡ b
ok_inj h = cc

module _ (lib : TrustLib) where
  pub refuse_inv :
      (p : FilePath) (w : World Disk) {x : Unit {0}} {w' : World Disk}
      → lib.denied stat_op p ≡ none
      → refuse_existing lib p w ≡ (ok x, w')
      → (look p w.ext ≡ none) × (w ≡ w')
  unfolding refuse_existing stat
  refuse_inv p w seen run = ground arith

  check_store_inv :
      (store_type named_store : Text) (w : World Disk) {x : Unit {0}} {w' : World Disk}
      → check_store lib store_type named_store w ≡ (ok x, w')
      → w ≡ w'
  unfolding check_store ◌>>=◌
  check_store_inv store_type named_store w run = ground arith

  read_certs_inv :
      (p : FilePath) (w : World Disk) {certs : List Certificate} {w' : World Disk}
      → read_certs lib p w ≡ (ok certs, w')
      → w ≡ w'
  unfolding read_certs
  read_certs_inv p w run = ground arith

  told :
      (display : Bool) (t : Text) (w : World Disk) {x : Unit {0}} {w' : World Disk}
      → branch display (print t) done w ≡ (ok x, w')
      → w.ext ≡ w'.ext
  told display t w run = ground arith

  -- What a successful `AddCert` has done: the target was free, and the copy was made.
  record IsAdded (cert_path dst : FilePath) (w w' : World Disk) : Type 0 where
    fresh : look (base cert_path ∷ dst) w.ext ≡ none
    after : World Disk
    copies : copy_to_dir lib.denied cert_path dst w ≡ (ok tt, after)
    same : after.ext ≡ w'.ext

  add_cert-IsAdded :
      (path store_type named_store : Text) (display : Bool) (cert_path : FilePath)
      (w w' : World Disk) {x : Unit {0}}
      → lib.abs path ≡ ok cert_path
      → lib.denied stat_op (base cert_path ∷ (lib.sys_path (store_items store_type named_store)).0)
        ≡ none
      → add_cert lib path store_type named_store display w ≡ (ok x, w')
      → IsAdded cert_path (lib.sys_path (store_items store_type named_store)).0 w w'
  unfolding add_cert
  add_cert-IsAdded path store_type named_store display cert_path w w' abs seen run =
      let dst = (lib.sys_path (store_items store_type named_store)).0 in
      let r1 = bind-inv _ _ w run in
      let r2 = bind-inv _ _ r1.mid r1.second in
      let r3 = bind-inv _ _ r2.mid r2.second in
      let r4 = bind-inv _ _ r3.mid r3.second in
      let r5 = bind-inv _ _ r4.mid r4.second in
      let r6 = bind-inv _ _ r5.mid r5.second in
      let r7 = bind-inv _ _ r6.mid r6.second in
      let c1 = lift-inv (lib.abs path) w r1.first in
      let src : r1.value ≡ cert_path = ok_inj (sym c1.0 ∙ abs) in
      let same : r5.mid ≡ w = sym (
        c1.1
        ∙ check_store_inv store_type named_store r1.mid r2.first
        ∙ read_certs_inv r1.value r2.mid r3.first
        ∙ (fail_if-inv _ _ r3.mid r4.first).1
        ∙ (lift-inv _ r4.mid r5.first).1) in
      let free =
        refuse_inv (base r1.value ∷ dst) r5.mid
          (subst (λ (p : FilePath). lib.denied stat_op (base p ∷ dst) ≡ none) (sym src) seen)
          r6.first in
      record {
        fresh =
            subst (λ (p : FilePath). look (base p ∷ dst) w.ext ≡ none) src
              (subst (λ (v : World Disk). look (base r1.value ∷ dst) v.ext ≡ none) same free.0);
        after = r7.mid;
        copies =
            subst (λ (p : FilePath). copy_to_dir lib.denied p dst w ≡ (ok tt, r7.mid)) src
              (subst (λ (v : World Disk). copy_to_dir lib.denied r1.value dst v ≡ (ok tt, r7.mid))
                (sym free.1 ∙ same) r7.first);
        same = told display _ r7.mid r7.second;
      }

  -- A successful `AddCert` puts a copy of the certificate into the directory of the named store,
  -- where there was nothing of that name, and leaves every entry that was there as it was. The
  -- system lets it look at the path of the new certificate.
  pub look-add_cert :
      (path store_type named_store : Text) (display : Bool) (cert_path : FilePath)
      (w w' : World Disk) {x : Unit {0}}
      → lib.abs path ≡ ok cert_path
      → lib.denied stat_op (base cert_path ∷ (lib.sys_path (store_items store_type named_store)).0)
        ≡ none
      → add_cert lib path store_type named_store display w ≡ (ok x, w')
      → (look (base cert_path ∷ (lib.sys_path (store_items store_type named_store)).0) w.ext ≡ none)
        × (look (base cert_path ∷ (lib.sys_path (store_items store_type named_store)).0) w'.ext
            ≡ look cert_path w.ext)
        × ((q : FilePath) (e : Entry) → look q w.ext ≡ some e → look q w'.ext ≡ some e)
  look-add_cert path store_type named_store display cert_path w w' abs seen run =
      let dst = (lib.sys_path (store_items store_type named_store)).0 in
      let a = add_cert-IsAdded path store_type named_store display cert_path w w' abs seen run in
      (
        a.fresh,
        ap (look (base cert_path ∷ dst)) (sym a.same)
            ∙ copy_to_dir-look lib.denied cert_path dst w a.after a.fresh a.copies,
        λ q e there.
            ap (look q) (sym a.same)
            ∙ copy_to_dir-keeps lib.denied q e cert_path dst w a.after
                (apart q (base cert_path ∷ dst) e w.ext there a.fresh) there a.copies,
      )
