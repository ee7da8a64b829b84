-- ===== src/Cert/Single.antt =====
-- What `notation cert delete` removes where it is to remove one certificate.
use notation.Base.{
  ◌≡◌, sym, ap, ◌∙◌, true, false, none, [], ◌∷◌, ◌++◌, if◌then◌else◌, ◌==◌, Text, ok,
}
use notation.Base.Exec.{World, bind-inv, fail_if-inv}
use notation.Disk.{Disk, look}
use notation.Disk.Paths.{FilePath, path_instance, join, join-aside}
use notation.TrustStore.{TrustLib, store_items, delete_cert}
use notation.TrustStore.Removal.{
  JoinsTo, IsPlain, x509_dir, join-IsPlain, join-store_items, look-delete_cert,
}
use notation.Cert.{CertDeleteOpts, delete_certs}
use notation.Cert.Laws.{wrapped_inv, check_inv}

-- The options without --all and with the flag for the confirmation.
abbrev pub only : Text → Text → Text → CertDeleteOpts
only store_type named_store cert = record {
  store_type = store_type;
  named_store = named_store;
  cert = cert;
  all = false;
  confirmed = true;
}

module _ (lib : TrustLib) (config : FilePath) (law : JoinsTo lib config)
    (show_path : FilePath → Text) (store_type named_store : Text) where
  delete_certs-look :
      (cert : Text) (w w' : World Disk) {x : Unit {0}} (q p : FilePath)
      → join config (store_items store_type named_store ++ cert ∷ []) ≡ p
      → delete_certs lib show_path (only store_type named_store cert) w ≡ (ok x, w')
      → look q w'.ext ≡ (if q == p then none else look q w.ext)
  unfolding delete_certs
  delete_certs-look cert w w' q p path h =
      let r1 = bind-inv _ _ w h in
      let r2 = bind-inv _ _ r1.mid r1.second in
      let same =
        check_inv lib store_type named_store w r1.first ∙ (fail_if-inv _ _ r1.mid r2.first).1 in
      let run =
        wrapped_inv lib _ (delete_cert lib store_type named_store cert true) r2.mid r2.second in
      look-delete_cert lib config law store_type named_store cert r2.mid w' q run
      ∙ ap
          (λ (v : World Disk).
            if q == join config (store_items store_type named_store ++ cert ∷ [])
            then none
            else look q v.ext)
          (sym same)
      ∙ ap (λ (f : FilePath). if q == f then none else look q w.ext) path

  -- For a store type, a named store and a certificate whose names are plain, a successful and
  -- confirmed `notation cert delete` of the certificate removes this file of the store and leaves
  -- every other path as it was.
  pub delete_certs-one :
      (cert : Text) (w w' : World Disk) {x : Unit {0}} (q : FilePath)
      → IsPlain store_type
      → IsPlain named_store
      → IsPlain cert
      → delete_certs lib show_path (only store_type named_store cert) w ≡ (ok x, w')
      → look q w'.ext
        ≡ (if q == cert ∷ named_store ∷ store_type ∷ x509_dir config then none else look q w.ext)
  unfolding join
  delete_certs-one cert w w' q t n c h =
      delete_certs-look cert w w' q _
        (join-store_items config store_type named_store (cert ∷ []) t
          ∙ join-IsPlain (store_type ∷ x509_dir config) named_store (cert ∷ []) n
          ∙ join-IsPlain (named_store ∷ store_type ∷ x509_dir config) cert [] c)
        h

  -- The name of the certificate may lead out of the named store: given as "../", another plain
  -- name of a store, "/" and the plain name of a certificate, a successful and confirmed
  -- `notation cert delete` removes the certificate of the other store, and no other path.
  pub delete_certs-aside :
      (there cert : Text) (w w' : World Disk) {x : Unit {0}} (q : FilePath)
      → IsPlain store_type
      → IsPlain named_store
      → IsPlain there
      → IsPlain cert
      → delete_certs lib show_path
          (only store_type named_store (b'.' ∷ b'.' ∷ b'/' ∷ there ++ b'/' ∷ cert))
          w
        ≡ (ok x, w')
      → look q w'.ext
        ≡ (if q == cert ∷ there ∷ store_type ∷ x509_dir config then none else look q w.ext)
  delete_certs-aside there cert w w' q t n o c h =
      delete_certs-look _ w w' q _
        (join-store_items config store_type named_store _ t
          ∙ join-IsPlain (store_type ∷ x509_dir config) named_store _ n
          ∙ join-aside (store_type ∷ x509_dir config) named_store there cert o.valid o.not_here
              o.not_up c.valid c.not_here c.not_up)
        h
