-- ===== src/Cert/Laws.antt =====
-- What `notation cert delete` may remove.
use notation.Base.{◌≡◌, sym, ap, ◌∙◌, true, none, [], ◌∷◌, if◌then◌else◌, Text, ok, arith}
use notation.Base.Exec.{Cmd, World, bind-inv, ◌>>=◌}
use notation.Disk.{Disk, look}
use notation.Disk.Paths.{FilePath, is_below, join}
use notation.TrustStore.{TrustLib, store_items, delete_all_certs}
use notation.TrustStore.Removal.{JoinsTo, IsPlain, x509_dir, store_dir-up, look-delete_all_certs}
use notation.Cert.{check_delete, delete_certs, wrapped}

pub wrapped_inv :
    (lib : TrustLib) (prefix : Text) (m : Cmd Disk (Unit {0})) (w : World Disk) {x : Unit {0}}
    {w' : World Disk}
    → wrapped lib prefix m w ≡ (ok x, w')
    → m w ≡ (ok tt, w')
unfolding wrapped
wrapped_inv lib prefix m w h = ground arith

pub check_inv :
    (lib : TrustLib) (store_type named_store : Text) (w : World Disk) {x : Unit {0}}
    {w' : World Disk}
    → check_delete lib store_type named_store w ≡ (ok x, w')
    → w ≡ w'
unfolding check_delete ◌>>=◌
check_inv lib store_type named_store w h = ground arith

-- The name ".." passes the checks of the named store. With it, a successful and confirmed
-- `notation cert delete --all` for any plain store type removes the directory of all store types,
-- with everything below it, and nothing else.
pub delete_certs-up :
    (lib : TrustLib) (config : FilePath)
    → JoinsTo lib config
    → (show_path : FilePath → Text) (store_type cert : Text) (w w' : World Disk) {x : Unit {0}}
      (q : FilePath)
    → IsPlain store_type
    → delete_certs lib show_path
        (record {
          store_type = store_type;
          named_store = b'.' ∷ b'.' ∷ [];
          cert = cert;
          all = true;
          confirmed = true;
        })
        w
      ≡ (ok x, w')
    → look q w'.ext ≡ (if is_below (x509_dir config) q then none else look q w.ext)
unfolding delete_certs
delete_certs-up lib config law show_path store_type cert w w' q plain h =
    let up = b'.' ∷ b'.' ∷ [] in
    let r = bind-inv _ _ w h in
    let same = check_inv lib store_type up w r.first in
    let run =
      wrapped_inv lib _ (delete_all_certs lib show_path store_type up true) r.mid r.second in
    look-delete_all_certs lib config law show_path store_type up r.mid w' q run
    ∙ ap
        (λ (v : World Disk).
          if is_below (join config (store_items store_type up)) q then none else look q v.ext)
        (sym same)
    ∙ ap (λ (p : FilePath). if is_below p q then none else look q w.ext)
        (store_dir-up config store_type plain)
