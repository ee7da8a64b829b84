-- ===== src/TrustStore/Removal.antt =====
-- What a removal takes out of the trust store, and what it leaves.
use mathlib.Core.Path.{ap₂}
use notation.Base.{
  ◌≡◌, refl, sym, ap, ◌∙◌, true, false, Option, none, List, [], ◌∷◌, ◌++◌, arith, ◌==◌, text_eq,
  if◌then◌else◌, Text, codes, Result, ok, bytes_eq,
}
use notation.Base.Errors.{Fault}
use notation.Base.Exec.{World, done, branch, branch-true, bind-inv, pure-inv, ◌>>=◌}
use notation.Confirm.{ask_for_confirmation}
use notation.Disk.{Disk, look, without, stat, remove, remove_all}
use notation.Disk.Laws.{look-without}
use notation.Disk.Paths.{FilePath, path_instance, join, is_below, is_valid_file_name, join-valid}
use notation.TrustStore.{
  TrustLib, store_items, sys_path_or_fail, delete_path, delete_all_certs, delete_cert,
}

-- notation-go's SysPath joins its arguments to the directory of the configuration.
pub record JoinsTo (lib : TrustLib) (config : FilePath) : Type 0 where
  pub joins : (items : List Text) → lib.sys_path items ≡ (join config items, none)

-- An element of a path that is neither "." nor "..".
pub record IsPlain (name : Text) : Type 0 where
  pub valid : is_valid_file_name name ≡ true
  pub not_here : (name == b'.' ∷ []) ≡ false
  pub not_up : (name == b'.' ∷ b'.' ∷ []) ≡ false

-- The directory truststore/x509 of the configuration.
abbrev pub x509_dir : FilePath → FilePath
x509_dir config = codes "x509" ∷ codes "truststore" ∷ config

trust_store_IsPlain : IsPlain (codes "truststore")
unfolding codes is_valid_file_name bytes_eq
trust_store_IsPlain = record { valid = refl; not_here = refl; not_up = refl }

x509_IsPlain : IsPlain (codes "x509")
unfolding codes is_valid_file_name bytes_eq
x509_IsPlain = record { valid = refl; not_here = refl; not_up = refl }

pub join-IsPlain :
    (p : FilePath) (name : Text) (items : List Text)
    → IsPlain name
    → join p (name ∷ items) ≡ join (name ∷ p) items
join-IsPlain p name items h = join-valid p name items h.valid h.not_here h.not_up

pub join-store_items :
    (config : FilePath) (store_type named_store : Text) (more : List Text)
    → IsPlain store_type
    → join config (store_items store_type named_store ++ more)
      ≡ join (store_type ∷ x509_dir config) (named_store ∷ more)
join-store_items config store_type named_store more plain =
    join-IsPlain config (codes "truststore") _ trust_store_IsPlain
    ∙ join-IsPlain (codes "truststore" ∷ config) (codes "x509") _ x509_IsPlain
    ∙ join-IsPlain (x509_dir config) store_type _ plain

-- If the type and the name of a store are valid file names other than "." and "..", then its path
-- is two levels below truststore/x509, under its type and its own name.
pub store_dir :
    (config : FilePath) (store_type named_store : Text)
    → IsPlain store_type
    → IsPlain named_store
    → join config (store_items store_type named_store) ≡ named_store ∷ store_type ∷ x509_dir config
unfolding join
store_dir config store_type named_store plain named =
    join-store_items config store_type named_store [] plain
    ∙ join-IsPlain (store_type ∷ x509_dir config) named_store [] named

-- The named store ".." is the directory of all stores.
pub store_dir-up :
    (config : FilePath) (store_type : Text)
    → IsPlain store_type
    → join config (store_items store_type (b'.' ∷ b'.' ∷ [])) ≡ x509_dir config
unfolding join bytes_eq
store_dir-up config store_type plain =
    join-store_items config store_type (b'.' ∷ b'.' ∷ []) [] plain

module _ (lib : TrustLib) (path : FilePath) (name : Text) (w : World Disk) {x : Unit {0}}
    {w' : World Disk} where
  delete_all_path :
      delete_path lib (remove_all lib.denied) path name w ≡ (ok x, w')
      → w'.ext ≡ without (is_below path) w.ext
  unfolding delete_path remove_all stat ◌>>=◌
  delete_all_path h = ground arith

  delete_one_path :
      delete_path lib (remove lib.denied) path name w ≡ (ok x, w')
      → w'.ext ≡ without (λ q. q == path) w.ext
  unfolding delete_path remove stat ◌>>=◌
  delete_one_path h = ground arith

sys_path_inv :
    (lib : TrustLib) (items : List Text) (w : World Disk) {p : FilePath} {w' : World Disk}
    → sys_path_or_fail lib items w ≡ (ok p, w')
    → ((lib.sys_path items).0 ≡ p) × (w ≡ w')
unfolding sys_path_or_fail
sys_path_inv lib items w h = ground arith

module _ (lib : TrustLib) (config : FilePath) (law : JoinsTo lib config) where
  -- What `DeleteAllCerts` and `DeleteCert` share: with the flag for the confirmation, the path of
  -- the items below the configuration is deleted at once.
  confirmed_inv :
      (items : List Text) (prompt : Text) (delete : FilePath → Disk → Result (Unit {0}) × Disk)
      (name : FilePath → Text) (w w' : World Disk) {x : Unit {0}}
      → (sys_path_or_fail lib items >>= λ path.
            ask_for_confirmation lib.input prompt true >>= λ confirmed.
            branch confirmed (delete_path lib delete path (name path)) done)
          w
        ≡ (ok x, w')
      → delete_path lib delete (join config items) (name (join config items)) w ≡ (ok x, w')
  unfolding ask_for_confirmation
  confirmed_inv items prompt delete name w w' h =
      let r1 = bind-inv _ _ w h in
      let r2 = bind-inv _ _ r1.mid r1.second in
      let c1 = sys_path_inv lib items w r1.first in
      let c2 = pure-inv {S = Disk} true r1.mid r2.first in
      let path : r1.value ≡ join config items =
        sym c1.0 ∙ ap (λ (p : FilePath × Option Fault). p.0) (law.joins items) in
      ap₂ (λ (p : FilePath) (v : World Disk). delete_path lib delete p (name p) v) (sym path)
        (c1.1 ∙ c2.1)
      ∙ sym (
          branch-true (delete_path lib delete r1.value (name r1.value)) done r2.mid r2.value
            (sym c2.0))
      ∙ r2.second

  -- Once confirmed by its flag, a successful `DeleteAllCerts` removes the directory to which the
  -- type and the name of the store lead, with everything below it, and leaves every other path
  -- as it was.
  pub look-delete_all_certs :
      (show_path : FilePath → Text) (store_type named_store : Text) (w w' : World Disk)
      {x : Unit {0}} (q : FilePath)
      → delete_all_certs lib show_path store_type named_store true w ≡ (ok x, w')
      → look q w'.ext ≡ (
          if is_below (join config (store_items store_type named_store)) q
          then none
          else look q w.ext)
  unfolding delete_all_certs
  look-delete_all_certs show_path store_type named_store w w' q h =
      let path = join config (store_items store_type named_store) in
      ap (look q) (
        delete_all_path lib path (show_path path) w
          (confirmed_inv _ _ (remove_all lib.denied) show_path w w' h))
      ∙ look-without q (is_below path) w.ext

  -- Once confirmed by its flag, a successful `DeleteCert` removes the file to which the type and
  -- the name of the store and the name of the certificate lead, and leaves every other path as
  -- it was.
  pub look-delete_cert :
      (store_type named_store cert : Text) (w w' : World Disk) {x : Unit {0}} (q : FilePath)
      → delete_cert lib store_type named_store cert true w ≡ (ok x, w')
      → look q w'.ext ≡ (
          if q == join config (store_items store_type named_store ++ cert ∷ [])
          then none
          else look q w.ext)
  unfolding delete_cert
  look-delete_cert store_type named_store cert w w' q h =
      let path = join config (store_items store_type named_store ++ cert ∷ []) in
      ap (look q)
        (delete_one_path lib path cert w (confirmed_inv _ _ (remove lib.denied) (λ p. cert) w w' h))
      ∙ look-without q (λ p. p == path) w.ext
