-- ===== src/Tests/Trust.antt =====
-- Runs of cmd/notation/internal/truststore. The configuration is in the directory "/c".
use notation.Base.{
  ◌≡◌, refl, true, none, [], ◌∷◌, Text, codes, ok, bytes_eq, contains, false, some, if◌then◌else◌,
  ◌==◌, ◌++◌,
}
use notation.Base.Exec.{World, ◌>>=◌}
use notation.Confirm.{ask_for_confirmation}
use notation.Disk.{
  Disk, directory, file, look, write, stat, remove, remove_all, Entry, copy_to_dir, mkdir_all,
  create, chmod, copy, open_file, without,
}
use notation.Disk.Paths.{
  FilePath, join, is_below, is_valid_file_name, path_instance, paths_eq, base,
}
use notation.TrustStore.{
  TrustLib, store_items, delete_all_certs, delete_cert, is_valid_store_type, Certificate, add_cert,
  check_store, refuse_existing, read_certs,
}
use notation.Cert.{CertDeleteOpts, delete_certs, check_delete, wrapped}
use notation.Cert.Laws.{delete_certs-up}
use notation.Cert.Single.{only, delete_certs-one, delete_certs-aside}
use notation.TrustStore.Addition.{look-add_cert}
use notation.TrustStore.Removal.{JoinsTo, IsPlain, x509_dir, store_dir, look-delete_all_certs}

abbrev config : FilePath
config = (b'c' ∷ []) ∷ []

abbrev lib : TrustLib
lib = record {
  types = codes "ca" ∷ [];
  abs = λ t. ok (t ∷ []);
  sys_path = λ items. (join config items, none);
  read_certificate_file = λ path disk. ok [];
  denied = λ op path. none;
  input = ok none;
}

lib-JoinsTo : JoinsTo lib config
lib-JoinsTo = record { joins = λ items. refl }

ca-IsPlain : IsPlain (codes "ca")
unfolding codes is_valid_file_name bytes_eq
ca-IsPlain = record { valid = refl; not_here = refl; not_up = refl }

abbrev acme : Text
acme = b'a' ∷ []

acme-IsPlain : IsPlain acme
unfolding is_valid_file_name bytes_eq
acme-IsPlain = record { valid = refl; not_here = refl; not_up = refl }

acme_dir : join config (store_items (codes "ca") acme) ≡ acme ∷ codes "ca" ∷ x509_dir config
acme_dir = store_dir config (codes "ca") acme ca-IsPlain acme-IsPlain

-- A certificate of the store and one of another store.
abbrev trust_disk : Disk
trust_disk =
    (x509_dir config, directory)
    ∷ (acme ∷ codes "ca" ∷ x509_dir config, directory)
    ∷ ((b'x' ∷ []) ∷ acme ∷ codes "ca" ∷ x509_dir config, file [])
    ∷ ((b'y' ∷ []) ∷ (b'b' ∷ []) ∷ codes "ca" ∷ x509_dir config, file [])
    ∷ []

abbrev before : World Disk
before = record { stdout = []; stderr = []; transport = none; ext = trust_disk }

abbrev after : World Disk
after = (delete_all_certs lib (λ path. []) (codes "ca") acme true before).1

remove_store : delete_all_certs lib (λ path. []) (codes "ca") acme true before ≡ (ok tt, after)
unfolding delete_all_certs ask_for_confirmation join codes stat remove_all look paths_eq bytes_eq
    without is_below ◌>>=◌
remove_store = refl

look-delete_all_certs_example :
    look ((b'y' ∷ []) ∷ (b'b' ∷ []) ∷ codes "ca" ∷ x509_dir config) after.ext ≡ (
      if is_below
        (join config (store_items (codes "ca") acme))
        ((b'y' ∷ []) ∷ (b'b' ∷ []) ∷ codes "ca" ∷ x509_dir config)
      then none
      else look ((b'y' ∷ []) ∷ (b'b' ∷ []) ∷ codes "ca" ∷ x509_dir config) trust_disk)
look-delete_all_certs_example =
    look-delete_all_certs lib config lib-JoinsTo (λ path. []) (codes "ca") acme before after
      ((b'y' ∷ []) ∷ (b'b' ∷ []) ∷ codes "ca" ∷ x509_dir config) remove_store

abbrev delete_opts : CertDeleteOpts
delete_opts = record {
  store_type = codes "ca";
  named_store = b'.' ∷ b'.' ∷ [];
  cert = [];
  all = true;
  confirmed = true;
}

abbrev emptied : World Disk
emptied = (delete_certs lib (λ path. []) delete_opts before).1

remove_all_stores : delete_certs lib (λ path. []) delete_opts before ≡ (ok tt, emptied)
unfolding delete_certs check_delete wrapped delete_all_certs ask_for_confirmation join codes stat
    remove_all look paths_eq bytes_eq without is_below ◌>>=◌ is_valid_file_name is_valid_store_type
    contains
remove_all_stores = refl

delete_certs-up_example :
    look ((b'y' ∷ []) ∷ (b'b' ∷ []) ∷ codes "ca" ∷ x509_dir config) emptied.ext ≡ (
      if is_below (x509_dir config) ((b'y' ∷ []) ∷ (b'b' ∷ []) ∷ codes "ca" ∷ x509_dir config)
      then none
      else look ((b'y' ∷ []) ∷ (b'b' ∷ []) ∷ codes "ca" ∷ x509_dir config) trust_disk)
delete_certs-up_example =
    delete_certs-up lib config lib-JoinsTo (λ path. []) (codes "ca") [] before emptied
      ((b'y' ∷ []) ∷ (b'b' ∷ []) ∷ codes "ca" ∷ x509_dir config) ca-IsPlain remove_all_stores

abbrev certificate : Certificate
certificate = record {
  issuer = [];
  subject = [];
  not_before = [];
  not_after = [];
  is_ca = [];
  sha1_thumbprint = [];
}

abbrev reading_lib : TrustLib
reading_lib = record lib { read_certificate_file = λ path disk. ok (certificate ∷ []) }

-- The file "/z", beside the trust store.
abbrev with_source : World Disk
with_source = record before { ext = ((b'z' ∷ []) ∷ [], file (b'!' ∷ [])) ∷ trust_disk }

abbrev added : World Disk
added = (add_cert reading_lib (b'z' ∷ []) (codes "ca") acme false with_source).1

add_it : add_cert reading_lib (b'z' ∷ []) (codes "ca") acme false with_source ≡ (ok tt, added)
unfolding add_cert check_store refuse_existing read_certs copy_to_dir mkdir_all create chmod copy
    open_file stat look write join codes is_valid_file_name is_valid_store_type contains paths_eq
    bytes_eq base ◌>>=◌
add_it = refl

look-add_cert_example :
    (look (base ((b'z' ∷ []) ∷ []) ∷ join config (store_items (codes "ca") acme)) with_source.ext
      ≡ none)
    × (look (base ((b'z' ∷ []) ∷ []) ∷ join config (store_items (codes "ca") acme)) added.ext
        ≡ look ((b'z' ∷ []) ∷ []) with_source.ext)
    × ((q : FilePath) (e : Entry) → look q with_source.ext ≡ some e → look q added.ext ≡ some e)
look-add_cert_example =
    look-add_cert reading_lib (b'z' ∷ []) (codes "ca") acme false ((b'z' ∷ []) ∷ []) with_source
      added refl refl add_it

abbrev x_pem : Text
x_pem = b'x' ∷ []

abbrev y_pem : Text
y_pem = b'y' ∷ []

abbrev other : Text
other = b'b' ∷ []

x_pem-IsPlain : IsPlain x_pem
unfolding is_valid_file_name bytes_eq
x_pem-IsPlain = record { valid = refl; not_here = refl; not_up = refl }

y_pem-IsPlain : IsPlain y_pem
unfolding is_valid_file_name bytes_eq
y_pem-IsPlain = record { valid = refl; not_here = refl; not_up = refl }

other-IsPlain : IsPlain other
unfolding is_valid_file_name bytes_eq
other-IsPlain = record { valid = refl; not_here = refl; not_up = refl }

-- The certificate of the store.
abbrev one_deleted : World Disk
one_deleted = (delete_certs lib (λ path. []) (only (codes "ca") acme x_pem) before).1

remove_one :
    delete_certs lib (λ path. []) (only (codes "ca") acme x_pem) before ≡ (ok tt, one_deleted)
unfolding delete_certs check_delete wrapped delete_cert ask_for_confirmation join codes stat remove
    look paths_eq bytes_eq without is_below ◌>>=◌ is_valid_file_name is_valid_store_type contains
remove_one = refl

abbrev path_of : Text → Text → FilePath
path_of store cert = cert ∷ store ∷ codes "ca" ∷ x509_dir config

delete_certs-one_example : look (path_of other y_pem) one_deleted.ext ≡ (
    if path_of other y_pem == path_of acme x_pem
    then none
    else look (path_of other y_pem) trust_disk)
delete_certs-one_example =
    delete_certs-one lib config lib-JoinsTo (λ path. []) (codes "ca") acme x_pem before one_deleted
      (path_of other y_pem) ca-IsPlain acme-IsPlain x_pem-IsPlain remove_one

-- The certificate of the other store, named through this one.
abbrev aside : Text
aside = b'.' ∷ b'.' ∷ b'/' ∷ other ++ b'/' ∷ y_pem

abbrev aside_deleted : World Disk
aside_deleted = (delete_certs lib (λ path. []) (only (codes "ca") acme aside) before).1

remove_aside :
    delete_certs lib (λ path. []) (only (codes "ca") acme aside) before ≡ (ok tt, aside_deleted)
unfolding delete_certs check_delete wrapped delete_cert ask_for_confirmation join codes stat remove
    look paths_eq bytes_eq without is_below ◌>>=◌ is_valid_file_name is_valid_store_type contains
remove_aside = refl

delete_certs-aside_example : look (path_of other y_pem) aside_deleted.ext ≡ (
    if path_of other y_pem == path_of other y_pem
    then none
    else look (path_of other y_pem) trust_disk)
delete_certs-aside_example =
    delete_certs-aside lib config lib-JoinsTo (λ path. []) (codes "ca") acme other y_pem before
      aside_deleted (path_of other y_pem) ca-IsPlain acme-IsPlain other-IsPlain y_pem-IsPlain
      remove_aside
