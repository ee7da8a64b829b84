-- ===== src/Tests/Walk.antt =====
-- Runs of `ListCerts`. A certificate lies below the directory "/c", and another one too deep.
use notation.Base.{◌≡◌, refl, none, [], ◌∷◌, ◌+◌, Text, ok, bytes_eq, length}
use notation.Base.Exec.{World, act, ◌>>=◌}
use notation.Disk.{Disk, directory, file, look, stat}
use notation.Disk.Paths.{FilePath, paths_eq}
use notation.TrustStore.{TrustLib, Certificate}
use notation.TrustStore.Walk.{
  list_certs_in, walk, visit, read_dir, for_each, children, insert_entry, text_leb, print_if_certs,
}
use notation.TrustStore.Walk.Complete.{IsCertListing, list_certs_in-IsCertListing}
use notation.TrustStore.Walk.Fuel.{list_certs_in-fuel}

abbrev root : FilePath
root = (b'c' ∷ []) ∷ []

abbrev certificate : Certificate
certificate = record {
  issuer = [];
  subject = [];
  not_before = [];
  not_after = [];
  is_ca = [];
  sha1_thumbprint = [];
}

abbrev lib : TrustLib
lib = record {
  types = [];
  abs = λ t. ok (t ∷ []);
  sys_path = λ items. (root, none);
  read_certificate_file = λ path disk. ok (certificate ∷ []);
  denied = λ op path. none;
  input = ok none;
}

abbrev show_path : FilePath → Text
show_path [] = []
show_path (c ∷ p) = c

abbrev start : World Disk
start = record {
  stdout = [];
  stderr = [];
  transport = none;
  ext =
      (root, directory)
      ∷ ((b'x' ∷ []) ∷ root, file [])
      ∷ ((b'd' ∷ []) ∷ root, directory)
      ∷ ((b'y' ∷ []) ∷ (b'd' ∷ []) ∷ root, file [])
      ∷ [];
}

abbrev listed : World Disk
listed = record start { stdout = (b'x' ∷ 10 ∷ []) ∷ [] }

list_it : list_certs_in lib show_path root 0 start ≡ (ok tt, listed)
unfolding list_certs_in ◌>>=◌ walk visit read_dir for_each children insert_entry text_leb
    print_if_certs stat look bytes_eq paths_eq
list_it = refl

list_certs_in-IsCertListing_example : IsCertListing lib show_path root 0 start listed
unfolding look bytes_eq paths_eq
list_certs_in-IsCertListing_example =
    list_certs_in-IsCertListing lib show_path root 0 start listed refl list_it

list_certs_in-fuel_example :
    list_certs_in lib show_path root 0 start
    ≡ (act (stat lib.denied root) >>= λ e. walk lib show_path (0 + 2 + 5) (length root + 0) root e)
        start
list_certs_in-fuel_example = list_certs_in-fuel lib show_path root 0 5 start
