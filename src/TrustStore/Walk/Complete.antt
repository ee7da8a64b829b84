-- ===== src/TrustStore/Walk/Complete.antt =====
-- What a successful `ListCerts` prints, and that it leaves nothing out.
use notation.Base.{
  ◌≡◌, sym, ap, ◌∙◌, ℕ, suc, ◌+◌, ◌≤◌, some, List, [], ◌∷◌, ◌++◌, All, length, arith, Text, ok,
}
use notation.Base.Exec.{World, act, bind-inv}
use notation.Disk.{Entry, directory, Disk, stat, look}
use notation.Disk.Paths.{FilePath, path_instance, is_below_refl}
use notation.TrustStore.{TrustLib}
use notation.TrustStore.Walk.{walk, list_certs_in}
use notation.TrustStore.Walk.Reached.{Holds, IsPrinted, reached}
use notation.TrustStore.Walk.Laws.{IsCertified, IsListed, path_lines, list_certs_in-IsListing}

-- What a successful `ListCerts` of a directory has done.
pub record IsCertListing (lib : TrustLib) (show_path : FilePath → Text) (root : FilePath)
    (depth : ℕ) (w w' : World Disk) : Type 0 where
  pub paths : List FilePath
  pub listed : All (IsListed lib w.ext root (length root + depth)) paths
  pub printed : w'.stdout ≡ w.stdout ++ path_lines show_path paths
  pub unchanged : w'.ext ≡ w.ext
  pub complete :
      (target : FilePath)
      → Holds w.ext root target
      → IsCertified lib w.ext target
      → length target ≤ suc (length root + depth)
      → IsPrinted (show_path target ++ 10 ∷ []) w'.stdout

root_inv :
    (lib : TrustLib) (root : FilePath) (w : World Disk) {e : Entry} {w' : World Disk}
    → act (stat lib.denied root) w ≡ (ok e, w')
    → (look root w.ext ≡ some e) × (w'.ext ≡ w.ext)
unfolding stat
root_inv lib root w h = (ground arith, ground arith)

-- If `ListCerts` of a directory succeeds, then it has changed no file, and it has printed the
-- paths of files with certificates below the root, at most one level deeper than the depth it
-- was given; and no such file is left out that can be reached from the root through directories.
pub list_certs_in-IsCertListing :
    (lib : TrustLib) (show_path : FilePath → Text) (root : FilePath) (depth : ℕ) (w w' : World Disk)
    {x : Unit {0}}
    → look root w.ext ≡ some directory
    → list_certs_in lib show_path root depth w ≡ (ok x, w')
    → IsCertListing lib show_path root depth w w'
unfolding list_certs_in
list_certs_in-IsCertListing lib show_path root depth w w' is_dir h =
    let (paths, listed, printed, same) = list_certs_in-IsListing lib show_path root depth w in
    let r = bind-inv (act (stat lib.denied root)) _ w h in
    let c = root_inv lib root w r.first in
    let kind : r.value ≡ directory = let found = c.0 in cc in
    let run =
      ap (λ e. walk lib show_path (depth + 2) (length root + depth) root e r.mid) (sym kind)
      ∙ r.second in
    record {
      paths = paths;
      listed = listed;
      printed = sym (ap (λ (p : _ × World Disk). p.1.stdout) h) ∙ printed;
      unchanged = sym (ap (λ (p : _ × World Disk). p.1.ext) h) ∙ same;
      complete = λ target there certified shallow.
          reached lib show_path root (length root + depth) w.ext (depth + 2) root target r.mid w'
            there certified shallow (is_below_refl root) (omega arith) c.1 run;
    }
