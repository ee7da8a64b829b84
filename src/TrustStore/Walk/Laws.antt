-- ===== src/TrustStore/Walk/Laws.antt =====
-- What `ListCerts` prints.
use notation.Base.{
  ◌≡◌, refl, sym, ap, ◌∙◌, ℕ, zero, suc, ◌+◌, ◌≤◌, Bool, true, false, not, List, [], ◌∷◌, ◌++◌, map,
  All, length, ltb, arith, Text, Result, ok, err,
}
use mathlib.Core.List.{append-nil, append_assoc, map-append}
use notation.Base.Errors.{Fault}
use notation.Base.Exec.{Cmd, World, act, done, branch, pure, fail, continue, ◌>>=◌}
use notation.Disk.{Entry, file, directory, Disk, stat}
use notation.Disk.Paths.{FilePath, path_instance, is_below, is_below_refl, is_below-cons}
use notation.TrustStore.{TrustLib, Certificate}
use notation.TrustStore.Walk.{read_dir, visit, walk, for_each, list_certs_in, print_if_certs}

module _ (lib : TrustLib) (d : Disk) where
  -- A file with a certificate.
  abbrev pub IsCertified : FilePath → Type 0
  IsCertified path =
      (c : Certificate) × (cs : List Certificate) × (lib.read_certificate_file path d ≡ ok (c ∷ cs))

  -- A file that may be listed: it lies below the root, not too deep, and holds a certificate.
  pub record IsListed (root : FilePath) (max_depth : ℕ) (path : FilePath) : Type 0 where
    pub below : is_below root path ≡ true
    pub shallow : length path ≤ suc max_depth
    pub certified : IsCertified path

abbrev pub path_lines : (FilePath → Text) → List FilePath → List Text
path_lines show_path = map (λ path. show_path path ++ 10 ∷ [])

module _ (show_path : FilePath → Text) (d : Disk) (Good : FilePath → Type 0) where
  -- What a command that only lists does, whether it fails or not.
  pub record IsListing {A : Type 0} (m : Cmd Disk A) : Type 0 where
    pub at :
        (w : World Disk)
        → w.ext ≡ d
        → (paths : List FilePath) × All Good paths
          × ((m w).1.stdout ≡ w.stdout ++ path_lines show_path paths)
          × ((m w).1.ext ≡ d)

  IsListing-pure : {A : Type 0} (a : A) → IsListing (pure a)
  IsListing-pure a = record { at = λ w e. ([], tt, sym (append-nil w.stdout), e) }

  IsListing-fail : {A : Type 0} (e : Fault) → IsListing {A = A} (fail e)
  IsListing-fail x = record { at = λ w e. ([], tt, sym (append-nil w.stdout), e) }

  All-append : (xs ys : List FilePath) → All Good xs → All Good ys → All Good (xs ++ ys)
  All-append [] ys h k = k
  All-append (x ∷ xs) ys h k = (h.0, All-append xs ys h.1 k)

  continue-listing :
      {A B : Type 0} (r : Result A) (f : A → Cmd Disk B) (v : World Disk)
      → ((a : A) → IsListing (f a))
      → v.ext ≡ d
      → (paths : List FilePath) × All Good paths
        × ((continue r f v).1.stdout ≡ v.stdout ++ path_lines show_path paths)
        × ((continue r f v).1.ext ≡ d)
  continue-listing (ok a) f v k e = (k a).at v e
  continue-listing (err x) f v k e = ([], tt, sym (append-nil v.stdout), e)

  IsListing-bind :
      {A B : Type 0} (m : Cmd Disk A) (f : A → Cmd Disk B)
      → IsListing m
      → ((a : A) → IsListing (f a))
      → IsListing (m >>= f)
  unfolding ◌>>=◌
  IsListing-bind m f h k = record {
    at = λ w e.
        let (xs, px, ox, ex) = h.at w e in
        let (ys, py, oy, ey) = continue-listing (m w).0 f (m w).1 k ex in
        (
          xs ++ ys,
          All-append xs ys px py,
          oy
              ∙ ap (λ (t : List Text). t ++ path_lines show_path ys) ox
              ∙ append_assoc w.stdout (path_lines show_path xs) (path_lines show_path ys)
              ∙ ap (λ (t : List Text). w.stdout ++ t) (sym (map-append _ xs ys)),
          ey,
        );
  }

  IsListing-branch :
      {A : Type 0} (b : Bool) (m n : Cmd Disk A)
      → (b ≡ true → IsListing m)
      → IsListing n
      → IsListing (branch b m n)
  IsListing-branch true m n h k = record { at = (h refl).at }
  IsListing-branch false m n h k = record { at = k.at }

  pub IsListing-for_each :
      {A : Type 0} (f : A → Cmd Disk (Unit {0})) (items : List A)
      → ((a : A) → IsListing (f a))
      → IsListing (for_each f items)
  unfolding for_each
  IsListing-for_each f [] h = IsListing-pure tt
  IsListing-for_each f (a ∷ rest) h =
      IsListing-bind (f a) (λ _. for_each f rest) (h a) (λ _. IsListing-for_each f rest h)

  IsListing-act : {A : Type 0} (f : Disk → Result A × Disk) → (f d).1 ≡ d → IsListing (act f)
  IsListing-act f h = record {
    at = λ w e. ([], tt, sym (append-nil w.stdout), ap (λ x. (f x).1) e ∙ h);
  }

module _ (lib : TrustLib) (show_path : FilePath → Text) (root : FilePath) (max_depth : ℕ)
    (d : Disk) where
  abbrev Listed : FilePath → Type 0
  Listed = IsListed lib d root max_depth

  read_dir-disk : (path : FilePath) → (read_dir lib show_path path d).1 ≡ d
  unfolding read_dir
  read_dir-disk path = ground arith

  IsListing-print :
      (path : FilePath) (r : Result (List Certificate))
      → lib.read_certificate_file path d ≡ r
      → is_below root path ≡ true
      → length path ≤ suc max_depth
      → IsListing show_path d Listed (print_if_certs lib show_path path r)
  unfolding print_if_certs ◌>>=◌
  IsListing-print path (err e) h b s = IsListing-fail show_path d Listed e
  IsListing-print path (ok []) h b s = IsListing-pure show_path d Listed true
  IsListing-print path (ok (c ∷ cs)) h b s = record {
    at = λ w e.
        (path ∷ [], (record { below = b; shallow = s; certified = (c, cs, h) }, tt), refl, e);
  }

  IsListing-visit :
      (path : FilePath) (e : Entry)
      → is_below root path ≡ true
      → length path ≤ suc max_depth
      → IsListing show_path d Listed (visit lib show_path max_depth path e)
  unfolding visit
  IsListing-visit path directory b s = record { at = λ w h. ([], tt, sym (append-nil w.stdout), h) }
  IsListing-visit path (file t) b s = record {
    at = λ w h.
        (IsListing-print path (lib.read_certificate_file path w.ext)
            (ap (λ x. lib.read_certificate_file path x) (sym h)) b s).at
          w h;
  }

  pub IsListing-walk :
      (fuel : ℕ) (path : FilePath) (e : Entry)
      → is_below root path ≡ true
      → length path ≤ suc max_depth
      → IsListing show_path d Listed (walk lib show_path fuel max_depth path e)
  unfolding walk ◌>>=◌
  IsListing-walk zero path e b s = IsListing-pure show_path d Listed tt
  IsListing-walk (suc fuel) path (file t) b s =
      IsListing-bind show_path d Listed (visit lib show_path max_depth path (file t)) (λ _. done)
        (IsListing-visit path (file t) b s) (λ _. IsListing-pure show_path d Listed tt)
  IsListing-walk (suc fuel) path directory b s = record {
    at = λ w h.
        (IsListing-branch show_path d Listed (not (ltb max_depth (length path))) _ done
            (λ shallow.
              IsListing-bind show_path d Listed (act (read_dir lib show_path path)) _
                (IsListing-act show_path d Listed (read_dir lib show_path path)
                  (read_dir-disk path))
                (λ entries.
                  IsListing-for_each show_path d Listed
                    (λ (child : Text × Entry).
                      walk lib show_path fuel max_depth (child.0 ∷ path) child.1)
                    entries
                    (λ child.
                      IsListing-walk fuel (child.0 ∷ path) child.1
                        (is_below-cons root child.0 path b) (ground arith))))
            (IsListing-pure show_path d Listed tt)).at
          w h;
  }

-- `ListCerts`, whether it returns an error or not, changes no file, and each line it adds to
-- stdout is the path of a file with a certificate, below the root and at most one level deeper
-- than the depth it is given.
pub list_certs_in-IsListing :
    (lib : TrustLib) (show_path : FilePath → Text) (root : FilePath) (depth : ℕ) (w : World Disk)
    → (paths : List FilePath) × All (IsListed lib w.ext root (length root + depth)) paths
      × ((list_certs_in lib show_path root depth w).1.stdout
          ≡ w.stdout ++ path_lines show_path paths)
      × ((list_certs_in lib show_path root depth w).1.ext ≡ w.ext)
unfolding list_certs_in stat
list_certs_in-IsListing lib show_path root depth w =
    let good = IsListed lib w.ext root (length root + depth) in
    (IsListing-bind show_path w.ext good (act (stat lib.denied root)) _
        (IsListing-act show_path w.ext good (stat lib.denied root) (ground arith))
        (λ e.
          IsListing-walk lib show_path root (length root + depth) w.ext (depth + 2) root e
            (is_below_refl root) (omega arith))).at
      w refl
