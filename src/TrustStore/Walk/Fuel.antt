-- ===== src/TrustStore/Walk/Fuel.antt =====
-- The fuel that `ListCerts` is given.
use notation.Base.{
  ◌≡◌, refl, sym, ap, ◌∙◌, ℕ, zero, suc, ◌+◌, ◌≤◌, Bool, true, false, not, List, [], ◌∷◌, length,
  ltb, arith, if◌then◌else◌, Text, Result, ok, err,
}
use notation.Base.Exec.{Cmd, World, act, done, continue, ◌>>=◌}
use notation.Disk.{Entry, file, directory, Disk, stat}
use notation.Disk.Paths.{FilePath}
use notation.TrustStore.{TrustLib}
use notation.TrustStore.Walk.{read_dir, visit, walk, for_each, list_certs_in}

continue-cong :
    {S A B : Type 0} (r : Result A) (f g : A → Cmd S B) (w : World S)
    → ((a : A) (v : World S) → f a v ≡ g a v)
    → continue r f w ≡ continue r g w
continue-cong (ok a) f g w h = h a w
continue-cong (err e) f g w h = refl

-- The rest of a `do` block may be exchanged for one that does the same.
bind-cong :
    {S A B : Type 0} (m : Cmd S A) (f g : A → Cmd S B) (w : World S)
    → ((a : A) (v : World S) → f a v ≡ g a v)
    → (m >>= f) w ≡ (m >>= g) w
unfolding ◌>>=◌
bind-cong m f g w h = continue-cong (m w).0 f g (m w).1 h

for_each-cong :
    {S A : Type 0} (f g : A → Cmd S (Unit {0})) (items : List A) (w : World S)
    → ((a : A) (v : World S) → f a v ≡ g a v)
    → for_each f items w ≡ for_each g items w
unfolding for_each ◌>>=◌
for_each-cong f g [] w h = refl
for_each-cong f g (a ∷ rest) w h =
    ap (λ (r : Result (Unit {0}) × World _). continue r.0 (λ _. for_each f rest) r.1) (h a w)
    ∙ bind-cong (g a) (λ _. for_each f rest) (λ _. for_each g rest) w
        (λ u v. for_each-cong f g rest v h)

if-cong :
    {A : Type 0} (b : Bool) {x y : A} (z : A)
    → (b ≡ true → x ≡ y)
    → (if b then x else z) ≡ (if b then y else z)
if-cong true z h = h refl
if-cong false z h = refl

suc_add : (m n : ℕ) → suc m + n ≡ suc (m + n)
suc_add m n = omega arith

module _ (lib : TrustLib) (show_path : FilePath → Text) (max_depth : ℕ) where
  -- Fuel left over changes nothing.
  walk-more :
      (fuel more : ℕ) (path : FilePath) (e : Entry) (w : World Disk)
      → length path ≤ suc max_depth
      → max_depth + 2 ≤ fuel + length path
      → walk lib show_path (fuel + more) max_depth path e w
        ≡ walk lib show_path fuel max_depth path e w
  unfolding walk visit ◌>>=◌
  walk-more zero more path e w s h = absurd (omega arith)
  walk-more (suc fuel) more path (file t) w s h = rw (suc_add fuel more) refl
  walk-more (suc fuel) more path directory w s h = rw (suc_add fuel more) (
      if-cong (not (ltb max_depth (length path))) (done w) (λ shallow.
        bind-cong (act (read_dir lib show_path path)) _ _ w (λ entries v.
          for_each-cong
            (λ (child : Text × Entry).
              walk lib show_path (fuel + more) max_depth (child.0 ∷ path) child.1)
            (λ (child : Text × Entry). walk lib show_path fuel max_depth (child.0 ∷ path) child.1)
            entries v
            (λ child u.
              walk-more fuel more (child.0 ∷ path) child.1 u (ground arith) (omega arith)))))

-- `ListCerts` never runs out of fuel. It is given two more than the depth, and with any further
-- fuel for the walk below its root it prints, returns and leaves behind the same.
pub list_certs_in-fuel :
    (lib : TrustLib) (show_path : FilePath → Text) (root : FilePath) (depth more : ℕ)
    (w : World Disk)
    → list_certs_in lib show_path root depth w
      ≡ (act (stat lib.denied root) >>= λ e.
            walk lib show_path (depth + 2 + more) (length root + depth) root e)
          w
unfolding list_certs_in
list_certs_in-fuel lib show_path root depth more w =
    bind-cong (act (stat lib.denied root))
      (λ e. walk lib show_path (depth + 2) (length root + depth) root e)
      (λ e. walk lib show_path (depth + 2 + more) (length root + depth) root e) w
      (λ e v. sym (
        walk-more lib show_path (length root + depth) (depth + 2) more root e v (omega arith)
          (omega arith)))
