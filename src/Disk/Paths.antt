-- ===== src/Disk/Paths.antt =====
-- filepath.Join, Base and Dir on cleaned absolute paths, the last component first.
use notation.Base.{
  not, leb, ◌≡◌, ◌↔◌, refl, ℕ, Bool, true, false, ◌&&◌, ◌||◌, List, [], ◌∷◌, ◌++◌, is_empty, arith,
  ◌==◌, text_eq, nat_eq, Comparable, bytes_eq, bytes_eq_iff, if◌then◌else◌, Text,
}

abbrev pub FilePath : Type 0
FilePath = List Text

unfoldable pub paths_eq : FilePath → FilePath → Bool
paths_eq [] [] = true
paths_eq [] (b ∷ t) = false
paths_eq (a ∷ s) [] = false
paths_eq (a ∷ s) (b ∷ t) = bytes_eq a b && paths_eq s t

pub paths_eq_iff : (s t : FilePath) → (paths_eq s t ≡ true) ↔ (s ≡ t)
unfolding paths_eq
paths_eq_iff [] [] = (λ h. refl, λ h. refl)
paths_eq_iff [] (b ∷ t) = (λ h. cc, λ h. cc)
paths_eq_iff (a ∷ s) [] = (λ h. cc, λ h. cc)
paths_eq_iff (a ∷ s) (b ∷ t) = (
  λ h. ground (arith, bytes_eq_iff a b, paths_eq_iff s t),
  λ h. ground (arith, bytes_eq_iff a b, paths_eq_iff s t),
)

instance abbrev pub path_instance : Comparable FilePath
path_instance = record { same = paths_eq; same_iff = paths_eq_iff }

-- `q` is `p` or lies below it.
unfoldable pub is_below : FilePath → FilePath → Bool
is_below p [] = p == []
is_below p (c ∷ q) = p == c ∷ q || is_below p q

-- filepath.Base
unfoldable pub base : FilePath → Text
base [] = b'/' ∷ []
base (c ∷ p) = c

-- filepath.Dir
unfoldable pub dir : FilePath → FilePath
dir [] = []
dir (c ∷ p) = p

-- One more element of filepath.Clean.
unfoldable pub enter : FilePath → Text → FilePath
unfolding dir
enter p c =
    if is_empty c
    then p
    else if c == b'.' ∷ []
    then p
    else if c == b'.' ∷ b'.' ∷ []
    then dir p
    else c ∷ p

prepend : ℕ → List Text → List Text
prepend x [] = (x ∷ []) ∷ []
prepend x (c ∷ cs) = (x ∷ c) ∷ cs

-- The elements of a relative path, separated by "/".
unfoldable pub split_path : Text → List Text
unfolding prepend
split_path [] = [] ∷ []
split_path (x ∷ s) = let rest = split_path s in if x == b'/' then [] ∷ rest else prepend x rest

enter_all : FilePath → List Text → FilePath
enter_all p [] = p
enter_all p (c ∷ cs) = enter_all (enter p c) cs

-- filepath.Join of an absolute path and further elements, which it cleans.
unfoldable pub join : FilePath → List Text → FilePath
unfolding enter_all enter split_path
join p [] = p
join p (item ∷ items) = join (enter_all p (split_path item)) items

-- `IsValidFileName` of cmd/notation/internal/truststore: ^[a-zA-Z0-9_.-]+$
valid_byte : ℕ → Bool
valid_byte c =
    leb b'a' c && leb c b'z'
    || leb b'A' c && leb c b'Z'
    || leb b'0' c && leb c b'9'
    || c == b'_'
    || c == b'.'
    || c == b'-'

pub all_valid : Text → Bool
all_valid [] = true
all_valid (c ∷ s) = valid_byte c && all_valid s

unfoldable pub is_valid_file_name : Text → Bool
unfolding valid_byte all_valid
is_valid_file_name s = not (is_empty s) && all_valid s

-- A valid name is one element of a path.
split_path-valid : (c : ℕ) (s : Text) → all_valid (c ∷ s) ≡ true → split_path (c ∷ s) ≡ (c ∷ s) ∷ []
unfolding split_path all_valid valid_byte
split_path-valid c [] h = ground arith
split_path-valid c (d ∷ s) h = ground (arith, split_path-valid d s)

-- A valid name before a "/".
pub split_path-slash :
    (c : ℕ) (s t : Text)
    → all_valid (c ∷ s) ≡ true
    → split_path ((c ∷ s) ++ b'/' ∷ t) ≡ (c ∷ s) ∷ split_path t
unfolding split_path all_valid valid_byte
split_path-slash c [] t h = ground arith
split_path-slash c (d ∷ s) t h = ground (arith, split_path-slash d s t)

-- Going up, and down again by two valid names other than "." and "..".
pub join-aside :
    (p : FilePath) (here there name : Text)
    → is_valid_file_name there ≡ true
    → (there == b'.' ∷ []) ≡ false
    → (there == b'.' ∷ b'.' ∷ []) ≡ false
    → is_valid_file_name name ≡ true
    → (name == b'.' ∷ []) ≡ false
    → (name == b'.' ∷ b'.' ∷ []) ≡ false
    → join (here ∷ p) ((b'.' ∷ b'.' ∷ b'/' ∷ there ++ b'/' ∷ name) ∷ []) ≡ name ∷ there ∷ p
unfolding join is_valid_file_name bytes_eq
join-aside p here [] name v v1 v2 w w1 w2 = absurd (cc)
join-aside p here (c ∷ s) [] v v1 v2 w w1 w2 = absurd (cc)
join-aside p here (c ∷ s) (d ∷ t) v v1 v2 w w1 w2 =
    rw (split_path-slash c s (d ∷ t) v, split_path-valid d t w) (ground arith)

-- Joining a valid name other than "." and ".." goes down by that name.
pub join-valid :
    (p : FilePath) (name : Text) (items : List Text)
    → is_valid_file_name name ≡ true
    → (name == b'.' ∷ []) ≡ false
    → (name == b'.' ∷ b'.' ∷ []) ≡ false
    → join p (name ∷ items) ≡ join (name ∷ p) items
unfolding join is_valid_file_name
join-valid p [] items v one two = absurd (cc)
join-valid p (c ∷ s) items v one two = rw (split_path-valid c s v) (ground arith)

pub is_below_refl : (p : FilePath) → is_below p p ≡ true
unfolding is_below
is_below_refl [] = (paths_eq_iff [] []).1 refl
is_below_refl (c ∷ p) = ground (arith, paths_eq_iff (c ∷ p) (c ∷ p))

pub is_below-cons :
    (p : FilePath) (c : Text) (q : FilePath) → is_below p q ≡ true → is_below p (c ∷ q) ≡ true
unfolding is_below
is_below-cons p c q h = ground arith
