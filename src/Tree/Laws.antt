-- ===== src/Tree/Laws.antt =====
-- What `Print` draws: for each node its place among its siblings and that of its ancestors.
use mathlib.Core.Path.{ap₂}
use mathlib.Core.List.{append-nil, append_assoc, map-append}
use notation.Base.{
  ◌≡◌, refl, ap, sym, ◌∙◌, ℕ, suc, ◌+◌, ◌-◌, Bool, true, false, List, [], ◌∷◌, ◌++◌, map, arith,
  ◌==◌, nat_eq, Text,
}
use notation.Tree.{
  Node, Forest, node, nil, cons, count, print, print_children, print_tree, tree_item_prefix,
  tree_item_prefix_last, sub_tree_prefix, sub_tree_prefix_last,
}

-- The column under an ancestor, which was the last of its siblings or not.
abbrev pub column : Bool → Text
column true = sub_tree_prefix_last
column false = sub_tree_prefix

abbrev pub marker : Bool → Text
marker true = tree_item_prefix_last
marker false = tree_item_prefix

pub columns : List Bool → Text
columns [] = []
columns (b ∷ bs) = column b ++ columns bs

-- A line: the columns of its ancestors below the root, its marker and its value.
pub record Row : Type 0 where
  pub ancestors : List Bool
  pub last : Bool
  pub value : Text

pub render : Row → Text
unfolding columns
render r = columns r.ancestors ++ marker r.last ++ r.value

abbrev pub is_nil : Forest → Bool
is_nil nil = true
is_nil (cons c cs) = false

-- The rows of a forest in the order of a walk from the top.
mutual
  pub rows : List Bool → Forest → List Row
  rows ancestors nil = []
  rows ancestors (cons c cs) = node_rows ancestors (is_nil cs) c ++ rows ancestors cs

  pub node_rows : List Bool → Bool → Node → List Row
  node_rows ancestors last (node value children) =
      record { ancestors = ancestors; last = last; value = value }
      ∷ rows (ancestors ++ last ∷ []) children

columns-append : (bs : List Bool) (b : Bool) → columns (bs ++ b ∷ []) ≡ columns bs ++ column b
unfolding columns
columns-append [] b = append-nil (column b)
columns-append (c ∷ bs) b =
    ap (λ (t : Text). column c ++ t) (columns-append bs b)
    ∙ sym (append_assoc (column c) (columns bs) (column b))

is_last : (len i : ℕ) → len ≡ i + 1 → (i == len - 1) ≡ true
is_last len i e = ground arith

is_not_last : (len i n : ℕ) → len ≡ i + suc (suc n) → (i == len - 1) ≡ false
is_not_last len i n e = ground arith

mutual
  unfolding print rows render

  print-rows :
      (n : Node) (bs : List Bool) (b : Bool)
      → print (columns bs) (marker b) (columns (bs ++ b ∷ [])) n ≡ map render (node_rows bs b n)
  print-rows (node value children) bs b =
      ap (λ (t : List Text). (columns bs ++ marker b ++ value) ∷ t)
        (print_children-rows children (bs ++ b ∷ []) (count children) 0 (omega arith))

  print_children-rows :
      (f : Forest) (bs : List Bool) (len i : ℕ)
      → len ≡ i + count f
      → print_children (columns bs) len i tree_item_prefix sub_tree_prefix f
        ≡ map render (rows bs f)
  print_children-rows nil bs len i e = refl
  print_children-rows (cons c nil) bs len i e =
      rw (is_last len i (omega arith), append-nil, append-nil, ← columns-append bs true)
        (print-rows c bs true)
  print_children-rows (cons c (cons d cs)) bs len i e =
      rw (is_not_last len i (count cs) e, map-append, ← columns-append bs false)
        (ap₂ (λ (s t : List Text). s ++ t) (print-rows c bs false)
          (print_children-rows (cons d cs) bs len (i + 1) (omega arith)))

-- `Print` writes the root's value, and then a line for every other node, in the order of a walk
-- from the top: a column for each ancestor below the root, empty under a last child, then the
-- marker, which tells the last child, then the value.
pub print_tree-rows :
    (value : Text) (children : Forest)
    → print_tree (node value children) ≡ value ∷ map render (rows [] children)
unfolding print_tree columns
print_tree-rows value children =
    ap (λ (t : List Text). value ∷ t)
      (print_children-rows children [] (count children) 0 (omega arith))
