-- ===== src/Tree.antt =====
-- internal/tree/tree.go: the tree that `notation inspect` prints. A node's children are a list of
-- their own type; a child that Go reaches through the pointer that `Add` returned is reached here
-- as the last child of its parent.
pub mod Laws
use notation.Base.{ℕ, suc, ◌+◌, ◌-◌, List, [], ◌∷◌, ◌++◌, ◌==◌, nat_eq, if◌then◌else◌, Text, codes}

mutual
  -- `Node`
  pub data Node : Type 0 where
    node : Text → Forest → Node

  pub data Forest : Type 0 where
    nil : Forest
    cons : Node → Forest → Forest

-- `New`
unfoldable pub new_node : Text → Node
new_node value = node value nil

pub append : Forest → Node → Forest
append nil n = cons n nil
append (cons c cs) n = cons c (append cs n)

-- `Add`, the parent afterwards
unfoldable pub add : Node → Text → Node
unfolding append new_node
add (node v children) value = node v (append children (new_node value))

-- `AddPair`
unfoldable pub add_pair : Node → Text → Text → Node
unfolding add
add_pair parent key value = add parent (key ++ codes ": " ++ value)

-- Changes made through the pointer to the child that `Add` has returned.
pub in_last : (Node → Node) → Forest → Forest
in_last f nil = nil
in_last f (cons c nil) = cons (f c) nil
in_last f (cons c (cons d cs)) = cons c (in_last f (cons d cs))

unfoldable pub at_last : Node → (Node → Node) → Node
unfolding in_last
at_last (node value children) f = node value (in_last f children)

-- The UTF-8 bytes of the box-drawing prefixes.
abbrev pub tree_item_prefix : Text
tree_item_prefix = 0xe2 ∷ 0x94 ∷ 0x9c ∷ 0xe2 ∷ 0x94 ∷ 0x80 ∷ 0xe2 ∷ 0x94 ∷ 0x80 ∷ b' ' ∷ []

abbrev pub tree_item_prefix_last : Text
tree_item_prefix_last = 0xe2 ∷ 0x94 ∷ 0x94 ∷ 0xe2 ∷ 0x94 ∷ 0x80 ∷ 0xe2 ∷ 0x94 ∷ 0x80 ∷ b' ' ∷ []

abbrev pub sub_tree_prefix : Text
sub_tree_prefix = 0xe2 ∷ 0x94 ∷ 0x82 ∷ b' ' ∷ b' ' ∷ b' ' ∷ []

abbrev pub sub_tree_prefix_last : Text
sub_tree_prefix_last = b' ' ∷ b' ' ∷ b' ' ∷ b' ' ∷ []

-- len(n.Children)
pub count : Forest → ℕ
count nil = 0
count (cons c cs) = suc (count cs)

-- `print`, the lines that it writes. The loop over the children has the variables `i`,
-- `nextItemPrefix` and `nextSubTreePrefix`, which change at the last child.
unfoldable mutual
  unfolding count

  pub print : Text → Text → Text → Node → List Text
  print prefix item_marker next_prefix (node value children) =
      (prefix ++ item_marker ++ value)
      ∷ print_children next_prefix (count children) 0 tree_item_prefix sub_tree_prefix children

  pub print_children : Text → ℕ → ℕ → Text → Text → Forest → List Text
  print_children next_prefix len i next_item next_sub nil = []
  print_children next_prefix len i next_item next_sub (cons child rest) =
      let item = if i == len - 1 then tree_item_prefix_last else next_item in
      let sub = if i == len - 1 then sub_tree_prefix_last else next_sub in
      print next_prefix item (next_prefix ++ sub) child
      ++ print_children next_prefix len (i + 1) item sub rest

-- `Print`
unfoldable pub print_tree : Node → List Text
unfolding print
print_tree root = print [] [] [] root
