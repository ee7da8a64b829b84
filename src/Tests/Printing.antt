-- ===== src/Tests/Printing.antt =====
-- Runs of internal/tree, of cmd/notation/list.go and of the confirmation.
use mathlib.Core.List.{flatten}
use notation.Base.{◌≡◌, ◌↔◌, ◌⊎◌, refl, ◌++◌, true, false, some, List, [], ◌∷◌, map, Text, ok}
use notation.Confirm.{Input, IsYes, ask_for_confirmation, ask_for_confirmation-true}
use notation.Tree.{Node, Forest, node, nil, cons, print_tree, tree_item_prefix_last}
use notation.Tree.Laws.{rows, render, print_tree-rows}
use notation.Manifest.{Descriptor}
use notation.Listing.{digest_lines}
use notation.Listing.Laws.{listing, digest_lines-listing}
use notation.Tests.Manifest.{image, start}

abbrev leaf : Text → Node
leaf value = node value nil

abbrev children : Forest
children = cons (node (b'a' ∷ []) (cons (leaf (b'b' ∷ [])) nil)) (cons (leaf (b'c' ∷ [])) nil)

print_leaf :
    print_tree (node (b'r' ∷ []) (cons (leaf (b'c' ∷ [])) nil))
    ≡ (b'r' ∷ []) ∷ (tree_item_prefix_last ++ b'c' ∷ []) ∷ []
unfolding print_tree
print_leaf = refl

print_tree-rows_example :
    print_tree (node (b'r' ∷ []) children) ≡ (b'r' ∷ []) ∷ map render (rows [] children)
print_tree-rows_example = print_tree-rows (b'r' ∷ []) children

abbrev pages : List (List Descriptor)
pages = (image ∷ []) ∷ [] ∷ (image ∷ image ∷ []) ∷ []

digest_lines-listing_applied :
    digest_lines (b't' ∷ []) (b'r' ∷ []) pages (ok tt)
    ≡ listing (b't' ∷ []) (b'r' ∷ []) (map (λ d. d.digest) (flatten pages))
digest_lines-listing_applied = digest_lines-listing (b't' ∷ []) (b'r' ∷ []) pages

abbrev yes : Input
yes = ok (some (b'Y' ∷ []))

ask_for_confirmation-true_applied :
    (((ask_for_confirmation yes [] false start).0 ≡ ok true) ↔ ((false ≡ true) ⊎ IsYes yes))
    × ((ask_for_confirmation yes [] false start).1.ext ≡ start.ext)
ask_for_confirmation-true_applied = ask_for_confirmation-true yes [] false start
