-- ===== src/TrustStore/Walk/Children.antt =====
-- The entries that os.ReadDir gives.
use mathlib.Core.List.{Memᴰ}
use mathlib.Core.List.Memᴰ
use notation.Base.{
  ◌≡◌, refl, sym, ap, subst, ◌∙◌, inl, inr, ◌⊎◌, Option, none, some, List, [], ◌∷◌, arith, Text,
  Bool-cases,
}
use notation.Disk.{Entry, Disk, look}
use notation.Disk.Paths.{FilePath, path_instance, paths_eq, paths_eq_iff}
use notation.TrustStore.Walk.{children, insert_entry, text_leb, child_of}

inserted : (x : Text × Entry) (xs : List (Text × Entry)) → Memᴰ x (insert_entry x xs)
unfolding insert_entry
inserted x [] = Memᴰ.head refl
inserted x (y ∷ ys) = elim (Bool-cases (text_leb x.0 y.0)) [
  | inl before ↦ rw (insert_entry, before) (Memᴰ.head refl)
  | inr after ↦ rw (insert_entry, after) (Memᴰ.tail (inserted x ys))
]

still_in : (a x : Text × Entry) (xs : List (Text × Entry)) → Memᴰ a xs → Memᴰ a (insert_entry x xs)
unfolding insert_entry
still_in a x [] m = Memᴰ.tail m
still_in a x (y ∷ ys) m = elim (Bool-cases (text_leb x.0 y.0)) [
  | inl before ↦ rw (insert_entry, before) (Memᴰ.tail m)
  | inr after ↦
      rw (insert_entry, after)
        (elim (Memᴰ.cases_cons m) [
          | inl same ↦ Memᴰ.head same
          | inr deeper ↦ Memᴰ.tail (still_in a x ys deeper)
        ])
]

abbrev joined : Option (Text × Entry) → List (Text × Entry) → List (Text × Entry)
joined o xs = elim o [ some child ↦ insert_entry child xs | none ↦ xs ]

joined-in :
    (a : Text × Entry) (o : Option (Text × Entry)) (xs : List (Text × Entry))
    → (o ≡ some a) ⊎ Memᴰ a xs
    → Memᴰ a (joined o xs)
joined-in a none xs (inl e) = absurd (cc)
joined-in a none xs (inr m) = m
joined-in a (some x) xs (inl e) =
    let same : x ≡ a = cc in subst (λ y. Memᴰ a (insert_entry y xs)) (sym same) (inserted a xs)
joined-in a (some x) xs (inr m) = still_in a x xs m

child_of-cons : (c : Text) (p : FilePath) (f : Entry) → child_of p (c ∷ p, f) ≡ some (c, f)
unfolding child_of
child_of-cons c p f = ground (arith, paths_eq_iff p p)

-- What is on the disk is among the entries that os.ReadDir gives.
pub children-look :
    (c : Text) (p : FilePath) (d : Disk) (e : Entry)
    → look (c ∷ p) d ≡ some e
    → Memᴰ (c, e) (children p d)
unfolding children look
children-look c p [] e h = absurd (cc)
children-look c p ((q, f) ∷ d) e h = elim (Bool-cases (paths_eq (c ∷ p) q)) [
  | inl same ↦
      let path = (paths_eq_iff (c ∷ p) q).0 same in
      let entry : f ≡ e = ground arith in
      joined-in (c, e) (child_of p (q, f)) (children p d)
        (inl (
          ap (λ r. child_of p (r, f)) (sym path)
          ∙ child_of-cons c p f
          ∙ ap (λ g. some (c, g)) entry))
  | inr other ↦
      joined-in (c, e) (child_of p (q, f)) (children p d)
        (inr (children-look c p d e (ground arith)))
]
