-- ===== src/Base/Dict.antt =====
-- Go's map[string]string, as the list of its entries.
use mathlib.Core.Path.{◌≡◌, refl}
use mathlib.Core.Option.{Option, none, some}
use mathlib.Core.List.{List, [], ◌∷◌}
use native.Mathlib.Omega.{arith}
use notation.Base.Tests.{◌==◌, text_eq, bytes_eq_iff, if◌then◌else◌}
use notation.Base.Strings.{Text}

abbrev pub Dict : Type 0
Dict = List (Text × Text)

-- m[k], with whether it exists.
unfoldable pub lookup : Text → Dict → Option Text
lookup key [] = none
lookup key (entry ∷ rest) =
    let later = lookup key rest in if entry.0 == key then some entry.1 else later

-- m[k] = v
unfoldable pub insert : Text → Text → Dict → Dict
insert key value [] = (key, value) ∷ []
insert key value (entry ∷ rest) =
    let later = insert key value rest in
    if entry.0 == key then (key, value) ∷ rest else entry ∷ later

pub lookup-insert :
    (key other value : Text) (m : Dict)
    → lookup other (insert key value m) ≡ (if key == other then some value else lookup other m)
unfolding lookup insert
lookup-insert key other value [] = refl
lookup-insert key other value (entry ∷ rest) = ground (
  arith,
  bytes_eq_iff key other,
  bytes_eq_iff entry.0 key,
  bytes_eq_iff entry.0 other,
  lookup-insert key other value rest,
)
