-- ===== src/Base/Strings/Laws.antt =====
-- Cutting a string at a byte: strings.Cut, strings.LastIndex and slicing, with their laws.
use Prim.Native.Nat.{ℕ, zero, suc}
use mathlib.Core.Path.{◌≡◌, refl, ap}
use mathlib.Core.Bool.{Bool, true, false}
use mathlib.Core.Option.{Option, none, some}
use mathlib.Core.List.{List, [], ◌∷◌, ◌++◌}
use native.Mathlib.Omega.{arith}
use notation.Base.Tests.{◌==◌, nat_eq, contains, if◌then◌else◌}
use notation.Base.Lists.{length}

-- strings.Cut at the first byte `c`: what stands before and after it, and whether it was found.
unfoldable pub cut : ℕ → List ℕ → List ℕ × List ℕ × Bool
cut c [] = ([], [], false)
cut c (x ∷ s) = let r = cut c s in if x == c then ([], s, true) else (x ∷ r.0, r.1, r.2)

-- strings.LastIndex of the byte `c`; `none` stands for -1.
unfoldable pub last_index : ℕ → List ℕ → Option ℕ
last_index c [] = none
last_index c (x ∷ s) = elim (last_index c s) [
  | some i ↦ some (suc i)
  | none ↦ if x == c then some zero else none
]

module _ {ℓ} {A : Type ℓ} where
  -- s[:n]
  unfoldable pub take : ℕ → List A → List A
  take zero s = []
  take (suc n) [] = []
  take (suc n) (x ∷ s) = x ∷ take n s

  -- s[n:]
  unfoldable pub drop : ℕ → List A → List A
  drop zero s = s
  drop (suc n) [] = []
  drop (suc n) (x ∷ s) = drop n s

-- What `cut` finds, put together again, is the string.
pub cut-append : (c : ℕ) (s : List ℕ) → (cut c s).2 ≡ true → s ≡ (cut c s).0 ++ c ∷ (cut c s).1
unfolding cut
cut-append c [] h = cc
cut-append c (x ∷ s) h = ground (arith, cut-append c s)

pub cut-lacks : (c : ℕ) (s : List ℕ) → contains (cut c s).0 c ≡ false
unfolding cut contains
cut-lacks c [] = refl
cut-lacks c (x ∷ s) = ground (arith, cut-lacks c s)

pub cut-of_lacks : (c : ℕ) (s t : List ℕ) → contains s c ≡ false → cut c (s ++ c ∷ t) ≡ (s, t, true)
unfolding cut contains
cut-of_lacks c [] t h = ground arith
cut-of_lacks c (x ∷ s) t h = ground (arith, cut-of_lacks c s t)

pub cut-none : (c : ℕ) (s : List ℕ) → contains s c ≡ false → cut c s ≡ (s, [], false)
unfolding cut contains
cut-none c [] h = refl
cut-none c (x ∷ s) h = ground (arith, cut-none c s)

pub cut-found : (c : ℕ) (s : List ℕ) → (cut c s).2 ≡ contains s c
unfolding cut contains
cut-found c [] = refl
cut-found c (x ∷ s) = ground (arith, cut-found c s)

pub last_index-none : (c : ℕ) (s : List ℕ) → contains s c ≡ false → last_index c s ≡ none
unfolding last_index contains
last_index-none c [] h = refl
last_index-none c (x ∷ s) h = ground (arith, last_index-none c s)

pub lacks-of_none : (c : ℕ) (s : List ℕ) → last_index c s ≡ none → contains s c ≡ false
unfolding last_index contains
lacks-of_none c [] h = refl
lacks-of_none c (x ∷ s) h = ground (arith, lacks-of_none c s)

-- The last occurrence splits the string.
pub last_index-append :
    (c : ℕ) (s t : List ℕ) → contains t c ≡ false → last_index c (s ++ c ∷ t) ≡ some (length s)
unfolding last_index
last_index-append c [] t h = ground (arith, last_index-none c t)
last_index-append c (x ∷ s) t h = ground (arith, last_index-append c s t)

pub last_index-split :
    (c : ℕ) (s : List ℕ) (i : ℕ)
    → last_index c s ≡ some i
    → (s ≡ take i s ++ c ∷ drop (suc i) s) × (contains (drop (suc i) s) c ≡ false)
unfolding last_index take drop
last_index-split c [] i h = cc
last_index-split c (x ∷ s) zero h = ground (arith, lacks-of_none c s)
last_index-split c (x ∷ s) (suc i) h = ground (arith, last_index-split c s i)

pub take-length : (s t : List ℕ) → take (length s) (s ++ t) ≡ s
unfolding take
take-length [] t = refl
take-length (x ∷ s) t = ap (λ (r : List ℕ). x ∷ r) (take-length s t)

pub drop-length : (c : ℕ) (s t : List ℕ) → drop (suc (length s)) (s ++ c ∷ t) ≡ t
unfolding drop
drop-length c [] t = refl
drop-length c (x ∷ s) t = drop-length c s t
