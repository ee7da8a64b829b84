-- ===== src/Base/Exec.antt =====
-- Commands: what a Go function that returns (A, error) does to the outside world. What was done
-- before an error stays done, so the world comes back beside the error too.
use mathlib.Core.Bool.{Bool, true, false}
use native.Mathlib.Omega.{arith}
use notation.Base.Tests.{if◌then◌else◌}
use mathlib.Core.Option.{Option}
use mathlib.Core.List.{List, [], ◌∷◌, ◌++◌}
use notation.Base.Strings.{Text}
use notation.Base.Errors.{Fault}
use mathlib.Core.Path.{◌≡◌, refl, ap, ap₂}
use mathlib.Core.Logic.{◌⊎◌, inl, inr}

pub data Result {ℓ} (A : Type ℓ) : Type ℓ where
  ok : A → Result A
  err : Fault → Result A

-- The transport of an HTTP client: Go's own, any other, or one that logs what it sends.
pub data Transport : Type 0 where
  default_transport other_transport : Transport
  traced : Transport → Transport

-- The writes to stdout and stderr in their order, http.DefaultClient.Transport (none stands for
-- nil), and what else the command acts on.
pub record World (S : Type 0) : Type 0 where
  pub stdout : List Text
  pub stderr : List Text
  pub transport : Option Transport
  pub ext : S

abbrev pub Cmd : Type 0 → Type 0 → Type 0
Cmd S A = World S → Result A × World S

module _ {S A : Type 0} where
  abbrev pub pure : A → Cmd S A
  pure a w = (ok a, w)

  abbrev pub fail : Fault → Cmd S A
  fail e w = (err e, w)

  abbrev pub lift : Result A → Cmd S A
  lift r w = (r, w)

  -- A step of the outside world.
  abbrev pub act : (S → Result A × S) → Cmd S A
  act f w = let (r, s) = f w.ext in (r, record w { ext = s })

  -- `a, err := m`, for a caller that looks at `err`.
  abbrev pub try : Cmd S A → Cmd S (Result A)
  try m w = let (r, w') = m w in (ok r, w')

module _ {S A B : Type 0} where
  abbrev pub continue : Result A → (A → Cmd S B) → Cmd S B
  continue (ok a) f w = f a w
  continue (err e) f w = (err e, w)

  infixl 10 ◌>>=◌ ◌>>◌
  -- `a, err := m; if err != nil { return err }`
  unfoldable pub ◌>>=◌ : Cmd S A → (A → Cmd S B) → Cmd S B
  ◌>>=◌ m f w = let (r, w') = m w in continue r f w'

  abbrev pub ◌>>◌ : Cmd S A → Cmd S B → Cmd S B
  m >> n = m >>= λ _. n

module _ {S A : Type 0} where
  -- `if b { m } else { n }`
  abbrev pub branch : Bool → Cmd S A → Cmd S A → Cmd S A
  branch b m n w = if b then m w else n w

module _ {S : Type 0} where
  -- `if b { return e }`
  abbrev pub fail_if : Bool → Fault → Cmd S (Unit {0})
  fail_if b e w = if b then (err e, w) else (ok tt, w)

  abbrev pub done : Cmd S (Unit {0})
  done w = (ok tt, w)

  -- fmt.Print and its like
  abbrev pub print : Text → Cmd S (Unit {0})
  print t w = (ok tt, record w { stdout = w.stdout ++ t ∷ [] })

  -- fmt.Fprint to os.Stderr
  abbrev pub warn : Text → Cmd S (Unit {0})
  warn t w = (ok tt, record w { stderr = w.stderr ++ t ∷ [] })

  abbrev pub print_all : List Text → Cmd S (Unit {0})
  print_all ts w = (ok tt, record w { stdout = w.stdout ++ ts })

pub pair_eq : {A B : Type 0} {p : A × B} {a : A} {b : B} → p.0 ≡ a → p.1 ≡ b → p ≡ (a, b)
pair_eq h k = ap₂ (λ x y. (x, y)) h k

pub Result-cases :
    {A : Type 0} (r : Result A) → ((a : A) × (r ≡ ok a)) ⊎ ((e : Fault) × (r ≡ err e))
Result-cases (ok a) = inl (a, refl)
Result-cases (err e) = inr (e, refl)

-- A pure chain of fallible steps.
module _ {A B : Type 0} where
  abbrev pub and_then : Result A → (A → Result B) → Result B
  and_then (ok a) f = f a
  and_then (err e) f = err e

-- One step of a `do` block, forwards and backwards.
module _ {S A B : Type 0} (m : Cmd S A) (f : A → Cmd S B) (w : World S) where
  pub bind-ok : (a : A) (w' : World S) → m w ≡ (ok a, w') → (m >>= f) w ≡ f a w'
  unfolding ◌>>=◌
  bind-ok a w' e = ap (λ (p : Result A × World S). continue p.0 f p.1) e

  pub bind-err : (e : Fault) (w' : World S) → m w ≡ (err e, w') → (m >>= f) w ≡ (err e, w')
  unfolding ◌>>=◌
  bind-err e w' h = ap (λ (p : Result A × World S). continue p.0 f p.1) h

-- A run that returned `b` from `m` and then `f`.
pub record IsRun {S A B : Type 0} (m : Cmd S A) (f : A → Cmd S B) (w : World S) (b : B)
    (w' : World S) : Type 0 where
  pub value : A
  pub mid : World S
  pub first : m w ≡ (ok value, mid)
  pub second : f value mid ≡ (ok b, w')

continue-inv :
    {S A B : Type 0} (m : Cmd S A) (f : A → Cmd S B) (w : World S) (r : Result A) (v : World S)
    {b : B} {w' : World S}
    → m w ≡ (r, v)
    → continue r f v ≡ (ok b, w')
    → IsRun m f w b w'
continue-inv m f w (ok a) v e h = record { value = a; mid = v; first = e; second = h }
continue-inv m f w (err x) v e h = absurd (cc)

pub bind-inv :
    {S A B : Type 0} (m : Cmd S A) (f : A → Cmd S B) (w : World S) {b : B} {w' : World S}
    → (m >>= f) w ≡ (ok b, w')
    → IsRun m f w b w'
unfolding ◌>>=◌
bind-inv m f w h = continue-inv m f w (m w).0 (m w).1 refl h

module _ {S : Type 0} (b : Bool) (e : Fault) (w : World S) where
  pub fail_if-ok : b ≡ false → fail_if b e w ≡ (ok tt, w)
  fail_if-ok h = rw h

  pub fail_if-err : b ≡ true → fail_if b e w ≡ (err e, w)
  fail_if-err h = rw h

  pub fail_if-inv :
      {x : Unit {0}} {w' : World S} → fail_if b e w ≡ (ok x, w') → (b ≡ false) × (w ≡ w')
  fail_if-inv h = ground arith

pub act-inv :
    {S A : Type 0} (f : S → Result A × S) (w : World S) {a : A} {w' : World S}
    → act f w ≡ (ok a, w')
    → ((f w.ext).0 ≡ ok a) × (record w { ext = (f w.ext).1 } ≡ w')
act-inv f w h = ground arith

pub lift-inv :
    {S A : Type 0} (r : Result A) (w : World S) {a : A} {w' : World S}
    → lift r w ≡ (ok a, w')
    → (r ≡ ok a) × (w ≡ w')
lift-inv r w h = ground arith

pub pure-inv :
    {S A : Type 0} (a : A) (w : World S) {b : A} {w' : World S}
    → pure a w ≡ (ok b, w')
    → (a ≡ b) × (w ≡ w')
pure-inv a w h = ground arith

pub try-act-inv :
    {S A : Type 0} (f : S → Result A × S) (w : World S) {r : Result A} {w' : World S}
    → try (act f) w ≡ (ok r, w')
    → ((f w.ext).0 ≡ r) × (record w { ext = (f w.ext).1 } ≡ w')
try-act-inv f w h = ground arith

-- Which side of a branch was run.
module _ {S A : Type 0} (m n : Cmd S A) (w : World S) where
  pub branch-true : (b : Bool) → b ≡ true → branch b m n w ≡ m w
  branch-true b h = rw h

  pub branch-false : (b : Bool) → b ≡ false → branch b m n w ≡ n w
  branch-false b h = rw h
