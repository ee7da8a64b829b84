-- ===== src/Base/Quiet.antt =====
-- Commands that print nothing to stdout, whether they fail or not.
use mathlib.Core.Path.{◌≡◌, refl, sym, ap, ◌∙◌}
use mathlib.Core.Bool.{Bool, true, false}
use notation.Base.Errors.{Fault}
use native.Mathlib.Omega.{arith}
use notation.Base.Strings.{Text}
use notation.Base.Exec.{
  Result, ok, err, World, Cmd, pure, fail, lift, act, warn, done, branch, fail_if, continue, ◌>>=◌,
}

pub record Quiet {S A : Type 0} (m : Cmd S A) : Type 0 where
  pub at : (w : World S) → (m w).1.stdout ≡ w.stdout

module _ {S A : Type 0} where
  pub Quiet-pure : (a : A) → Quiet {S = S} (pure a)
  Quiet-pure a = record { at = λ w. refl }

  pub Quiet-fail : (e : Fault) → Quiet {S = S} {A = A} (fail e)
  Quiet-fail e = record { at = λ w. refl }

  pub Quiet-lift : (r : Result A) → Quiet {S = S} (lift r)
  Quiet-lift r = record { at = λ w. refl }

  pub Quiet-act : (f : S → Result A × S) → Quiet (act f)
  Quiet-act f = record { at = λ w. refl }

  pub Quiet-branch : (b : Bool) (m n : Cmd S A) → Quiet m → Quiet n → Quiet (branch b m n)
  Quiet-branch true m n qm qn = record { at = λ w. qm.at w }
  Quiet-branch false m n qm qn = record { at = λ w. qn.at w }

module _ {S A B : Type 0} where
  Quiet-continue :
      (r : Result A) (f : A → Cmd S B) (w : World S)
      → ((a : A) → Quiet (f a))
      → (continue r f w).1.stdout ≡ w.stdout
  Quiet-continue (ok a) f w q = (q a).at w
  Quiet-continue (err e) f w q = refl

  pub Quiet-bind :
      (m : Cmd S A) (f : A → Cmd S B) → Quiet m → ((a : A) → Quiet (f a)) → Quiet (m >>= f)
  unfolding ◌>>=◌
  Quiet-bind m f qm qf = record { at = λ w. Quiet-continue (m w).0 f (m w).1 qf ∙ qm.at w }

pub Quiet-fail_if : {S : Type 0} (b : Bool) (e : Fault) → Quiet {S = S} (fail_if b e)
Quiet-fail_if true e = record { at = λ w. refl }
Quiet-fail_if false e = record { at = λ w. refl }

pub Quiet-warn : {S : Type 0} (t : Text) → Quiet {S = S} (warn t)
Quiet-warn t = record { at = λ w. refl }

pub Quiet-done : {S : Type 0} → Quiet {S = S} done
Quiet-done = record { at = λ w. refl }

pub ruleset quiet_rules = (
  Quiet-pure, Quiet-fail, Quiet-lift, Quiet-act, Quiet-branch, Quiet-bind, Quiet-fail_if,
  Quiet-warn, Quiet-done,
)

-- What a quiet command leaves of stdout.
pub Quiet-stdout :
    {S A : Type 0} {m : Cmd S A} (w : World S) {r : Result A} {w' : World S}
    → Quiet m
    → m w ≡ (r, w')
    → w'.stdout ≡ w.stdout
Quiet-stdout {A} w q h = sym (ap (λ (p : Result A × World _). p.1.stdout) h) ∙ q.at w

-- Commands that have printed nothing to stdout when they fail.
pub record SilentFailure {S A : Type 0} (m : Cmd S A) : Type 0 where
  pub at : (w w' : World S) (e : Fault) → m w ≡ (err e, w') → w'.stdout ≡ w.stdout

module _ {S A B : Type 0} where
  silent_continue :
      (r : Result A) (f : A → Cmd S B) (w w' : World S) (e : Fault)
      → ((a : A) → SilentFailure (f a))
      → continue r f w ≡ (err e, w')
      → w'.stdout ≡ w.stdout
  silent_continue (ok a) f w w' e q h = (q a).at w w' e h
  silent_continue (err x) f w w' e q h = ground arith

  pub SilentFailure-bind :
      (m : Cmd S A) (f : A → Cmd S B)
      → Quiet m
      → ((a : A) → SilentFailure (f a))
      → SilentFailure (m >>= f)
  unfolding ◌>>=◌
  SilentFailure-bind m f qm qf = record {
    at = λ w w' e h. silent_continue (m w).0 f (m w).1 w' e qf h ∙ qm.at w;
  }
