-- ===== src/Experimental/Laws.antt =====
-- When a command with experimental flags may go on.
use mathlib.Core.List.{append-nil}
use notation.Base.{
  ◌≡◌, ◌↔◌, refl, Bool, true, false, not, ◌||◌, ◌&&◌, List, [], ◌∷◌, ◌++◌, is_empty, arith, ◌==◌,
  text_eq, if◌then◌else◌, Text, codes, Result, ok, err, ap,
}
use notation.Base.Errors.{Fault}
use notation.Base.Exec.{World, fail, warn, branch-true}
use notation.Experimental.{
  experimental_warning, not_enabled, changed_flags, flags_feature, check_and_warn,
  check_flags_and_warn,
}

-- Some flag of the list was set.
unfoldable pub any_changed : (Text → Bool) → List Text → Bool
any_changed changed [] = false
any_changed changed (flag ∷ flags) = changed flag || any_changed changed flags

changed_flags-empty :
    (changed : Text → Bool) (flags : List Text)
    → is_empty (changed_flags changed flags) ≡ not (any_changed changed flags)
unfolding changed_flags any_changed
changed_flags-empty changed [] = refl
changed_flags-empty changed (flag ∷ flags) = ground (arith, changed_flags-empty changed flags)

feature_stops :
    {S : Type 0} (env path : Text) (fs : List Text) (any : Bool) (w w' : World S)
    (r : Result (Unit {0}))
    → is_empty fs ≡ not any
    → check_and_warn env (flags_feature path fs) w ≡ (r, w')
    → ((r ≡ ok tt) ↔ ((any && not (env == codes "1")) ≡ false))
      × (w'.stdout ≡ w.stdout)
      × (w'.stderr
          ≡ w.stderr ++ (if any && (env == codes "1") then experimental_warning ∷ [] else []))
unfolding check_flags_and_warn
feature_stops env path [] true w w' r e h = absurd (cc)
feature_stops env path [] false w w' r e h = ground (arith, append-nil w.stderr)
feature_stops env path (f ∷ fs) true w w' r e h = ground (arith, append-nil w.stderr)
feature_stops env path (f ∷ fs) false w w' r e h = absurd (cc)

-- `CheckFlagsAndWarn` stops the command exactly if one of the flags was set and the environment
-- variable is not "1". It prints nothing to stdout, and warns on stderr exactly if it lets a
-- command with such a flag go on.
pub check_flags_and_warn-stops :
    {S : Type 0} (env : Text) (changed : Text → Bool) (path : Text) (flags : List Text)
    (w w' : World S) (r : Result (Unit {0}))
    → check_flags_and_warn env changed path flags w ≡ (r, w')
    → ((r ≡ ok tt) ↔ ((any_changed changed flags && not (env == codes "1")) ≡ false))
      × (w'.stdout ≡ w.stdout)
      × (w'.stderr
          ≡ w.stderr
            ++ (if any_changed changed flags && (env == codes "1")
                then experimental_warning ∷ []
                else []))
unfolding check_flags_and_warn
check_flags_and_warn-stops env changed path flags w w' r h =
    feature_stops env path (changed_flags changed flags) (any_changed changed flags) w w' r
      (changed_flags-empty changed flags) h

feature_refused :
    {S : Type 0} (env path : Text) (fs : List Text) (any : Bool) (w : World S)
    → is_empty fs ≡ not any
    → (env == codes "1") ≡ false
    → any ≡ true
    → (e : Fault) × (check_and_warn env (flags_feature path fs) w ≡ (err e, w))
unfolding check_flags_and_warn
feature_refused env path [] any w e off set = absurd (cc)
feature_refused env path (f ∷ fs) any w e off set =
    (not_enabled _, branch-true (fail _) (warn experimental_warning) w _ (ap not off))

-- With the variable off and one of the flags set, `CheckFlagsAndWarn` fails and does nothing else.
pub check_flags_and_warn-refused :
    {S : Type 0} (env : Text) (changed : Text → Bool) (path : Text) (flags : List Text)
    (w : World S)
    → (env == codes "1") ≡ false
    → any_changed changed flags ≡ true
    → (e : Fault) × (check_flags_and_warn env changed path flags w ≡ (err e, w))
unfolding check_flags_and_warn
check_flags_and_warn-refused env changed path flags w off set =
    feature_refused env path (changed_flags changed flags) _ w (changed_flags-empty changed flags)
      off set
