-- ===== src/Experimental.antt =====
-- internal/experimental/experimental.go: experimental flags work only with
-- NOTATION_EXPERIMENTAL=1.
pub mod Laws
use notation.Base.{
  Bool, not, Option, none, some, List, [], ◌∷◌, ◌++◌, ◌==◌, text_eq, if◌then◌else◌, Text, codes,
  new,
}
use notation.Base.Errors.{Fault}
use notation.Base.Strings.{join, quote}
use notation.Base.Exec.{Cmd, fail, done, warn, branch}

-- `IsDisabled`, from the value of the environment variable
unfoldable pub is_disabled : Text → Bool
is_disabled env = not (env == codes "1")

pub experimental_warning : Text
experimental_warning =
    codes
      "Warning: This feature is experimental and may not be fully tested or completed and may be deprecated. Report any issues to \"https://github/notaryproject/notation\"\n"

pub not_enabled : Text → Fault
not_enabled feature = new (
    feature
    ++ codes
        " is experimental and not enabled by default. To use, please set NOTATION_EXPERIMENTAL=1 environment variable")

-- `CheckAndWarn`, on what `doCheck` returns: the feature, if it is experimental. A failing write
-- to stderr is not modelled.
unfoldable pub check_and_warn : {S : Type 0} → Text → Option Text → Cmd S (Unit {0})
unfolding is_disabled experimental_warning
check_and_warn env none = done
check_and_warn env (some feature) =
    branch (is_disabled env) (fail (not_enabled feature)) (warn experimental_warning)

-- `CheckCommandAndWarn`, from the path of the command
unfoldable pub check_command_and_warn : {S : Type 0} → Text → Text → Cmd S (Unit {0})
unfolding check_and_warn
check_command_and_warn env command_path = check_and_warn env (some (quote command_path))

-- The flags that the user has set, with their dashes; `changed` is FlagSet.Changed.
unfoldable pub changed_flags : (Text → Bool) → List Text → List Text
changed_flags changed [] = []
changed_flags changed (flag ∷ flags) =
    let rest = changed_flags changed flags in
    if changed flag then (b'-' ∷ b'-' ∷ flag) ∷ rest else rest

flags_feature : Text → List Text → Option Text
flags_feature command_path [] = none
flags_feature command_path (f ∷ fs) =
    some (codes "flag(s) " ++ join (b',' ∷ []) (f ∷ fs) ++ codes " in " ++ quote command_path)

-- `CheckFlagsAndWarn`
unfoldable pub check_flags_and_warn :
    {S : Type 0} → Text → (Text → Bool) → Text → List Text → Cmd S (Unit {0})
unfolding check_and_warn changed_flags flags_feature
check_flags_and_warn env changed command_path flags =
    check_and_warn env (flags_feature command_path (changed_flags changed flags))
