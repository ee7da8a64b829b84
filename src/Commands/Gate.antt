-- ===== src/Commands/Gate.antt =====
-- A command line with an experimental flag, from cobra to the outside world.
use mathlib.Core.Logic.{inl, inr}
use notation.Base.{
  ◌≡◌, Bool, true, false, not, List, [], ◌∷◌, ◌++◌, arith, ◌==◌, text_eq, Text, codes, Result, err,
  Bool-cases, ap, sym, ◌∙◌,
}
use notation.Base.Errors.{Fault}
use notation.Base.Exec.{Cmd, World, Result-cases, bind-err, ◌>>=◌}
use notation.Auth.{Config}
use notation.Experimental.{check_flags_and_warn, is_disabled}
use notation.Experimental.Laws.{any_changed, check_flags_and_warn-refused}
use notation.Remote.{RegistryLib, Settings}
use notation.Sign.{SignLib, SignOpts}
use notation.Verify.{VerifyLib, VerifyOpts}
use notation.Listing.{ListOpts}
use notation.Commands.{Handlers}
use notation.Commands.Checks.{experimental_flags}
use notation.Commands.Artifacts.{sign_command, verify_command, list_command}
use notation.Commands.Runs.{sign_handlers, verify_handlers, list_handlers, Cobra, help}

-- The command failed, and wrote at most more to stderr.
pub record IsRefused {S : Type 0} (m : Cmd S (Unit {0})) (w : World S) : Type 0 where
  pub error : Fault
  pub told : List Text
  pub outcome : m w ≡ (err error, record w { stderr = w.stderr ++ told })

module _ {S Opts : Type 0} (cobra : Cobra S Opts) (changed : Text → Bool)
    (no_help : changed help ≡ false) (h : Handlers S Opts) (argv : List Text) (opts : Opts)
    (w : World S) where
  -- A command whose PreRunE fails without any effect is refused, whatever Args said.
  gated :
      ((given : Opts) → (e : Fault) × (h.pre_run given w ≡ (err e, w)))
      → IsRefused (cobra.execute changed h argv opts) w
  gated fails = elim (Result-cases (h.args argv opts)) [
    | inl (given, good) ↦ record {
      error = (fails given).0;
      told = cobra.complaint (fails given).0;
      outcome = cobra.pre_run_fail changed h argv opts given _ w w no_help good (fails given).1;
    }
    | inr (e, bad) ↦ record {
      error = e;
      told = cobra.complaint e;
      outcome = cobra.args_fail changed h argv opts e w no_help bad;
    }
  ]

-- The experimental flags of the three commands.
pub sign_flags :
    (env : Text) (config : Result Config)
    → experimental_flags (sign_command env config).flags
      ≡ codes "signature-manifest" ∷ codes "oci-layout" ∷ []
unfolding sign_command experimental_flags codes notation.Base.bytes_eq
sign_flags env config = elim (Bool-cases (is_disabled env)) [ inl h ↦ rw h | inr h ↦ rw h ]

verify_flags :
    (env : Text)
    → experimental_flags (verify_command env).flags ≡ codes "oci-layout" ∷ codes "scope" ∷ []
unfolding verify_command experimental_flags codes notation.Base.bytes_eq
verify_flags env = elim (Bool-cases (is_disabled env)) [ inl h ↦ rw h | inr h ↦ rw h ]

list_flags : (env : Text) → experimental_flags (list_command env).flags ≡ codes "oci-layout" ∷ []
unfolding list_command experimental_flags codes notation.Base.bytes_eq
list_flags env = elim (Bool-cases (is_disabled env)) [ inl h ↦ rw h | inr h ↦ rw h ]

module _ {S : Type 0} (env path : Text) (changed : Text → Bool) (w : World S)
    (no_help : changed help ≡ false) (off : (env == codes "1") ≡ false) where
  -- PreRunE of the three commands: the check of the flags, then the type of the input.
  pre_run_refused :
      {Opts : Type 0} (flags marked : List Text) (rest : Unit {0} → Cmd S Opts)
      → marked ≡ flags
      → any_changed changed marked ≡ true
      → (e : Fault) × ((check_flags_and_warn env changed path flags >>= rest) w ≡ (err e, w))
  pre_run_refused flags marked rest same set =
      let refused =
        check_flags_and_warn-refused env changed path flags w off
          (ap (any_changed changed) (sym same) ∙ set) in
      (refused.0, bind-err _ rest w refused.0 w refused.1)

  -- With NOTATION_EXPERIMENTAL other than "1", a command line of `notation sign` that sets a
  -- flag whose help marks it as experimental and does not ask for help is refused, whatever else
  -- it says: the command ends with an error, and neither stdout nor the HTTP transport nor
  -- anything else outside has changed; stderr at most has grown.
  pub sign_handlers-IsRefused :
      {Plugin Signer : Type 0} (lib : SignLib S Plugin Signer) (settings : Settings)
      (cobra : Cobra S SignOpts) (config : Result Config) (argv : List Text) (opts : SignOpts)
      → any_changed changed (experimental_flags (sign_command env config).flags) ≡ true
      → IsRefused (cobra.execute changed (sign_handlers lib settings env changed path) argv opts) w
  unfolding sign_handlers
  sign_handlers-IsRefused lib settings cobra config argv opts set =
      gated cobra changed no_help _ argv opts w
        λ given. pre_run_refused _ _ _ (sign_flags env config) set

  -- With NOTATION_EXPERIMENTAL other than "1", a command line of `notation verify` that sets a
  -- flag whose help marks it as experimental and does not ask for help is refused, whatever else
  -- it says: the command ends with an error, and neither stdout nor the HTTP transport nor
  -- anything else outside has changed; stderr at most has grown.
  pub verify_handlers-IsRefused :
      {Verifier : Type 0} (lib : VerifyLib S Verifier) (settings : Settings)
      (cobra : Cobra S VerifyOpts) (argv : List Text) (opts : VerifyOpts)
      → any_changed changed (experimental_flags (verify_command env).flags) ≡ true
      → IsRefused
          (cobra.execute changed (verify_handlers lib settings env changed path) argv opts)
          w
  unfolding verify_handlers
  verify_handlers-IsRefused lib settings cobra argv opts set =
      gated cobra changed no_help _ argv opts w
        λ given. pre_run_refused _ _ _ (verify_flags env) set

  -- With NOTATION_EXPERIMENTAL other than "1", a command line of `notation list` that sets a
  -- flag whose help marks it as experimental and does not ask for help is refused, whatever else
  -- it says: the command ends with an error, and neither stdout nor the HTTP transport nor
  -- anything else outside has changed; stderr at most has grown.
  pub list_handlers-IsRefused :
      (lib : RegistryLib S) (settings : Settings) (stat_is_dir : Text → S → Result Bool)
      (is_digest : Text → Bool) (artifact_type : Text) (cobra : Cobra S ListOpts) (argv : List Text)
      (opts : ListOpts)
      → any_changed changed (experimental_flags (list_command env).flags) ≡ true
      → IsRefused
          (cobra.execute changed
            (list_handlers lib settings stat_is_dir is_digest artifact_type env changed path)
            argv
            opts)
          w
  unfolding list_handlers
  list_handlers-IsRefused lib settings stat_is_dir is_digest artifact_type cobra argv opts set =
      gated cobra changed no_help _ argv opts w λ given. pre_run_refused _ _ _ (list_flags env) set
