-- ===== src/Commands/Runs.antt =====
-- The functions Args, PreRunE and RunE of `notation sign`, `verify` and `list`, and what the
-- program relies on in cobra, which calls them.
use notation.Base.{◌≡◌, codes, Bool, false, List, ◌++◌, Text, Result, ok, err}
use notation.Base.Errors.{Fault}
use notation.Base.Exec.{Cmd, World}
use notation.Commands.{Handlers}
use notation.Remote.{RegistryLib, Settings}
use notation.Sign.{SignLib, SignOpts, sign_args, sign_pre_run, sign_run}
use notation.Verify.{VerifyLib, VerifyOpts, verify_args, verify_pre_run, run_verify}
use notation.Listing.{ListOpts, list_args, list_pre_run, run_list}

unfoldable pub sign_handlers :
    {S Plugin Signer : Type 0}
    → SignLib S Plugin Signer
    → Settings
    → Text
    → (Text → Bool)
    → Text
    → Handlers S SignOpts
unfolding sign_args sign_pre_run sign_run
sign_handlers lib settings env changed path = record {
  args = sign_args;
  pre_run = sign_pre_run env changed path;
  run = sign_run lib settings;
}

unfoldable pub verify_handlers :
    {S Verifier : Type 0}
    → VerifyLib S Verifier
    → Settings
    → Text
    → (Text → Bool)
    → Text
    → Handlers S VerifyOpts
unfolding verify_args verify_pre_run run_verify
verify_handlers lib settings env changed path = record {
  args = verify_args;
  pre_run = verify_pre_run env changed path;
  run = run_verify lib settings;
}

unfoldable pub list_handlers :
    {S : Type 0}
    → RegistryLib S
    → Settings
    → (Text → S → Result Bool)
    → (Text → Bool)
    → Text
    → Text
    → (Text → Bool)
    → Text
    → Handlers S ListOpts
unfolding list_args list_pre_run run_list
list_handlers lib settings stat_is_dir is_digest artifact_type env changed path = record {
  args = list_args;
  pre_run = list_pre_run env changed path;
  run = run_list lib settings stat_is_dir is_digest artifact_type;
}

-- Args, PreRunE and RunE have all succeeded, in this order.
pub record HasRun {S Opts : Type 0} (h : Handlers S Opts) (argv : List Text) (opts : Opts)
    (w w' : World S) : Type 0 where
  pub given : Opts
  pub ready : Opts
  pub mid : World S
  pub args_ok : h.args argv opts ≡ ok given
  pub pre_run_ok : h.pre_run given w ≡ (ok ready, mid)
  pub run_ok : h.run ready mid ≡ (ok tt, w')

-- The flag of every command that asks for its help.
abbrev pub help : Text
help = codes "help"

-- Cobra's documented treatment of a command line whose flags were read; the function of `execute`
-- tells which of them were set. Unless help is asked for, Args and PreRunE come first, in this
-- order, and an error of one ends the command, which tells of it on stderr; and a command succeeds
-- only if RunE has succeeded after them.
pub record Cobra (S Opts : Type 0) : Type 0 where
  pub execute : (Text → Bool) → Handlers S Opts → List Text → Opts → Cmd S (Unit {0})
  pub complaint : Fault → List Text
  pub args_fail :
      (changed : Text → Bool) (h : Handlers S Opts) (argv : List Text) (opts : Opts) (e : Fault)
      (w : World S)
      → changed help ≡ false
      → h.args argv opts ≡ err e
      → execute changed h argv opts w ≡ (err e, record w { stderr = w.stderr ++ complaint e })
  pub pre_run_fail :
      (changed : Text → Bool) (h : Handlers S Opts) (argv : List Text) (opts given : Opts)
      (e : Fault) (w w' : World S)
      → changed help ≡ false
      → h.args argv opts ≡ ok given
      → h.pre_run given w ≡ (err e, w')
      → execute changed h argv opts w ≡ (err e, record w' { stderr = w'.stderr ++ complaint e })
  pub success :
      (changed : Text → Bool) (h : Handlers S Opts) (argv : List Text) (opts : Opts)
      (w w' : World S)
      → changed help ≡ false
      → execute changed h argv opts w ≡ (ok tt, w')
      → HasRun h argv opts w w'
