-- ===== src/Commands/Whole.antt =====
-- A whole `notation sign`, from the command line to the signature.
use notation.Base.{
  ◌≡◌, Bool, false, not, ◌&&◌, List, [], ◌∷◌, ◌++◌, ◌==◌, text_eq, if◌then◌else◌, Text, codes,
  Result,
}
use notation.Base.Exec.{World}
use notation.Auth.{Config}
use notation.Experimental.Laws.{any_changed}
use notation.Remote.{Settings}
use notation.Manifest.{oci_layout_input}
use notation.Sign.{SignLib, SignOpts, success}
use notation.Sign.Laws.{IsSigned}
use notation.Sign.Failures.{IsAccepted}
use notation.Commands.Checks.{experimental_flags}
use notation.Commands.Artifacts.{sign_command}

module _ {S Plugin Signer : Type 0} (lib : SignLib S Plugin Signer) (settings : Settings)
    (env path : Text) (config : Result Config) (changed : Text → Bool) where
  -- What a command line that succeeds has done.
  pub record HasSigned (argv : List Text) (opts : SignOpts) (w w' : World S) : Type 0 where
    pub reference : Text
    pub rest : List Text
    pub named : argv ≡ reference ∷ rest
    pub used : SignOpts
    pub for_reference : used.reference ≡ reference
    pub input : used.input_type ≡ (if opts.oci_layout then oci_layout_input else opts.input_type)
    pub accepted : IsAccepted used
    pub allowed :
        (any_changed changed (experimental_flags (sign_command env config).flags)
          && not (env == codes "1"))
        ≡ false
    pub mid : World S
    pub signed : IsSigned lib settings used mid w'
    pub printed : w'.stdout ≡ w.stdout ++ success signed.resolved ∷ []
