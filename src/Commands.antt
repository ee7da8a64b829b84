-- ===== src/Commands.antt =====
-- The set-up of the commands: what each tells cobra of its name, its help and its flags, and how
-- the commands hang together. What cobra and pflag make of it is theirs: a parameter.
pub mod Options
pub mod Artifacts
pub mod Sessions
pub mod Certs
pub mod Root
pub mod Checks
pub mod Runs
pub mod Gate
pub mod Whole
pub mod Laws
use notation.Base.{ℕ, Bool, List, [], ◌∷◌, ◌++◌, Text, Result}
use notation.Base.Exec.{Cmd}

-- The default of a flag, by the method of FlagSet that defines it.
pub data Value : Type 0 where
  string_var : Text → Value
  bool_var : Bool → Value
  int_var duration_var : ℕ → Value
  string_array_var : Value

-- What a method such as StringVarP is given, but for the variable.
pub record Flag : Type 0 where
  pub name : Text
  pub shorthand : Text
  pub value : Value
  pub usage : Text

-- The field Args of a command: none, a function of the program's own, cobra.ExactArgs or
-- cobra.NoArgs.
pub data Arguments : Type 0 where
  any_args own_args no_args : Arguments
  exact_args : ℕ → Arguments

-- cobra.Command, the fields and flags that the program sets
pub record Command : Type 0 where
  pub use_line : Text
  pub aliases : List Text
  pub short : Text
  pub long : Text
  pub args : Arguments
  pub flags : List Flag
  -- MarkFlagRequired
  pub required : List Text
  -- MarkFlagsRequiredTogether and MarkFlagsMutuallyExclusive
  pub together : List (List Text)
  pub exclusive : List (List Text)
  -- MarkHidden
  pub hidden : List Text

abbrev pub command : Text → Text → Text → Command
command use_line short long = record {
  use_line = use_line;
  aliases = [];
  short = short;
  long = long;
  args = any_args;
  flags = [];
  required = [];
  together = [];
  exclusive = [];
  hidden = [];
}

abbrev pub add_flag : Flag → Command → Command
add_flag f c = record c { flags = c.flags ++ f ∷ [] }

abbrev pub flag : Text → Text → Value → Text → Flag
flag name shorthand value usage = record {
  name = name;
  shorthand = shorthand;
  value = value;
  usage = usage;
}

abbrev pub mark_required : Text → Command → Command
mark_required name c = record c { required = c.required ++ name ∷ [] }

abbrev pub require_together : List Text → Command → Command
require_together names c = record c { together = c.together ++ names ∷ [] }

abbrev pub exclude : List Text → Command → Command
exclude names c = record c { exclusive = c.exclusive ++ names ∷ [] }

-- A command and what AddCommand puts below it.
mutual
  pub data CommandTree : Type 0 where
    below : Command → CommandForest → CommandTree

  pub data CommandForest : Type 0 where
    nil : CommandForest
    cons : CommandTree → CommandForest → CommandForest

abbrev pub leaf : Command → CommandTree
leaf c = below c nil

-- The functions that a command gives to cobra, on its options.
pub record Handlers (S Opts : Type 0) : Type 0 where
  pub args : List Text → Opts → Result Opts
  pub pre_run : Opts → Cmd S Opts
  pub run : Opts → Cmd S (Unit {0})
