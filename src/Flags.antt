-- ===== src/Flags.antt =====
-- internal/cmd/flags.go and internal/cmd/options.go: flags in the form {key}={value}, and the
-- logging options, with the logger of internal/trace/context.go.
pub mod Laws
use notation.Base.{
  Bool, true, false, not, ◌||◌, Option, none, some, List, [], ◌∷◌, ◌++◌, is_empty, if◌then◌else◌,
  Text, codes, Result, ok, err, new,
}
use notation.Base.Strings.{cut}
use notation.Base.Dict.{Dict, insert}

-- The error's text.
pub bad_pair : Text → Text
bad_pair flag_name =
    codes "could not parse flag "
    ++ flag_name
    ++ codes ": key-value pair requires \"=\" as separator"

-- The loop of `ParseFlagMap`, from the map built so far.
unfoldable pub parse_pairs : Dict → List Text → Text → Result Dict
parse_pairs m [] flag_name = ok m
parse_pairs m (pair ∷ c) flag_name =
    let (key, val, found) = cut b'=' pair in
    let rest = parse_pairs (insert key val m) c flag_name in
    if not found || is_empty key || is_empty val then err (new (bad_pair flag_name)) else rest

-- `ParseFlagMap`
unfoldable pub parse_flag_map : List Text → Text → Result Dict
unfolding parse_pairs
parse_flag_map c flag_name = parse_pairs [] c flag_name

-- `LoggingFlagOpts`
pub record LoggingFlagOpts : Type 0 where
  pub debug : Bool
  pub verbose : Bool

pub data Level : Type 0 where
  debug_level info_level : Level

-- `SetLoggerLevel`: the level of the new logger, or none where the context is kept.
unfoldable pub set_logger_level : LoggingFlagOpts → Option Level
set_logger_level opts =
    if opts.debug then some debug_level else if opts.verbose then some info_level else none

-- The logger that `WithLoggerLevel` of internal/trace/context.go puts into the context.
pub record Logger : Type 0 where
  pub level : Level
  pub full_timestamp : Bool
  pub disable_timestamp : Bool

-- `WithLoggerLevel`
unfoldable pub with_logger_level : Level → Logger
with_logger_level debug_level = record {
  level = debug_level;
  full_timestamp = true;
  disable_timestamp = false;
}
with_logger_level info_level = record {
  level = info_level;
  full_timestamp = false;
  disable_timestamp = true;
}
