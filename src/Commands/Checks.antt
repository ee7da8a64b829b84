-- ===== src/Commands/Checks.antt =====
-- What cobra and pflag ask of the commands and flags of a program. On anything else they panic
-- while the program starts, or leave a mark on a flag undone.
use notation.Base.{
  Bool, true, false, not, ◌&&◌, List, [], ◌∷◌, ◌++◌, is_empty, ◌==◌, nat_eq, text_eq, contains,
  if◌then◌else◌, Text, codes,
}
use notation.Base.Strings.{has_prefix}
use notation.Experimental.{is_disabled}
use notation.Commands.{Flag, Command, CommandTree, below, CommandForest, nil, cons}

-- No text stands twice in the list.
unfoldable pub distinct : List Text → Bool
unfolding contains
distinct [] = true
distinct (t ∷ ts) = not (contains ts t) && distinct ts

unfoldable pub all_known : List Text → List Text → Bool
unfolding contains
all_known known [] = true
all_known known (t ∷ ts) = contains known t && all_known known ts

unfoldable pub all_groups_known : List Text → List (List Text) → Bool
unfolding all_known
all_groups_known known [] = true
all_groups_known known (g ∷ gs) = all_known known g && all_groups_known known gs

unfoldable pub flag_names : List Flag → List Text
flag_names [] = []
flag_names (f ∷ fs) = f.name ∷ flag_names fs

-- The shorthands that are given.
unfoldable pub shorthands : List Flag → List Text
shorthands [] = []
shorthands (f ∷ fs) =
    let rest = shorthands fs in if is_empty f.shorthand then rest else f.shorthand ∷ rest

is_letter : Text → Bool
is_letter (c ∷ []) = true
is_letter _ = false

unfoldable pub all_letters : List Text → Bool
unfolding is_letter
all_letters [] = true
all_letters (t ∷ ts) = is_letter t && all_letters ts

-- No two flags of one name or one shorthand, the flag --help (-h) of cobra counted; shorthands of
-- one byte; marks and groups on flags that exist.
unfoldable pub well_formed : Command → Bool
unfolding distinct all_known all_groups_known flag_names shorthands all_letters
well_formed c =
    distinct (codes "help" ∷ flag_names c.flags)
    && distinct (codes "h" ∷ shorthands c.flags)
    && all_letters (shorthands c.flags)
    && all_known (flag_names c.flags) (c.required ++ c.hidden)
    && all_groups_known (flag_names c.flags) (c.together ++ c.exclusive)

-- The flags whose help begins with "[Experimental]"
unfoldable pub experimental_flags : List Flag → List Text
unfolding has_prefix
experimental_flags [] = []
experimental_flags (f ∷ fs) =
    let rest = experimental_flags fs in
    if has_prefix (codes "[Experimental]") f.usage then f.name ∷ rest else rest

-- The help hides the flags marked as experimental while experimental features are off, and no
-- other.
unfoldable pub hides_experimental : Text → Command → Bool
unfolding is_disabled experimental_flags all_known
hides_experimental env c =
    let expected = if is_disabled env then experimental_flags c.flags else [] in
    all_known expected c.hidden && all_known c.hidden expected

unfoldable pub is_sound : Text → Command → Bool
unfolding well_formed hides_experimental
is_sound env c = well_formed c && hides_experimental env c

-- The first word of the usage line is the name of the command.
unfoldable pub command_name : Text → Text
command_name [] = []
command_name (c ∷ cs) = let rest = command_name cs in if c == b' ' then [] else c ∷ rest

unfoldable mutual
  -- A test holds of all commands of the tree.
  pub all_commands : (Command → Bool) → CommandTree → Bool
  all_commands p (below c cs) = p c && all_below p cs

  pub all_below : (Command → Bool) → CommandForest → Bool
  all_below p nil = true
  all_below p (cons t ts) = all_commands p t && all_below p ts

-- The words by which cobra finds a command among those beside it.
unfoldable pub words : CommandForest → List Text
unfolding command_name
words nil = []
words (cons (below c cs) ts) = (command_name c.use_line ∷ c.aliases) ++ words ts

unfoldable mutual
  unfolding distinct words

  -- Each word selects one command, at all levels.
  pub unambiguous : CommandTree → Bool
  unambiguous (below c cs) = distinct (words cs) && unambiguous_below cs

  pub unambiguous_below : CommandForest → Bool
  unambiguous_below nil = true
  unambiguous_below (cons t ts) = unambiguous t && unambiguous_below ts
