-- ===== src/Commands/Laws.antt =====
-- The set-up of all commands.
use notation.Base.{◌≡◌, Bool, true, [], text_eq, Text, codes, Result, Bool-cases}
use notation.Auth.{Config}
use notation.Experimental.{is_disabled}
use mathlib.Core.Logic.{inl, inr}
use notation.Commands.Checks.{is_sound, all_commands, unambiguous}
use notation.Commands.Root.{root_command}

-- For every value of NOTATION_EXPERIMENTAL and every configuration, the set-up of each command
-- of the program is one that cobra and pflag accept: no two of its flags have one name or one
-- shorthand, none of them those of --help; every shorthand is one byte; every flag that is marked
-- as required, hidden or in a group is a flag of the command. The help hides the flags marked as
-- experimental unless the variable is "1", and no other flag; and among the commands at one place
-- of the tree each name or alias selects one command.
pub root_command-is_sound :
    (env : Text) (config : Result Config)
    → (all_commands (is_sound env) (root_command env config) ≡ true)
      × (unambiguous (root_command env config) ≡ true)
unfolding root_command unambiguous all_commands is_sound codes notation.Base.bytes_eq
root_command-is_sound env config = elim (Bool-cases (is_disabled env)) [
  | inl h ↦ (rw h, rw h)
  | inr h ↦ (rw h, rw h)
]
