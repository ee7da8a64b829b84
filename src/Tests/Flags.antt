-- ===== src/Tests/Flags.antt =====
-- Runs of internal/cmd/flags.go.
use notation.Base.{◌≡◌, refl, List, [], ◌∷◌, All, Text, ok, err, new, bytes_eq, contains}
use notation.Base.Dict.{lookup, insert}
use notation.Base.Strings.{cut}
use notation.Flags.{bad_pair, parse_flag_map}
use notation.Flags.Laws.{
  IsPair, IsFlag, last_value, assign, parse_flag_map-ok, parse_flag_map-write, parse_flag_map-err,
}

abbrev a_is_1 : Text
a_is_1 = b'a' ∷ b'=' ∷ b'1' ∷ []

abbrev a_is_2 : Text
a_is_2 = b'a' ∷ b'=' ∷ b'2' ∷ []

abbrev b_has_equals : Text
b_has_equals = b'b' ∷ b'=' ∷ b'x' ∷ b'=' ∷ []

abbrev flags : List Text
flags = a_is_1 ∷ b_has_equals ∷ a_is_2 ∷ []

abbrev name : Text
name = b'm' ∷ []

abbrev parsed : List (Text × Text)
parsed = (b'a' ∷ [], b'2' ∷ []) ∷ (b'b' ∷ [], b'x' ∷ b'=' ∷ []) ∷ []

parse_flag_map_test : parse_flag_map flags name ≡ ok parsed
unfolding parse_flag_map cut insert bytes_eq
parse_flag_map_test = refl

parse_flag_map-ok_example : All IsFlag flags × ((k : Text) → lookup k parsed ≡ last_value k flags)
parse_flag_map-ok_example = parse_flag_map-ok flags name parsed parse_flag_map_test

abbrev pairs : List (Text × Text)
pairs = (b'a' ∷ [], b'1' ∷ []) ∷ (b'b' ∷ [], b'x' ∷ b'=' ∷ []) ∷ []

pairs-All : All IsPair pairs
unfolding contains
pairs-All = (
  record { key = refl; val = refl; lacks = refl },
  (record { key = refl; val = refl; lacks = refl }, tt),
)

parse_flag_map-write_applied :
    parse_flag_map (a_is_1 ∷ b_has_equals ∷ []) name ≡ ok (assign [] pairs)
parse_flag_map-write_applied = parse_flag_map-write pairs name pairs-All

no_equals : ¬ IsFlag (b'a' ∷ [])
no_equals ((([], val), e, p)) = absurd (cc)
no_equals (((x ∷ [], val), e, p)) = absurd (cc)
no_equals (((x ∷ y ∷ key, val), e, p)) = absurd (cc)

parse_flag_map-err_applied :
    parse_flag_map (a_is_1 ∷ (b'a' ∷ []) ∷ a_is_2 ∷ []) name ≡ err (new (bad_pair name))
parse_flag_map-err_applied =
    parse_flag_map-err (a_is_1 ∷ []) (b'a' ∷ []) (a_is_2 ∷ []) name no_equals
