-- ===== src/Base/Encodings.antt =====
-- Numbers and bytes as text: strconv.FormatInt in base 10, hex.EncodeToString and the standard
-- encoding of base64.
use Prim.Native.Nat.{ℕ, zero, suc, ◌+◌, ◌*◌, ◌/◌, ◌%◌}
use mathlib.Core.Bool.{true, false}
use mathlib.Core.List.{[], ◌∷◌}
use notation.Base.Tests.{◌==◌, nat_eq, ltb, if◌then◌else◌}
use notation.Base.Strings.{Text}

-- The digits of `n` in front of `acc`; a number below the fuel has no more digits than that.
digits : ℕ → ℕ → Text → Text
digits zero n acc = acc
digits (suc fuel) n acc = elim (n / 10 == 0) [
  | true ↦ (48 + n % 10) ∷ acc
  | false ↦ digits fuel (n / 10) ((48 + n % 10) ∷ acc)
]

unfoldable pub decimal : ℕ → Text
unfolding digits
decimal n = digits (suc n) n []

unfoldable pub hex_digit : ℕ → ℕ
hex_digit d = if ltb d 10 then b'0' + d else 87 + d

unfoldable pub hex : Text → Text
unfolding hex_digit
hex [] = []
hex (x ∷ s) = hex_digit (x / 16) ∷ hex_digit (x % 16) ∷ hex s

-- The alphabet A-Z, a-z, 0-9, "+" and "/".
sextet : ℕ → ℕ
sextet n =
    if ltb n 26
    then b'A' + n
    else if ltb n 52
    then 71 + n
    else if ltb n 62
    then n % 52 + b'0'
    else if n == 62
    then b'+'
    else b'/'

unfoldable pub base64 : Text → Text
unfolding sextet
base64 [] = []
base64 (x ∷ []) = sextet (x / 4) ∷ sextet (x % 4 * 16) ∷ b'=' ∷ b'=' ∷ []
base64 (x ∷ y ∷ []) =
    sextet (x / 4) ∷ sextet (x % 4 * 16 + y / 16) ∷ sextet (y % 16 * 4) ∷ b'=' ∷ []
base64 (x ∷ y ∷ z ∷ s) =
    sextet (x / 4)
    ∷ sextet (x % 4 * 16 + y / 16)
    ∷ sextet (y % 16 * 4 + z / 64)
    ∷ sextet (z % 64)
    ∷ base64 s
