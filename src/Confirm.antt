-- ===== src/Confirm.antt =====
-- cmd/notation/internal/cmdutil/confirmation.go.
use notation.Base.{
  refl, inl, inr, ◌≡◌, ◌↔◌, ◌⊎◌, Bool, true, false, ◌||◌, Option, none, some, ◌++◌, ◌==◌, text_eq,
  Text, codes, Result, ok, err, arith, if◌then◌else◌,
}
use notation.Base.Strings.{to_lower}
use notation.Base.Exec.{Cmd, World, pure, print, done, lift, branch, ◌>>=◌, ◌>>◌}

-- What bufio.Scanner makes of stdin: a line, the end of the input, or an error.
abbrev pub Input : Type 0
Input = Result (Option Text)

answer : Input → Result Bool × Bool
answer (err e) = (err e, false)
answer (ok none) = (ok false, false)
answer (ok (some response)) =
    if to_lower response == codes "y" || to_lower response == codes "yes"
    then (ok true, false)
    else (ok false, true)

-- `AskForConfirmation`
unfoldable pub ask_for_confirmation : {S : Type 0} → Input → Text → Bool → Cmd S Bool
unfolding answer
ask_for_confirmation input prompt true = pure true
ask_for_confirmation input prompt false = do
  print (prompt ++ codes " [y/N] ")
  branch (answer input).1 (print (codes "Operation cancelled.\n")) done
  lift (answer input).0

-- The answers that confirm.
abbrev pub IsYes : Input → Type 0
IsYes (err e) = ⊥
IsYes (ok none) = ⊥
IsYes (ok (some response)) =
    (to_lower response == codes "y" || to_lower response == codes "yes") ≡ true

-- An action is confirmed exactly if the flag says so or the next line of stdin is "y" or "yes", in
-- any case of letters; and asking changes nothing outside.
pub ask_for_confirmation-true :
    {S : Type 0} (input : Input) (prompt : Text) (confirmed : Bool) (w : World S)
    → (((ask_for_confirmation input prompt confirmed w).0 ≡ ok true)
        ↔ ((confirmed ≡ true) ⊎ IsYes input))
      × ((ask_for_confirmation input prompt confirmed w).1.ext ≡ w.ext)
unfolding ask_for_confirmation ◌>>=◌
ask_for_confirmation-true input prompt true w = ((λ h. inl refl, λ h. refl), refl)
ask_for_confirmation-true (err e) prompt false w = ((λ h. absurd (cc), λ h. ground arith), refl)
ask_for_confirmation-true (ok none) prompt false w = ((λ h. absurd (cc), λ h. ground arith), refl)
ask_for_confirmation-true (ok (some t)) prompt false w =
    ((λ h. inr (ground arith), λ h. ground arith), ground arith)
