-- ===== src/Login/Lines.antt =====
-- `readLine` of cmd/notation/login.go: a line ending after the password is no part of it.
use notation.Base.{
  ◌≡◌, refl, ap, sym, ◌∙◌, ℕ, Bool, false, [], ◌∷◌, ◌++◌, arith, ◌==◌, nat_eq, Text,
}
use mathlib.Core.List.{append_assoc}
use notation.Base.Strings.{trim_suffix}
use notation.Login.{read_line}

unfoldable pub ends_with : ℕ → Text → Bool
ends_with c [] = false
ends_with c (x ∷ []) = x == c
ends_with c (x ∷ y ∷ s) = ends_with c (y ∷ s)

trim_suffix-append : (c : ℕ) (s : Text) → trim_suffix c (s ++ c ∷ []) ≡ s
unfolding trim_suffix
trim_suffix-append c [] = ground arith
trim_suffix-append c (x ∷ []) = ap (λ (t : Text). x ∷ t) (trim_suffix-append c [])
trim_suffix-append c (x ∷ y ∷ s) = ap (λ (t : Text). x ∷ t) (trim_suffix-append c (y ∷ s))

trim_suffix-other : (c : ℕ) (s : Text) → ends_with c s ≡ false → trim_suffix c s ≡ s
unfolding trim_suffix ends_with
trim_suffix-other c [] h = refl
trim_suffix-other c (x ∷ []) h = ground arith
trim_suffix-other c (x ∷ y ∷ s) h = ap (λ (t : Text). x ∷ t) (trim_suffix-other c (y ∷ s) h)

-- A password that ends neither in a carriage return nor in a newline is read back from stdin,
-- whether a newline follows it, a carriage return and a newline, or nothing.
pub read_line-append :
    (password : Text)
    → ends_with 13 password ≡ false
    → ends_with 10 password ≡ false
    → (read_line password ≡ password)
      × (read_line (password ++ 10 ∷ []) ≡ password)
      × (read_line (password ++ 13 ∷ 10 ∷ []) ≡ password)
unfolding read_line
read_line-append password cr lf =
    let same = trim_suffix-other 13 password cr in
    (
      ap (trim_suffix 13) (trim_suffix-other 10 password lf) ∙ same,
      ap (trim_suffix 13) (trim_suffix-append 10 password) ∙ same,
      ap (λ (t : Text). trim_suffix 13 (trim_suffix 10 t))
            (sym (append_assoc password (13 ∷ []) (10 ∷ [])))
          ∙ ap (trim_suffix 13) (trim_suffix-append 10 (password ++ 13 ∷ []))
          ∙ trim_suffix-append 13 password,
    )
