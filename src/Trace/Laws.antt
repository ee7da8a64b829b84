-- ===== src/Trace/Laws.antt =====
-- What the log of HTTP requests holds.
use notation.Base.{
  ◌≡◌, refl, ap, ◌⊎◌, inl, inr, true, Option, List, [], ◌∷◌, Text, codes, Result, arith,
}
use notation.Base.Errors.{Fault}
use notation.Base.Strings.{equal_fold}
use notation.Trace.{Header, Request, Response, scrub, log_entries, log_header, round_trip}

-- Two headers with the same names in the same order, and with the same values but for those of the
-- name "Authorization", in any case of letters.
abbrev pub Agree : Header → Header → Type 0
Agree [] [] = Unit
Agree [] (h ∷ t) = ⊥
Agree (h ∷ t) [] = ⊥
Agree ((k, v) ∷ t) ((k', v') ∷ t') =
    (k ≡ k') × ((equal_fold k (codes "Authorization") ≡ true) ⊎ (v ≡ v')) × Agree t t'

scrub-Agree :
    (k : Text) (v v' : List Text)
    → (equal_fold k (codes "Authorization") ≡ true) ⊎ (v ≡ v')
    → scrub k v ≡ scrub k v'
unfolding scrub
scrub-Agree k v v' (inl secret) = ground arith
scrub-Agree k v v' (inr same) = ap (scrub k) same

log_entries-Agree : (h h' : Header) → Agree h h' → log_entries h ≡ log_entries h'
unfolding log_entries
log_entries-Agree [] [] a = refl
log_entries-Agree [] (h ∷ t) a = absurd a
log_entries-Agree (h ∷ t) [] a = absurd a
log_entries-Agree ((k, v) ∷ t) ((k', v') ∷ t') (name, values, rest) =
    cc (name, scrub-Agree k v v' values, log_entries-Agree t t' rest)

log_header-Agree : (h h' : Header) → Agree h h' → log_header h ≡ log_header h'
unfolding log_header
log_header-Agree [] [] a = refl
log_header-Agree [] (h ∷ t) a = absurd a
log_header-Agree (h ∷ t) [] a = absurd a
log_header-Agree (h ∷ t) (h' ∷ t') a = log_entries-Agree (h ∷ t) (h' ∷ t') a

module _ {S : Type 0} (bad_verb : Fault → Text)
    (base : Request → S → Result (Option Response) × S) where
  -- Tracing hands the request to the transport below and returns what that returns, unchanged; and
  -- the log tells nothing of the values of Authorization headers: requests that differ in these
  -- alone, and get the same answer, leave the same log.
  pub round_trip-Agree :
      (req req' : Request) (s s' : S)
      → req.method ≡ req'.method
      → req.url ≡ req'.url
      → Agree req.header req'.header
      → (base req s).0 ≡ (base req' s').0
      → ((round_trip bad_verb base req s).1 ≡ (base req s).0)
        × ((round_trip bad_verb base req s).2 ≡ (base req s).1)
        × ((round_trip bad_verb base req s).0 ≡ (round_trip bad_verb base req' s').0)
  unfolding round_trip
  round_trip-Agree req req' s s' same_method same_url agree answer = (
    refl,
    refl,
    cc (same_method, same_url, log_header-Agree req.header req'.header agree, answer),
  )
