-- ===== src/Tests/Trace.antt =====
-- Runs of internal/trace/transport.go, over a transport that answers every request.
use notation.Base.{
  ◌≡◌, refl, inl, inr, some, Option, List, [], ◌∷◌, Text, codes, Result, ok, bytes_eq,
}
use notation.Base.Errors.{Fault}
use notation.Base.Strings.{equal_fold, to_lower}
use notation.Trace.{Header, Request, Response, round_trip}
use notation.Trace.Laws.{Agree, round_trip-Agree}

abbrev secret : List Text → Header
secret values = (codes "authorization", values) ∷ (b'a' ∷ [], (b'1' ∷ []) ∷ []) ∷ []

abbrev request : List Text → Request
request values = record { method = codes "GET"; url = b'u' ∷ []; header = secret values }

abbrev base : Request → Text → Result (Option Response) × Text
base req s = (ok (some (record { status = codes "200 OK"; header = [] })), b'x' ∷ s)

abbrev bad_verb : Fault → Text
bad_verb e = []

one_secret : Agree (secret ((b'p' ∷ []) ∷ [])) (secret ((b'q' ∷ []) ∷ []))
unfolding equal_fold to_lower codes bytes_eq
one_secret = (refl, inl refl, (refl, inr refl, tt))

round_trip-Agree_example :
    ((round_trip bad_verb base (request ((b'p' ∷ []) ∷ [])) []).1
      ≡ (base (request ((b'p' ∷ []) ∷ [])) []).0)
    × ((round_trip bad_verb base (request ((b'p' ∷ []) ∷ [])) []).2
        ≡ (base (request ((b'p' ∷ []) ∷ [])) []).1)
    × ((round_trip bad_verb base (request ((b'p' ∷ []) ∷ [])) []).0
        ≡ (round_trip bad_verb base (request ((b'q' ∷ []) ∷ [])) []).0)
round_trip-Agree_example =
    round_trip-Agree bad_verb base (request ((b'p' ∷ []) ∷ [])) (request ((b'q' ∷ []) ∷ [])) [] []
      refl refl one_secret refl
