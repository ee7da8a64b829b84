-- ===== src/Trace.antt =====
-- internal/trace/transport.go: the log of HTTP requests and responses. The transport below is a
-- parameter, and so is what package fmt prints of an error under the verb %w.
pub mod Laws
use notation.Base.{
  Option, none, some, List, [], ◌∷◌, ◌++◌, if◌then◌else◌, Text, codes, Result, ok, err, arith,
}
use notation.Base.Errors.{Fault}
use notation.Base.Strings.{equal_fold, join, quote}

-- http.Header, as the list of its entries in the order in which Go walks the map
abbrev pub Header : Type 0
Header = List (Text × List Text)

-- http.Request and http.Response, the fields that are read
pub record Request : Type 0 where
  pub method : Text
  pub url : Text
  pub header : Header

pub record Response : Type 0 where
  pub status : Text
  pub header : Header

-- What the logger is given.
pub data Line : Type 0 where
  debug error : Text → Line

-- The values of a header as they are logged.
unfoldable pub scrub : Text → List Text → List Text
scrub k v = if equal_fold k (codes "Authorization") then codes "*****" ∷ [] else v

unfoldable pub log_entries : Header → List Line
log_entries [] = []
log_entries ((k, v) ∷ header) =
    debug (codes "   " ++ quote k ++ codes ": " ++ quote (join (codes ", ") (scrub k v)))
    ∷ log_entries header

-- `logHeader`
unfoldable pub log_header : Header → List Line
unfolding log_entries scrub
log_header [] = debug (codes "   Empty header") ∷ []
log_header (entry ∷ header) = log_entries (entry ∷ header)

module _ {S : Type 0} (bad_verb : Fault → Text)
    (base : Request → S → Result (Option Response) × S) where
  unfoldable pub log_request : Request → List Line
  log_request req =
      debug (codes "> Request: " ++ quote req.method ++ codes " " ++ quote req.url)
      ∷ debug (codes "> Request headers:")
      ∷ log_header req.header

  unfoldable pub log_response : Text → Text → Result (Option Response) → List Line
  log_response method url (err e) = error (codes "Error in getting response: " ++ bad_verb e) ∷ []
  log_response method url (ok none) =
      error (codes "No response obtained for request " ++ method ++ codes " " ++ quote url) ∷ []
  log_response method url (ok (some resp)) =
      debug (codes "< Response status: " ++ quote resp.status)
      ∷ debug (codes "< Response headers:")
      ∷ log_header resp.header

  -- `RoundTrip`: the log, and what is returned
  unfoldable pub round_trip : Request → S → List Line × Result (Option Response) × S
  unfolding log_request log_response
  round_trip req s =
      let (r, s') = base req s in (log_request req ++ log_response req.method req.url r, r, s')
