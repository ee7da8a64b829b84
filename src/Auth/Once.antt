-- ===== src/Auth/Once.antt =====
-- The calls of `LoadConfigOnce` of pkg/configutil/once.go over a run, which share two variables.
pub mod Laws
use notation.Base.{
  ℕ, zero, suc, Bool, true, false, Option, none, some, List, [], ◌∷◌, if◌then◌else◌,
}
use notation.Base.Errors.{Fault}
use notation.Auth.{Config, Answer, with_format}

-- What config.LoadConfig returns: a config, or an error with the pointer beside it.
pub data Loaded : Type 0 where
  loaded : Config → Loaded
  failed : Option Config → Fault → Loaded

-- `configOnce`, whether it has run; `configInfo`; and what else config.LoadConfig acts on.
pub record Shared (S : Type 0) : Type 0 where
  pub done : Bool
  pub config_info : Option Config
  pub ext : S

-- Before the first call.
abbrev pub at_start : {S : Type 0} → S → Shared S
at_start s = record { done = false; config_info = none; ext = s }

module _ {S : Type 0} where
  -- What the function that is done once leaves in `configInfo` and in its caller's `err`.
  unfoldable pub store_loaded : Loaded → S → (Option Fault) × Shared S
  store_loaded (loaded c) s =
      (none, record { done = true; config_info = some (with_format c); ext = s })
  store_loaded (failed p e) s = (some e, record { done = true; config_info = p; ext = s })

  module _ (load : S → Loaded × S) where
    -- `LoadConfigOnce`
    unfoldable pub load_once : Shared S → Answer × Shared S
    unfolding store_loaded
    load_once st =
        if st.done
        then ((st.config_info, none), st)
        else (let (r, s) = load st.ext in
            let (e, st') = store_loaded r s in ((st'.config_info, e), st'))

    -- The answers of a number of calls.
    unfoldable pub load_calls : ℕ → Shared S → List Answer × Shared S
    unfolding load_once
    load_calls zero st = ([], st)
    load_calls (suc n) st =
        let (a, st') = load_once st in let (answers, st'') = load_calls n st' in (a ∷ answers, st'')
