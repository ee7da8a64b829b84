-- ===== src/Tests/Once.antt =====
-- Runs of pkg/configutil/once.go. The world outside counts how often the config was loaded.
use notation.Base.{◌≡◌, ℕ, ◌+◌, true, none, some, [], ◌∷◌, new, replicate}
use notation.Auth.Once.{Loaded, failed, Shared, at_start, load_calls, store_loaded}
use notation.Auth.Once.Laws.{load_calls-once}

-- A file that cannot be parsed.
abbrev load : ℕ → Loaded × ℕ
load count = (failed none (new (b'j' ∷ [])), count + 1)

abbrev after : Shared ℕ
after = record { done = true; config_info = none; ext = 1 }

load_calls-once_example :
    load_calls load 3 (at_start 0)
    ≡ ((none, some (new (b'j' ∷ []))) ∷ replicate 2 (none, none), after)
unfolding store_loaded
load_calls-once_example = load_calls-once load 2 0
