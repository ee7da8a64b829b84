-- ===== src/Auth/Once/Laws.antt =====
-- What the callers of `LoadConfigOnce` see, the first one and the others.
use notation.Base.{
  ◌≡◌, refl, ap, ◌∙◌, ℕ, zero, suc, Bool, true, Option, none, some, List, ◌∷◌, false, Text,
  replicate,
}
use notation.Auth.{Config, Answer, any_equal_fold}
use notation.Auth.Once.{
  Loaded, loaded, failed, Shared, at_start, load_once, load_calls, store_loaded,
}

module _ {S : Type 0} (load : S → Loaded × S) where
  done_after : (r : Loaded) (s : S) → (store_loaded r s).1.done ≡ true
  unfolding store_loaded
  done_after (loaded c) s = refl
  done_after (failed p e) s = refl

  -- Once it is done, a call changes nothing.
  again : (st : Shared S) → st.done ≡ true → load_once load st ≡ ((st.config_info, none), st)
  unfolding load_once
  again st h = rw h refl

  calls_again :
      (n : ℕ) (st : Shared S)
      → st.done ≡ true
      → load_calls load n st ≡ (replicate n (st.config_info, none), st)
  unfolding load_calls
  calls_again zero st h = refl
  calls_again (suc n) st h =
      ap
        (λ (r : Answer × Shared S).
          let (answers, st'') = load_calls load n r.1 in (r.0 ∷ answers, st''))
        (again st h)
      ∙ ap (λ (r : List Answer × Shared S). ((st.config_info, none) ∷ r.0, r.1))
          (calls_again n st h)

  -- However often `LoadConfigOnce` is called, the config is loaded once, by the first call: every
  -- other one finds the pointer that the first has stored, reports no error, even where the first
  -- did, and changes nothing.
  pub load_calls-once :
      (n : ℕ) (s : S)
      → let (r, s') = load s in
        let (e, st) = store_loaded r s' in
        load_calls load (suc n) (at_start s)
        ≡ ((st.config_info, e) ∷ replicate n (st.config_info, none), st)
  unfolding load_calls load_once
  load_calls-once n s =
      let (r, s') = load s in
      let (e, st) = store_loaded r s' in
      ap (λ (c : List Answer × Shared S). ((st.config_info, e) ∷ c.0, c.1))
        (calls_again n st (done_after r s'))

-- What `IsRegistryInsecure` answers with a config that was loaded.
abbrev pub listed_in : Config → Text → Option Bool
listed_in c target = some (any_equal_fold c.insecure_registries target)

-- What the first caller of `LoadConfigOnce` is told by `IsRegistryInsecure`, and what a later one.
abbrev pub told_first : Loaded → Text → Option Bool
told_first (loaded c) target = listed_in c target
told_first (failed p e) target = some false

abbrev pub told_later : Loaded → Text → Option Bool
told_later (loaded c) target = listed_in c target
told_later (failed (some c) e) target = listed_in c target
told_later (failed none e) target = none
