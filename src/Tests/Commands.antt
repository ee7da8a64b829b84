-- ===== src/Tests/Commands.antt =====
-- Runs of the set-up of the commands, with a cobra that tells of an error by its text.
use notation.Base.{
  List, false, if◌then◌else◌, arith, ◌≡◌, refl, ap, ◌∙◌, Bool, true, [], ◌∷◌, ◌++◌, ◌==◌, text_eq,
  Text, codes, Result, ok, err, new, bytes_eq,
}
use notation.Base.Errors.{error_text}
use notation.Base.Exec.{Cmd, World, continue, ◌>>=◌, bind-err, bind-inv}
use notation.Auth.{Config}
use notation.Experimental.Laws.{any_changed}
use notation.Commands.{Handlers}
use notation.Commands.Checks.{is_sound, all_commands, unambiguous, experimental_flags}
use notation.Commands.Artifacts.{sign_command, verify_command}
use notation.Commands.Root.{root_command}
use notation.Commands.Laws.{root_command-is_sound}
use notation.Commands.Runs.{HasRun, Cobra, help, sign_handlers, verify_handlers}
use notation.Commands.Gate.{IsRefused, sign_handlers-IsRefused, verify_handlers-IsRefused}
use notation.Tests.Manifest.{start, tag}
use notation.Tests.Registry.{settings}
use notation.Tests.Sign.{lib as sign_lib, opts as sign_opts}
use notation.Tests.Verify.{lib as verify_lib, opts as verify_opts}

abbrev no_config : Result Config
no_config = err (new [])

root_command-is_sound_example :
    (all_commands (is_sound []) (root_command [] no_config) ≡ true)
    × (unambiguous (root_command [] no_config) ≡ true)
root_command-is_sound_example = root_command-is_sound [] no_config

abbrev told : {S : Type 0} → Result (Unit {0}) × World S → Result (Unit {0}) × World S
told (ok u, w) = (ok u, w)
told (err e, w) = (err e, record w { stderr = w.stderr ++ error_text e ∷ [] })

abbrev stages : {S Opts : Type 0} → Handlers S Opts → Opts → Cmd S (Unit {0})
stages h given = h.pre_run given >>= h.run

told_inv :
    {S : Type 0} (p : Result (Unit {0}) × World S) {w' : World S}
    → told p ≡ (ok tt, w')
    → p ≡ (ok tt, w')
told_inv (ok u, w) h = h
told_inv (err e, w) h = absurd (cc)

went :
    {S Opts : Type 0} (h : Handlers S Opts) (r : Result Opts) (w : World S) (argv : List Text)
    (opts : Opts) {w' : World S}
    → h.args argv opts ≡ r
    → continue r (stages h) w ≡ (ok tt, w')
    → HasRun h argv opts w w'
went h (ok given) w argv opts e good =
    let r = bind-inv (h.pre_run given) h.run w good in
    record {
      given = given;
      ready = r.value;
      mid = r.mid;
      args_ok = e;
      pre_run_ok = r.first;
      run_ok = r.second;
    }
went h (err x) w argv opts e good = absurd (cc)

asked :
    {A : Type 0} (changed : Text → Bool) (a b : A) {c : A}
    → changed help ≡ false
    → (if changed help then a else b) ≡ c
    → b ≡ c
asked changed a b no_help h = ground arith

abbrev cobra : {S Opts : Type 0} → Cobra S Opts
cobra = record {
  execute = λ changed h argv opts w.
      if changed help
      then (ok tt, record w { stdout = w.stdout ++ help ∷ [] })
      else told (continue (h.args argv opts) (stages h) w);
  complaint = λ e. error_text e ∷ [];
  args_fail = λ changed h argv opts e w no_help bad. rw (no_help, bad) refl;
  pre_run_fail = λ changed h argv opts given e w w' no_help good bad. rw no_help (
      ap (λ r. told (continue r (stages h) w)) good
      ∙ ap told (bind-err (h.pre_run given) h.run w e w' bad));
  success = λ changed h argv opts w w' no_help good.
      went h (h.args argv opts) w argv opts refl (told_inv _ (asked changed _ _ no_help good));
}

-- The flag --oci-layout was set, and nothing else.
abbrev changed : Text → Bool
changed flag = flag == codes "oci-layout"

sign_handlers-IsRefused_example :
    IsRefused
      (cobra.execute changed (sign_handlers sign_lib settings [] changed []) (tag ∷ []) sign_opts)
      start
unfolding any_changed experimental_flags sign_command codes bytes_eq
sign_handlers-IsRefused_example =
    sign_handlers-IsRefused [] [] changed start refl refl sign_lib settings cobra no_config
      (tag ∷ []) sign_opts refl

verify_handlers-IsRefused_applied :
    IsRefused
      (cobra.execute changed
        (verify_handlers verify_lib settings [] changed [])
        (tag ∷ [])
        verify_opts)
      start
unfolding any_changed experimental_flags verify_command codes bytes_eq
verify_handlers-IsRefused_applied =
    verify_handlers-IsRefused [] [] changed start refl refl verify_lib settings cobra (tag ∷ [])
      verify_opts refl

-- No flag of the experimental ones was set.
abbrev unchanged : Text → Bool
unchanged flag = false
