-- ===== src/Policy/Imports.antt =====
-- Imports that do not ask, and what `notation policy show` prints after an import.
use notation.Base.{
  ◌≡◌, refl, sym, ap, ◌∙◌, inl, inr, true, false, none, some, [], ◌∷◌, ◌++◌, arith, Text, ok, err,
}
use notation.Base.Errors.{Fault}
use notation.Base.Exec.{World, act, lift, bind-ok}
use notation.Disk.{file, Disk, read_op, look}
use notation.Disk.Paths.{FilePath}
use notation.Disk.Files.{read_file}
use notation.Policy.{
  PolicyLib, ask_to_overwrite, may_overwrite, imported, run_import, warn_invalid, run_show,
}
use notation.Policy.Laws.{IsImported, import_from-IsImported, run_import-ok, explaining_ok}

module _ {Document : Type 0} (lib : PolicyLib Document) where
  unasked :
      (w : World Disk) {e : Fault}
      → lib.load_document w.ext ≡ err e
      → may_overwrite lib false w ≡ (ok true, w)
  unfolding may_overwrite ask_to_overwrite
  unasked w h = rw (ask_to_overwrite, h) refl

  -- Without --force too, a policy that is there but cannot be loaded, for whatever reason, is
  -- overwritten by a successful import without a question: nothing but the message of success is
  -- printed.
  pub run_import-unasked :
      (file_path : Text) (w w' : World Disk) {x : Unit {0}} {e : Fault}
      → lib.load_document w.ext ≡ err e
      → run_import lib (record { file_path = file_path; force = false }) w ≡ (ok x, w')
      → IsImported lib (lib.locate file_path) w w' × (w'.stdout ≡ w.stdout ++ imported ∷ [])
  unfolding run_import
  run_import-unasked file_path w w' unloadable h =
      import_from-IsImported lib (lib.locate file_path) w w'
        (sym (bind-ok (may_overwrite lib false) _ w true w (unasked w unloadable)) ∙ h)

  read_back :
      (path : FilePath) (text : Text) (w : World Disk)
      → look path w.ext ≡ some (file text)
      → lib.denied read_op path ≡ none
      → act (read_file lib.denied path) w ≡ (ok text, w)
  unfolding read_file
  read_back path text w there readable = ground arith

  -- After a successful import with --force, `notation policy show` prints the bytes of the
  -- imported file, without any warning, if the system lets it read the policy.
  pub run_import-run_show :
      (file_path : Text) (w w' : World Disk) {x : Unit {0}} (text : Text)
      → look (lib.locate file_path) w.ext ≡ some (file text)
      → ((path : FilePath) → lib.policy_path ≡ ok path → lib.denied read_op path ≡ none)
      → run_import lib (record { file_path = file_path; force = true }) w ≡ (ok x, w')
      → run_show lib w' ≡ (ok tt, record w' { stdout = w'.stdout ++ text ∷ [] })
  unfolding run_show warn_invalid
  run_import-run_show file_path w w' text given readable h = elim (run_import-ok lib _ w w' h) [
    | inl declined ↦ absurd (let f = declined.asked in cc)
    | inr i ↦
        let same : i.text ≡ text = let e = i.given in cc in
        bind-ok _ _ w' i.path w' (explaining_ok _ (lift lib.policy_path) w' (rw i.known refl))
        ∙ bind-ok _ _ w' i.text w' (
            explaining_ok _ (act (read_file lib.denied i.path)) w'
              (read_back i.path i.text w' i.policy (readable i.path i.known)))
        ∙ bind-ok _ _ w' tt w' (rw i.valid refl)
        ∙ ap (λ (t : Text). (ok tt, record w' { stdout = w'.stdout ++ t ∷ [] })) same
  ]
