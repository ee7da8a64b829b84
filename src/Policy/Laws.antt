-- ===== src/Policy/Laws.antt =====
-- What an import of a trust policy leaves, and when it asks.
use notation.Base.{
  ◌≡◌, refl, sym, ap, subst, ◌∙◌, ◌⊎◌, inl, inr, Bool, true, false, Option, some, List, [], ◌∷◌,
  ◌++◌, arith, Text, codes, Result, ok, err, Bool-cases,
}
use notation.Base.Errors.{Fault}
use notation.Base.Exec.{
  Cmd, World, act, done, branch-true, branch-false, bind-inv, lift-inv, pair_eq, Result-cases,
  ◌>>=◌,
}
use notation.Base.Quiet.{Quiet, Quiet-stdout, quiet_rules}
use notation.Confirm.{IsYes, ask_for_confirmation, ask_for_confirmation-true}
use notation.Disk.{Entry, file, Disk, Op, look}
use notation.Disk.Paths.{FilePath, paths_eq}
use notation.Disk.Files.{read_file, write_file, look-write_file}
use notation.Policy.{
  PolicyLib, ImportOpts, explained, explaining, ask_to_overwrite, may_overwrite, import_from,
  overwrite_prompt, imported, run_import, check_policy,
}

explained_inv :
    {A : Type 0} (prefix : Text) (r : Result A) {a : A} → explained prefix r ≡ ok a → r ≡ ok a
explained_inv prefix (ok b) h = h
explained_inv prefix (err e) h = absurd (cc)

explaining_inv :
    {S A : Type 0} (prefix : Text) (m : Cmd S A) (w : World S) {a : A} {w' : World S}
    → explaining prefix m w ≡ (ok a, w')
    → m w ≡ (ok a, w')
explaining_inv {S} {A} prefix m w h =
    pair_eq (explained_inv prefix (m w).0 (ap (λ (p : Result A × World S). p.0) h))
      (ap (λ (p : Result A × World S). p.1) h)

write_file-Quiet :
    (denied : Op → FilePath → Option Fault) (path : FilePath) (t : Text)
    → Quiet (write_file denied path t)
unfolding write_file
write_file-Quiet denied path t = search quiet_rules depth 8

pub explaining_ok :
    {S A : Type 0} (prefix : Text) (m : Cmd S A) (w : World S) {a : A} {w' : World S}
    → m w ≡ (ok a, w')
    → explaining prefix m w ≡ (ok a, w')
explaining_ok {S} {A} prefix m w h = ap (λ (p : Result A × World S). (explained prefix p.0, p.1)) h

read_file_inv :
    (denied : Op → FilePath → Option Fault) (p : FilePath) (w : World Disk) {t : Text}
    {w' : World Disk}
    → act (read_file denied p) w ≡ (ok t, w')
    → (look p w.ext ≡ some (file t)) × (w ≡ w')
unfolding read_file
read_file_inv denied p w h = ground arith

module _ {Document : Type 0} (lib : PolicyLib Document) where
  -- A policy that was imported: what the file held, which is valid, is now the policy.
  pub record IsImported (source : FilePath) (w w' : World Disk) : Type 0 where
    pub text : Text
    pub path : FilePath
    pub given : look source w.ext ≡ some (file text)
    pub valid : check_policy lib text ≡ ok tt
    pub known : lib.policy_path ≡ ok path
    pub policy : look path w'.ext ≡ some (file text)
    pub kept :
        (q : FilePath) (e : Entry)
        → paths_eq q path ≡ false
        → look q w.ext ≡ some e
        → look q w'.ext ≡ some e

  -- An import that the user declined.
  pub record IsDeclined (opts : ImportOpts) (w w' : World Disk) : Type 0 where
    pub asked : opts.force ≡ false
    pub found : lib.load_document w.ext ≡ ok tt
    pub refused : ¬ IsYes lib.input
    pub same : w'.ext ≡ w.ext

  moved :
      (source : FilePath) (w v w' : World Disk)
      → v.ext ≡ w.ext
      → IsImported source v w'
      → IsImported source w w'
  moved source w v w' e i = record {
    text = i.text;
    path = i.path;
    given = ap (look source) (sym e) ∙ i.given;
    valid = i.valid;
    known = i.known;
    policy = i.policy;
    kept = λ q f n there. i.kept q f n (ap (look q) e ∙ there);
  }

  checked :
      (text : Text) {doc : Document}
      → lib.unmarshal text ≡ ok doc
      → lib.validate doc ≡ ok tt
      → check_policy lib text ≡ ok tt
  unfolding check_policy
  checked text u v = rw u v

  pub import_from-IsImported :
      (source : FilePath) (w w' : World Disk) {x : Unit {0}}
      → import_from lib source w ≡ (ok x, w')
      → IsImported source w w' × (w'.stdout ≡ w.stdout ++ imported ∷ [])
  unfolding import_from
  import_from-IsImported source w w' h =
      let r1 = bind-inv _ _ w h in
      let r2 = bind-inv _ _ r1.mid r1.second in
      let r3 = bind-inv _ _ r2.mid r2.second in
      let r4 = bind-inv _ _ r3.mid r3.second in
      let r5 = bind-inv _ _ r4.mid r4.second in
      let c1 =
        explaining_inv (codes "failed to read trust policy file: ")
          (act (read_file lib.denied source)) w r1.first in
      let d1 = read_file_inv lib.denied source w c1 in
      let c2 = lift-inv _ r1.mid r2.first in
      let c3 = lift-inv _ r2.mid r3.first in
      let c4 = lift-inv _ r3.mid r4.first in
      let c5 =
        explaining_inv (codes "failed to write trust policy file: ")
          (write_file lib.denied r4.value r1.value) r4.mid r5.first in
      let c6 = look-write_file lib.denied r4.value r1.value r4.mid r5.mid c5 in
      let before : r4.mid ≡ w = sym (d1.1 ∙ c2.1 ∙ c3.1 ∙ c4.1) in
      let after : r5.mid.ext ≡ w'.ext = ap (λ (p : _ × World Disk). p.1.ext) r5.second in
      (
        record {
          text = r1.value;
          path = r4.value;
          given = d1.0;
          valid =
              checked r1.value
                (explained_inv (codes "failed to parse trust policy configuration: ") _ c2.0)
                (explained_inv (codes "failed to validate trust policy: ") _ c3.0);
          known = explained_inv (codes "failed to obtain path of trust policy file: ") _ c4.0;
          policy = ap (look r4.value) (sym after) ∙ c6.0;
          kept = λ q e n there.
              ap (look q) (sym after)
              ∙ c6.1 q e n (subst (λ (v : World Disk). look q v.ext ≡ some e) (sym before) there);
        },
        sym (ap (λ (p : _ × World Disk). p.1.stdout) r5.second)
            ∙ ap (λ (t : List Text). t ++ imported ∷ [])
                (Quiet-stdout r4.mid (write_file-Quiet lib.denied r4.value r1.value) c5
                  ∙ ap (λ (v : World Disk). v.stdout) before),
      )

  asked_inv :
      (w : World Disk) (b : Bool) {w' : World Disk}
      → ask_for_confirmation lib.input overwrite_prompt false w ≡ (ok b, w')
      → (w'.ext ≡ w.ext) × ((b ≡ true) ⊎ ((b ≡ false) × ¬ IsYes lib.input))
  asked_inv w b {w'} h =
      let a = ask_for_confirmation-true lib.input overwrite_prompt false w in
      let same = sym (ap (λ (p : Result Bool × World Disk). p.1.ext) h) ∙ a.1 in
      elim (Bool-cases b) [
        | inl agreed ↦ (same, inl agreed)
        | inr declined ↦ (
          same,
          inr (
            declined,
            λ y.
                let e = ap (λ (p : Result Bool × World Disk). p.0) h in
                let e' = a.0.1 (inr y) in cc,
          ),
        )
      ]

  asks :
      (w : World Disk) {u : Unit {0}}
      → lib.load_document w.ext ≡ ok u
      → ask_to_overwrite lib w ≡ ask_for_confirmation lib.input overwrite_prompt false w
  unfolding ask_to_overwrite
  asks w h = rw (ask_to_overwrite, h) refl

  may_overwrite_inv :
      (force : Bool) (w : World Disk) {b : Bool} {w' : World Disk}
      → may_overwrite lib force w ≡ (ok b, w')
      → (w'.ext ≡ w.ext)
        × ((b ≡ true)
            ⊎ ((b ≡ false)
                × (force ≡ false)
                × (lib.load_document w.ext ≡ ok tt)
                × ¬ IsYes lib.input))
  unfolding may_overwrite ask_to_overwrite ◌>>=◌
  may_overwrite_inv true w h = (ground arith, inl (ground arith))
  may_overwrite_inv false w {b} {w'} h = elim (Result-cases (lib.load_document w.ext)) [
    | inr (e, unloadable) ↦ (ground arith, inl (ground arith))
    | inl (_, loadable) ↦
        let run : ask_for_confirmation lib.input overwrite_prompt false w ≡ (ok b, w') =
          sym (asks w loadable) ∙ h in
        let a = asked_inv w b run in
        elim a.1 [
          | inl agreed ↦ (a.0, inl agreed)
          | inr declined ↦ (a.0, inr (declined.0, refl, loadable, declined.1))
        ]
  ]

  -- A successful `notation policy import` has either been declined, in answer to a question that
  -- comes only without --force and if a policy could be loaded, and has changed nothing; or it has
  -- put the bytes of the given file in the place of the policy, which parse and validate, and left
  -- every other file as it was.
  pub run_import-ok :
      (opts : ImportOpts) (w w' : World Disk) {x : Unit {0}}
      → run_import lib opts w ≡ (ok x, w')
      → IsDeclined opts w w' ⊎ IsImported (lib.locate opts.file_path) w w'
  unfolding run_import
  run_import-ok opts w w' h =
      let r = bind-inv _ _ w h in
      let c = may_overwrite_inv opts.force w r.first in
      elim c.1 [
        | inl agreed ↦ inr (
            moved (lib.locate opts.file_path) w r.mid w' c.0
              (import_from-IsImported (lib.locate opts.file_path) r.mid w' (
                sym (
                  branch-true (import_from lib (lib.locate opts.file_path)) done r.mid r.value
                    agreed)
                ∙ r.second)).0)
        | inr declined ↦ inl (record {
          asked = declined.1;
          found = declined.2;
          refused = declined.3;
          same =
              sym (
                ap (λ (p : Result (Unit {0}) × World Disk). p.1.ext)
                  (sym (
                      branch-false (import_from lib (lib.locate opts.file_path)) done r.mid r.value
                        declined.0)
                    ∙ r.second))
              ∙ c.0;
        })
      ]
