-- ===== src/Keys/Laws.antt =====
-- What `notation key delete` has removed when it succeeds, and what it says.
use mathlib.Core.Path.{ap₂}
use notation.Base.{◌≡◌, refl, sym, ap, ◌∙◌, List, [], ◌++◌, map, arith, Text, Result, ok, err}
use notation.Base.Exec.{World, act-inv, bind-inv, pair_eq}
use notation.Signer.{SigningKeys}
use notation.Keys.{KeyLib, KeyDeleteOpts, Exec, remove_names, deleted_line, delete_keys, or_empty}

module _ {S A : Type 0} (save : SigningKeys → S → Result (Unit {0}) × S) where
  -- Saving what a function leaves of the keys, if it succeeds.
  abbrev pub exec_save : (Result A × SigningKeys) × S → Result A × S
  exec_save ((err e, keys), s) = (err e, s)
  exec_save ((ok a, keys), s) =
      let (r, s') = save keys s in elim r [ ok _ ↦ (ok a, s') | err e ↦ (err e, s') ]

  abbrev pub load_then : Exec S A → Result SigningKeys × S → Result A × S
  load_then f (err e, s) = (err e, s)
  load_then f (ok keys, s) = exec_save (f keys s)

saved_inv :
    {S A : Type 0} (save : SigningKeys → S → Result (Unit {0}) × S) (a : A) (keys : SigningKeys)
    (s : S) {b : A} {s' : S}
    → exec_save save ((ok a, keys), s) ≡ (ok b, s')
    → (a ≡ b) × (save keys s ≡ (ok tt, s'))
saved_inv save a keys s h = ground arith

-- LoadExecSaveSigningKeys loads the keys, calls its function, and saves them if that succeeds.
pub record IsLoadExecSave {S : Type 0} (lib : KeyLib S)
    (save : SigningKeys → S → Result (Unit {0}) × S) : Type 1 where
  pub runs :
      {A : Type 0} (f : Exec S A) (s : S)
      → lib.load_exec_save f s ≡ load_then save f (lib.load_signing_keys s)

module _ {S : Type 0} (lib : KeyLib S) (save : SigningKeys → S → Result (Unit {0}) × S) where
  -- What a successful run leaves behind.
  pub record IsDeleted (opts : KeyDeleteOpts) (w w' : World S) : Type 0 where
    pub keys : SigningKeys
    pub left : SigningKeys
    pub deleted : List Text
    pub loaded : (lib.load_signing_keys w.ext).0 ≡ ok keys
    pub removed : lib.remove opts.names keys ≡ (ok deleted, left)
    pub saved : save left (lib.load_signing_keys w.ext).1 ≡ (ok tt, w'.ext)
    pub printed : w'.stdout ≡ w.stdout ++ map (deleted_line (or_empty [] keys.default_key)) deleted

  -- The keys before and after, of a successful call.
  record IsSaved (names : List Text) (r : Result SigningKeys × S) (s' : S) (v : Text × List Text)
      : Type 0 where
    keys : SigningKeys
    left : SigningKeys
    loaded : r.0 ≡ ok keys
    removed : lib.remove names keys ≡ (ok v.1, left)
    default_before : v.0 ≡ or_empty [] keys.default_key
    saved : save left r.1 ≡ (ok tt, s')

  removed_inv :
      (names : List Text) (keys : SigningKeys) (s s' : S) (v : Text × List Text)
      (r : Result (List Text)) (left : SigningKeys)
      → lib.remove names keys ≡ (r, left)
      → exec_save save (remove_names lib names keys s) ≡ (ok v, s')
      → IsSaved names (ok keys, s) s' v
  unfolding remove_names
  removed_inv names keys s s' v (err e) left q h = absurd (ground arith)
  removed_inv names keys s s' v (ok deleted) left q h =
      let step : exec_save save (remove_names lib names keys s)
          ≡ exec_save save ((ok (or_empty [] keys.default_key, deleted), left), s) =
        ground arith in
      let c = saved_inv save (or_empty [] keys.default_key, deleted) left s (sym step ∙ h) in
      record {
        keys = keys;
        left = left;
        loaded = refl;
        removed = q ∙ ap (λ (p : Text × List Text). (ok p.1, left)) c.0;
        default_before = sym (ap (λ (p : Text × List Text). p.0) c.0);
        saved = c.1;
      }

  loaded_inv :
      (names : List Text) (r : Result SigningKeys) (s s' : S) (v : Text × List Text)
      → load_then save (remove_names lib names) (r, s) ≡ (ok v, s')
      → IsSaved names (r, s) s' v
  loaded_inv names (err e) s s' v h = absurd (cc)
  loaded_inv names (ok keys) s s' v h =
      removed_inv names keys s s' v (lib.remove names keys).0 (lib.remove names keys).1 refl h

  -- If `notation key delete` succeeds, then the keys that were loaded, without those that were
  -- removed, have been saved, and this was the last act on the outside world. A line for each
  -- removed name is printed, which says so where it was the default key before.
  pub delete_keys-IsDeleted :
      IsLoadExecSave lib save
      → (opts : KeyDeleteOpts) (w w' : World S) {x : Unit {0}} → delete_keys lib opts w ≡ (ok x, w')
      → IsDeleted opts w w'
  unfolding delete_keys
  delete_keys-IsDeleted law opts w w' h =
      let r1 = bind-inv _ _ w h in
      let c1 = act-inv (lib.load_exec_save (remove_names lib opts.names)) w r1.first in
      let e = law.runs (remove_names lib opts.names) w.ext in
      let v = r1.value in
      let s' = r1.mid.ext in
      let run : load_then save (remove_names lib opts.names) (lib.load_signing_keys w.ext)
          ≡ (ok v, s') =
        sym e ∙ pair_eq c1.0 (ap (λ (u : World S). u.ext) c1.1) in
      let r =
        loaded_inv opts.names (lib.load_signing_keys w.ext).0 (lib.load_signing_keys w.ext).1 s' v
          run in
      let out = ap (λ (p : _ × World S). p.1) r1.second in
      record {
        keys = r.keys;
        left = r.left;
        deleted = v.1;
        loaded = r.loaded;
        removed = r.removed;
        saved = r.saved ∙ ap (λ (u : World S). (ok tt, u.ext)) out;
        printed =
            sym (ap (λ (u : World S). u.stdout) out)
            ∙ ap₂ (λ (t : List Text) (d : Text). t ++ map (deleted_line d) v.1)
                (sym (ap (λ (u : World S). u.stdout) c1.1)) r.default_before;
      }
