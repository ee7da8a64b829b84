-- ===== src/Tests/Keys.antt =====
-- Runs of cmd/notation/key.go. The signing keys are the whole outside world.
use notation.Base.{
  ◌≡◌, refl, false, some, none, [], ◌∷◌, ◌++◌, Text, codes, Result, ok, bytes_eq, text_eq,
}
use notation.Base.Exec.{World, ◌>>=◌}
use notation.Signer.{SigningKeys, KeySuite}
use notation.Keys.{KeyLib, KeyDeleteOpts, delete_keys, deleted_line, remove_names}
use notation.Keys.Laws.{IsLoadExecSave, IsDeleted, load_then, delete_keys-IsDeleted}

abbrev name : Text
name = b'k' ∷ []

abbrev key : KeySuite
key = record { name = name; x509_key_pair = none; external_key = none }

abbrev save : SigningKeys → SigningKeys → Result (Unit {0}) × SigningKeys
save keys s = (ok tt, keys)

-- Removing takes everything.
abbrev lib : KeyLib SigningKeys
lib = record {
  load_exec_save = λ f s. load_then save f (ok s, s);
  load_signing_keys = λ s. (ok s, s);
  add_plugin = λ key_name id plugin config is_default keys s. ((ok tt, keys), s);
  update_default = λ key_name keys. (ok tt, record keys { default_key = some key_name });
  remove = λ names keys. (ok names, record { default_key = none; keys = [] });
}

lib-IsLoadExecSave : IsLoadExecSave lib save
lib-IsLoadExecSave = record { runs = λ f s. refl }

abbrev opts : KeyDeleteOpts
opts = record { logging = record { debug = false; verbose = false }; names = name ∷ [] }

abbrev start : World SigningKeys
start = record {
  stdout = [];
  stderr = [];
  transport = none;
  ext = record { default_key = some name; keys = key ∷ [] };
}

abbrev deleted : World SigningKeys
deleted = record start {
  stdout = (name ++ codes ": unmarked as default\n") ∷ [];
  ext = record { default_key = none; keys = [] };
}

delete_it : delete_keys lib opts start ≡ (ok tt, deleted)
unfolding delete_keys ◌>>=◌ remove_names deleted_line bytes_eq codes
delete_it = refl

delete_keys-IsDeleted_applied : IsDeleted lib save opts start deleted
delete_keys-IsDeleted_applied =
    delete_keys-IsDeleted lib save lib-IsLoadExecSave opts start deleted delete_it
