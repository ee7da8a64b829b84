-- ===== src/Keys.antt =====
-- cmd/notation/key.go, with `PrintKeyMap` of internal/ioutil/print.go; and the lists of
-- cmd/notation/plugin.go and cmd/notation/version.go. The signing keys and the plugins are
-- notation-go's: parameters.
pub mod Laws
use notation.Base.{
  Bool, false, not, Option, none, some, List, [], ◌∷◌, ◌++◌, map, is_empty, ◌==◌, text_eq,
  if◌then◌else◌, Text, codes, Result, ok, err, new,
}
use notation.Base.Dict.{Dict}
use notation.Base.Errors.{error_text}
use notation.Base.Exec.{Cmd, pure, lift, act, print, print_all, done, branch, ◌>>=◌, ◌>>◌}
use notation.Flags.{LoggingFlagOpts, parse_flag_map}
use notation.Remote.{get_version}
use notation.Signer.{SigningKeys, KeySuite, X509KeyPair, ExternalKey}

-- `keyAddOpts`
pub record KeyAddOpts : Type 0 where
  pub logging : LoggingFlagOpts
  pub name : Text
  pub plugin : Text
  pub id : Text
  pub plugin_config : List Text
  pub is_default : Bool

-- `keyUpdateOpts`
pub record KeyUpdateOpts : Type 0 where
  pub logging : LoggingFlagOpts
  pub name : Text
  pub is_default : Bool

-- `keyDeleteOpts`
pub record KeyDeleteOpts : Type 0 where
  pub logging : LoggingFlagOpts
  pub names : List Text

-- What a function does to the signing keys and to the outside world.
abbrev pub Exec : Type 0 → Type 0 → Type 0
Exec S A = SigningKeys → S → (Result A × SigningKeys) × S

-- The signing keys of notation-go. `load_exec_save` is LoadExecSaveSigningKeys, which hands on
-- what its function leaves in the variables that it captures.
pub record KeyLib (S : Type 0) : Type 1 where
  pub load_exec_save : {A : Type 0} → Exec S A → S → Result A × S
  pub load_signing_keys : S → Result SigningKeys × S
  pub add_plugin : Text → Text → Text → Dict → Bool → Exec S (Unit {0})
  pub update_default : Text → SigningKeys → Result (Unit {0}) × SigningKeys
  pub remove : List Text → SigningKeys → Result (List Text) × SigningKeys

-- `Args` of the commands
unfoldable pub key_add_args : List Text → KeyAddOpts → Result KeyAddOpts
key_add_args [] opts = err (new (codes "either missing key name or unnecessary parameters passed"))
key_add_args (name ∷ []) opts = ok (record opts { name = name })
key_add_args (name ∷ arg ∷ args) opts =
    err (new (codes "either missing key name or unnecessary parameters passed"))

unfoldable pub key_update_args : List Text → KeyUpdateOpts → Result KeyUpdateOpts
key_update_args [] opts = err (new (codes "missing key name"))
key_update_args (name ∷ args) opts = ok (record opts { name = name })

unfoldable pub key_delete_args : List Text → KeyDeleteOpts → Result KeyDeleteOpts
key_delete_args [] opts = err (new (codes "missing key names"))
key_delete_args (name ∷ args) opts = ok (record opts { names = name ∷ args })

pub marked : Text → Text
marked name = name ++ codes ": marked as default\n"

-- What `deleteKeys` writes of a name.
unfoldable pub deleted_line : Text → Text → Text
deleted_line prev_default name =
    if prev_default == name then name ++ codes ": unmarked as default\n" else name ++ 10 ∷ []

abbrev empty_pair : X509KeyPair
empty_pair = record { key_path = []; certificate_path = [] }

abbrev empty_external : ExternalKey
empty_external = record { id = []; plugin_name = []; plugin_config = [] }

abbrev pub or_empty : {A : Type 0} → A → Option A → A
or_empty a none = a
or_empty a (some b) = b

is_target : Option Text → Text → Bool
is_target none name = false
is_target (some target) name = name == target

-- The cells of a row of `PrintKeyMap`.
unfoldable pub key_row : Option Text → KeySuite → Text
unfolding is_target
key_row target key =
    let name = if is_target target key.name then codes "* " ++ key.name else key.name in
    let kp = or_empty empty_pair key.x509_key_pair in
    let ext = or_empty empty_external key.external_key in
    name
    ++ 9 ∷ kp.key_path
    ++ 9 ∷ kp.certificate_path
    ++ 9 ∷ ext.id
    ++ 9 ∷ ext.plugin_name
    ++ 9 ∷ 10 ∷ []

-- `PrintKeyMap`, before the alignment of its cells
unfoldable pub print_key_map : Option Text → List KeySuite → List Text
unfolding key_row
print_key_map target v =
    codes "NAME\tKEY PATH\tCERTIFICATE PATH\tID\tPLUGIN NAME\t\n" ∷ map (key_row target) v

module _ {S : Type 0} (lib : KeyLib S) where
  pure_exec : {A : Type 0} → (SigningKeys → Result A × SigningKeys) → Exec S A
  pure_exec f keys s = (f keys, s)

  -- `addKey`
  unfoldable pub add_key : KeyAddOpts → Cmd S (Unit {0})
  add_key opts = do
    plugin_config ← lift (parse_flag_map opts.plugin_config (codes "plugin-config"))
    act (
        lib.load_exec_save
          (lib.add_plugin opts.name opts.id opts.plugin plugin_config opts.is_default))
    print (if opts.is_default then marked opts.name else opts.name ++ 10 ∷ [])

  -- `updateKey`, whose warning goes to the logger
  unfoldable pub update_key : KeyUpdateOpts → Cmd S (Unit {0})
  unfolding pure_exec
  update_key opts = branch (not opts.is_default) done (do
    act (lib.load_exec_save (pure_exec (lib.update_default opts.name)))
    print (marked opts.name))

  -- `listKeys`
  unfoldable pub list_keys : Cmd S (Unit {0})
  list_keys = do
    signing_keys ← act lib.load_signing_keys
    print_all (print_key_map signing_keys.default_key signing_keys.keys)

  -- What the function of `deleteKeys` leaves in `prevDefault` and `deletedNames`.
  unfoldable pub remove_names : List Text → Exec S (Text × List Text)
  remove_names names keys s =
      let (r, keys') = lib.remove names keys in
      elim r [
        | ok deleted ↦ ((ok (or_empty [] keys.default_key, deleted), keys'), s)
        | err e ↦ ((err e, keys'), s)
      ]

  -- `deleteKeys`
  unfoldable pub delete_keys : KeyDeleteOpts → Cmd S (Unit {0})
  delete_keys opts = do
    removed ← act (lib.load_exec_save (remove_names opts.names))
    print_all (map (deleted_line removed.0) removed.1)

-- proto.GetMetadataResponse, as its fields are printed
pub record PluginMetadata : Type 0 where
  pub description : Text
  pub version : Text
  pub capabilities : Text

abbrev no_metadata : PluginMetadata
no_metadata = record { description = []; version = []; capabilities = codes "[]" }

-- The plugin manager of notation-go: its List, and Get followed by GetMetadata.
pub record PluginLib (S : Type 0) : Type 0 where
  pub list : S → Result (List Text) × S
  pub get_metadata : Text → S → Result PluginMetadata × S

plugin_cells : Text → PluginMetadata → Text → Text
plugin_cells n metadata error =
    n
    ++ 9 ∷ metadata.description
    ++ 9 ∷ metadata.version
    ++ 9 ∷ metadata.capabilities
    ++ 9 ∷ error
    ++ 9 ∷ 10 ∷ []

unfoldable pub plugin_row : Text → Result PluginMetadata → Text
unfolding plugin_cells
plugin_row n (ok metadata) = plugin_cells n metadata (codes "<nil>")
plugin_row n (err e) = plugin_cells n no_metadata (error_text e)

module _ {S : Type 0} (lib : PluginLib S) where
  -- The loop of `listPlugins`: the rows, and the world after them.
  unfoldable pub plugin_rows : List Text → S → List Text × S
  unfolding plugin_row
  plugin_rows [] s = ([], s)
  plugin_rows (n ∷ names) s =
      let (r, s') = lib.get_metadata n s in
      let (rows, s'') = plugin_rows names s' in (plugin_row n r ∷ rows, s'')

  print_rows : List Text → Cmd S (Unit {0})
  unfolding plugin_rows
  print_rows names w =
      let (rows, s) = plugin_rows names w.ext in
      (
        ok tt,
        record w {
          stdout = w.stdout ++ codes "NAME\tDESCRIPTION\tVERSION\tCAPABILITIES\tERROR\t\n" ∷ rows;
          ext = s;
        },
      )

  -- `listPlugins`, before the alignment of its cells
  unfoldable pub list_plugins : Cmd S (Unit {0})
  unfolding print_rows
  list_plugins = do names ← act lib.list; print_rows names

-- `runVersion`, from the variables of internal/version and runtime.Version()
unfoldable pub run_version : Text → Text → Text → Text → List Text
run_version version build_metadata git_commit go_version =
    codes "Notation - a tool to sign and verify artifacts.\n\n"
    ∷ (codes "Version:     " ++ get_version version build_metadata ++ 10 ∷ [])
    ∷ (codes "Go version:  " ++ go_version ++ 10 ∷ [])
    ∷ (if is_empty git_commit then [] else (codes "Git commit:  " ++ git_commit ++ 10 ∷ []) ∷ [])
