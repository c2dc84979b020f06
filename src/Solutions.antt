-- ===== src/Solutions.antt =====
-- salt/_modules/metalk8s_solutions.py: the configuration file of the Solutions, and the view of the
-- mounted archives. The children have the proofs.
pub mod Available
pub mod Written
pub mod Activation
pub mod Grouped
mod Tests
use metalk8s.Prelude.{
  ℕ, String, ◌<>◌, join, lower, dashed, Bool, true, false, not, ◌&&◌, ◌||◌, Option, none, some,
  List, [], ◌∷◌, ◌++◌, any, keep, contains, nat_eq, ◌==◌, if◌then◌else◌,
}
use metalk8s.Prelude.Dict
use metalk8s.Prelude.Dict.{Dict, append_at}
use text.Mathlib.Text.{starts_with}
use metalk8s.Exec
use metalk8s.Exec.{Outcome, return, raise, Exn, command, attribute_error, key_error, Reply}
use metalk8s.Action.{Action, pure, throw, lift, ask, from_reply, ◌>>=◌, ◌>>◌}
use metalk8s.Archives.{ArchiveInfo, archive_info_from_tree}

-- A SolutionsConfiguration document. Its entries have the documented types where they are there.
pub record Config : Type 0 where
  pub kind : Option String
  pub api_version : Option String
  pub archives : Option (List String)
  pub active : Option (Dict String)

-- What reading a YAML file gives: a document (`none` for an empty file), an `IOError`, or an error
-- of the parser.
pub data Loaded (A : Type 0) : Type 0 where
  document : Option A → Loaded A
  io_failed : ℕ → String → Loaded A
  unparsed : Exn → Loaded A

pub record Mount : Type 0 where
  pub fstype : String
  pub alt_device : String

-- A SolutionConfig: names and tags of the two images, the images and the API groups.
pub record SolutionConfig : Type 0 where
  pub operator_image : String × Option String
  pub ui_image : String × Option String
  pub images : List String
  pub custom_api_groups : List String

pub record Provided (Rest : Type 0) : Type 0 where
  pub kind : Option String
  pub api_version : Option String
  pub rest : Rest

-- The minion: the configuration file through YAML, the mounts, and the trees of the archives.
-- `store` gives the text of an exception. `product_lines` are the lines of product.txt in a tree.
-- `merge` is `salt.utils.dictupdate.update`, `path_join` is `os.path.join`.
pub record Minion : Type 1 where
  pub State : Type 0
  pub load : State → Loaded Config
  pub store : State → Config → Option String × State
  pub mount_active : State → Reply (Dict Mount)
  pub product_lines : State → String → Option (List String)
  pub is_dir : State → String → Bool
  pub is_file : State → String → Bool
  pub list_dir : State → String → List String
  pub Rest : Type 0
  pub load_solution : State → String → Outcome (Option (Provided Rest))
  pub merge : SolutionConfig → Rest → SolutionConfig
  pub path_join : String → String → String

abbrev pub config_file : String
config_file = "/etc/metalk8s/solutions.yaml"

abbrev pub config_kind : String
config_kind = "SolutionsConfiguration"

abbrev pub supported_version : String
supported_version = "solutions.metalk8s.scality.com/v1alpha1"

abbrev pub solution_config_kind : String
solution_config_kind = "SolutionConfig"

abbrev pub is_text : Option String → String → Bool
is_text none text = false
is_text (some other) text = other == text

-- `'{}'.format(value)` of a text or `None`
abbrev pub shown : Option String → String
shown none = "None"
shown (some text) = text

abbrev pub or_default : {A : Type 0} → A → Option A → A
or_default default none = default
or_default default (some value) = value

abbrev default_data : Config
default_data = record {
  kind = some config_kind;
  api_version = some supported_version;
  archives = some [];
  active = some [];
}

-- The checks of `read_config`, and its two `setdefault`.
unfoldable pub check_config : Option Config → Outcome Config
check_config none = raise (attribute_error "'NoneType' object has no attribute 'get'")
check_config (some config) =
    if not (is_text config.kind config_kind)
    then raise (
        command
          ("Invalid `kind` in configuration ("
            <> shown config.kind
            <> "), must be \"SolutionsConfiguration\"")
          [])
    else if not (is_text config.api_version supported_version)
    then raise (
        command
          ("Invalid `apiVersion` in configuration ("
            <> shown config.api_version
            <> "), must be one of: "
            <> supported_version)
          [])
    else return (record config {
      archives = some (or_default [] config.archives);
      active = some (or_default [] config.active);
    })

abbrev pub archives_of : Config → List String
archives_of config = or_default [] config.archives

abbrev pub active_of : Config → Dict String
active_of config = or_default [] config.active

-- `list.remove`: the first one that is equal
unfoldable pub remove_first : String → List String → List String
remove_first x [] = []
remove_first x (y ∷ ys) = let rest = remove_first x ys in if y == x then ys else y ∷ rest

unfoldable pub set_archive : String → Bool → List String → List String
unfolding remove_first
set_archive archive removed archives =
    if removed
    then remove_first archive archives
    else if contains archive archives
    then archives
    else archives ++ archive ∷ []

-- `_is_solution_mount`
unfoldable pub is_solution_mount : String × Mount → Bool
is_solution_mount (mountpoint, info) =
    starts_with mountpoint "/srv/scality/"
    && not (starts_with mountpoint "/srv/scality/metalk8s-")
    && info.fstype == "iso9660"

-- An entry of the lists that `list_available` gives.
pub record SolutionInfo : Type 0 where
  pub name : String
  pub id : String
  pub mountpoint : String
  pub archive : String
  pub version : Option String
  pub config : SolutionConfig

abbrev pub machine_name_of : String → String
machine_name_of name = lower (dashed name)

-- `name.replace(...)`
abbrev pub named : Option String → Outcome String
named none = raise (attribute_error "'NoneType' object has no attribute 'replace'")
named (some name) = return name

module _ (minion : Minion) where
  -- `_write_config_file`
  unfoldable pub write_config_file : Config → Action minion.State Unit
  write_config_file config s =
      let (failed, s') = minion.store s config in
      elim failed [
        | none ↦ (return tt, s')
        | some text ↦ (
          raise (
              command
                ("Failed to write Solutions config file at \"" <> config_file <> "\": " <> text)
                []),
          s',
        )
      ]

  unfoldable pub create_config_file : Action minion.State (Option Config)
  unfolding write_config_file
  create_config_file = do write_config_file default_data; pure (some default_data)

  unfoldable pub take_loaded : Bool → Loaded Config → Action minion.State (Option Config)
  unfolding create_config_file
  take_loaded create (document config) = pure config
  take_loaded create (io_failed errno text) =
      if create && nat_eq errno 2
      then create_config_file
      else throw (command ("Failed to load \"" <> config_file <> "\": " <> text) [])
  take_loaded create (unparsed e) = throw e

  -- `_load_config_file`
  unfoldable pub load_config_file : Bool → Action minion.State (Option Config)
  unfolding take_loaded
  load_config_file create s = take_loaded create (minion.load s) s

  unfoldable pub read_config : Bool → Action minion.State Config
  unfolding load_config_file check_config
  read_config create = do config ← load_config_file create; lift (check_config config)

  unfoldable pub configure_archive : String → Bool → Bool → Action minion.State Bool
  unfolding read_config set_archive write_config_file
  configure_archive archive create_config removed = do
    config ← read_config create_config
    write_config_file
        (record config { archives = some (set_archive archive removed (archives_of config)) })
    pure true

  unfoldable pub deactivate_solution : String → Action minion.State Bool
  unfolding read_config write_config_file
  deactivate_solution solution = do
    config ← read_config false
    write_config_file (record config { active = some (Dict.remove solution (active_of config)) })
    pure true
