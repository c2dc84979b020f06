-- ===== src/Solutions/Available.antt =====
-- salt/_modules/metalk8s_solutions.py: the mounted archives, and `activate_solution`, which looks a
-- Solution up among them.
use metalk8s.Prelude.{
  String, ◌<>◌, Bool, true, false, not, ◌&&◌, ◌||◌, Option, none, some, List, [], ◌∷◌, ◌++◌, any,
  keep, map, ◌==◌, if◌then◌else◌,
}
use metalk8s.Prelude.Dict
use metalk8s.Prelude.Dict.{Dict, append_at}
use metalk8s.Exec.{Outcome, return, raise, command, attribute_error, ◌>>=◌}
use metalk8s.Action
use metalk8s.Action.{Action, pure, throw, ask, from_reply, ◌>>◌}
use metalk8s.Archives.{archive_info_from_tree}
use metalk8s.Solutions.{
  Mount, SolutionConfig, Provided, Minion, SolutionInfo, is_text, shown, named, machine_name_of,
  supported_version, solution_config_kind, is_solution_mount, active_of, read_config,
  write_config_file,
}

module _ (minion : Minion) (s : minion.State) where
  -- the entries of one image: its versions
  abbrev image_versions : String → String → List String
  image_versions images_dir image =
      let image_dir = minion.path_join images_dir image in
      if minion.is_dir s image_dir
      then map (λ version. image <> ":" <> version)
          (keep (λ version. minion.is_dir s (minion.path_join image_dir version))
            (minion.list_dir s image_dir))
      else []

  abbrev all_versions : String → List String → List String
  all_versions images_dir [] = []
  all_versions images_dir (image ∷ images) =
      image_versions images_dir image ++ all_versions images_dir images

  unfoldable pub list_solution_images : String → Outcome (List String)
  list_solution_images mountpoint =
      let images_dir = minion.path_join mountpoint "images" in
      if not (minion.is_dir s images_dir)
      then raise (command (images_dir <> " does not exist or is not a directory") [])
      else return (all_versions images_dir (minion.list_dir s images_dir))

  unfoldable pub default_solution_config : String → String → Option String → Outcome SolutionConfig
  unfolding list_solution_images
  default_solution_config mountpoint name version = do
    images ← list_solution_images mountpoint
    return (record {
      operator_image = (name <> "-operator", version);
      ui_image = (name <> "-ui", version);
      images = images;
      custom_api_groups = [];
    })

  -- the part of `read_solution_config` behind the load of config.yaml
  unfoldable pub merge_provided :
      String → SolutionConfig → Option (Provided minion.Rest) → Outcome SolutionConfig
  merge_provided config_path config none =
      raise (attribute_error "'NoneType' object has no attribute 'pop'")
  merge_provided config_path config (some provided) =
      if not (is_text provided.kind solution_config_kind)
        || not (is_text provided.api_version supported_version)
      then raise (command ("Wrong apiVersion/kind for " <> config_path) [])
      else return (minion.merge config provided.rest)

  unfoldable pub read_solution_config : String → String → Option String → Outcome SolutionConfig
  unfolding default_solution_config merge_provided
  read_solution_config mountpoint name version = do
    config ← default_solution_config mountpoint name version
    let config_path = minion.path_join mountpoint "config.yaml"
    if not (minion.is_file s config_path) then return config else (do
      provided ← minion.load_solution s config_path
      merge_provided config_path config provided)

  -- the body of the loop of `list_available`: the entry of one mount
  unfoldable pub solution_info : String × Mount → Outcome SolutionInfo
  unfolding archive_info_from_tree read_solution_config
  solution_info (mountpoint, mount_info) = do
    found ← archive_info_from_tree mountpoint (minion.product_lines s mountpoint)
    name ← named found.name
    let machine_name = machine_name_of name
    config ← read_solution_config mountpoint machine_name found.version
    return (record {
      name = name;
      id = machine_name <> "-" <> shown found.version;
      mountpoint = mountpoint;
      archive = mount_info.alt_device;
      version = found.version;
      config = config;
    })

  unfoldable pub add_mounts :
      Dict (List SolutionInfo) → List (String × Mount) → Outcome (Dict (List SolutionInfo))
  unfolding solution_info append_at
  add_mounts result [] = return result
  add_mounts result (mount ∷ mounts) = do
    entry ← solution_info mount
    add_mounts (append_at (machine_name_of entry.name) entry result) mounts

  unfoldable pub list_available : Outcome (Dict (List SolutionInfo))
  unfolding add_mounts is_solution_mount
  list_available = do
    active_mounts ← from_reply (minion.mount_active s)
    add_mounts [] (keep is_solution_mount active_mounts)

abbrev pub has_version : String → List SolutionInfo → Bool
has_version version infos = any (λ info. is_text info.version version) infos

-- `version != 'latest'` and not among the versions
abbrev pub wrong_version : String → List SolutionInfo → Bool
wrong_version version infos = not (version == "latest") && not (has_version version infos)

module _ (minion : Minion) where
  unfoldable pub activate_available :
      String → String → Option (List SolutionInfo) → Action minion.State Bool
  unfolding read_config write_config_file
  activate_available solution version none =
      throw (command ("Cannot activate Solution \"" <> solution <> "\": not available") [])
  activate_available solution version (some infos) =
      Action.◌>>=◌ (read_config minion false) (λ config.
        if wrong_version version infos
        then throw (
            command
              ("Cannot activate version \"" <> version <> "\" for Solution \"" <> solution
                <> "\": not available")
              [])
        else write_config_file minion
            (record config { active = some (Dict.put solution version (active_of config)) })
          >> pure true)

  unfoldable pub activate_solution : String → String → Action minion.State Bool
  unfolding list_available activate_available
  activate_solution solution version =
      Action.◌>>=◌ (ask (λ s. list_available minion s))
        (λ available. activate_available solution version (Dict.get solution available))
