-- ===== src/Solutions/Tests.antt =====
-- A minion with one mounted Solution, and the theorems on Solutions at it.
use metalk8s.Prelude.{
  String, ◌<>◌, lower, dashed, true, false, Option, none, some, List, [], ◌∷◌, keep, contains, ◌==◌,
  if◌then◌else◌, ◌≡◌, refl, ◌⊎◌,
}
use metalk8s.Prelude.Dict
use metalk8s.Prelude.Dict.{Dict, append_at}
use metalk8s.Exec.{return, raise, command, answer}
use metalk8s.Archives.{archive_info_from_tree}
use metalk8s.Solutions.{
  Config, Loaded, document, io_failed, Mount, Minion, SolutionInfo, config_kind, supported_version,
  is_solution_mount, check_config, read_config, configure_archive, deactivate_solution, archives_of,
  active_of, set_archive,
}
use metalk8s.Solutions.Available.{solution_info, list_available, activate_solution}
use metalk8s.Solutions.Grouped.{collect, entries, belongs, list_available-entries}
use metalk8s.Solutions.Written.{
  Storage, IsDistinct, configure_archive-contains, deactivate_solution-get,
}
use metalk8s.Solutions.Activation.{Offered, activate_solution-get, activate_solution-Offered}

load_file : Option Config → Loaded Config
load_file none = io_failed 2 "No such file or directory"
load_file (some config) = document (some config)

abbrev mounts : Dict Mount
mounts =
    (
      "/srv/scality/metalk8s-2.5",
      record { fstype = "iso9660"; alt_device = "/archives/metalk8s.iso" },
    )
    ∷ (
      "/srv/scality/example-0.1",
      record { fstype = "iso9660"; alt_device = "/archives/example.iso" },
    )
    ∷ ("/home", record { fstype = "xfs"; alt_device = "/dev/sda1" })
    ∷ []

abbrev minion : Minion
minion = record {
  State = Option Config;
  load = load_file;
  store = λ file config. (none, some config);
  mount_active = λ file. answer mounts;
  product_lines = λ file tree. some ("NAME=Example Solution" ∷ "VERSION=0.1" ∷ []);
  is_dir = λ file path. true;
  is_file = λ file path. false;
  list_dir =
      λ file path. if path == "/srv/scality/example-0.1/images" then "server" ∷ [] else "1.0" ∷ [];
  Rest = Unit {0};
  load_solution = λ file path. return none;
  merge = λ config rest. config;
  path_join = λ a b. a <> "/" <> b;
}

abbrev old : Config
old = record {
  kind = some config_kind;
  api_version = some supported_version;
  archives = some ("/archives/a.iso" ∷ "/archives/b.iso" ∷ []);
  active = some (("other", "1.0") ∷ []);
}

program : Unit {0}
unfolding load_file collect Dict.get Dict.put append_at lower dashed archive_info_from_tree
    is_solution_mount check_config read_config set_archive configure_archive deactivate_solution
    solution_info list_available activate_solution
program = tt

abbrev example : SolutionInfo
example = record {
  name = "Example Solution";
  id = "example-solution-0.1";
  mountpoint = "/srv/scality/example-0.1";
  archive = "/archives/example.iso";
  version = some "0.1";
  config = record {
    operator_image = ("example-solution-operator", some "0.1");
    ui_image = ("example-solution-ui", some "0.1");
    images = "server:1.0" ∷ [];
    custom_api_groups = [];
  };
}

lists : list_available minion none ≡ return (("example-solution", example ∷ []) ∷ [])
unfolding program
lists = refl

creates : configure_archive minion "/archives/c.iso" true false none ≡ (
  return true,
  some (record old { archives = some ("/archives/c.iso" ∷ []); active = some [] }),
)
unfolding program
creates = refl

storage : Storage minion
unfolding load_file
storage = record { stored = λ s config e. refl }

list_available-entries_example :
    (available : Dict (List SolutionInfo)) × (list_available minion none ≡ return available)
    × ((key : String) → entries key available ≡ keep (belongs key) (example ∷ []))
unfolding program
list_available-entries_example = list_available-entries minion none mounts (example ∷ []) refl refl

abbrev shrunk : Option Config
shrunk = (configure_archive minion "/archives/a.iso" false true (some old)).1

configure_archive-contains_example :
    ((configure_archive minion "/archives/a.iso" false true (some old)).0 ≡ return true)
    × ((changed : Config) × (read_config minion false shrunk ≡ (return changed, shrunk))
        × ((other : String)
            → contains other (archives_of changed)
              ≡ (if "/archives/a.iso" == other then false else contains other (archives_of old)))
        × IsDistinct (archives_of changed)
        × (active_of changed ≡ active_of old))
unfolding read_config check_config load_file
configure_archive-contains_example =
    configure_archive-contains minion storage "/archives/a.iso" false true (some old) (some old) old
      refl (λ config. refl) (refl, (refl, tt))

abbrev deactivated : Option Config
deactivated = (deactivate_solution minion "other" (some old)).1

deactivate_solution-get_example :
    ((deactivate_solution minion "other" (some old)).0 ≡ return true)
    × ((changed : Config) × (read_config minion false deactivated ≡ (return changed, deactivated))
        × ((other : String)
            → Dict.get other (active_of changed)
              ≡ (if "other" == other then none else Dict.get other (active_of old)))
        × (archives_of changed ≡ archives_of old))
unfolding read_config check_config load_file
deactivate_solution-get_example =
    deactivate_solution-get minion storage "other" (some old) old refl (λ config. refl)

abbrev activated : Option Config
activated = (activate_solution minion "example-solution" "0.1" (some old)).1

activate_solution-get_example :
    ((activate_solution minion "example-solution" "0.1" (some old)).0 ≡ return true)
    × ((changed : Config) × (read_config minion false activated ≡ (return changed, activated))
        × ((other : String)
            → Dict.get other (active_of changed) ≡ (
                if "example-solution" == other then some "0.1" else Dict.get other (active_of old)))
        × (archives_of changed ≡ archives_of old))
unfolding program
activate_solution-get_example =
    activate_solution-get minion storage "example-solution" "0.1" (some old)
      (("example-solution", example ∷ []) ∷ []) (example ∷ []) old refl refl refl refl
      (λ config. refl)

activate_solution-Offered_example :
    (Offered (("example-solution", example ∷ []) ∷ []) "example-solution" "0.2"
      × ((activate_solution minion "example-solution" "0.2" (some old)).0 ≡ return true))
    ⊎ ((¬ Offered (("example-solution", example ∷ []) ∷ []) "example-solution" "0.2")
        × ((text : String) × (activate_solution minion "example-solution" "0.2" (some old)
              ≡ (raise (command text []), some old))))
unfolding program
activate_solution-Offered_example =
    activate_solution-Offered minion "example-solution" "0.2" (some old)
      (("example-solution", example ∷ []) ∷ []) old refl refl (λ config. refl)
