-- ===== src/Pillars/Bootstrap.antt =====
-- salt/_pillar/metalk8s.py: the pillar that the bootstrap configuration gives.
use metalk8s.Prelude.{String, ◌<>◌, Option, none, some, List, [], ◌∷◌, if◌then◌else◌}
use metalk8s.Exec.{Outcome, return, raise, ◌>>=◌, key_error, exception}
use metalk8s.Kubernetes.Values.{
  Value, text, array, object, no_items, item, Fields, no_fields, field, get,
}
use metalk8s.Helpers.{truthy}
use metalk8s.Pillars.{Context, File, errors_to_dict, promote_errors, assert_keys, load_config}

abbrev keys_or : (Fields → Fields) → Fields → List String → Fields
keys_or k given [] = k given
keys_or k given (e ∷ es) = errors_to_dict (e ∷ es)

-- a part of the configuration that must be a dict with some keys
abbrev required : Context → String → String → List String → Fields → (Fields → Fields) → Fields
required c part called keys config k = elim (get part config) [
  | none ↦ errors_to_dict (assert_keys c config (part ∷ []))
  | some (object given) ↦ keys_or k given (assert_keys c given keys)
  | some v ↦
      errors_to_dict
        (("Invalid " <> called <> " format in config file, mapping expected got " <> c.show v) ∷ [])
]

abbrev value_at : String → Fields → Value → Value
value_at key fs default = elim (get key fs) [ none ↦ default | some v ↦ v ]

abbrev networks_of : Fields → Fields
networks_of given = field "control_plane" (value_at "controlPlane" given (text "")) (
    field "workload_plane" (value_at "workloadPlane" given (text "")) (
      field "pod" (value_at "pods" given (text "10.233.0.0/16"))
        (field "service" (value_at "services" given (text "10.96.0.0/12")) no_fields)))

-- `_load_networks`
unfoldable pub load_networks : Context → Fields → Fields
load_networks c config =
    required c "networks" "network" ("controlPlane" ∷ "workloadPlane" ∷ []) config networks_of

-- `_load_ca`
unfoldable pub load_ca : Context → Fields → Fields
load_ca c config =
    required c "ca" "ca" ("minion" ∷ []) config
      (λ given. field "minion" (value_at "minion" given (text "")) no_fields)

-- `_load_iso_path`: the format of its error asks for a second argument, and there is one
unfoldable pub load_iso_path : Fields → Outcome Value
load_iso_path config = elim (get "archives" config) [
  | none ↦ raise (key_error "archives")
  | some (text s) ↦ return (array (item (text s) no_items))
  | some (array xs) ↦ return (array xs)
  | some v ↦ raise (exception "tuple index out of range")
]

abbrev has_errors : Fields → Option Value
has_errors config = elim (get "_errors" config) [
  | none ↦ none
  | some v ↦ if truthy v then some v else none
]

abbrev pillar_of : Context → Fields → Outcome Fields
pillar_of c config = load_iso_path config >>= λ archives.
    promote_errors (field "archives" archives (field "ca" (object (load_ca c config)) no_fields))
      "ca"
    >>= λ metal_data.
        promote_errors
          (field "networks" (object (load_networks c config)) (
            field "metalk8s" (object metal_data)
              (field "proxies" (value_at "proxies" config (object no_fields)) no_fields)))
          "networks"
        >>= λ result. promote_errors result "metalk8s"

-- `ext_pillar`
unfoldable pub ext_pillar : Context → String → File → Outcome Fields
ext_pillar c bootstrap_config file = load_config c bootstrap_config file >>= λ config.
    elim (has_errors config) [
      | some errors ↦
          promote_errors (field "metalk8s" (object (field "_errors" errors no_fields)) no_fields)
            "metalk8s"
      | none ↦ pillar_of c config
    ]
