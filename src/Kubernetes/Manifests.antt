-- ===== src/Kubernetes/Manifests.antt =====
-- salt/_modules/metalk8s_kubernetes.py: the functions on objects, made by
-- `_object_manipulation_function`: the manifest that a call is about. What the code writes into the
-- manifest of its caller is written into a copy here.
pub mod Labels
use metalk8s.Prelude.{
  ℕ, String, ◌<>◌, Bool, true, false, not, ◌&&◌, ◌||◌, Option, none, some, List, [], ◌∷◌, nat_eq,
  ◌==◌, if◌then◌else◌,
}
use metalk8s.Exec.{
  Exn, Outcome, return, raise, ◌>>=◌, command, value_error, key_error, type_error, attribute_error,
  exn_text,
}
use metalk8s.Archives.{strip}
use metalk8s.Kubernetes.Values.{
  Value, null, boolean, integer, real, date, text, array, object, instance_of, Items, no_items,
  Fields, no_fields, field, get, put, remove,
}
use metalk8s.Kubernetes.Models.{Models}
use metalk8s.Kubernetes.Names.{convert_attribute_name}
use metalk8s.Kubernetes.Clients.{ObjectScope, namespaced, cluster, ApiClient, method, list}
use metalk8s.Kubernetes.Kinds.{
  Info, standard, custom, Tables, Made, custom_object, model_object, get_kind_info, text_at,
  convert_manifest_to_object,
}

-- the `action` of `_object_manipulation_function`
pub data Manipulation : Type 0 where
  create retrieve replace delete update : Manipulation

abbrev pub action_name : Manipulation → String
action_name create = "create"
action_name retrieve = "retrieve"
action_name replace = "replace"
action_name delete = "delete"
action_name update = "update"

pub record Args : Type 0 where
  pub manifest : Option Fields
  pub name : Option String
  pub kind : Option String
  pub api_version : Option String
  pub namespace : String
  pub patch : Option Value
  pub old_object : Option Fields
  pub saltenv : String

pub data Body : Type 0 where
  -- `V1DeleteOptions(propagation_policy='Foreground')`
  delete_options : Body
  plain : Value → Body
  made : Made → Body

-- A call of a method of the API, by its class and its name. A custom kind adds its group, version
-- and plural.
pub record Request : Type 0 where
  pub api_cls : String
  pub method : String
  pub name : Option Value
  pub namespace : Option Value
  pub body : Option Body
  pub custom : Option (String × String × String)

-- how such a call ends
pub data Answer {ℓ} (A : Type ℓ) : Type ℓ where
  result : A → Answer A
  api_exception : ℕ → String → Answer A
  http_error : String → Answer A
  other : Exn → Answer A

-- what `read_and_render_yaml_file` gives
pub data Rendered : Type 0 where
  rendered : Fields → Rendered
  io_failure yaml_failure : String → Rendered
  failed : Exn → Rendered

-- What the functions call: the models and kinds of the client, the files, and the API server with
-- the configuration that `get_kubeconfig` gives.
pub record Server : Type 1 where
  pub S : Type 0
  pub lib : Models
  pub tables : Tables
  pub iskeyword : String → Bool
  pub read_and_render : String → String → Rendered
  pub call : Request → S → Answer Value × S
  pub call_list : Request → Bool → Option String → Option String → S → Answer (List Value) × S
  -- of a standard model or a `CustomObject`
  pub to_dict : Value → Fields

abbrev pub truthy : Option String → Bool
truthy none = false
truthy (some s) = not (s == "")

abbrev pub truthy_value : Option Value → Bool
truthy_value none = false
truthy_value (some null) = false
truthy_value (some (boolean false)) = false
truthy_value (some (text s)) = not (s == "")
truthy_value (some (array no_items)) = false
truthy_value (some (object no_fields)) = false
truthy_value (some v) = true

-- the actions for which kind, apiVersion and name are enough
abbrev pub by_name : Manipulation → Bool
by_name create = false
by_name replace = false
by_name _ = true

abbrev pub is_update : Manipulation → Bool
is_update update = true
is_update _ = false

abbrev or_empty : Option String → String
or_empty none = ""
or_empty (some s) = s

abbrev simple_manifest : Args → Fields
simple_manifest a = field "apiVersion" (text (or_empty a.api_version)) (
    field "kind" (text (or_empty a.kind)) (
      field "metadata"
        (object
          (field "name" (text (or_empty a.name)) (field "namespace" (text a.namespace) no_fields)))
        no_fields))

abbrev pub read_file : Server → String → String → Outcome (Option Fields)
read_file api name saltenv = elim (api.read_and_render name saltenv) [
  | rendered fs ↦ return (some fs)
  | io_failure e ↦ raise (command ("Failed to read file \"" <> name <> "\": " <> e) [])
  | yaml_failure e ↦ raise (command ("Invalid YAML in file \"" <> name <> "\": " <> e) [])
  | failed e ↦ raise e
]

abbrev pub no_manifest : Server → Manipulation → Args → Outcome (Option Fields)
no_manifest api action a =
    if by_name action
      && (truthy a.name
          && (truthy a.kind
              && (truthy a.api_version && (not (is_update action) || truthy_value a.patch))))
    then return (some (simple_manifest a))
    else if truthy a.name
        && (not (truthy a.kind) && (not (truthy a.api_version) && not (truthy_value a.patch)))
    then read_file api (or_empty a.name) a.saltenv
    else return none

abbrev given_manifest : Fields → Option String → Outcome (Option Fields)
given_manifest fs none = return (some fs)
given_manifest fs (some name) = raise (command "Cannot use both \"manifest\" and \"name\"." [])

abbrev pub choose_manifest : Server → Manipulation → Args → Option Fields → Outcome (Option Fields)
choose_manifest api action a none = no_manifest api action a
choose_manifest api action a (some fs) = given_manifest fs a.name

abbrev needed : Manipulation → String
needed create = "\"manifest\" or \"name\" (path to a file)"
needed replace = "\"manifest\" or \"name\" (path to a file)"
needed update =
    "\"manifest\" or \"name\" (path to a file) or \"name\" and \"kind\" and \"apiVersion\" and \"patch\""
needed _ = "\"manifest\" or \"name\" (path to a file) or \"name\" and \"kind\" and \"apiVersion\""

-- `if not manifest`
abbrev pub require : Manipulation → Option Fields → Outcome Fields
require action (some (field k v fs)) = return (field k v fs)
require action _ = raise (
    command ("Must provide one of " <> needed action <> " to " <> action_name action <> " object.")
      [])

-- `re.search(r'^metalk8s-(?P<version>.+)$', saltenv)`
unfoldable pub version_label : String → String
version_label saltenv = elim (strip "metalk8s-" saltenv) [
  | none ↦ "unknown"
  | some v ↦ if v == "" then "unknown" else v
]

-- `d.setdefault(key, {})`, which must be a dict
unfoldable pub dict_at : String → Exn → Fields → Outcome Fields
dict_at key e fs = elim (get key fs) [
  | none ↦ return no_fields
  | some (object gs) ↦ return gs
  | some _ ↦ raise e
]

-- the labels that are added when an object is created or replaced
unfoldable pub with_labels : String → Fields → Outcome Fields
unfolding dict_at version_label
with_labels saltenv manifest =
    dict_at "metadata" (attribute_error "no attribute 'setdefault'") manifest >>= λ metadata.
    dict_at "labels" (type_error "object does not support item assignment") metadata >>= λ labels.
    return (
      put "metadata"
        (object (
          put "labels"
            (object (
              put "heritage" (text "salt") (
                put "app.kubernetes.io/managed-by" (text "salt")
                  (put "metalk8s.scality.com/version" (text (version_label saltenv)) labels))))
            metadata))
        manifest)

unfoldable pub labelled : Manipulation → String → Fields → Outcome Fields
unfolding with_labels
labelled create saltenv fs = with_labels saltenv fs
labelled replace saltenv fs = with_labels saltenv fs
labelled _ saltenv fs = return fs

-- `except ValueError`
abbrev pub invalid_manifest {ℓ} : {A : Type ℓ} → Outcome A → Outcome A
invalid_manifest (raise (value_error e)) = raise (command ("Invalid manifest: " <> e) [])
invalid_manifest r = r

-- `_extract_obj_and_kind_info`
unfoldable pub extract_obj_and_kind_info : Server → Fields → Bool → Outcome (Made × Info)
unfolding get_kind_info convert_manifest_to_object
extract_obj_and_kind_info api manifest force = invalid_manifest (
    get_kind_info api.tables (text_at "apiVersion" manifest) (text_at "kind" manifest) >>= λ i.
    convert_manifest_to_object api.lib api.tables manifest force >>= λ o. return (o, i))
