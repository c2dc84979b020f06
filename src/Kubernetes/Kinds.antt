-- ===== src/Kubernetes/Kinds.antt =====
-- salt/_utils/kubernetes_utils.py: `KindInfo`, `CRKindInfo`, `get_kind_info` and
-- `convert_manifest_to_object`.
pub mod Known
use Prim.Native.Char.{code}
use metalk8s.Prelude.{
  nat_eq, String, ◌<>◌, Bool, true, false, not, ◌&&◌, Option, none, some, List, [], ◌∷◌, map, ◌==◌,
  if◌then◌else◌,
}
use metalk8s.Prelude.Dict
use metalk8s.Prelude.Dict.{Dict}
use metalk8s.Exec.{
  Outcome, return, raise, ◌>>=◌, value_error, key_error, type_error, assertion_error,
  attribute_error,
}
use metalk8s.Action.{Action}
use metalk8s.Archives.{strip}
use metalk8s.Kubernetes.Values.{Value, text, Fields, get}
use metalk8s.Kubernetes.Models.{Models, build_standard_object}
use metalk8s.Kubernetes.Table.{
  MethodNames, one_method, methods, StdKind, CustomKind, known_std_kinds, custom_kinds,
}
use metalk8s.Kubernetes.Clients.{
  Apis, ObjectScope, namespaced, cluster, object_scope, ApiClient, crud_methods,
  custom_crud_methods, api_client,
}

pub record KindInfo : Type 0 where
  pub model : String
  pub client : ApiClient
  pub scope : ObjectScope

abbrev pub with_client :
    Apis
    → String
    → String
    → String
    → Option MethodNames
    → ObjectScope
    → Option String
    → Outcome KindInfo
with_client apis model api_cls name method_names scope all_name =
    api_client apis crud_methods api_cls name method_names all_name >>= λ c.
    return record { model = model; client = c; scope = scope }

-- `KindInfo.__init__`
unfoldable pub kind_info : Apis → String → String → String → Option MethodNames → Outcome KindInfo
kind_info apis model api_cls name method_names = elim (strip "namespaced_" name) [
  | none ↦ with_client apis model api_cls name method_names cluster none
  | some rest ↦
      with_client apis model api_cls name method_names namespaced
        (some ("list_" <> rest <> "_for_all_namespaces"))
]

-- A `CRKindInfo` with the attributes of its `CustomApiClient`
pub record CrKindInfo : Type 0 where
  pub api_version : String
  pub kind : String
  pub scope : ObjectScope
  pub group : String
  pub version : String
  pub plural : String
  pub client : ApiClient

-- the text in front of the last slash, and behind it
unfoldable pub rpartition : String → Option (String × String)
rpartition String.[] = none
rpartition (String.◌∷◌ c s) = elim (rpartition s) [
  | some p ↦ some (String.◌∷◌ c p.0, p.1)
  | none ↦ if nat_eq (code c) 47 then some ("", s) else none
]

abbrev malformed : String → Outcome CrKindInfo
malformed api_version = raise (
    value_error
      ("Malformed 'apiVersion': " <> api_version <> " (expected format '<group>/<version>')"))

abbrev scope_value : ObjectScope → String
scope_value namespaced = "namespaced"
scope_value cluster = "cluster"

-- `CustomApiClient.__init__` under `CRKindInfo.__init__`
abbrev pub custom_client : Apis → CustomKind → String → String → Outcome CrKindInfo
custom_client apis e group version = do
  scope ← object_scope e.scope
  c ←
      api_client apis custom_crud_methods "CustomObjectsApi" (scope_value scope <> "_custom_object")
        none none
  return record {
    api_version = e.api_version;
    kind = e.kind;
    scope = scope;
    group = group;
    version = version;
    plural = e.plural;
    client = c;
  }

-- `CRKindInfo.__init__`
unfoldable pub cr_kind_info : Apis → CustomKind → Outcome CrKindInfo
unfolding rpartition
cr_kind_info apis e = elim (rpartition e.api_version) [
  | none ↦ malformed e.api_version
  | some p ↦
      if p.0 == ""
      then malformed e.api_version
      else if p.1 == ""
      then malformed e.api_version
      else custom_client apis e p.0 p.1
]

-- what `get_kind_info` gives
pub data Info : Type 0 where
  standard : StdKind → KindInfo → Info
  custom : CrKindInfo → Info

-- The tables that the import of the module makes, in the order of their keys.
pub record Tables : Type 0 where
  pub std : List (StdKind × KindInfo)
  pub custom : List CrKindInfo

unfoldable pub load_std : Apis → List StdKind → Outcome (List (StdKind × KindInfo))
unfolding kind_info
load_std apis [] = return []
load_std apis (e ∷ es) = do
  k ← kind_info apis e.model e.api_cls e.name e.method_names
  ks ← load_std apis es
  return ((e, k) ∷ ks)

unfoldable pub load_custom : Apis → List CustomKind → Outcome (List CrKindInfo)
unfolding cr_kind_info
load_custom apis [] = return []
load_custom apis (e ∷ es) = do k ← cr_kind_info apis e; ks ← load_custom apis es; return (k ∷ ks)

unfoldable pub load : Apis → Outcome Tables
unfolding load_std load_custom
load apis = do
  std ← load_std apis known_std_kinds
  customs ← load_custom apis custom_kinds
  return record { std = std; custom = customs }

-- the lookups: no key stands twice in a table
unfoldable pub find_std : String → String → List (StdKind × KindInfo) → Option Info
find_std api_version kind [] = none
find_std api_version kind ((e, k) ∷ es) =
    if e.api_version == api_version && e.kind == kind
    then some (standard e k)
    else find_std api_version kind es

unfoldable pub find_custom : String → String → List CrKindInfo → Option Info
find_custom api_version kind [] = none
find_custom api_version kind (k ∷ ks) =
    if k.api_version == api_version && k.kind == kind
    then some (custom k)
    else find_custom api_version kind ks

abbrev or_std : Option Info → Option Info → Option Info
or_std (some i) other = some i
or_std none other = other

abbrev known_or : String → String → Option Info → Outcome Info
known_or api_version kind (some i) = return i
known_or api_version kind none = raise (
    value_error (
      "Unknown object type provided: " <> api_version <> "/" <> kind
      <> ". Make sure it is registered properly."))

-- `get_kind_info` on a manifest whose `apiVersion` and `kind` are texts; what is none is taken
-- for a field that is missing
unfoldable pub get_kind_info : Tables → Option String → Option String → Outcome Info
unfolding find_std find_custom
get_kind_info tables (some api_version) (some kind) =
    known_or api_version kind
      (or_std (find_custom api_version kind tables.custom) (find_std api_version kind tables.std))
get_kind_info tables _ _ = raise (
    value_error
      "Make sure to provide a valid Kubernetes manifest, including `kind` and `apiVersion` fields.")

-- an object of the module: a `CustomObject` around its manifest, or an object of a model class
pub data Made : Type 0 where
  custom_object : Fields → Made
  model_object : Value → Made

abbrev pub text_at : String → Fields → Option String
text_at key fs = elim (get key fs) [ some (text x) ↦ some x | _ ↦ none ]

abbrev pub make : Models → Fields → Bool → Info → Outcome Made
make lib manifest true i = return (custom_object manifest)
make lib manifest false (custom k) = return (custom_object manifest)
make lib manifest false (standard e k) =
    build_standard_object lib k.model manifest >>= λ o. return (model_object o)

-- `convert_manifest_to_object`
unfoldable pub convert_manifest_to_object : Models → Tables → Fields → Bool → Outcome Made
unfolding get_kind_info
convert_manifest_to_object lib tables manifest force_custom_object = do
  i ← get_kind_info tables (text_at "apiVersion" manifest) (text_at "kind" manifest)
  make lib manifest force_custom_object i
